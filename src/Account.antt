-- ===== src/Account.antt =====
-- What the controllers keep of an account: the configured symbols with their last trade and their target
-- position, and the Timer of config.go.
pub mod Held
pub mod Timer
mod Samples
