-- ===== src/Instance.antt =====
-- ProcessOnce of utils/env.go, by which a service runs once on a host: a file with a lock of the system.
pub mod Lock
pub mod Steps
pub mod Owners
pub mod Content
pub mod Exclusion
pub mod Made
pub mod Unlock
mod Samples
