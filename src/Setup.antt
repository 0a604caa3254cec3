-- ===== src/Setup.antt =====
-- How the two services come up: the account, the client of the exchange's API, `init` and `run` of the
-- two controllers; and the leverage tool of cmd/QuoteRecvSerivce/leverage.go.
pub mod Start
pub mod Accounts
pub mod Leverage
pub mod Receiver
pub mod Aggregator
pub mod Aggregating
pub mod Streams
pub mod Receiving
mod Samples
mod AggrSamples
