-- ===== src/Receiver.antt =====
-- The receiver service, cmd/QuoteRecvSerivce: from an event of the exchange to the frames that are
-- published, and from there to the aggregator.
pub mod Events
pub mod Encode
pub mod Fanout
pub mod Path
mod Samples
