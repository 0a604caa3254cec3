-- ===== src/QuoteServer.antt =====
-- WsQuoteServer of core/wsserver.go, which no service starts: its clients, broadcasts and heartbeat.
pub mod Server
pub mod Broadcast
mod Samples
