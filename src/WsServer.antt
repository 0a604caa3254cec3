-- ===== src/WsServer.antt =====
-- cmd/QuoteAggrService/wsserver.go: the server that hands each PeriodMessage to websocket clients.
-- Sockets and logging are left out.
pub mod Header
pub mod Access
pub mod Sessions
pub mod Data
pub mod Client
pub mod Heartbeat
pub mod Stages
pub mod Loop
pub mod Stream
pub mod Replay
mod Samples
mod LoopSamples
