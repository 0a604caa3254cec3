-- ===== src/Market.antt =====
-- The market services of cmd/QuoteRecvSerivce: market_trade.go, market_depth.go, market_orb_inc.go,
-- market_kline.go and market_aggtrade.go, which differ in the event, the stream and the timeout; and
-- the queue of market_snapshot.go.
pub mod Service
pub mod Plan
pub mod Queue
pub mod Served
mod Samples
