-- ===== src/Spout.antt =====
-- The way of a period message out of the aggregator: FanOutManager of
-- cmd/QuoteAggrService/market_spout.go and its producers, transport/zmq.go and transport/kafka2.go.
pub mod Producers
pub mod Delivery
mod Samples
