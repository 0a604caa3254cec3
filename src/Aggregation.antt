-- ===== src/Aggregation.antt =====
-- cmd/QuoteAggrService/aggregation.go: the windows ("period nodes") of one symbol, what an incoming
-- trade, increment or snapshot does to them, and how the clock closes them.
pub mod Node
pub mod Put
pub mod Cases
pub mod Clock
pub mod Lane
pub mod Nodes
pub mod Windows
pub mod History
pub mod Drain
pub mod Content
pub mod Duplicates
pub mod Copies
mod Samples
