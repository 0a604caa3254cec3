-- ===== src/Symbols.antt =====
-- Which symbols are traded: updateExchangeInfo and loadTradingSymbol of
-- cmd/QuoteAggrService/controller.go; cmd/QuoteRecvSerivce/controller.go has them too. And
-- their filters: NewTradingSymbol of cmd/QuoteAggrService/config.go.
pub mod Listed
pub mod Filters
pub mod Readable
pub mod Reading
pub mod Trading
pub mod Loading
mod Samples
