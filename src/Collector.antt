-- ===== src/Collector.antt =====
-- cmd/QuoteAggrService/controller.go: the table of symbols, the routing of decoded quotes to them, and
-- the periodic round that closes windows and builds the PeriodMessage. A Go map is a list of its
-- entries in the order of iteration; `swap_at` gives every order. Files, sockets and logging are left
-- out, except that the round says when it sends the "EmptyQuote" warning. The mutex psMtx makes the
-- read of the table in each handler one step; the round holds it over its loop.
pub mod Table
pub mod Round
pub mod Lockstep
pub mod Published
pub mod Grid
pub mod Routes
pub mod History
mod Samples
