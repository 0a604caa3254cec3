-- ===== src/RateLimit.antt =====
-- cmd/QuoteAggrService/ratelimit.go; cmd/QuoteRecvSerivce/ratelimit.go is a copy of it. The mutex makes
-- each call, and each round of the timer, one step. A pointer in a map is written through by
-- assigning to its key, since no two keys share a pointer.
pub mod Manager
pub mod Budget
pub mod Orders
pub mod Update
mod Samples
