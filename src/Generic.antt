-- ===== src/Generic.antt =====
-- The slice helpers of cmd/QuoteAggrService/generic.go; the other generic.go files are copies of it.
-- A slice is a list. An index out of range panics: the value is `none`.
pub mod Split
pub mod Dicts
mod Samples
