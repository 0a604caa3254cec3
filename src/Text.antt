-- ===== src/Text.antt =====
-- Texts of values: StrVal of utils/string.go.
pub mod StrVal
mod Samples
