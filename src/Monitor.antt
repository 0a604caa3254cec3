-- ===== src/Monitor.antt =====
-- The service monitor of core/qmon.go: what a service reports of itself, and its log, on one socket.
pub mod Manager
pub mod Frames
mod Samples
