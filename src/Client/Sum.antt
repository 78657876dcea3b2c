-- ===== src/Client/Sum.antt =====
-- The batched commands of cmd_sum.go.
pub mod Layout
pub mod Read
pub mod Write
pub mod Notify
mod Samples
