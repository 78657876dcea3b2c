-- ===== src/Session.antt =====
-- Decisions of the session that depend on its configuration and on what it has counted: how long it
-- waits, when it recovers, which samples carry a stale mark. Durations are nanoseconds.
pub mod Backoff
pub mod Options
pub mod Recovery
pub mod Reload
pub mod Stale
pub mod Resubscribe
pub mod Watch
mod Samples
