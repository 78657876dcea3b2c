-- ===== src/Client/Receive.antt =====
-- The receiving side of client.go: frames off a connection, notifications and replies.
pub mod Stream
pub mod Frames
pub mod Shards
pub mod Replies
mod Samples
