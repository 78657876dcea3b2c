-- ===== src/Client.antt =====
-- The Client: requests of a single symbol (cmd_simple.go, process_image.go, the RPCs of cmd_notification.go), the
-- batched ones (cmd_sum.go, capabilities.go), and what arrives on the socket (client.go).
pub mod Wire
pub mod Conn
pub mod Rpc
pub mod ProcessImage
pub mod Sum
pub mod Receive
mod Samples
