-- ===== src/Router.antt =====
-- The packets of the router's UDP service: the registration of routes (route.go) and the
-- identification of a device (identify.go). Sockets and retransmission are left out.
pub mod Packet
pub mod Route
pub mod Identify
mod Samples
