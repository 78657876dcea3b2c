-- ===== src/Access.antt =====
-- Reading and writing variables by their names: symbol_access.go, batch_result.go, and of
-- symbol_discovery.go getSymbol with its two requests. The state is the part of Session that these
-- touch (`Shared`), with the PLC's state beside it: a request may change all of it, since others
-- act while it is out.
pub mod BatchResult
pub mod Cache
pub mod Resolve
pub mod Read
pub mod Write
pub mod Accounts
pub mod Browse
mod Samples
