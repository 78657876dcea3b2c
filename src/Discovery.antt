-- ===== src/Discovery.antt =====
-- symbol_discovery.go: the download of the symbol tables.
pub mod Download
