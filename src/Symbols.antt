-- ===== src/Symbols.antt =====
-- symbols.go: the decoding of the symbol and datatype tables that a PLC uploads, the elements of
-- arrays, and the tree of a symbol and its members. Maps are association lists.
pub mod Entry
pub mod Tree
pub mod Table
pub mod Array
pub mod TypeTable
mod Samples
