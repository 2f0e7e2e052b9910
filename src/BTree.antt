-- ===== src/BTree.antt =====
-- The B+ tree over the row ids of records: src/b_tree.c and include/b_tree.h.
pub mod LowerBound
pub mod Pages
pub mod Arrays
pub mod Index
pub mod Search
pub mod Insert
pub mod Remove
pub mod Ordered
