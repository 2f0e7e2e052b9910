-- ===== src/HashMap.antt =====
-- The free space map: src/hash_map.c and include/hash_map.h.
pub mod Words
pub mod Free
pub mod Insert
pub mod Pop
pub mod Refines
