-- ===== src/Rid.antt =====
-- Record ids, the type `RID` of include/table.h: the address of a block and an index in it.
use ds_my_sql.Base.{ℤ, negsuc}

pub record Rid : Type 0 where
  pub block_addr : ℤ
  pub idx : ℤ

-- The id that ends a chain of chunks.
abbrev pub no_rid : Rid
no_rid = record { block_addr = negsuc 0; idx = negsuc 0 }
