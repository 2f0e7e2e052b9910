-- ===== src/Store/Bytes.antt =====
-- The bytes of row ids, records and chunks: the struct `Record` of src/myjql.c and the macros of
-- include/table.h and include/str.h. Words are little-endian, and negative ones two's complement.
pub mod Laws
use ds_my_sql.Base.{
  ℕ, zero, suc, ◌+◌, ◌-◌, ◌*◌, ◌/◌, ◌%◌, ◌^◌, List, [], ◌∷◌, ◌++◌, ltb, if◌then◌else◌, ℤ, pos,
  negsuc, take, drop,
}
use ds_my_sql.Rid.{Rid}
use ds_my_sql.Str.{Chunk}
use ds_my_sql.Store.{Record}

-- The bits of an integer of `2 ^ w` values, and the integer of such bits.
abbrev pub bits_of : (m : ℕ) → ℤ → ℕ
bits_of m (pos n) = n % m
bits_of m (negsuc n) = m - 1 - n % m

abbrev pub signed : (m : ℕ) → ℕ → ℤ
signed m n = if ltb n (m / 2) then pos n else negsuc (m - 1 - n)

unfoldable pub to_bytes : ℕ → ℕ → List ℕ
to_bytes zero n = []
to_bytes (suc w) n = n % 256 ∷ to_bytes w (n / 256)

unfoldable pub of_bytes : List ℕ → ℕ
of_bytes [] = 0
of_bytes (b ∷ bs) = b + 256 * of_bytes bs

abbrev pub off_mod : ℕ
off_mod = 2 ^ 64

abbrev pub short_mod : ℕ
short_mod = 2 ^ 16

-- `sizeof(RID)`, and where the text of a chunk begins.
abbrev pub rid_size : ℕ
rid_size = 10

abbrev pub chunk_header : ℕ
chunk_header = 12

unfoldable pub rid_bytes : Rid → List ℕ
rid_bytes rid =
    to_bytes 8 (bits_of off_mod rid.block_addr) ++ to_bytes 2 (bits_of short_mod rid.idx)

-- `get_rid_block_addr` and `get_rid_idx`
unfoldable pub bytes_rid : List ℕ → Rid
bytes_rid bs = record {
  block_addr = signed off_mod (of_bytes (take 8 bs));
  idx = signed short_mod (of_bytes (take 2 (drop 8 bs)));
}

unfoldable pub record_bytes : Record → List ℕ
record_bytes re = rid_bytes re.key ++ rid_bytes re.value

unfoldable pub bytes_record : List ℕ → Record
bytes_record bs = record { key = bytes_rid bs; value = bytes_rid (drop rid_size bs) }

unfoldable pub chunk_bytes : Chunk → List ℕ
chunk_bytes chunk = rid_bytes chunk.rid ++ (to_bytes 2 chunk.size ++ chunk.text)

-- `get_str_chunk_rid`, `get_str_chunk_size` and `get_str_chunk_data_ptr`
unfoldable pub bytes_chunk : List ℕ → Chunk
bytes_chunk bs = record {
  rid = bytes_rid bs;
  size = of_bytes (take 2 (drop rid_size bs));
  text = drop chunk_header bs;
}
