-- ===== src/Str.antt =====
-- Strings of any length in a table, as chains of chunks: src/str.c and include/str.h.
-- The table is the interface `Table`: a chunk is an item of it. The bytes of an item are those of
-- the chunk's id, size and text, which the macros `get_str_chunk_…` pick out.
pub mod Chain
pub mod Load
pub mod Cursor
pub mod Order
use ds_my_sql.Base.{
  ℕ, zero, suc, ◌+◌, ◌-◌, ◌*◌, ◌/◌, ◌%◌, Bool, true, false, Option, none, some, List, [], ◌∷◌, ◌==◌,
  ltb, ◌&&◌, if◌then◌else◌, ℤ, pos, negsuc, minus_one, eq_ℤ, is_negative, get_or,
}
use ds_my_sql.Base.State.{M, pure, fault, ◌>>=◌, ◌>>◌}
use ds_my_sql.Rid.{Rid, no_rid}

-- `STR_CHUNK_MAX_LEN`: a quarter of a page, less the id and the size.
abbrev pub str_chunk_max_len : ℕ
str_chunk_max_len = 20

pub record Chunk : Type 0 where
  pub rid : Rid
  pub size : ℕ
  pub text : List ℕ

pub record StringRecord : Type 0 where
  pub chunk : Chunk
  pub idx : ℕ

-- `table_read`, `table_insert` and `table_delete`, with chunks for items.
pub record Table (T : Type 0) : Type 0 where
  pub read : Rid → M T Chunk
  pub insert : Chunk → M T Rid
  pub delete : Rid → M T (Unit {0})

-- A `char` is signed: `a > b` of two bytes.
abbrev pub char_lt : ℕ → ℕ → Bool
char_lt a b = ltb ((a + 128) % 256) ((b + 128) % 256)

unfoldable pub has_next_char : StringRecord → Bool
has_next_char r =
    if ltb r.idx r.chunk.size
    then true
    else if eq_ℤ r.chunk.rid.block_addr minus_one
    then false
    else true

-- `for (j …) *(ptr + j) = *(data + from + j)`: `n` characters from `from` on.
unfoldable pub copy_chars : List ℕ → ℕ → ℕ → List ℕ
copy_chars s from zero = []
copy_chars s from (suc n) = get_or s from 0 ∷ copy_chars s (from + 1) n

module _ {T : Type 0} (table : Table T) where
  unfoldable pub read_string : Rid → M T StringRecord
  read_string rid = do chunk ← table.read rid; pure (record { chunk = chunk; idx = 0 })

  unfoldable pub next_char : StringRecord → M T (ℕ × StringRecord)
  unfolding read_string
  next_char r =
      if ltb r.idx r.chunk.size
      then pure (get_or r.chunk.text r.idx 0, record r { idx = r.idx + 1 })
      else do r' ← read_string r.chunk.rid; pure (get_or r'.chunk.text 0 0, record r' { idx = 1 })

  -- The loop of `get_string_size`; the fuel bounds the number of chunks.
  size_loop : ℕ → ℕ → StringRecord → M T ℕ
  unfolding read_string
  size_loop zero ans r = fault
  size_loop (suc fuel) ans r =
      if is_negative r.chunk.rid.block_addr
      then pure (ans + r.chunk.size)
      else read_string r.chunk.rid >>= size_loop fuel (ans + r.chunk.size)

  -- The record that it leaves is that of the first chunk.
  unfoldable pub get_string_size : ℕ → StringRecord → Rid → M T (ℕ × StringRecord)
  unfolding size_loop read_string
  get_string_size fuel r root = do ans ← size_loop fuel 0 r; r' ← read_string root; pure (ans, r')

  -- The fuel bounds the number of characters.
  unfoldable pub compare_string_record : ℕ → StringRecord → StringRecord → M T ℤ
  unfolding has_next_char next_char
  compare_string_record zero a b = fault
  compare_string_record (suc fuel) a b =
      if has_next_char a && has_next_char b
      then (do
        (x, a') ← next_char a
        (y, b') ← next_char b
        (if char_lt y x
            then pure (pos 1)
            else if char_lt x y
            then pure minus_one
            else compare_string_record fuel a' b'))
      else if has_next_char a
      then pure (pos 1)
      else if has_next_char b
      then pure minus_one
      else pure (pos 0)

  -- The loop of `write_string` from `i` down to 1, where `full` is the size of chunk `i`.
  unfoldable pub write_loop : List ℕ → (i full : ℕ) → Rid → M T Rid
  unfolding copy_chars
  write_loop s zero full rid = pure rid
  write_loop s (suc i) full rid = do
    rid' ←
        table.insert
          (record { rid = rid; size = full; text = copy_chars s (str_chunk_max_len * i) full })
    write_loop s i str_chunk_max_len rid'

  unfoldable pub write_string : List ℕ → ℕ → M T Rid
  unfolding write_loop
  write_string s size =
      if size == 0
      then write_loop s 1 0 no_rid
      else write_loop s ((size - 1) / str_chunk_max_len + 1) ((size - 1) % str_chunk_max_len + 1)
          no_rid

  -- The fuel bounds the number of chunks.
  unfoldable pub delete_string : ℕ → Rid → M T (Unit {0})
  delete_string zero rid = fault
  delete_string (suc fuel) rid = do
    chunk ← table.read rid
    table.delete rid
    (if eq_ℤ chunk.rid.block_addr minus_one then pure tt else delete_string fuel chunk.rid)

  -- The characters that go to `dest`, at most `max_size`; their number is the C function's result.
  unfoldable pub load_string : ℕ → StringRecord → M T (List ℕ × StringRecord)
  unfolding has_next_char next_char
  load_string zero r = pure ([], r)
  load_string (suc max_size) r =
      if has_next_char r
      then (do (c, r') ← next_char r; (cs, r'') ← load_string max_size r'; pure (c ∷ cs, r''))
      else pure ([], r)
