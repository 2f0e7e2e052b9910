-- ===== src/Tests/Stores.antt =====
-- A run of the whole store on its five files.
use ds_my_sql.Base.{
  ℕ, zero, suc, ◌+◌, ◌≡◌, Option, none, some, List, [], ◌∷◌, ◌++◌, ℤ, pos, minus_one, false, refl,
  replicate, length,
}
use ds_my_sql.Base.State.{M, pure, ◌>>=◌, ◌>>◌}
use ds_my_sql.HashMap.Words.{Words}
use ds_my_sql.Block.{Block}
use ds_my_sql.BTree.Pages.{TreePage}
use ds_my_sql.BTree.Search.{not_found}
use ds_my_sql.Str.{
  has_next_char, copy_chars, read_string, next_char, get_string_size, compare_string_record,
  write_loop, write_string, delete_string, load_string,
}
use ds_my_sql.Store.{
  compare_chars, on_rec, on_str, rid_row_row_cmp, rid_ptr_row_cmp, insert_handler, delete_handler,
  find_record, myjql_get, add_record, myjql_set, myjql_del,
}
use ds_my_sql.Store.Bytes.{
  to_bytes, of_bytes, rid_bytes, bytes_rid, record_bytes, bytes_record, chunk_bytes, bytes_chunk,
}
use ds_my_sql.Store.Disk.{disk_records, disk_strings, Files, Memory, Store, myjql_init}
use ds_my_sql.Tests.Streams.{Stream, io, zeroes, blank}
use ds_my_sql.Tests.Maps.{program}
use ds_my_sql.Tests.Trees.{tree_code}

abbrev pub memory : Memory
memory = record {
  nodes = replicate 8 (record { word = λ i. pos 0; row = λ i. not_found; leaf = false });
  blocks = replicate 8 blank;
  words = zeroes;
}

abbrev pub files : Files ℕ
files = record { rec_idx = 0; rec_data = 1; rec_fsm = 2; str_data = 3; str_fsm = 4 }

abbrev pub Db : Type 0
Db = Store (Stream TreePage) (Stream Block) (Stream Words)

abbrev get : List ℕ → M Db (ℤ × List ℕ)
get key = myjql_get (disk_records io io 40) (disk_strings io io 40) 40 io key (length key) 40

abbrev put : List ℕ → List ℕ → M Db (Unit {0})
put key value =
    myjql_set (disk_records io io 40) (disk_strings io io 40) 40 io key (length key) value
      (length value)

abbrev del : List ℕ → M Db (Unit {0})
del key = myjql_del (disk_records io io 40) (disk_strings io io 40) 40 io key (length key)

-- A key of 21 characters, which is two chunks, and a value of as many characters as `n` says.
abbrev key_of : ℕ → List ℕ
key_of n = replicate 20 97 ++ (98 + n) ∷ []

abbrev value_of : ℕ → List ℕ
value_of n = replicate n (65 + n)

abbrev put_all : ℕ → M Db (Unit {0})
put_all zero = pure tt
put_all (suc n) = put (key_of n) (value_of n) >> put_all n

-- Three records; one is replaced, one deleted, and one is not there.
abbrev session : M Db ((ℤ × List ℕ) × (ℤ × List ℕ) × (ℤ × List ℕ) × (ℤ × List ℕ))
session = do
  put_all 3
  put (key_of 0) (1 ∷ 2 ∷ 3 ∷ 4 ∷ [])
  del (key_of 1)
  a ← get (key_of 2)
  b ← get (key_of 0)
  c ← get (key_of 1)
  d ← get []
  pure (a, b, c, d)

abbrev outcome : Option ((ℤ × List ℕ) × (ℤ × List ℕ) × (ℤ × List ℕ) × (ℤ × List ℕ))
outcome = elim (myjql_init io io io memory files) [
  | none ↦ none
  | some db ↦ elim (session db) [ none ↦ none | some (r, db') ↦ some r ]
]

unfoldable pub store_code : Unit {0}
unfolding program tree_code has_next_char copy_chars read_string next_char get_string_size
    compare_string_record write_loop write_string delete_string load_string compare_chars on_rec
    on_str rid_row_row_cmp rid_ptr_row_cmp insert_handler delete_handler find_record myjql_get
    add_record myjql_set myjql_del to_bytes of_bytes rid_bytes bytes_rid record_bytes bytes_record
    chunk_bytes bytes_chunk disk_records disk_strings myjql_init
store_code = tt

session_test :
    outcome
    ≡ some ((pos 2, value_of 2), (pos 4, 1 ∷ 2 ∷ 3 ∷ 4 ∷ []), (minus_one, []), (minus_one, []))
unfolding store_code
session_test = refl
