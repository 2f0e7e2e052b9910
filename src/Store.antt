-- ===== src/Store.antt =====
-- The key-value store: src/myjql.c and include/myjql.h.
-- The global variables `tbl_rec` and `tbl_str` are a `Tables`, and `bp_idx` is the pool of an `Index`
-- with them. The table of records is the interface `Records` and that of strings `Str.Table`; the
-- children fill both with the tables of src/table.c. The fuel is for the chains and the tree.
pub mod Bytes
pub mod Compare
pub mod Keys
pub mod Values
pub mod Get
pub mod Absent
pub mod Disk
use ds_my_sql.Base.{
  ℕ, zero, suc, ◌+◌, Option, none, some, List, [], ◌∷◌, ltb, if◌then◌else◌, ℤ, pos, minus_one,
  is_negative, get_or, length,
}
use ds_my_sql.Base.State.{M, pure, ◌>>=◌, ◌>>◌}
use ds_my_sql.FileIo.{Stdio}
use ds_my_sql.Rid.{Rid, no_rid}
use ds_my_sql.Str.{
  Table, StringRecord, char_lt, read_string, get_string_size, compare_string_record, write_string,
  delete_string, load_string,
}
use ds_my_sql.BTree.Pages.{TreePage}
use ds_my_sql.BTree.Index.{Index, on_store}
use ds_my_sql.BTree.Search.{b_tree_search}
use ds_my_sql.BTree.Insert.{b_tree_insert}
use ds_my_sql.BTree.Remove.Descent.{b_tree_delete}

pub record Record : Type 0 where
  pub key : Rid
  pub value : Rid

-- `read_record`, `write_record` and `delete_record`.
pub record Records (R : Type 0) : Type 0 where
  pub read : Rid → M R Record
  pub write : Record → M R Rid
  pub delete : Rid → M R (Unit {0})

pub record Tables (R T : Type 0) : Type 0 where
  pub tbl_rec : R
  pub tbl_str : T

-- The loop of `rid_ptr_row_cmp` from `i` on, and the tests behind it: of `size` characters of `t` and
-- those of `s`.
unfoldable pub compare_chars : (t s : List ℕ) (size i rounds : ℕ) → ℤ
compare_chars t s size i zero =
    if ltb (length s) size then pos 1 else if ltb size (length s) then minus_one else pos 0
compare_chars t s size i (suc n) =
    let rest = compare_chars t s size (i + 1) n in
    if char_lt (get_or s i 0) (get_or t i 0)
    then pos 1
    else if char_lt (get_or t i 0) (get_or s i 0)
    then minus_one
    else rest

module _ {R T : Type 0} where
  unfoldable pub on_rec : {A : Type 0} → M R A → M (Tables R T) A
  on_rec m store = elim (m store.tbl_rec) [
    | none ↦ none
    | some (a, table) ↦ some (a, record store { tbl_rec = table })
  ]

  unfoldable pub on_str : {A : Type 0} → M T A → M (Tables R T) A
  on_str m store = elim (m store.tbl_str) [
    | none ↦ none
    | some (a, table) ↦ some (a, record store { tbl_str = table })
  ]

module _ {R T : Type 0} (records : Records R) (strings : Table T) (fuel : ℕ) where
  unfoldable pub rid_row_row_cmp : Rid → Rid → M (Tables R T) ℤ
  rid_row_row_cmp a b = do
    re_a ← on_rec (records.read a)
    re_b ← on_rec (records.read b)
    sre_a ← on_str (read_string strings re_a.key)
    sre_b ← on_str (read_string strings re_b.key)
    on_str (compare_string_record strings fuel sre_a sre_b)

  unfoldable pub rid_ptr_row_cmp : List ℕ → ℕ → Rid → M (Tables R T) ℤ
  rid_ptr_row_cmp p size b = do
    re_b ← on_rec (records.read b)
    sre_b ← on_str (read_string strings re_b.key)
    (s, sre_b') ← on_str (load_string strings (size + 2) sre_b)
    pure (compare_chars p s size 0 (if ltb size (length s) then size else length s))

  -- A copy of the record's key, without a value.
  unfoldable pub insert_handler : Rid → M (Tables R T) Rid
  insert_handler rid = do
    re ← on_rec (records.read rid)
    sre ← on_str (read_string strings re.key)
    (max_size, sre') ← on_str (get_string_size strings fuel sre re.key)
    (s, sre'') ← on_str (load_string strings (max_size + 1) sre')
    rid_key ← on_str (write_string strings s (length s))
    on_rec (records.write (record { key = rid_key; value = no_rid }))

  unfoldable pub delete_handler : Rid → M (Tables R T) (Unit {0})
  delete_handler rid = do
    re ← on_rec (records.read rid)
    on_str (delete_string strings fuel re.key)
    on_rec (records.delete rid)

  module _ {S Name : Type 0} (io : Stdio TreePage S Name) where
    unfoldable pub find_record : List ℕ → ℕ → M (Index (Tables R T) S) Rid
    find_record key key_len = b_tree_search io rid_ptr_row_cmp fuel key key_len

    -- The size of the value and the characters that go to the buffer, or -1.
    unfoldable pub myjql_get : List ℕ → ℕ → (max_size : ℕ) → M (Index (Tables R T) S) (ℤ × List ℕ)
    myjql_get key key_len max_size = do
      rid ← find_record key key_len
      (if is_negative rid.block_addr then pure (minus_one, []) else (do
        re ← on_store (on_rec (records.read rid))
        sre ← on_store (on_str (read_string strings re.value))
        (ans, sre') ← on_store (on_str (get_string_size strings fuel sre re.value))
        (s, sre'') ← on_store (on_str (load_string strings max_size sre'))
        pure (pos ans, s)))

    -- A new record goes to the tree.
    unfoldable pub add_record : Record → M (Index (Tables R T) S) (Unit {0})
    add_record re = do
      rid ← on_store (on_rec (records.write re))
      nothing ← b_tree_insert io rid_row_row_cmp insert_handler fuel rid
      pure tt

    unfoldable pub myjql_set : List ℕ → ℕ → List ℕ → ℕ → M (Index (Tables R T) S) (Unit {0})
    myjql_set key key_len value value_len = do
      rid ← find_record key key_len
      (if is_negative rid.block_addr
          then (do
            rid_key ← on_store (on_str (write_string strings key key_len))
            rid_value ← on_store (on_str (write_string strings value value_len))
            add_record (record { key = rid_key; value = rid_value }))
          else (do
            b_tree_delete io rid_row_row_cmp insert_handler delete_handler fuel rid
            re ← on_store (on_rec (records.read rid))
            on_store (on_str (delete_string strings fuel re.value))
            rid_value ← on_store (on_str (write_string strings value value_len))
            on_store (on_rec (records.delete rid))
            add_record (record { key = re.key; value = rid_value })))

    unfoldable pub myjql_del : List ℕ → ℕ → M (Index (Tables R T) S) (Unit {0})
    myjql_del key key_len = do
      rid ← find_record key key_len
      (if is_negative rid.block_addr then pure tt else (do
        b_tree_delete io rid_row_row_cmp insert_handler delete_handler fuel rid
        re ← on_store (on_rec (records.read rid))
        on_store (on_str (delete_string strings fuel re.key))
        on_store (on_str (delete_string strings fuel re.value))
        on_store (on_rec (records.delete rid))))
