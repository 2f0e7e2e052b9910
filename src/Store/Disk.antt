-- ===== src/Store/Disk.antt =====
-- The store on its files: the tables of src/table.c with records and with chunks for items, and
-- `myjql_init` and `myjql_close`.
pub mod Reads
use ds_my_sql.Base.{ℕ, ◌+◌, ◌*◌, Option, none, some, List, get_or}
use ds_my_sql.Base.State.{pure, ◌>>=◌}
use ds_my_sql.FileIo.{Stdio}
use ds_my_sql.Block.{Block}
use ds_my_sql.HashMap.Words.{Words}
use ds_my_sql.Table.{table_init, table_close, table_read, table_insert, table_delete}
use ds_my_sql.Table
use ds_my_sql.Str
use ds_my_sql.BTree.Pages.{TreePage, b_tree_init, b_tree_close}
use ds_my_sql.BTree.Index.{Index}
use ds_my_sql.Store.{Records, Tables}
use ds_my_sql.Store.Bytes.{
  rid_size, chunk_header, record_bytes, bytes_record, chunk_bytes, bytes_chunk,
}

module _ {D F Name : Type 0} (io : Stdio Block D Name) (fsm_io : Stdio Words F Name)
    (fuel : ℕ) where
  unfoldable pub disk_records : Records (Table.Table D F)
  disk_records = record {
    read = λ rid. do
      bs ← table_read io fsm_io rid
      pure (bytes_record bs);
    write = λ re. table_insert io fsm_io fuel (λ q. get_or (record_bytes re) q 0) (2 * rid_size);
    delete = λ rid. table_delete io fsm_io fuel rid;
  }

  unfoldable pub disk_strings : Str.Table (Table.Table D F)
  disk_strings = record {
    read = λ rid. do
      bs ← table_read io fsm_io rid
      pure (bytes_chunk bs);
    insert = λ chunk.
        table_insert io fsm_io fuel (λ q. get_or (chunk_bytes chunk) q 0)
          (chunk.size + chunk_header);
    delete = λ rid. table_delete io fsm_io fuel rid;
  }

-- The names of the five files.
pub record Files (Name : Type 0) : Type 0 where
  pub rec_idx : Name
  pub rec_data : Name
  pub rec_fsm : Name
  pub str_data : Name
  pub str_fsm : Name

-- What the memory of the caches holds.
pub record Memory : Type 0 where
  pub nodes : List TreePage
  pub blocks : List Block
  pub words : List Words

abbrev pub Store : Type 0 → Type 0 → Type 0 → Type 0
Store S D F = Index (Tables (Table.Table D F) (Table.Table D F)) S

module _ {S D F Name : Type 0} (tree_io : Stdio TreePage S Name) (io : Stdio Block D Name)
    (fsm_io : Stdio Words F Name) where
  unfoldable pub myjql_init : Memory → Files Name → Option (Store S D F)
  myjql_init memory files = elim (b_tree_init tree_io memory.nodes files.rec_idx) [
    | none ↦ none
    | some pool ↦
        elim (table_init io fsm_io memory.blocks memory.words files.rec_data files.rec_fsm) [
          | none ↦ none
          | some tbl_rec ↦
              elim (table_init io fsm_io memory.blocks memory.words files.str_data files.str_fsm) [
                | none ↦ none
                | some tbl_str ↦ some (record {
                  pool = pool;
                  store = record { tbl_rec = tbl_rec; tbl_str = tbl_str };
                })
              ]
        ]
  ]

  unfoldable pub myjql_close : Store S D F → S × (D × F) × (D × F)
  myjql_close index = (
    b_tree_close tree_io index.pool,
    table_close io fsm_io index.store.tbl_rec,
    table_close io fsm_io index.store.tbl_str,
  )
