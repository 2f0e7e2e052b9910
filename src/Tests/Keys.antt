-- ===== src/Tests/Keys.antt =====
-- Records and their keys in tables of src/table.c.
use ds_my_sql.Base.{arith, [], ◌∷◌, refl}
use ds_my_sql.Str.Order.{order}
use ds_my_sql.Store.{Tables, rid_row_row_cmp, rid_ptr_row_cmp}
use ds_my_sql.Store.Keys.{IsStore, HasKey, Answers, rid_ptr_row_cmp-order, rid_row_row_cmp-order}
use ds_my_sql.Store.Disk.Reads.{disk_strings-Laws, disk_records-RecordLaws}
use ds_my_sql.Tests.Tables.{
  id_at, Items, store_table, store_laws, rec_table, rec_laws, two_chunks, two_chunks-IsValid,
  two_chunks-Chain, tail_stored, long_key, short_key, two_records, two_records-IsValid, long_stored,
  short_stored,
}

abbrev pub Both : Type 0
Both = Tables Items Items

abbrev pub both : Both
both = record { tbl_rec = two_records; tbl_str = two_chunks }

pub both-IsStore : IsStore rec_table rec_laws store_table store_laws both
unfolding disk_strings-Laws disk_records-RecordLaws
both-IsStore = record { records_valid = two_records-IsValid; strings_valid = two_chunks-IsValid }

unfoldable pub long-HasKey :
    HasKey rec_table rec_laws store_table store_laws both (id_at 0) (1 ∷ 2 ∷ 3 ∷ 4 ∷ 5 ∷ [])
unfolding disk_strings-Laws disk_records-RecordLaws
long-HasKey = record {
  re = long_key;
  held = long_stored;
  key = record {
    head = 1 ∷ 2 ∷ 3 ∷ [];
    tail = (4 ∷ 5 ∷ []) ∷ [];
    chain = two_chunks-Chain;
    text = refl;
  };
}

pub short-HasKey : HasKey rec_table rec_laws store_table store_laws both (id_at 1) (4 ∷ 5 ∷ [])
unfolding disk_strings-Laws disk_records-RecordLaws
short-HasKey = record {
  re = short_key;
  held = short_stored;
  key = record { head = 4 ∷ 5 ∷ []; tail = []; chain = tail_stored; text = refl };
}

rid_ptr_row_cmp-order_example :
    Answers rec_table rec_laws store_table store_laws
      (rid_ptr_row_cmp rec_table store_table 9 (4 ∷ []) 1 (id_at 1))
      both
      (order (4 ∷ []) (4 ∷ 5 ∷ []))
rid_ptr_row_cmp-order_example =
    rid_ptr_row_cmp-order rec_table rec_laws store_table store_laws 9 both (4 ∷ []) (id_at 1)
      (4 ∷ 5 ∷ []) both-IsStore short-HasKey

rid_row_row_cmp-order_example :
    Answers rec_table rec_laws store_table store_laws
      (rid_row_row_cmp rec_table store_table 9 (id_at 0) (id_at 1))
      both
      (order (1 ∷ 2 ∷ 3 ∷ 4 ∷ 5 ∷ []) (4 ∷ 5 ∷ []))
rid_row_row_cmp-order_example =
    rid_row_row_cmp-order rec_table rec_laws store_table store_laws 9 both (id_at 0) (id_at 1)
      (1 ∷ 2 ∷ 3 ∷ 4 ∷ 5 ∷ []) (4 ∷ 5 ∷ []) (omega arith) both-IsStore long-HasKey short-HasKey
