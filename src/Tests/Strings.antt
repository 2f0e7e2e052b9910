-- ===== src/Tests/Strings.antt =====
-- Strings in a table of src/table.c.
use ds_my_sql.Base.{◌≡◌, some, [], ◌∷◌, arith}
use ds_my_sql.Base.State.{◌>>=◌}
use ds_my_sql.Str.{StringRecord, read_string, compare_string_record, get_string_size}
use ds_my_sql.Str.Chain.{Laws, Keeps}
use ds_my_sql.Str.Cursor.{Cursor}
use ds_my_sql.Str.Order.{order, compare_string_record-order, get_string_size-length}
use ds_my_sql.Store.Disk.Reads.{disk_strings-Laws}
use ds_my_sql.Tests.Tables.{
  id_at, Items, store_table, store_laws, two_chunks, two_chunks-IsValid, two_chunks-Chain,
  tail_stored,
}

compare_string_record-order_example :
    (t' : Items) × ((read_string store_table (id_at 1) >>= λ a.
    read_string store_table (id_at 0) >>= λ b. compare_string_record store_table 9 a b)
        two_chunks
      ≡ some (order (1 ∷ 2 ∷ 3 ∷ 4 ∷ 5 ∷ []) (4 ∷ 5 ∷ []), t'))
    × Laws.IsValid store_laws t'
    × Keeps store_laws two_chunks t'
unfolding disk_strings-Laws
compare_string_record-order_example =
    compare_string_record-order store_table store_laws 9 two_chunks (id_at 1) (id_at 0)
      (1 ∷ 2 ∷ 3 ∷ []) (4 ∷ 5 ∷ []) ((4 ∷ 5 ∷ []) ∷ []) [] (omega arith) two_chunks-IsValid
      two_chunks-Chain tail_stored

get_string_size-length_example :
    (out : StringRecord) × (t' : Items) × ((read_string store_table (id_at 1) >>= λ a.
    get_string_size store_table 2 a (id_at 1))
        two_chunks
      ≡ some ((5, out), t'))
    × Cursor store_table store_laws t' out (1 ∷ 2 ∷ 3 ∷ 4 ∷ 5 ∷ [])
    × Laws.IsValid store_laws t'
    × Keeps store_laws two_chunks t'
unfolding disk_strings-Laws
get_string_size-length_example =
    get_string_size-length store_table store_laws 2 two_chunks (id_at 1) (1 ∷ 2 ∷ 3 ∷ [])
      ((4 ∷ 5 ∷ []) ∷ []) (omega arith) two_chunks-IsValid two_chunks-Chain
