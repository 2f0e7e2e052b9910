-- ===== src/Tests/Get.antt =====
-- A store whose tree is one leaf with two records.
use ds_my_sql.Base.{
  ℕ, zero, suc, ◌≡◌, ◌<◌, arith, refl, true, false, some, List, [], ◌∷◌, ◌==◌, if◌then◌else◌, ℤ,
  pos, negsuc, minus_one, replicate, subst,
}
use ds_my_sql.BufferPool.{Frame, BufferPool}
use ds_my_sql.BufferPool.Arrays.{count, lookup}
use ds_my_sql.BufferPool.View.{view, IsValid, SamePages}
use ds_my_sql.BufferPool.Idle.{IsIdle}
use ds_my_sql.BTree.Pages.{TreePage}
use ds_my_sql.BTree.LowerBound.{is_above}
use ds_my_sql.BTree.Search.{not_found}
use ds_my_sql.BTree.Search.Shape.{Node, Tree, Ordered, is_below, is_equal}
use ds_my_sql.Rid.{Rid}
use ds_my_sql.Str.Order.{order}
use ds_my_sql.Store.{rid_ptr_row_cmp, myjql_get, myjql_del}
use ds_my_sql.Store.Keys.{HasKey}
use ds_my_sql.Store.Values.{Kept, rid_ptr_row_cmp-Computes}
use ds_my_sql.Store.Get.{Gets, Readable, myjql_get-Gets}
use ds_my_sql.Store.Absent.{myjql_del-absent}
use ds_my_sql.Tests.Disk.{Disk, stdio, reliable}
use ds_my_sql.Store.Disk.Reads.{disk_strings-Laws, disk_records-RecordLaws}
use ds_my_sql.Tests.Tables.{
  id_at, store_table, store_laws, rec_table, rec_laws, two_chunks-Chain, tail_stored, long_key,
  short_key, long_stored, short_stored,
}
use ds_my_sql.Tests.Keys.{Both, both, both-IsStore, long-HasKey, short-HasKey}

abbrev long : List ℕ
long = 1 ∷ 2 ∷ 3 ∷ 4 ∷ 5 ∷ []

abbrev short : List ℕ
short = 4 ∷ 5 ∷ []

abbrev key_of : Rid → List ℕ
key_of rid = elim rid.idx [ pos n ↦ if n == 0 then long else short | negsuc n ↦ [] ]

abbrev value_of : Rid → List ℕ
value_of rid = elim rid.idx [ pos n ↦ if n == 0 then short else long | negsuc n ↦ [] ]

abbrev ctr : TreePage
ctr = record {
  word = λ i. if i == 0 then pos 128 else minus_one;
  row = λ i. not_found;
  leaf = false;
}

abbrev leaf : TreePage
leaf = record { word = λ i. if i == 0 then pos 2 else minus_one; row = id_at; leaf = true }

abbrev no_node : Frame TreePage
no_node = record { page = ctr; addr = minus_one; cnt = 1; ref = 0 }

abbrev cold : BufferPool TreePage (Disk TreePage)
cold = record {
  file = record {
    fp = record { size = 256; page = λ a. some (if a == 0 then ctr else leaf) };
    length = 256;
  };
  frames = replicate 8 no_node;
}

cold-IsValid : IsValid stdio cold
unfolding count
cold-IsValid = record {
  aligned = refl;
  unique = λ a. ground arith;
  inside = (refl, (refl, (refl, (refl, (refl, (refl, (refl, (refl, tt))))))));
  readable = λ a al lt. (_, refl);
}

cold-IsIdle : IsIdle 2 cold
cold-IsIdle =
    let one : 3 < 18446744073709551616 = omega arith in
    record {
      idle = (
        refl,
        one,
        (
          refl,
          one,
          (refl, one, (refl, one, (refl, one, (refl, one, (refl, one, (refl, one, tt)))))),
        ),
      );
      some_frame = omega arith;
    }

unfoldable cold_leaf : Node (view stdio cold) 256 128
unfolding view lookup
cold_leaf = record {
  page = leaf;
  n = 2;
  aligned = refl;
  inside = omega arith;
  seen = refl;
  size = refl;
  small = omega arith;
}

unfoldable cold_tree : Tree (view stdio cold) 256 zero 128
unfolding cold_leaf
cold_tree = (cold_leaf, refl)

keys_known :
    (i : ℕ)
    → i < 2
    → HasKey rec_table rec_laws store_table store_laws both (id_at i) (key_of (id_at i))
keys_known zero lt = long-HasKey
keys_known (suc zero) lt = short-HasKey
keys_known (suc (suc i)) lt = absurd (omega arith)

in_order :
    (i j : ℕ)
    → i < j
    → j < 2
    → is_above (order short (key_of (id_at i))) ≡ false
    → is_below (order short (key_of (id_at j))) ≡ true
in_order zero (suc zero) lt lt' low = absurd (ground arith)
in_order i zero lt lt' low = absurd (omega arith)
in_order (suc i) (suc zero) lt lt' low = absurd (omega arith)
in_order i (suc (suc j)) lt lt' low = absurd (omega arith)

cold-Ordered :
    Ordered
      (view stdio cold)
      256
      (rid_ptr_row_cmp rec_table store_table 2 short 2)
      (λ rid. order short (key_of rid))
      (Kept rec_table rec_laws store_table store_laws both)
      cold_leaf
unfolding cold_leaf
cold-Ordered = record {
  computes =
      rid_ptr_row_cmp-Computes rec_table rec_laws store_table store_laws 2 both short key_of id_at 2
        keys_known;
  strict = in_order;
}

values_known :
    (i : ℕ)
    → i < 2
    → Readable rec_table rec_laws store_table store_laws stdio reliable 2 3 short key_of value_of
        cold both
        (id_at i)
unfolding disk_strings-Laws disk_records-RecordLaws
values_known zero lt = (
  refl,
  (
    record {
      re = long_key;
      held = long_stored;
      value = record { head = short; tail = []; chain = tail_stored; text = refl };
    },
    omega arith,
  ),
)
values_known (suc zero) lt = (
  refl,
  (
    record {
      re = short_key;
      held = short_stored;
      value = record {
        head = 1 ∷ 2 ∷ 3 ∷ [];
        tail = (4 ∷ 5 ∷ []) ∷ [];
        chain = two_chunks-Chain;
        text = refl;
      };
    },
    omega arith,
  ),
)
values_known (suc (suc i)) lt = absurd (omega arith)

myjql_get-Gets_example :
    (out : ℤ × List ℕ) × (pool' : BufferPool TreePage (Disk TreePage)) × (store' : Both)
    × (myjql_get rec_table store_table 2 stdio short 2 3 (record { pool = cold; store = both })
        ≡ some (out, record { pool = pool'; store = store' }))
    × SamePages stdio cold pool'
    × Kept rec_table rec_laws store_table store_laws both store'
    × Gets rec_table rec_laws store_table store_laws stdio reliable 2 3 short key_of value_of cold
        both zero 128 cold_tree out
unfolding cold_leaf cold_tree view lookup
myjql_get-Gets_example =
    myjql_get-Gets rec_table rec_laws store_table store_laws stdio reliable 2 3 short key_of
      value_of cold both zero 128 ctr cold_tree (omega arith) cold-IsValid cold-IsIdle (omega arith)
      refl refl cold-Ordered both-IsStore
      (λ rid there.
        let (i, lt, at) = there in
        subst
          (λ z.
            Readable rec_table rec_laws store_table store_laws stdio reliable 2 3 short key_of
              value_of cold both z)
          at (values_known i lt))

-- The key `9`, which is not there, is above both keys.
above_both :
    (i j : ℕ)
    → i < j
    → j < 2
    → is_above (order (9 ∷ []) (key_of (id_at i))) ≡ false
    → is_below (order (9 ∷ []) (key_of (id_at j))) ≡ true
above_both zero (suc zero) lt lt' low = absurd (ground arith)
above_both i zero lt lt' low = absurd (omega arith)
above_both (suc i) (suc zero) lt lt' low = absurd (omega arith)
above_both i (suc (suc j)) lt lt' low = absurd (omega arith)

above_both-Ordered :
    Ordered
      (view stdio cold)
      256
      (rid_ptr_row_cmp rec_table store_table 1 (9 ∷ []) 1)
      (λ rid. order (9 ∷ []) (key_of rid))
      (Kept rec_table rec_laws store_table store_laws both)
      cold_leaf
unfolding cold_leaf
above_both-Ordered = record {
  computes =
      rid_ptr_row_cmp-Computes rec_table rec_laws store_table store_laws 1 both (9 ∷ []) key_of
        id_at 2 keys_known;
  strict = above_both;
}

not_there : (i : ℕ) → i < 2 → is_equal (order (9 ∷ []) (key_of (id_at i))) ≡ false
not_there zero lt = refl
not_there (suc zero) lt = refl
not_there (suc (suc i)) lt = absurd (omega arith)

myjql_del-absent_example :
    (pool' : BufferPool TreePage (Disk TreePage)) × (store' : Both) × (myjql_del rec_table
        store_table 1 stdio
        (9 ∷ [])
        1
        (record { pool = cold; store = both })
      ≡ some (tt, record { pool = pool'; store = store' }))
    × SamePages stdio cold pool'
    × Kept rec_table rec_laws store_table store_laws both store'
unfolding cold_leaf cold_tree view lookup
myjql_del-absent_example =
    myjql_del-absent rec_table rec_laws store_table store_laws stdio reliable 1 (9 ∷ []) key_of cold
      both zero 128 ctr cold_tree (omega arith) cold-IsValid cold-IsIdle (omega arith) refl refl
      above_both-Ordered both-IsStore
      (λ rid there.
        let (i, lt, at) = there in
        subst (λ z. is_equal (order (9 ∷ []) (key_of z)) ≡ false) at (not_there i lt))
