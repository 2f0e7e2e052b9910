-- ===== src/Tests/Insertion.antt =====
-- The insertion of a row into a leaf of two rows.
use ds_my_sql.Base.{
  ℕ, ◌+◌, ◌*◌, ◌%◌, ◌<◌, ◌≤◌, ◌≡◌, some, arith, refl, true, ◌==◌, ltb, if◌then◌else◌, ℤ, pos,
  negsuc, minus_one, [], ◌∷◌,
}
use ds_my_sql.Base.State.{M, pure}
use ds_my_sql.BufferPool.{BufferPool, assign, release}
use ds_my_sql.FileIo.{page_size}
use ds_my_sql.BufferPool.Arrays.{count}
use ds_my_sql.BufferPool.View.{view, IsValid}
use ds_my_sql.BTree.Pages.{TreePage}
use ds_my_sql.BTree.Ordered.{IsOrder, IsOrdered}
use ds_my_sql.BTree.Insert.{insert_below}
use ds_my_sql.BTree.Insert.Leaf.{HasRowAt, insert_below-leaf}
use ds_my_sql.Rid.{Rid}
use ds_my_sql.Tests.Disk.{Disk, stdio}

abbrev row_of : ℕ → Rid
row_of n = record { block_addr = pos 0; idx = pos n }

abbrev key_of : Rid → ℕ
key_of rid = elim rid.idx [ pos n ↦ n | negsuc n ↦ 0 ]

abbrev order_of : Rid → Rid → ℤ
order_of a b =
    if ltb (key_of b) (key_of a) then pos 1 else if key_of a == key_of b then pos 0 else minus_one

order_of-IsOrder : IsOrder order_of
order_of-IsOrder = record {
  reflexive = λ a. ground arith;
  total = λ a b h. ground arith;
  transitive = λ a b d h h'. ground arith;
}

-- The comparison counts its runs.
abbrev compare : Rid → Rid → M ℕ ℤ
compare a b made = some (order_of a b, made + 1)

abbrev leaf : TreePage
leaf = record {
  word = λ i. if i == 0 then pos 2 else minus_one;
  row = λ i. row_of (10 * i);
  leaf = true;
}

abbrev pool : BufferPool TreePage (Disk TreePage)
pool = record {
  file = record { fp = record { size = 256; page = λ a. some leaf }; length = 256 };
  frames = record { page = leaf; addr = pos 128; cnt = 1; ref = 1 } ∷ [];
}

pool-IsValid : IsValid stdio pool
unfolding count
pool-IsValid = record {
  aligned = refl;
  unique = λ a. ground arith;
  inside = ((refl, omega arith), tt);
  readable = λ a al lt. (leaf, refl);
}

insert_below-leaf_example :
    (r : ℕ) × (page' : TreePage) × (x' : ℕ) × (insert_below stdio compare
        (λ rid. pure rid)
        3
        1
        (row_of 4)
        (pos 128)
        0
        (record { pool = pool; store = 0 })
      ≡ some (tt, record { pool = release (assign pool 0 page') (pos 128); store = x' }))
    × Unit {0}
    × (r ≤ 2)
    × HasRowAt leaf page' 2 r (row_of 4)
    × IsOrdered order_of page'.row 3
    × IsValid stdio (release (assign pool 0 page') (pos 128))
    × ((b : ℕ)
        → b % page_size ≡ 0
        → b < 256
        → view stdio (release (assign pool 0 page') (pos 128)) b
          ≡ (if 128 == b then some page' else view stdio pool b))
insert_below-leaf_example =
    insert_below-leaf stdio compare (λ rid. pure rid) order_of (λ made. Unit) order_of-IsOrder 3 0
      128 0 2 pool 0 leaf (row_of 4) pool-IsValid (_, refl, refl, refl, refl) refl refl
      (omega arith) (λ i made lt h. (made + 1, refl, tt)) (λ i j le lt. ground arith) tt
