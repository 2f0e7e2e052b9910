-- ===== src/Tests/Search.antt =====
-- A tree of three nodes and searches in it.
use ds_my_sql.Base.{
  ℕ, zero, suc, ◌+◌, ◌%◌, subst, ◌≤◌, ◌<◌, ◌≡◌, some, arith, refl, true, false, ◌==◌, ltb,
  if◌then◌else◌, ℤ, pos, negsuc, minus_one, replicate,
}
use ds_my_sql.Base.State.{M}
use ds_my_sql.BufferPool.{Frame, BufferPool}
use ds_my_sql.BufferPool.Arrays.{count, lookup}
use ds_my_sql.BufferPool.View.{view, IsValid}
use ds_my_sql.BufferPool.Idle.{IsIdle}
use ds_my_sql.BTree.Pages.{TreePage}
use ds_my_sql.BTree.Index.{children}
use ds_my_sql.BTree.Search.{not_found, b_tree_search}
use ds_my_sql.BTree.Search.Shape.{Node, Tree, InTree, Guides, is_below}
use ds_my_sql.BTree.LowerBound.{is_above}
use ds_my_sql.BTree.Search.Descend.{Ends}
use ds_my_sql.BTree.Search.Finds.{b_tree_search-Ends}
use ds_my_sql.Rid.{Rid}
use ds_my_sql.Tests.Disk.{Disk, stdio, reliable}

abbrev row_of : ℕ → Rid
row_of n = record { block_addr = pos 0; idx = pos n }

abbrev ctr : TreePage
ctr = record {
  word = λ i. if i == 0 then pos 128 else minus_one;
  row = λ i. not_found;
  leaf = false;
}

abbrev top : TreePage
top = record {
  word = λ i.
      if i == 0 then pos 1 else if i == 3 then pos 256 else if i == 4 then pos 384 else minus_one;
  row = λ i. row_of 5;
  leaf = false;
}

abbrev leaf_of : ℕ → ℕ → TreePage
leaf_of a b = record {
  word = λ i. if i == 0 then pos 2 else minus_one;
  row = λ i. row_of (if i == 0 then a else b);
  leaf = true;
}

abbrev disk : Disk TreePage
disk = record {
  size = 512;
  page = λ a. some (
      if a == 0
      then ctr
      else if a == 128
      then top
      else if a == 256
      then leaf_of 1 2
      else leaf_of 5 9);
}

abbrev no_node : Frame TreePage
no_node = record { page = ctr; addr = minus_one; cnt = 1; ref = 0 }

abbrev cold : BufferPool TreePage (Disk TreePage)
cold = record { file = record { fp = disk; length = 512 }; frames = replicate 8 no_node }

cold-IsValid : IsValid stdio cold
unfolding count
cold-IsValid = record {
  aligned = refl;
  unique = λ a. ground arith;
  inside = (refl, (refl, (refl, (refl, (refl, (refl, (refl, (refl, tt))))))));
  readable = λ a al lt. (_, refl);
}

cold-IsIdle : (n : ℕ) → n < 100 → IsIdle n cold
cold-IsIdle n lt =
    let one : 1 + n < 18446744073709551616 = omega arith in
    record {
      idle = (
        refl,
        one,
        (
          refl,
          one,
          (refl, one, (refl, one, (refl, one, (refl, one, (refl, one, (refl, one, tt)))))),
        ),
      );
      some_frame = omega arith;
    }

-- The order of a key and a row, and the comparison, which counts its runs.
abbrev order_of : ℕ → Rid → ℤ
order_of key rid = elim rid.idx [
  | pos n ↦ if ltb n key then pos 1 else if ltb key n then minus_one else pos 0
  | negsuc n ↦ pos 1
]

abbrev compare : ℕ → ℕ → Rid → M ℕ ℤ
compare key size rid made = some (order_of key rid, made + 1)

unfoldable node_at :
    (a n : ℕ) (p : TreePage)
    → view stdio cold a ≡ some p
    → p.word 0 ≡ pos n
    → n ≤ 5
    → a % 128 ≡ 0
    → a < 512
    → Node (view stdio cold) 512 a
node_at a n p seen size small aligned inside = record {
  page = p;
  n = n;
  aligned = aligned;
  inside = inside;
  seen = seen;
  size = size;
  small = small;
}

unfoldable child_at :
    (i : ℕ) → i ≤ 1 → (b : ℕ) × (children top i ≡ pos b) × Tree (view stdio cold) 512 zero b
unfolding node_at view lookup
child_at zero le =
    (256, refl, (node_at 256 2 (leaf_of 1 2) refl refl (omega arith) refl (omega arith), refl))
child_at (suc zero) le =
    (384, refl, (node_at 384 2 (leaf_of 5 9) refl refl (omega arith) refl (omega arith), refl))
child_at (suc (suc i)) le = absurd (omega arith)

unfoldable cold_tree : Tree (view stdio cold) 512 1 128
unfolding child_at node_at view lookup
cold_tree =
    (node_at 128 1 top refl refl (omega arith) refl (omega arith), refl, omega arith, child_at)

Anything : ℕ → Type 0
Anything made = Unit

children_guide :
    (i : ℕ) (le : i ≤ 1)
    → Guides
        (view stdio cold)
        512
        (compare 9 4)
        (order_of 9)
        Anything
        zero
        (child_at i le).0
        ((child_at i le).2)
unfolding child_at node_at Anything
children_guide zero le = record {
  computes = λ i x lt h. (x + 1, refl, tt);
  strict = λ i j lt lt' low. ground arith;
}
children_guide (suc zero) le = record {
  computes = λ i x lt h. (x + 1, refl, tt);
  strict = λ i j lt lt' low. ground arith;
}
children_guide (suc (suc i)) le = absurd (omega arith)

children_apart :
    (i : ℕ) (le : i ≤ 1) (j : ℕ) (r : Rid)
    → j < 1
    → InTree (view stdio cold) 512 zero (child_at i le).0 ((child_at i le).2) r
    → (i ≤ j → is_below (order_of 9 (row_of 5)) ≡ false → is_above (order_of 9 r) ≡ true)
      × (j < i → is_below (order_of 9 (row_of 5)) ≡ true → is_below (order_of 9 r) ≡ true)
unfolding child_at node_at
children_apart zero le j r lt (m, below, at) = (
  λ le' e. subst (λ z. is_above (order_of 9 z) ≡ true) at (ground arith),
  λ lt'. absurd (omega arith),
)
children_apart (suc zero) le j r lt there =
    (λ le'. absurd (omega arith), λ lt' e. absurd (ground arith))
children_apart (suc (suc i)) le j r lt there = absurd (omega arith)

cold-Guides : Guides (view stdio cold) 512 (compare 9 4) (order_of 9) Anything 1 128 cold_tree
unfolding cold_tree node_at Anything
cold-Guides = (
  record { computes = λ i x lt h. (x + 1, refl, tt); strict = λ i j lt lt'. absurd (omega arith) },
  children_guide,
  children_apart,
)

b_tree_search-Ends_example :
    Ends stdio reliable compare 9 4
      (order_of 9)
      Anything
      cold
      1
      128
      cold_tree
      (b_tree_search stdio compare 2 9 4)
      cold
      0
unfolding Anything view lookup
b_tree_search-Ends_example =
    b_tree_search-Ends stdio reliable compare 9 4 (order_of 9) Anything cold 1 2 128 ctr 0 cold_tree
      (omega arith) cold-IsValid (cold-IsIdle 3 (omega arith)) (omega arith) refl refl cold-Guides
      tt
