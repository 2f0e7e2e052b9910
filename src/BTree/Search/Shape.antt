-- ===== src/BTree/Search/Shape.antt =====
-- The pages of a tree of b_tree.c, as a pool stands for them, and what `b_tree_search` relies on.
use ds_my_sql.Base.{
  ℕ, zero, suc, ◌%◌, ◌≤◌, ◌<◌, ◌≡◌, ◌⊎◌, Bool, true, false, Option, some, ℤ, pos, ltb_ℤ, eq_ℤ,
}
use ds_my_sql.Base.State.{M}
use ds_my_sql.FileIo.{page_size}
use ds_my_sql.BTree.Pages.{TreePage, node_n}
use ds_my_sql.BTree.Index.{max_rows, children}
use ds_my_sql.BTree.LowerBound.{is_above, Computes}
use ds_my_sql.BTree.Search.{not_found}
use ds_my_sql.Rid.{Rid}

-- `cmp(…) < 0` and `cmp(…) == 0`
abbrev pub is_below : ℤ → Bool
is_below c = ltb_ℤ c (pos 0)

abbrev pub is_equal : ℤ → Bool
is_equal c = eq_ℤ c (pos 0)

module _ (v : ℕ → Option TreePage) (len : ℕ) where
  -- A page of the file that is a node.
  pub record Node (a : ℕ) : Type 0 where
    pub page : TreePage
    pub n : ℕ
    pub aligned : a % page_size ≡ 0
    pub inside : a < len
    pub seen : v a ≡ some page
    pub size : page.word node_n ≡ pos n
    pub small : n ≤ max_rows

  -- A tree of depth `d` with its root at `a`.
  abbrev pub Tree : ℕ → ℕ → Type 0
  Tree zero a = (h : Node a) × (h.page.leaf ≡ true)
  Tree (suc d) a =
      (h : Node a) × (h.page.leaf ≡ false)
      × (0 < h.n)
      × ((i : ℕ) → i ≤ h.n → (b : ℕ) × (children h.page i ≡ pos b) × Tree d b)

  abbrev pub root_of : (d a : ℕ) → Tree d a → Node a
  root_of zero a (h, leaf) = h
  root_of (suc d) a (h, inner, full, child) = h

  -- The row stands in a leaf.
  abbrev pub InTree : (d a : ℕ) → Tree d a → Rid → Type 0
  InTree zero a (h, leaf) r = (i : ℕ) × (i < h.n) × (h.page.row i ≡ r)
  InTree (suc d) a (h, inner, full, child) r =
      (i : ℕ) × (le : i ≤ h.n) × InTree d (child i le).0 ((child i le).2) r

  module _ {X : Type 0} (cmp : Rid → M X ℤ) (c : Rid → ℤ) (I : X → Type 0) where
    -- In a store as `I` says, the run `cmp` answers `c` of each row of a node; and the key is below
    -- every row behind one that it is not above.
    pub record Ordered {a : ℕ} (h : Node a) : Type 0 where
      pub computes : Computes cmp c I h.page.row h.n
      pub strict :
          (i j : ℕ)
          → i < j
          → j < h.n
          → is_above (c (h.page.row i)) ≡ false
          → is_below (c (h.page.row j)) ≡ true

    -- The rows of the inner nodes separate those below them: the key is above what stands before a
    -- row that it is not below, and below what stands behind a row that it is below.
    abbrev pub Guides : (d a : ℕ) → Tree d a → Type 0
    Guides zero a (h, leaf) = Ordered h
    Guides (suc d) a (h, inner, full, child) =
        Ordered h
        × ((i : ℕ) (le : i ≤ h.n) → Guides d (child i le).0 ((child i le).2))
        × ((i : ℕ) (le : i ≤ h.n) (j : ℕ) (r : Rid)
            → j < h.n
            → InTree d (child i le).0 ((child i le).2) r
            → (i ≤ j → is_below (c (h.page.row j)) ≡ false → is_above (c r) ≡ true)
              × (j < i → is_below (c (h.page.row j)) ≡ true → is_below (c r) ≡ true))

    -- Either a row of the tree with the key; or no row has it.
    abbrev pub Outcome : (d a : ℕ) → Tree d a → Rid → Type 0
    Outcome d a t rid =
        (InTree d a t rid × (is_equal (c rid) ≡ true))
        ⊎ ((rid ≡ not_found) × ((r : Rid) → InTree d a t r → is_equal (c r) ≡ false))
