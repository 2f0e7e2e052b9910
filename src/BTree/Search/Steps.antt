-- ===== src/BTree/Search/Steps.antt =====
-- The steps of `b_tree_search` at a node: the reads of its page, and where its rows send the search.
use ds_my_sql.Base.{
  ℕ, ◌+◌, ◌≤◌, ◌<◌, ◌≡◌, ◌⊎◌, inl, inr, refl, sym, Bool, true, false, Option, some, arith,
  Bool-cases, ◌==◌, ltb, if◌then◌else◌, ℤ, pos,
}
use ds_my_sql.Base.State.{M}
use ds_my_sql.FileIo.{Stdio}
use ds_my_sql.BufferPool.{BufferPool, deref, get_page}
use ds_my_sql.BufferPool.GetPage.{Pinned}
use ds_my_sql.BTree.Pages.{TreePage, node_n, tree_page, load_word, get_node}
use ds_my_sql.BTree.Index.{max_rows, on_pool, on_store, count_rows}
use ds_my_sql.BTree.LowerBound.{Computes, Splits}
use ds_my_sql.BTree.Search.{equals_at}
use ds_my_sql.BTree.Search.Shape.{is_below, is_equal, Node, Ordered}
use ds_my_sql.Rid.{Rid}

module _ {X S : Type 0} where
  pub run_pool :
      {A : Type 0} (m : M (BufferPool TreePage S) A) (pool : BufferPool TreePage S) (x : X) (a : A)
      (pool' : BufferPool TreePage S)
      → m pool ≡ some (a, pool')
      → on_pool m (record { pool = pool; store = x }) ≡ some (a, record { pool = pool'; store = x })
  unfolding on_pool
  run_pool m pool x a pool' e = rw (e, on_pool) refl

  pub run_store :
      {A : Type 0} (m : M X A) (pool : BufferPool TreePage S) (x : X) (a : A) (x' : X)
      → m x ≡ some (a, x')
      → on_store m (record { pool = pool; store = x })
        ≡ some (a, record { pool = pool; store = x' })
  unfolding on_store
  run_store m pool x a x' e = rw (e, on_store) refl

module _ {S Name : Type 0} (io : Stdio TreePage S Name) where
  pub get_node-run :
      (pool : BufferPool TreePage S) (addr : ℤ) (pool' : BufferPool TreePage S) (k : ℕ)
      → get_page io pool addr ≡ (pool', some k)
      → get_node io addr pool ≡ some (k, pool')
  unfolding get_node
  get_node-run pool addr pool' k e = ground arith

-- The child that a search turns to.
abbrev pub turn : ℕ → Bool → ℕ
turn i hit = if hit then i + 1 else i

-- The reads of a page that is pinned in frame `k`.
module _ {S Name : Type 0} (io : Stdio TreePage S Name) (pool : BufferPool TreePage S) (k a : ℕ)
    (page : TreePage) (pin : Pinned io pool k a page) where
  pub deref_pinned : deref pool k ≡ some page
  unfolding deref
  deref_pinned = let (f, at, addr, ref, e) = pin in ground (arith, at, e)

  pub tree_page-pinned : tree_page k pool ≡ some (page, pool)
  unfolding tree_page
  tree_page-pinned = rw (deref_pinned, tree_page) refl

  pub load_word-pinned : (i : ℕ) → i < 9 → load_word k i pool ≡ some (page.word i, pool)
  unfolding load_word
  load_word-pinned i lt =
      let inside : ltb i 9 ≡ true = ground arith in rw inside (rw (deref_pinned) refl)

  pub count_rows-pinned :
      (n : ℕ) → page.word node_n ≡ pos n → n ≤ max_rows → count_rows k pool ≡ some (n, pool)
  unfolding count_rows
  count_rows-pinned n e le =
      let low : ltb max_rows n ≡ false = ground arith in
      rw (load_word-pinned node_n (omega arith)) (rw e (rw low refl))

module _ {X : Type 0} (cmp : Rid → M X ℤ) (c : Rid → ℤ) (I : X → Type 0) where
  -- Whether row `i` has the key.
  abbrev pub Hits : (ℕ → Rid) → ℕ → ℕ → Bool → Type 0
  Hits row n i hit =
      ((hit ≡ true) × (i < n) × (is_equal (c (row i)) ≡ true))
      ⊎ ((hit ≡ false) × (i < n → is_equal (c (row i)) ≡ false))

  pub equals_at-Hits :
      (row : ℕ → Rid) (n i : ℕ) (x : X)
      → Computes cmp c I row n
      → i ≤ n
      → I x
      → (hit : Bool) × (x' : X) × (equals_at cmp row n i x ≡ some (hit, x'))
        × I x'
        × Hits row n i hit
  unfolding equals_at
  equals_at-Hits row n i x computes le h = elim (Bool-cases (i == n)) [
    | inl e ↦ (false, x, rw e refl, h, inr (refl, λ lt. absurd (ground arith)))
    | inr e ↦
        let lt : i < n = ground arith in
        let (x', run, h') = computes i x lt h in
        elim (Bool-cases (is_equal (c (row i)))) [
          | inl y ↦ (true, x', rw e (rw run (rw y refl)), h', inl (refl, lt, y))
          | inr y ↦ (false, x', rw e (rw run (rw y refl)), h', inr (refl, λ _. y))
        ]
  ]

  -- Of a search within a node: where its rows say that the key is.
  module _ {v : ℕ → Option TreePage} {len a : ℕ} (h : Node v len a) (o : Ordered v len cmp c I h)
      (i : ℕ) (hit : Bool) (s : Splits c h.page.row h.n i) (q : Hits h.page.row h.n i hit) where
    pub equal_or : hit ≡ false → (j : ℕ) → j < h.n → is_equal (c (h.page.row j)) ≡ false
    equal_or e j lt = elim (Bool-cases (ltb j i)) [
      | inl before ↦ let above = s.above j (ground arith) in ground (arith, above)
      | inr behind ↦ elim (Bool-cases (i == j)) [
        | inl same ↦
            let same' : i ≡ j = ground arith in
            elim q [
              | inl y ↦ absurd (ground (arith, y.0))
              | inr y ↦ rw (sym same') (y.1 (omega arith))
            ]
        | inr other ↦
            let below =
              o.strict i j (ground arith) lt (s.not_above i (omega arith) (ground arith)) in
            ground (arith, below)
      ]
    ]

    pub turn-within : turn i hit ≤ h.n
    turn-within = elim q [ inl y ↦ rw (y.0) (omega (arith, y.1)) | inr y ↦ rw (y.0) (s.within) ]

    pub before_turn : (j : ℕ) → j + 1 ≡ turn i hit → is_below (c (h.page.row j)) ≡ false
    before_turn j e = elim q [
      | inl y ↦ let same : j ≡ i = ground (arith, y.0) in rw same (ground (arith, y.2))
      | inr y ↦ let above = s.above j (ground (arith, y.0)) in ground (arith, above)
    ]

    pub at_turn : turn i hit < h.n → is_below (c (h.page.row (turn i hit))) ≡ true
    at_turn lt = elim q [
      | inl y ↦
          let e : turn i hit ≡ i + 1 = ground (arith, y.0) in
          rw e (o.strict i (i + 1) (omega arith) (omega arith) (ground (arith, y.2)))
      | inr y ↦
          let e : turn i hit ≡ i = ground (arith, y.0) in
          let lt' : i < h.n = omega arith in
          let low = s.not_above i (omega arith) lt' in
          let other = y.1 lt' in rw e (ground (arith, low, other))
    ]
