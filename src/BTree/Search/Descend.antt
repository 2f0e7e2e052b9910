-- ===== src/BTree/Search/Descend.antt =====
-- `descend` from the root of a tree.
use ds_my_sql.Base.{
  ℕ, zero, suc, ◌+◌, ◌≤◌, ◌<◌, ◌≡◌, ◌∙◌, inl, inr, ap, refl, sym, Bool, true, false, Option, some,
  arith, Bool-cases, ◌==◌, if◌then◌else◌, ℤ, pos,
}
use ds_my_sql.Base.State.{M, ◌>>=◌, ◌>>◌, pure}
use ds_my_sql.FileIo.{Stdio, Reliable}
use ds_my_sql.BufferPool.{BufferPool, get_page, release}
use ds_my_sql.BufferPool.View.{view, SamePages}
use ds_my_sql.BufferPool.GetPage.{Pinned, SamePages-trans}
use ds_my_sql.BufferPool.Idle.{Visits, get_page-Visits}
use ds_my_sql.BTree.Pages.{TreePage, node_child, tree_page, load_word, release_node, get_node}
use ds_my_sql.BTree.Index.{Index, children, on_pool, count_rows}
use ds_my_sql.BTree.LowerBound.{is_above, Splits, lower_bound_pr, lower_bound_pr-Splits}
use ds_my_sql.BTree.Search.{not_found, equals_at, step_down, descend}
use ds_my_sql.BTree.Search.Shape.{Node, Tree, Ordered, Guides, Outcome, root_of}
use ds_my_sql.BTree.Search.Steps.{
  run_pool, run_store, tree_page-pinned, load_word-pinned, count_rows-pinned, Hits, equals_at-Hits,
  turn, turn-within, get_node-run,
}
use ds_my_sql.BTree.Search.Outcomes.{leaf-Outcome, inner-Outcome}
use ds_my_sql.Rid.{Rid}

module _ {K X S Name : Type 0} (io : Stdio TreePage S Name) (r : Reliable io)
    (cmp : K → ℕ → Rid → M X ℤ) (key : K) (size : ℕ) (c : Rid → ℤ) (I : X → Type 0)
    (start : BufferPool TreePage S) where
  abbrev pub pages : ℕ → Option TreePage
  pages = view io start

  abbrev pub len : ℕ
  len = start.file.length

  -- From a leaf or an inner node, with its page read and its rows searched.
  abbrev go_on : ℕ → ℕ → ℕ → TreePage → ℕ → Bool → M (Index X S) Rid
  go_on fuel a k page i hit =
      if page.leaf
      then (do on_pool (release_node (pos a)); pure (if hit then page.row i else not_found))
      else (do
        (child, node') ← on_pool (step_down io (pos a) k (if hit then i + 1 else i))
        descend io cmp fuel key size child node')

  -- The search within a node.
  record Reads (fuel a k : ℕ) (pool : BufferPool TreePage S) (x : X) (h : Node pages len a)
      : Type 0 where
    i : ℕ
    hit : Bool
    x' : X
    kept : I x'
    splits : Splits c h.page.row h.n i
    hits : Hits (cmp key size) c I h.page.row h.n i hit
    run :
        descend io cmp (suc fuel) key size (pos a) k (record { pool = pool; store = x })
        ≡ go_on fuel a k h.page i hit (record { pool = pool; store = x' })

  sorted :
      (a : ℕ) (h : Node pages len a)
      → Ordered pages len (cmp key size) c I h
      → (i j : ℕ) → i ≤ j
      → j < h.n
      → is_above (c (h.page.row j)) ≡ true
      → is_above (c (h.page.row i)) ≡ true
  sorted a h o i j le lt above = elim (Bool-cases (is_above (c (h.page.row i)))) [
    | inl y ↦ y
    | inr y ↦ elim (Bool-cases (i == j)) [
      | inl same ↦ let same' : i ≡ j = ground arith in rw same' above
      | inr other ↦ let below = o.strict i j (ground arith) lt y in absurd (ground (arith, below))
    ]
  ]

  descend-Reads :
      (fuel a k : ℕ) (pool : BufferPool TreePage S) (x : X) (h : Node pages len a)
      → Pinned io pool k a h.page
      → Ordered pages len (cmp key size) c I h
      → I x
      → Reads fuel a k pool x h
  unfolding descend
  descend-Reads fuel a k pool x h pin o known =
      let (i, x₁, found, known₁, splits) =
        lower_bound_pr-Splits cmp c I h.page.row h.n key size x (o.computes) (sorted a h o) known in
      let (hit, x₂, equal, known₂, hits) =
        equals_at-Hits (cmp key size) c I h.page.row h.n i x₁ (o.computes) (splits.within) known₁ in
      record {
        i = i;
        hit = hit;
        x' = x₂;
        kept = known₂;
        splits = splits;
        hits = hits;
        run =
            rw (run_pool (tree_page k) pool x h.page pool (tree_page-pinned io pool k a h.page pin))
              (rw
                (run_pool (count_rows k) pool x h.n pool
                  (count_rows-pinned io pool k a h.page pin h.n h.size h.small))
                (rw (run_store (lower_bound_pr cmp h.page.row h.n key size) pool x i x₁ found) (
                  rw (run_store (equals_at (cmp key size) h.page.row h.n i) pool x₁ hit x₂ equal)
                    refl)));
      }

  -- The page of a visit is the node's.
  pub Visits-Pinned :
      (n a : ℕ) (pool : BufferPool TreePage S) (vis : Visits io n pool a) (h : Node pages len a)
      → SamePages io start pool
      → Pinned io vis.pool' vis.k a h.page
  Visits-Pinned n a pool vis h same =
      let (f, at, addr, ref, page) = vis.pinned in
      let e : some vis.page ≡ some h.page =
        sym (vis.seen) ∙ same.pages a h.aligned h.inside ∙ h.seen in
      let e' : vis.page ≡ h.page = ground (arith, e) in (f, at, addr, ref, page ∙ e')

  -- A run from the visit of a node that answers as it should.
  abbrev pub Ends :
      (d a : ℕ) → Tree pages len d a → M (Index X S) Rid → BufferPool TreePage S → X → Type 0
  Ends d a t m pool x =
      (rid : Rid) × (pool' : BufferPool TreePage S) × (x' : X) × (m
          (record { pool = pool; store = x })
        ≡ some (rid, record { pool = pool'; store = x' }))
      × SamePages io start pool'
      × I x'
      × Outcome pages len (cmp key size) c I d a t rid

  leaf_end :
      (fuel a k : ℕ) (pool : BufferPool TreePage S) (x : X) (page : TreePage) (i : ℕ) (hit : Bool)
      → page.leaf ≡ true
      → go_on fuel a k page i hit (record { pool = pool; store = x })
        ≡ some (
          if hit then page.row i else not_found,
          record { pool = release pool (pos a); store = x },
        )
  unfolding release_node
  leaf_end fuel a k pool x page i hit leaf =
      rw leaf (rw (run_pool (release_node (pos a)) pool x tt (release pool (pos a)) refl) refl)

  inner_end :
      (fuel a k : ℕ) (pool : BufferPool TreePage S) (x : X) (page : TreePage) (i : ℕ) (hit : Bool)
      (b : ℕ) (pool' : BufferPool TreePage S) (k' : ℕ)
      → page.leaf ≡ false
      → Pinned io pool k a page
      → turn i hit ≤ 5
      → children page (turn i hit) ≡ pos b
      → get_page io (release pool (pos a)) (pos b) ≡ (pool', some k')
      → go_on fuel a k page i hit (record { pool = pool; store = x })
        ≡ descend io cmp fuel key size (pos b) k' (record { pool = pool'; store = x })
  unfolding step_down release_node
  inner_end fuel a k pool x page i hit b pool' k' inner pin le e run =
      let j = if hit then i + 1 else i in
      let loaded : load_word k (node_child j) pool ≡ some (pos b, pool) =
        load_word-pinned io pool k a page pin (node_child j) (omega arith)
        ∙ ap (λ z. some (z, pool)) e in
      let got : get_node io (pos b) (release pool (pos a)) ≡ some (k', pool') =
        get_node-run io (release pool (pos a)) (pos b) pool' k' run in
      let stepped : step_down io (pos a) k j pool ≡ some ((pos b, k'), pool') =
        rw loaded (rw got refl) in
      rw inner (rw (run_pool (step_down io (pos a) k j) pool x (pos b, k') pool' stepped) refl)

  -- From the visit of the root of a tree on.
  pub descend-Ends :
      (d fuel a : ℕ) (pool : BufferPool TreePage S) (vis : Visits io d pool a) (x : X)
      (t : Tree pages len d a)
      → d < fuel
      → SamePages io start pool
      → Guides pages len (cmp key size) c I d a t
      → I x
      → Ends d a t (descend io cmp fuel key size (pos a) vis.k) vis.pool' x
  descend-Ends d zero a pool vis x t lt same guides known = absurd (omega arith)
  descend-Ends zero (suc fuel) a pool vis x (h, leaf) lt same guides known =
      let pin = Visits-Pinned zero a pool vis h same in
      let reads = descend-Reads fuel a vis.k vis.pool' x h pin guides known in
      (
        if reads.hit then h.page.row reads.i else not_found,
        release vis.pool' (pos a),
        reads.x',
        reads.run ∙ leaf_end fuel a vis.k vis.pool' reads.x' h.page reads.i reads.hit leaf,
        SamePages-trans io start pool (release vis.pool' (pos a)) same vis.released,
        reads.kept,
        leaf-Outcome pages len (cmp key size) c I a reads.i h leaf reads.hit guides reads.splits
            reads.hits,
      )
  descend-Ends (suc d) (suc fuel) a pool vis x (h, inner, full, child) lt same (o, guides, apart)
        known =
      let pin = Visits-Pinned (suc d) a pool vis h same in
      let reads = descend-Reads fuel a vis.k vis.pool' x h pin o known in
      let j = turn reads.i reads.hit in
      let le = turn-within (cmp key size) c I h o reads.i reads.hit reads.splits reads.hits in
      let (b, e, sub) = child j le in
      let same' = SamePages-trans io start pool (release vis.pool' (pos a)) same vis.released in
      let below = root_of pages len d b sub in
      let vis' =
        get_page-Visits io r d (release vis.pool' (pos a)) b (same'.valid) (vis.is_idle)
          (below.aligned) (rw (same'.length) (below.inside)) in
      let (rid, pool', x', run, same'', known', outcome) =
        descend-Ends d fuel b (release vis.pool' (pos a)) vis' reads.x' sub (omega arith) same'
          (guides j le) reads.kept in
      (
        rid,
        pool',
        x',
        reads.run
            ∙ inner_end fuel a vis.k vis.pool' reads.x' h.page reads.i reads.hit b vis'.pool' vis'.k
                inner pin (omega (arith, le, h.small)) e vis'.run
            ∙ run,
        same'',
        known',
        inner-Outcome pages len (cmp key size) c I d a h inner full child reads.i reads.hit le rid
            (o, guides, apart) reads.splits reads.hits outcome,
      )
