-- ===== src/BTree/Search/Finds.antt =====
-- `b_tree_search` on a tree: it finds a row with the key, if there is one.
use ds_my_sql.Base.{
  ℕ, zero, suc, ◌<◌, ◌≡◌, ◌∙◌, inl, inr, ap, refl, sym, Bool-cases, some, arith, ◌==◌, ℤ, pos,
}
use ds_my_sql.Base.State.{M}
use ds_my_sql.FileIo.{Stdio, Reliable}
use ds_my_sql.BufferPool.{BufferPool, release}
use ds_my_sql.BufferPool.View.{view, IsValid}
use ds_my_sql.BufferPool.GetPage.{SamePages-trans}
use ds_my_sql.BufferPool.Idle.{IsIdle, get_page-Visits}
use ds_my_sql.BTree.Pages.{TreePage, root_node, load_word, release_node, get_node}
use ds_my_sql.BTree.Index.{count_rows}
use ds_my_sql.BTree.Search.{not_found, root_addr, b_tree_search}
use ds_my_sql.BTree.Search.Shape.{Tree, InTree, Guides, root_of}
use ds_my_sql.BTree.Search.Steps.{run_pool, load_word-pinned, count_rows-pinned, get_node-run}
use ds_my_sql.BTree.Search.Descend.{Visits-Pinned, Ends, descend-Ends}
use ds_my_sql.Rid.{Rid}

module _ {K X S Name : Type 0} (io : Stdio TreePage S Name) (r : Reliable io)
    (cmp : K → ℕ → Rid → M X ℤ) (key : K) (size : ℕ) (c : Rid → ℤ) (I : X → Type 0)
    (start : BufferPool TreePage S) where
  empty_tree :
      (d a : ℕ) (t : Tree (view io start) start.file.length d a) (rid : Rid)
      → (root_of (view io start) start.file.length d a t).n ≡ 0
      → InTree (view io start) start.file.length d a t rid
      → ⊥
  empty_tree zero a (h, leaf) rid e (i, lt, at) = absurd (omega arith)
  empty_tree (suc d) a (h, inner, full, child) rid e there = absurd (omega arith)

  root_run :
      (pool pool' : BufferPool TreePage S) (k a : ℕ)
      → get_node io (pos 0) pool ≡ some (k, pool')
      → load_word k root_node pool' ≡ some (pos a, pool')
      → root_addr io pool ≡ some (pos a, release pool' (pos 0))
  unfolding root_addr release_node
  root_run pool pool' k a got loaded = rw got (rw loaded refl)

  -- A search, on a stream without device errors, from a valid and idle pool whose page 0 names the
  -- root of a tree that the comparisons of the key guide through, and with fuel above the depth of
  -- the tree: it answers a row of a leaf that compares equal to the key, or, only if there is no such
  -- row, the row id that stands for none. It leaves a valid pool that stands for the same pages.
  pub b_tree_search-Ends :
      (d fuel a : ℕ) (ctr : TreePage) (x : X) (t : Tree (view io start) start.file.length d a)
      → d < fuel
      → IsValid io start
      → IsIdle (suc (suc d)) start
      → 0 < start.file.length
      → view io start 0 ≡ some ctr
      → ctr.word root_node ≡ pos a
      → Guides (view io start) start.file.length (cmp key size) c I d a t
      → I x
      → Ends io r cmp key size c I start d a t (b_tree_search io cmp fuel key size) start x
  unfolding b_tree_search release_node
  b_tree_search-Ends d fuel a ctr x t lt valid idle has_page ctr_page root guides known =
      let vis₀ = get_page-Visits io r (suc d) start 0 valid idle refl has_page in
      let pool₁ = release vis₀.pool' (pos 0) in
      let e : some vis₀.page ≡ some ctr = sym (vis₀.seen) ∙ ctr_page in
      let e' : vis₀.page.word root_node ≡ pos a = ground (arith, e, root) in
      let loaded =
        load_word-pinned io vis₀.pool' vis₀.k 0 vis₀.page vis₀.pinned root_node (omega arith)
        ∙ ap (λ z. some (z, vis₀.pool')) e' in
      let rooted =
        root_run start vis₀.pool' vis₀.k a
          (get_node-run io start (pos 0) vis₀.pool' vis₀.k vis₀.run) loaded in
      let h = root_of (view io start) start.file.length d a t in
      let same = vis₀.released in
      let vis =
        get_page-Visits io r d pool₁ a (same.valid) (vis₀.is_idle) (h.aligned)
          (rw (same.length) (h.inside)) in
      let pin = Visits-Pinned io r cmp key size c I start d a pool₁ vis h same in
      let counted = count_rows-pinned io vis.pool' vis.k a h.page pin h.n h.size h.small in
      let got = get_node-run io pool₁ (pos a) vis.pool' vis.k vis.run in
      let (rid, pool', x', run, same', known', outcome) =
        descend-Ends io r cmp key size c I start d fuel a pool₁ vis x t lt same guides known in
      elim (Bool-cases (h.n == 0)) [
        | inl y ↦ (
          not_found,
          release vis.pool' (pos a),
          x,
          rw (run_pool (root_addr io) start x (pos a) pool₁ rooted) (
              rw (run_pool (get_node io (pos a)) pool₁ x vis.k vis.pool' got) (
                rw (run_pool (count_rows vis.k) vis.pool' x h.n vis.pool' counted) (
                  rw y (
                    rw
                      (run_pool (release_node (pos a)) vis.pool' x tt (release vis.pool' (pos a))
                        refl)
                      refl)))),
          SamePages-trans io start pool₁ (release vis.pool' (pos a)) same vis.released,
          known,
          inr (refl, λ r' there. absurd (empty_tree d a t r' (ground arith) there)),
        )
        | inr y ↦ (
          rid,
          pool',
          x',
          rw (run_pool (root_addr io) start x (pos a) pool₁ rooted) (
              rw (run_pool (get_node io (pos a)) pool₁ x vis.k vis.pool' got)
                (rw (run_pool (count_rows vis.k) vis.pool' x h.n vis.pool' counted) (rw y run))),
          same',
          known',
          outcome,
        )
      ]
