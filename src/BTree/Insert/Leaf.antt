-- ===== src/BTree/Insert/Leaf.antt =====
-- `b_tree_insert` at a leaf that has room.
use ds_my_sql.Base.{
  ℕ, suc, ◌+◌, ◌%◌, ◌≤◌, ◌<◌, ◌≡◌, ◌≢◌, ◌∙◌, get_elem?, get_elem?-lt, get_elem?-set_self, Bool,
  true, false, some, arith, ◌==◌, if◌then◌else◌, ℤ, pos, refl, ap,
}
use ds_my_sql.Base.State.{M}
use ds_my_sql.FileIo.{page_size, Stdio}
use ds_my_sql.BufferPool.{Frame, BufferPool, assign, release}
use ds_my_sql.BufferPool.View.{view, IsValid}
use ds_my_sql.BufferPool.Clients.{assign-view, release-unpins}
use ds_my_sql.BufferPool.GetPage.{Pinned}
use ds_my_sql.BTree.Pages.{TreePage, node_n, tree_page, release_node}
use ds_my_sql.BTree.Arrays.{insert_at}
use ds_my_sql.BTree.Arrays.Insertion.{insert_at-with_entry}
use ds_my_sql.BTree.Index.{max_rows, update, count_rows, with_n, with_rows}
use ds_my_sql.BTree.LowerBound.{lower_bound_rr, Computes, lower_bound_rr-Splits}
use ds_my_sql.BTree.Search.{equals_at}
use ds_my_sql.BTree.Search.Steps.{
  run_pool, run_store, deref_pinned, tree_page-pinned, count_rows-pinned, equals_at-Hits,
}
use ds_my_sql.BTree.Ordered.{IsOrder, IsOrdered, IsOrdered-IsSorted, insert_at-IsOrdered}
use ds_my_sql.BTree.Insert.{add_row, insert_row, insert_below}
use ds_my_sql.Rid.{Rid}

-- A leaf with the row at index `r`.
abbrev with_row : TreePage → ℕ → ℕ → Rid → TreePage
with_row page n r rid = with_n (n + 1) (with_rows (insert_at page.row n r rid) page)

-- `page'` is the leaf `page` of `n` rows with one more row, `rid`: the rows before index `r` and the
-- words but the count stand where they stood, and the rows from `r` on one further on.
pub record HasRowAt (page page' : TreePage) (n r : ℕ) (rid : Rid) : Type 0 where
  pub same_leaf : page'.leaf ≡ page.leaf
  pub count : page'.word node_n ≡ pos (n + 1)
  pub words : (j : ℕ) → j ≢ node_n → page'.word j ≡ page.word j
  pub before : (i : ℕ) → i < r → page'.row i ≡ page.row i
  pub at : page'.row r ≡ rid
  pub behind : (i : ℕ) → r ≤ i → i < n → page'.row (i + 1) ≡ page.row i

with_row-HasRowAt :
    (page : TreePage) (n r : ℕ) (rid : Rid) → r ≤ n → HasRowAt page (with_row page n r rid) n r rid
with_row-HasRowAt page n r rid le = record {
  same_leaf = refl;
  count = refl;
  words = λ j ne. ground arith;
  before = λ i lt. insert_at-with_entry page.row n r rid i le ∙ ground arith;
  at = insert_at-with_entry page.row n r rid r le ∙ ground arith;
  behind = λ i le' lt. insert_at-with_entry page.row n r rid (i + 1) le ∙ ground arith;
}

module _ {S Name : Type 0} (io : Stdio TreePage S Name) where
  update-Pinned :
      (pool : BufferPool TreePage S) (a k : ℕ) (page : TreePage) (f : TreePage → TreePage)
      → Pinned io pool k a page
      → update k f pool ≡ some (tt, assign pool k (f page))
  unfolding update
  update-Pinned pool a k page f pin = rw (deref_pinned io pool k a page pin, update) refl

  add_row-Pinned :
      (pool : BufferPool TreePage S) (a k n r : ℕ) (page : TreePage) (rid : Rid)
      → Pinned io pool k a page
      → add_row io (pos a) k n r rid pool
        ≡ some (tt, release (assign pool k (with_row page n r rid)) (pos a))
  unfolding add_row release_node
  add_row-Pinned pool a k n r page rid pin =
      rw
        (update-Pinned pool a k page (λ p. with_n (n + 1) (with_rows (insert_at p.row n r rid) p))
          pin)
        refl

  -- A write of the pinned page, and its release.
  written :
      (pool : BufferPool TreePage S) (a k : ℕ) (page page' : TreePage)
      → IsValid io pool
      → Pinned io pool k a page
      → IsValid io (release (assign pool k page') (pos a))
        × ((b : ℕ)
            → b % page_size ≡ 0
            → b < pool.file.length
            → view io (release (assign pool k page') (pos a)) b
              ≡ (if a == b then some page' else view io pool b))
  unfolding assign
  written pool a k page page' v (f, at, addr, ref, p) =
      let (v', pages) = assign-view io pool k a f page' v at addr in
      let (same, frame) =
        release-unpins io (assign pool k page') a k (record f { page = page' }) v'
          (assign-at pool k f page' at) in
      (same.valid, λ b al lt. same.pages b al (rw (assign-length pool k page') lt) ∙ pages b)
    where
      assign-length :
          (pool : BufferPool TreePage S) (k : ℕ) (p : TreePage)
          → (assign pool k p).file.length ≡ pool.file.length
      assign-length pool k p = ground arith

      assign-at :
          (pool : BufferPool TreePage S) (k : ℕ) (f : Frame TreePage) (p : TreePage)
          → get_elem? pool.frames k ≡ some f
          → get_elem? (assign pool k p).frames k ≡ some (record f { page = p })
      assign-at pool k f p at = ground (
        arith,
        get_elem?-set_self pool.frames k (record f { page = p }) (get_elem?-lt pool.frames k at),
      )

taken : {T A : Type 0} (b : Bool) (m m' : M T A) (t : T) → b ≡ true → (if b then m else m') t ≡ m t
taken b m m' t e = ap (λ b'. (if b' then m else m') t) e

module _ {X S Name : Type 0} (io : Stdio TreePage S Name) (cmp : Rid → Rid → M X ℤ)
    (insert_handler : Rid → M X Rid) (c : Rid → Rid → ℤ) (I : X → Type 0) (order : IsOrder c) where
  -- At a leaf of less than five rows, which are in order and which the comparisons of the new row run
  -- with, in a pinned frame of a valid pool: the insertion ends, writes a page that is the leaf with
  -- the row put in at one index, the other rows kept in their order and the count one higher, and
  -- releases it. The rows are in order again, and the pool stands for that page at the address of the
  -- leaf and for the same page at every other address.
  pub insert_below-leaf :
      (depth fuel a k n : ℕ) (pool : BufferPool TreePage S) (x : X) (page : TreePage) (rid : Rid)
      → IsValid io pool
      → Pinned io pool k a page
      → page.leaf ≡ true
      → page.word node_n ≡ pos n
      → n < max_rows
      → Computes (cmp rid) (c rid) I page.row n
      → IsOrdered c page.row n
      → I x
      → (r : ℕ) × (page' : TreePage) × (x' : X) × (insert_below io cmp insert_handler depth
            (suc fuel)
            rid
            (pos a)
            k
            (record { pool = pool; store = x })
          ≡ some (tt, record { pool = release (assign pool k page') (pos a); store = x' }))
        × I x'
        × (r ≤ n)
        × HasRowAt page page' n r rid
        × IsOrdered c page'.row (n + 1)
        × IsValid io (release (assign pool k page') (pos a))
        × ((b : ℕ)
            → b % page_size ≡ 0
            → b < pool.file.length
            → view io (release (assign pool k page') (pos a)) b
              ≡ (if a == b then some page' else view io pool b))
  unfolding insert_below insert_row
  insert_below-leaf depth fuel a k n pool x page rid v pin leaf count room computes ordered known =
      let (r, x₁, found, known₁, splits) =
        lower_bound_rr-Splits cmp (c rid) I page.row n rid x computes
          (IsOrdered-IsSorted c order page.row n ordered rid) known in
      let (hit, x₂, equal, known₂, hits) =
        equals_at-Hits (cmp rid) (c rid) I page.row n r x₁ computes splits.within known₁ in
      let some_room : (n == max_rows) ≡ false = ground arith in
      let page' : TreePage = with_row page n r rid in
      let (valid, pages) = written io pool a k page page' v pin in
      (
        r,
        page',
        x₂,
        rw (run_pool (tree_page k) pool x page pool (tree_page-pinned io pool k a page pin)) (
            rw
              (run_pool (count_rows k) pool x n pool
                (count_rows-pinned io pool k a page pin n count (omega arith)))
              (rw (run_store (lower_bound_rr cmp page.row n rid) pool x r x₁ found) (
                rw (run_store (equals_at (cmp rid) page.row n r) pool x₁ hit x₂ equal) (
                  taken page.leaf _ _ _ leaf
                  ∙ rw some_room (
                      run_pool (add_row io (pos a) k n r rid) pool x₂ tt _
                        (add_row-Pinned io pool a k n r page rid pin)))))),
        known₂,
        splits.within,
        with_row-HasRowAt page n r rid splits.within,
        insert_at-IsOrdered c order page.row n ordered rid r splits,
        valid,
        pages,
      )
