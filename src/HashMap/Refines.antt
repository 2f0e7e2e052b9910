-- ===== src/HashMap/Refines.antt =====
-- A word of a page through the cache: what `get`, `store` and `rel` do to the pages that it stands for.
use ds_my_sql.Base.{
  ℕ, ◌%◌, ◌<◌, ◌≡◌, ◌∙◌, ◌⊎◌, inl, inr, ap, refl, true, none, some, arith, ◌==◌, ltb, if◌then◌else◌,
  ℤ, pos, get_elem?, set, get_elem?-set_self, get_elem?-lt,
}
use ds_my_sql.Base.State.{◌>>=◌, ◌>>◌}
use ds_my_sql.FileIo.{page_size, Stdio, Reliable}
use ds_my_sql.BufferPool.{Frame, BufferPool, deref, assign, release, get_page}
use ds_my_sql.BufferPool.View.{view, IsValid}
use ds_my_sql.BufferPool.GetPage.{get_page-Answers}
use ds_my_sql.BufferPool.Clients.{assign-view, release-unpins}
use ds_my_sql.HashMap.Words.{Words, store, rel, get}

abbrev pub changed : Words → ℕ → ℤ → Words
changed p i v = λ j. if j == i then v else p j

module _ {S Name : Type 0} (io : Stdio Words S Name) where
  assign_at :
      (pool : BufferPool Words S) (k : ℕ) (f : Frame Words) (p : Words)
      → get_elem? pool.frames k ≡ some f
      → (get_elem? (assign pool k p).frames k ≡ some (record f { page = p }))
        × ((assign pool k p).file.length ≡ pool.file.length)
  unfolding assign
  assign_at pool k f p at =
      let lt = get_elem?-lt pool.frames k at in
      let whole : assign pool k p
          ≡ record pool { frames = set pool.frames k (record f { page = p }) } =
        ground arith in
      rw whole (get_elem?-set_self pool.frames k (record f { page = p }) lt, refl)

  run_store :
      (pool pool₁ : BufferPool Words S) (z : ℤ) (k i : ℕ) (v : ℤ) (f : Frame Words)
      → get_page io pool z ≡ (pool₁, some k)
      → get_elem? pool₁.frames k ≡ some f
      → i < 16
      → (get io z >>= λ k. store k i v >> rel z) pool
        ≡ some (tt, release (assign pool₁ k (changed f.page i v)) z)
  unfolding get store rel deref
  run_store pool pool₁ z k i v f e at lt =
      let in_page : ltb i 16 ≡ true = ground arith in
      let got : get io z pool ≡ some (k, pool₁) = ground arith in
      let stored : store k i v pool₁ ≡ some (tt, assign pool₁ k (changed f.page i v)) =
        ground arith in
      rw got (rw stored refl)

  -- On a stream without device errors, let `get`, a `store` to one of the 16 words and `rel` run at a
  -- page of the file of a valid pool. Either `get_page` answers NULL; or the run succeeds and leaves a
  -- valid pool over a file of the same length, which stands for the same pages but that the page at
  -- the address has the new value in that word.
  pub store-view :
      (r : Reliable io) (pool : BufferPool Words S) (a i : ℕ) (v : ℤ)
      → IsValid io pool
      → a % page_size ≡ 0
      → a < pool.file.length
      → i < 16
      → ((get_page io pool (pos a)).1 ≡ none)
        ⊎ ((pool' : BufferPool Words S) × (p : Words) × (view io pool a ≡ some p)
            × ((get io (pos a) >>= λ k. store k i v >> rel (pos a)) pool ≡ some (tt, pool'))
            × IsValid io pool'
            × (pool'.file.length ≡ pool.file.length)
            × ((b : ℕ)
                → b % page_size ≡ 0
                → b < pool.file.length
                → view io pool' b ≡ (if a == b then some (changed p i v) else view io pool b)))
  store-view r pool a i v valid al lt inside =
      let (same, answer) = get_page-Answers io r pool a valid al lt in
      let pool₁ : BufferPool Words S = (get_page io pool (pos a)).0 in
      elim answer [
        | inl n ↦ inl n
        | inr (k, p, out, seen, (f, at, addr, ref, page)) ↦
            let new = changed p i v in
            let pool₂ : BufferPool Words S = assign pool₁ k new in
            let (valid₂, view₂) = assign-view io pool₁ k a f new same.valid at addr in
            let (at₂, length₂) = assign_at pool₁ k f new at in
            let (same₃, unpinned) =
              release-unpins io pool₂ a k (record f { page = new }) valid₂ at₂ in
            inr (
              release pool₂ (pos a),
              p,
              seen,
              run_store pool pool₁ (pos a) k i v f (ap (λ o. (pool₁, o)) out) at inside
                  ∙ ap (λ q. some (tt, release (assign pool₁ k (changed q i v)) (pos a))) page,
              same₃.valid,
              same₃.length ∙ length₂ ∙ same.length,
              λ b al' lt'.
                  same₃.pages b al' (omega (arith, length₂, same.length))
                  ∙ view₂ b
                  ∙ ap (λ o. if a == b then some new else o) (same.pages b al' lt'),
            )
      ]
