-- ===== src/BufferPool/GetPage.antt =====
-- `get_page`: the pool is a transparent cache of its file.
use ds_my_sql.Base.{
  ℕ, ◌%◌, ◌<◌, ◌≡◌, ◌⊎◌, inl, inr, refl, sym, true, false, Option, none, some, arith, ltb, ℤ, pos,
  eq_ℤ_eq, get_elem?, get_elem?-lt, get_elem?-set_self, set, ◌∙◌,
}
use ds_my_sql.FileIo.{page_size, Stdio, Reliable}
use ds_my_sql.BufferPool.{Frame, BufferPool, touch, miss, get_page}
use ds_my_sql.BufferPool.Arrays.{
  holds, count, lookup_at, count-touch, lookup-touch, AllInFile-touch, get_elem?-touch,
}
use ds_my_sql.BufferPool.Loops.{hit_loop-Finds}
use ds_my_sql.BufferPool.View.{view, IsValid, SamePages, choose-IsChosen, fill_lem, fill-SamePages}

module _ {P S Name : Type 0} (io : Stdio P S Name) where
  -- The page is in frame `k`, pinned there.
  abbrev pub Pinned : BufferPool P S → ℕ → ℕ → P → Type 0
  Pinned pool k a p =
      (f : Frame P) × (get_elem? pool.frames k ≡ some f)
      × (f.addr ≡ pos a)
      × (f.ref ≡ 1)
      × (f.page ≡ p)

  pub touch-SamePages :
      (pool : BufferPool P S) (addr : ℤ)
      → IsValid io pool
      → SamePages io pool (record pool { frames = touch addr pool.frames })
  unfolding view
  touch-SamePages pool addr v = record {
    valid = record {
      aligned = v.aligned;
      unique = λ a. rw count-touch (v.unique a);
      inside = AllInFile-touch addr _ pool.frames v.inside;
      readable = v.readable;
    };
    length = refl;
    pages = λ b al lt. ground (arith, lookup-touch addr b pool.frames);
  }

  pub SamePages-trans :
      (p q r : BufferPool P S) → SamePages io p q → SamePages io q r → SamePages io p r
  SamePages-trans p q r s t = record {
    valid = t.valid;
    length = t.length ∙ s.length;
    pages = λ b al lt. t.pages b al (rw s.length lt) ∙ s.pages b al lt;
  }

  hit_view :
      (pool : BufferPool P S)
      → IsValid io pool
      → (a j : ℕ) (f : Frame P) → get_elem? pool.frames j ≡ some f
      → holds a f ≡ true
      → view io pool a ≡ some f.page
  unfolding view
  hit_view pool v a j f at h = ground (arith, lookup_at a j pool.frames f, v.unique a)

  -- Either NULL, or a pointer to the page.
  abbrev pub Answers : BufferPool P S → ℕ → BufferPool P S × Option ℕ → Type 0
  Answers pool a (pool', out) =
      (out ≡ none)
      ⊎ ((k : ℕ) × (p : P) × (out ≡ some k) × (view io pool a ≡ some p) × Pinned pool' k a p)

  module _ (r : Reliable io) (pool : BufferPool P S) (v : IsValid io pool) (a : ℕ)
      (al : a % page_size ≡ 0) (lt : a < pool.file.length) where
    abbrev placed : P → Frame P
    placed p = record { page = p; addr = pos a; cnt = 1; ref = 1 }

    miss_lem :
        count a pool.frames ≡ 0
        → SamePages io pool (miss io pool.file pool.frames (pos a)).0
          × Answers pool a (miss io pool.file pool.frames (pos a))
    unfolding miss
    miss_lem absent = elim (choose-IsChosen io r pool v) [
      | inl (e, n) ↦
          let whole : miss io pool.file pool.frames (pos a) ≡ (pool, none) = ground arith in
          rw whole (record { valid = v; length = refl; pages = λ b al lt. refl }, inl refl)
      | inr (file', k, f, e, c) ↦
          let (p, seen, e') = fill_lem io pool v file' k f c a al lt absent in
          let whole : miss io pool.file pool.frames (pos a)
              ≡ (record { file = file'; frames = set pool.frames k (placed p) }, some k) =
            ground (arith, c.at) in
          rw whole (
            fill-SamePages io pool v file' k f c a al lt absent p seen,
            inr (
              k,
              p,
              refl,
              seen,
              (
                _,
                get_elem?-set_self pool.frames k _ (get_elem?-lt pool.frames k c.at),
                refl,
                refl,
                refl,
              ),
            ),
          )
    ]

  -- On a stream without device errors, `get_page` at the address of a page of the file leaves a
  -- valid pool that stands for the same pages; and it answers NULL, or a frame that is pinned and
  -- holds the page with the contents that the pool stood for.
  pub get_page-Answers :
      (r : Reliable io) (pool : BufferPool P S) (a : ℕ)
      → IsValid io pool
      → a % page_size ≡ 0
      → a < pool.file.length
      → SamePages io pool (get_page io pool (pos a)).0 × Answers pool a (get_page io pool (pos a))
  unfolding get_page
  get_page-Answers r pool a v al lt =
      let low : ltb pool.file.length a ≡ false = ground arith in
      let touched : BufferPool P S = record pool { frames = touch (pos a) pool.frames } in
      let same = touch-SamePages pool (pos a) v in
      elim (hit_loop-Finds a 0 none pool.frames) [
        | inl (e, absent) ↦
            let (s, ans) =
              miss_lem r touched same.valid a al lt (count-touch (pos a) a pool.frames ∙ absent) in
            let whole : get_page io pool (pos a) ≡ miss io pool.file touched.frames (pos a) =
              ground arith in
            rw whole (
              SamePages-trans pool touched _ same s,
              elim ans [
                | inl n ↦ inl n
                | inr (k, p, out, seen, pin) ↦ inr (k, p, out, sym (same.pages a al lt) ∙ seen, pin)
              ],
            )
        | inr (j, f, e, at, h) ↦
            let (g, at', page, addr, ref) = get_elem?-touch (pos a) j pool.frames f at in
            let whole : get_page io pool (pos a) ≡ (touched, some j) = ground arith in
            rw whole (
              same,
              inr (
                j,
                f.page,
                ground arith,
                hit_view pool v a j f at h,
                (g, ground arith, addr ∙ eq_ℤ_eq _ _ h, ref ∙ rw h, page),
              ),
            )
      ]
