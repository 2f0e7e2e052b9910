-- ===== src/BufferPool/Idle.antt =====
-- A client that holds one page at a time: `get_page` never answers NULL to it.
use ds_my_sql.Base.{
  ℕ, zero, suc, ◌+◌, ◌%◌, ◌^◌, ◌≤◌, ◌<◌, ◌≡◌, inl, inr, ap, refl, sym, subst, true, false, none,
  some, List, [], ◌∷◌, arith, ltb, ℤ, pos, eq_ℤ, get_elem?, get_elem?-lt, set, length, Bool-cases,
}
use ds_my_sql.FileIo.{page_size, Stdio, FileInfo, Reliable, read_page}
use ds_my_sql.BufferPool.{Frame, BufferPool, touch, first_at, fill, miss, get_page, release, choose}
use ds_my_sql.BufferPool.Arrays.{holds, count, lookup_at}
use ds_my_sql.BufferPool.Loops.{hit_loop-Finds, first_at-Finds}
use ds_my_sql.BufferPool.View.{view, IsValid, SamePages}
use ds_my_sql.BufferPool.GetPage.{Pinned, get_page-Answers, SamePages-trans}
use ds_my_sql.BufferPool.Pins.{choose_free}
use ds_my_sql.BufferPool.Full.{AllBelow, AllBusy, get_page-null}
use ds_my_sql.BufferPool.Clients.{release-unpins}

module _ {P : Type 0} where
  -- No frame is pinned, and no count wraps for the next `n` calls.
  abbrev pub AllIdle : ℕ → List (Frame P) → Type 0
  AllIdle n [] = Unit
  AllIdle n (f ∷ fs) = (f.ref ≡ 0) × (f.cnt + n < 2 ^ 64) × AllIdle n fs

  -- The same, but that the page at `a` may be pinned.
  abbrev AllNear : ℕ → ℕ → List (Frame P) → Type 0
  AllNear a n [] = Unit
  AllNear a n (f ∷ fs) = (holds a f ≡ false → f.ref ≡ 0) × (f.cnt + n < 2 ^ 64) × AllNear a n fs

  AllIdle-AllBelow : (n : ℕ) (fs : List (Frame P)) → AllIdle (suc n) fs → AllBelow fs
  AllIdle-AllBelow n [] h = tt
  AllIdle-AllBelow n (f ∷ fs) h = (omega (arith, h.1), AllIdle-AllBelow n fs h.2)

  touch-AllNear :
      (a n : ℕ) (fs : List (Frame P)) → AllIdle (suc n) fs → AllNear a n (touch (pos a) fs)
  unfolding touch
  touch-AllNear a n [] h = tt
  touch-AllNear a n (f ∷ fs) h = elim (Bool-cases (holds a f)) [
    | inl e ↦
        rw e (λ other. absurd (ground (arith, e)), omega (arith, h.1), touch-AllNear a n fs h.2)
    | inr e ↦ rw e (λ other. h.0, omega (arith, h.1), touch-AllNear a n fs h.2)
  ]

  set-AllNear :
      (a n k : ℕ) (g : Frame P) (fs : List (Frame P))
      → AllNear a n fs
      → holds a g ≡ true
      → g.cnt + n < 2 ^ 64
      → AllNear a n (set fs k g)
  set-AllNear a n k g [] h e lt = tt
  set-AllNear a n zero g (f ∷ fs) h e lt = (λ other. absurd (ground arith), lt, h.2)
  set-AllNear a n (suc k) g (f ∷ fs) h e lt = (h.0, h.1, set-AllNear a n k g fs h.2 e lt)

  AllNear-AllIdle : (a n : ℕ) (fs : List (Frame P)) → AllNear a n fs → count a fs ≡ 0 → AllIdle n fs
  unfolding count
  AllNear-AllIdle a n [] h c = tt
  AllNear-AllIdle a n (f ∷ fs) h c =
      (h.0 (ground arith), h.1, AllNear-AllIdle a n fs h.2 (ground arith))

  -- The one frame with the page is unpinned.
  set-AllIdle :
      (a n j : ℕ) (f : Frame P) (fs : List (Frame P))
      → AllNear a n fs
      → count a fs ≤ 1
      → get_elem? fs j ≡ some f
      → holds a f ≡ true
      → AllIdle n (set fs j (record f { ref = 0 }))
  unfolding count
  set-AllIdle a n j f [] h c at e = tt
  set-AllIdle a n zero f (g ∷ fs) h c at e =
      let same : g ≡ f = ground arith in
      (refl, rw (sym same) (h.1), AllNear-AllIdle a n fs h.2 (ground arith))
  set-AllIdle a n (suc j) f (g ∷ fs) h c at e =
      let one = lookup_at a j fs f at e in
      (h.0 (ground (arith, one)), h.1, set-AllIdle a n j f fs h.2 (ground arith) at e)

  pub first_at-count :
      (a i : ℕ) (fs : List (Frame P)) → first_at (pos a) i fs ≡ none → count a fs ≡ 0
  unfolding first_at count
  first_at-count a i [] e = refl
  first_at-count a i (f ∷ fs) e = ground (arith, first_at-count a (i + 1) fs)

module _ {P S : Type 0} where
  -- A pool with frames that is idle for `n` calls.
  pub record IsIdle (n : ℕ) (pool : BufferPool P S) : Type 0 where
    pub idle : AllIdle n pool.frames
    pub some_frame : 0 < length pool.frames

  release-AllIdle :
      (a n : ℕ) (pool : BufferPool P S)
      → AllNear a n pool.frames
      → count a pool.frames ≤ 1
      → AllIdle n (release pool (pos a)).frames
  unfolding release
  release-AllIdle a n pool h c = elim (first_at-Finds (pos a) 0 pool.frames) [
    | inl e ↦
        let whole : release pool (pos a) ≡ pool = ground arith in
        rw whole (AllNear-AllIdle a n pool.frames h (first_at-count a 0 pool.frames e))
    | inr (j, f, e, at, q) ↦
        let whole : release pool (pos a)
            ≡ record pool { frames = set pool.frames j (record f { ref = 0 }) } =
          ground arith in
        rw whole (set-AllIdle a n j f pool.frames h c at q)
  ]

module _ {P S Name : Type 0} (io : Stdio P S Name) where
  -- What a miss makes of the frames.
  pub fill_frame :
      (file : FileInfo S) (fs : List (Frame P)) (k : ℕ) (addr : ℤ) (f : Frame P)
      → (g : Frame P) × ((fill io file fs k addr f).frames ≡ set fs k g)
        × (g.addr ≡ addr)
        × (g.cnt ≡ 1)
  unfolding fill
  fill_frame file fs k addr f = elim (Bool-cases (eq_ℤ (pos file.length) addr)) [
    | inl e ↦ (record { page = f.page; addr = addr; cnt = 1; ref = 1 }, ground arith, refl, refl)
    | inr e ↦ (
      record {
        page = elim ((read_page io file addr).1) [ none ↦ f.page | some p ↦ p ];
        addr = addr;
        cnt = 1;
        ref = 1;
      },
      ground arith,
      refl,
      refl,
    )
  ]

  miss-AllNear :
      (file : FileInfo S) (fs : List (Frame P)) (a n : ℕ)
      → AllNear a n fs
      → 1 + n < 2 ^ 64
      → AllNear a n (miss io file fs (pos a)).0.frames
  unfolding miss
  miss-AllNear file fs a n h lt = elim (choose_free io file fs) [
    | inl e ↦
        let whole : (miss io file fs (pos a)).0.frames ≡ fs = ground arith in
        subst (λ x. AllNear a n x) (sym whole) h
    | inr (j, f, e, at, free) ↦
        let (g, frames, addr, cnt) = fill_frame (choose io file fs).0 fs j (pos a) f in
        let whole : (miss io file fs (pos a)).0.frames ≡ set fs j g = ground arith in
        subst (λ x. AllNear a n x) (sym whole)
          (set-AllNear a n j g fs h (ground arith) (omega arith))
  ]

  get_page-AllNear :
      (pool : BufferPool P S) (a n : ℕ)
      → a ≤ pool.file.length
      → AllIdle (suc n) pool.frames
      → 1 + n < 2 ^ 64
      → AllNear a n (get_page io pool (pos a)).0.frames
  unfolding get_page
  get_page-AllNear pool a n le h lt =
      let low : ltb pool.file.length a ≡ false = ground arith in
      let near = touch-AllNear a n pool.frames h in
      rw low (elim (hit_loop-Finds a 0 none pool.frames) [
        | inl (e, absent) ↦ rw e (miss-AllNear pool.file (touch (pos a) pool.frames) a n near lt)
        | inr (j, f, e, at, q) ↦ rw e near
      ])

  -- A call of `get_page` for the page at `a`, which is released later.
  pub record Visits (n : ℕ) (pool : BufferPool P S) (a : ℕ) : Type 0 where
    pub k : ℕ
    pub page : P
    pub pool' : BufferPool P S
    pub run : get_page io pool (pos a) ≡ (pool', some k)
    pub seen : view io pool a ≡ some page
    pub pinned : Pinned io pool' k a page
    pub same : SamePages io pool pool'
    pub released : SamePages io pool (release pool' (pos a))
    pub is_idle : IsIdle n (release pool' (pos a))

  pub get_page-Visits :
      (r : Reliable io) (n : ℕ) (pool : BufferPool P S) (a : ℕ)
      → IsValid io pool
      → IsIdle (suc n) pool
      → a % page_size ≡ 0
      → a < pool.file.length
      → Visits n pool a
  get_page-Visits r n pool a v h al lt =
      let (same, answer) = get_page-Answers io r pool a v al lt in
      let (there, back) =
        get_page-null io pool a (AllIdle-AllBelow n pool.frames h.idle) (omega arith) in
      let (free, small) = first_frame pool.frames h.some_frame h.idle in
      elim answer [
        | inl null ↦ absurd (free (there null).1)
        | inr (k, p, out, seen, (f, at, addr, ref, page)) ↦
            let pool' : BufferPool P S = (get_page io pool (pos a)).0 in
            let near = get_page-AllNear pool a n (omega arith) h.idle small in
            let (same', at') = release-unpins io pool' a k f same.valid at in
            record {
              k = k;
              page = p;
              pool' = pool';
              run = ap (λ o. (pool', o)) out;
              seen = seen;
              pinned = (f, at, addr, ref, page);
              same = same;
              released = SamePages-trans io pool pool' (release pool' (pos a)) same same';
              is_idle = record {
                idle = release-AllIdle a n pool' near (same.valid.unique a);
                some_frame = omega (arith, get_elem?-lt (release pool' (pos a)).frames k at');
              };
            }
      ]
    where
      first_frame :
          (fs : List (Frame P))
          → 0 < length fs
          → AllIdle (suc n) fs
          → (AllBusy fs → ⊥) × (1 + n < 2 ^ 64)
      first_frame [] lt h = absurd (omega arith)
      first_frame (f ∷ fs) lt h = (λ b. ground (arith, b.0, h.0), omega (arith, h.1))
