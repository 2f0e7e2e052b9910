-- ===== src/BufferPool/Ready.antt =====
-- A pool in which no page is held: `get_page` answers a page of the file, however often it was called
-- before, and after the release of the page the pool is such a pool again.
use ds_my_sql.Base.{
  ℕ, zero, suc, ◌+◌, ◌%◌, ◌^◌, ◌≤◌, ◌<◌, ◌≡◌, ◌⊎◌, inl, inr, refl, subst, true, false, none, some,
  List, [], ◌∷◌, arith, pos, get_elem?, set, Bool-cases,
}
use ds_my_sql.BufferPool.{Frame, BufferPool, touch, victim_loop, release}
use ds_my_sql.BufferPool.Arrays.{holds, count, lookup_at}
use ds_my_sql.BufferPool.Loops.{first_at-Finds, victim_loop-some}
use ds_my_sql.BufferPool.Idle.{first_at-count}

module _ {P : Type 0} where
  -- No frame is pinned ...
  abbrev pub AllFree : List (Frame P) → Type 0
  AllFree [] = Unit
  AllFree (f ∷ fs) = (f.ref ≡ 0) × AllFree fs

  -- ... but for the frame of the page at `a`.
  abbrev pub AllFreeBut : ℕ → List (Frame P) → Type 0
  AllFreeBut a [] = Unit
  AllFreeBut a (f ∷ fs) = (holds a f ≡ false → f.ref ≡ 0) × AllFreeBut a fs

  -- The count of some frame is not about to wrap to 0.
  abbrev pub HasLow : List (Frame P) → Type 0
  HasLow [] = ⊥
  HasLow (f ∷ fs) = (f.cnt + 1 < 2 ^ 64) ⊎ HasLow fs

  -- Some frame is a victim.
  abbrev pub HasVictim : List (Frame P) → Type 0
  HasVictim [] = ⊥
  HasVictim (f ∷ fs) = ((f.ref ≡ 0) × (0 < f.cnt)) ⊎ HasVictim fs

  pub touch-AllFreeBut :
      (a : ℕ) (fs : List (Frame P)) → AllFree fs → AllFreeBut a (touch (pos a) fs)
  unfolding touch
  touch-AllFreeBut a [] h = tt
  touch-AllFreeBut a (f ∷ fs) h = elim (Bool-cases (holds a f)) [
    | inl e ↦ rw e (λ other. absurd (ground (arith, e)), touch-AllFreeBut a fs h.1)
    | inr e ↦ rw e (λ other. h.0, touch-AllFreeBut a fs h.1)
  ]

  pub set-AllFreeBut :
      (a k : ℕ) (g : Frame P) (fs : List (Frame P))
      → AllFreeBut a fs
      → holds a g ≡ true
      → AllFreeBut a (set fs k g)
  set-AllFreeBut a k g [] h e = tt
  set-AllFreeBut a zero g (f ∷ fs) h e = (λ other. absurd (ground arith), h.1)
  set-AllFreeBut a (suc k) g (f ∷ fs) h e = (h.0, set-AllFreeBut a k g fs h.1 e)

  AllFreeBut-AllFree : (a : ℕ) (fs : List (Frame P)) → AllFreeBut a fs → count a fs ≡ 0 → AllFree fs
  unfolding count
  AllFreeBut-AllFree a [] h c = tt
  AllFreeBut-AllFree a (f ∷ fs) h c =
      (h.0 (ground arith), AllFreeBut-AllFree a fs h.1 (ground arith))

  -- The one frame with the page is unpinned.
  set-AllFree :
      (a j : ℕ) (f : Frame P) (fs : List (Frame P))
      → AllFreeBut a fs
      → count a fs ≤ 1
      → get_elem? fs j ≡ some f
      → holds a f ≡ true
      → AllFree (set fs j (record f { ref = 0 }))
  unfolding count
  set-AllFree a j f [] h c at e = tt
  set-AllFree a zero f (g ∷ fs) h c at e =
      let same : g ≡ f = ground arith in (refl, AllFreeBut-AllFree a fs h.1 (ground arith))
  set-AllFree a (suc j) f (g ∷ fs) h c at e =
      let one = lookup_at a j fs f at e in
      (h.0 (ground (arith, one)), set-AllFree a j f fs h.1 (ground arith) at e)

  pub set-HasLow :
      (j : ℕ) (f g : Frame P) (fs : List (Frame P))
      → get_elem? fs j ≡ some f
      → g.cnt + 1 < 2 ^ 64
      → HasLow (set fs j g)
  set-HasLow j f g [] at lt = absurd (ground arith)
  set-HasLow zero f g (x ∷ fs) at lt = inl lt
  set-HasLow (suc j) f g (x ∷ fs) at lt = inr (set-HasLow j f g fs at lt)

  unpinned-HasLow :
      (j : ℕ) (f : Frame P) (fs : List (Frame P))
      → get_elem? fs j ≡ some f
      → HasLow fs
      → HasLow (set fs j (record f { ref = 0 }))
  unpinned-HasLow j f [] at h = h
  unpinned-HasLow zero f (x ∷ fs) at (inl lt) =
      let same : x ≡ f = ground arith in inl (subst (λ y. y.cnt + 1 < 2 ^ 64) same lt)
  unpinned-HasLow zero f (x ∷ fs) at (inr h) = inr h
  unpinned-HasLow (suc j) f (x ∷ fs) at (inl lt) = inl lt
  unpinned-HasLow (suc j) f (x ∷ fs) at (inr h) = inr (unpinned-HasLow j f fs at h)

  pub touch-HasLow :
      (a j : ℕ) (f : Frame P) (fs : List (Frame P))
      → get_elem? fs j ≡ some f
      → holds a f ≡ true
      → HasLow (touch (pos a) fs)
  unfolding touch
  touch-HasLow a j f [] at e = absurd (ground arith)
  touch-HasLow a zero f (g ∷ fs) at e =
      let held : holds a g ≡ true = ground arith in rw held (inl (omega arith))
  touch-HasLow a (suc j) f (g ∷ fs) at e = inr (touch-HasLow a j f fs at e)

  pub touch-HasVictim :
      (a : ℕ) (fs : List (Frame P))
      → AllFree fs
      → HasLow fs
      → count a fs ≡ 0
      → HasVictim (touch (pos a) fs)
  unfolding touch count
  touch-HasVictim a [] free h c = h
  touch-HasVictim a (f ∷ fs) free (inl lt) c =
      let other : holds a f ≡ false = ground arith in
      let wraps : 0 < (f.cnt + 1) % 2 ^ 64 = omega arith in rw other (inl (free.0, wraps))
  touch-HasVictim a (f ∷ fs) free (inr h) c =
      let other : holds a f ≡ false = ground arith in
      rw other (inr (touch-HasVictim a fs free.1 h (ground arith)))

  -- The victim loop finds a victim where there is one.
  pub victim_loop-HasVictim :
      (i : ℕ) (fs : List (Frame P)) → HasVictim fs → victim_loop i 0 none fs ≡ none → ⊥
  unfolding victim_loop
  victim_loop-HasVictim i [] h e = h
  victim_loop-HasVictim i (f ∷ fs) (inl v) e =
      ground (arith, v.0, v.1, victim_loop-some (i + 1) f.cnt i fs)
  victim_loop-HasVictim i (f ∷ fs) (inr h) e =
      let rest = victim_loop-HasVictim (i + 1) fs h in
      ground (arith, rest, victim_loop-some (i + 1) f.cnt i fs)

module _ {P S : Type 0} where
  -- No page is held, and there is a frame to give.
  pub record IsReady (pool : BufferPool P S) : Type 0 where
    pub free : AllFree pool.frames
    pub low : HasLow pool.frames

  pub release-IsReady :
      (a : ℕ) (pool : BufferPool P S)
      → AllFreeBut a pool.frames
      → HasLow pool.frames
      → count a pool.frames ≤ 1
      → IsReady (release pool (pos a))
  unfolding release
  release-IsReady a pool h l c = elim (first_at-Finds (pos a) 0 pool.frames) [
    | inl e ↦
        let whole : release pool (pos a) ≡ pool = ground arith in
        rw whole (record {
          free = AllFreeBut-AllFree a pool.frames h (first_at-count a 0 pool.frames e);
          low = l;
        })
    | inr (j, f, e, at, q) ↦
        let whole : release pool (pos a)
            ≡ record pool { frames = set pool.frames j (record f { ref = 0 }) } =
          ground arith in
        rw whole (record {
          free = set-AllFree a j f pool.frames h c at q;
          low = unpinned-HasLow j f pool.frames at l;
        })
  ]
