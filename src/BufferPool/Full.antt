-- ===== src/BufferPool/Full.antt =====
-- When `get_page` answers NULL: no frame can be had.
use ds_my_sql.Base.{
  ℕ, ◌+◌, ◌^◌, ◌≤◌, ◌<◌, ◌≡◌, ◌↔◌, inl, inr, refl, true, false, Option, none, some, List, [], ◌∷◌,
  arith, ◌==◌, ltb, ℤ, pos, minus_one, eq_ℤ, get_elem?,
}
use ds_my_sql.FileIo.{Stdio, FileInfo}
use ds_my_sql.BufferPool.{
  Frame, BufferPool, touch, first_at, victim_loop, choose, evict, miss, get_page,
}
use ds_my_sql.BufferPool.Arrays.{holds, count, lookup_at}
use ds_my_sql.BufferPool.Pins.{choose_free}
use ds_my_sql.BufferPool.Loops.{
  hit_loop-Finds, first_at-Finds, victim_loop-Finds, AllPinned, AllCounted, victim_loop-AllPinned,
}

module _ {P : Type 0} where
  -- Every frame is in use, and pinned.
  abbrev pub AllBusy : List (Frame P) → Type 0
  AllBusy [] = Unit
  AllBusy (f ∷ fs) = ((f.ref == 0) ≡ false) × (eq_ℤ f.addr minus_one ≡ false) × AllBusy fs

  -- No count is about to wrap to 0.
  abbrev pub AllBelow : List (Frame P) → Type 0
  AllBelow [] = Unit
  AllBelow (f ∷ fs) = (f.cnt + 1 < 2 ^ 64) × AllBelow fs

  touch-AllCounted : (addr : ℤ) (fs : List (Frame P)) → AllBelow fs → AllCounted (touch addr fs)
  unfolding touch
  touch-AllCounted addr [] h = tt
  touch-AllCounted addr (f ∷ fs) h = (ground arith, touch-AllCounted addr fs h.1)

  touch-AllBusy :
      (a : ℕ) (fs : List (Frame P))
      → count a fs ≡ 0
      → (AllBusy (touch (pos a) fs) → AllBusy fs) × (AllBusy fs → AllBusy (touch (pos a) fs))
  unfolding touch count
  touch-AllBusy a [] c = (λ h. tt, λ h. tt)
  touch-AllBusy a (f ∷ fs) c =
      let (there, back) = touch-AllBusy a fs (ground arith) in
      let other : eq_ℤ f.addr (pos a) ≡ false = ground arith in
      rw other (λ h. (h.0, h.1, there h.2), λ h. (h.0, h.1, back h.2))

  AllBusy-first_at :
      (i : ℕ) (fs : List (Frame P)) → first_at minus_one i fs ≡ none → AllPinned fs → AllBusy fs
  unfolding first_at
  AllBusy-first_at i [] e h = tt
  AllBusy-first_at i (f ∷ fs) e h =
      (h.0, ground arith, AllBusy-first_at (i + 1) fs (ground arith) h.1)

  first_at-AllBusy : (i : ℕ) (fs : List (Frame P)) → AllBusy fs → first_at minus_one i fs ≡ none
  unfolding first_at
  first_at-AllBusy i [] h = refl
  first_at-AllBusy i (f ∷ fs) h = rw (h.1) (first_at-AllBusy (i + 1) fs h.2)

  victim_loop-AllBusy :
      (i tmp : ℕ) (k : Option ℕ) (fs : List (Frame P)) → AllBusy fs → victim_loop i tmp k fs ≡ k
  unfolding victim_loop
  victim_loop-AllBusy i tmp k [] h = refl
  victim_loop-AllBusy i tmp k (f ∷ fs) h = rw (h.0) (victim_loop-AllBusy (i + 1) tmp k fs h.2)

module _ {P S Name : Type 0} (io : Stdio P S Name) where
  choose_null :
      (file : FileInfo S) (fs : List (Frame P))
      → AllCounted fs
      → (AllBusy fs → (choose io file fs).1 ≡ none) × ((choose io file fs).1 ≡ none → AllBusy fs)
  unfolding choose evict
  choose_null file fs c = (
    λ h. ground (arith, first_at-AllBusy 0 fs h, victim_loop-AllBusy 0 0 none fs h),
    λ h. elim (first_at-Finds minus_one 0 fs) [
      | inr (j, f, e, at, q) ↦ absurd (ground arith)
      | inl e ↦ elim (victim_loop-Finds 0 0 none fs) [
        | inl n ↦ AllBusy-first_at 0 fs e (victim_loop-AllPinned 0 fs c n)
        | inr (j, f, e', at, q) ↦ absurd (ground arith)
      ]
    ],
  )

  miss_null :
      (file : FileInfo S) (fs : List (Frame P)) (addr : ℤ)
      → AllCounted fs
      → (AllBusy fs → (miss io file fs addr).1 ≡ none)
        × ((miss io file fs addr).1 ≡ none → AllBusy fs)
  unfolding miss
  miss_null file fs addr c =
      let (there, back) = choose_null file fs c in
      (
        λ h. ground (arith, there h),
        λ h. elim (choose_free io file fs) [
          | inl n ↦ back n
          | inr (j, f, e, at, free) ↦ absurd (ground arith)
        ],
      )

  -- As long as no count is about to wrap, `get_page` within the file or at its end answers NULL
  -- exactly if the page is in no frame and every frame is in use and pinned.
  pub get_page-null :
      (pool : BufferPool P S) (a : ℕ)
      → AllBelow pool.frames
      → a ≤ pool.file.length
      → ((get_page io pool (pos a)).1 ≡ none) ↔ ((count a pool.frames ≡ 0) × AllBusy pool.frames)
  unfolding get_page
  get_page-null pool a small le =
      let low : ltb pool.file.length a ≡ false = ground arith in
      let fs = touch (pos a) pool.frames in
      let counted = touch-AllCounted (pos a) pool.frames small in
      rw low (elim (hit_loop-Finds a 0 none pool.frames) [
        | inr (j, f, e, at, h) ↦
            rw e (λ n. absurd (ground arith), λ h'. absurd (held j f at h h'.0))
        | inl (e, absent) ↦
            let (there, back) = miss_null pool.file fs (pos a) counted in
            let (out, in_) = touch-AllBusy a pool.frames absent in
            rw e (λ n. (absent, out (back n)), λ h. there (in_ h.1))
      ])
    where
      held :
          (j : ℕ) (f : Frame P)
          → get_elem? pool.frames j ≡ some f
          → holds a f ≡ true
          → count a pool.frames ≡ 0
          → ⊥
      held j f at h c = ground (arith, lookup_at a j pool.frames f at h)
