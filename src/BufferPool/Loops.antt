-- ===== src/BufferPool/Loops.antt =====
-- What the loops of buffer_pool.c find among the frames.
use ds_my_sql.Base.{
  ℕ, suc, ◌+◌, ◌<◌, ◌≡◌, ◌⊎◌, inl, inr, refl, true, false, Option, none, some, List, [], ◌∷◌, arith,
  ◌==◌, ltb, Bool-cases, pos, eq_ℤ, ℤ, get_elem?, ◌∙◌,
}
use ds_my_sql.BufferPool.{Frame, hit_loop, first_at, victim_loop}
use ds_my_sql.BufferPool.Arrays.{holds, count}

module _ {P : Type 0} where
  -- `r` is the index, counted from `i`, of a frame that satisfies `Q`.
  abbrev pub Finds : (Frame P → Type 0) → ℕ → List (Frame P) → Option ℕ → Type 0
  Finds Q i fs r = (j : ℕ) × (f : Frame P) × (r ≡ some (i + j)) × (get_elem? fs j ≡ some f) × Q f

  Finds-cons :
      (Q : Frame P → Type 0) (i : ℕ) (g : Frame P) (fs : List (Frame P)) (r : Option ℕ)
      → Finds Q (i + 1) fs r
      → Finds Q i (g ∷ fs) r
  Finds-cons Q i g fs r (j, f, e, at, q) = (suc j, f, ground arith, at, q)

  pub first_at-Finds :
      (addr : ℤ) (i : ℕ) (fs : List (Frame P))
      → (first_at addr i fs ≡ none) ⊎ Finds (λ f. eq_ℤ f.addr addr ≡ true) i fs (first_at addr i fs)
  unfolding first_at
  first_at-Finds addr i [] = inl refl
  first_at-Finds addr i (g ∷ fs) = elim (Bool-cases (eq_ℤ g.addr addr)) [
    | inl e ↦ inr (0, g, rw e (ground arith), refl, e)
    | inr e ↦ rw e (elim (first_at-Finds addr (i + 1) fs) [
      | inl n ↦ inl n
      | inr h ↦ inr (Finds-cons _ i g fs _ h)
    ])
  ]

  -- The hit loop keeps `k` if no frame holds the page.
  pub hit_loop-Finds :
      (a i : ℕ) (k : Option ℕ) (fs : List (Frame P))
      → ((hit_loop (pos a) i k fs ≡ k) × (count a fs ≡ 0))
        ⊎ Finds (λ f. holds a f ≡ true) i fs (hit_loop (pos a) i k fs)
  unfolding hit_loop count
  hit_loop-Finds a i k [] = inl (refl, refl)
  hit_loop-Finds a i k (g ∷ fs) = elim (Bool-cases (holds a g)) [
    | inl e ↦ rw e (elim (hit_loop-Finds a (i + 1) (some i) fs) [
      | inl n ↦ inr (0, g, n.0 ∙ ground arith, refl, e)
      | inr h ↦ inr (Finds-cons _ i g fs _ h)
    ])
    | inr e ↦ rw e (elim (hit_loop-Finds a (i + 1) k fs) [
      | inl n ↦ inl (n.0, ground arith)
      | inr h ↦ inr (Finds-cons _ i g fs _ h)
    ])
  ]

  -- Every frame is pinned.
  abbrev pub AllPinned : List (Frame P) → Type 0
  AllPinned [] = Unit
  AllPinned (f ∷ fs) = ((f.ref == 0) ≡ false) × AllPinned fs

  -- The victim loop answers with an unpinned frame; if it keeps `k`, no unpinned frame has a count
  -- above `tmp`.
  pub victim_loop-Finds :
      (i tmp : ℕ) (k : Option ℕ) (fs : List (Frame P))
      → (victim_loop i tmp k fs ≡ k) ⊎ Finds (λ f. f.ref ≡ 0) i fs (victim_loop i tmp k fs)
  unfolding victim_loop
  victim_loop-Finds i tmp k [] = inl refl
  victim_loop-Finds i tmp k (g ∷ fs) = elim (Bool-cases (g.ref == 0)) [
    | inr e ↦ rw e (skip (victim_loop-Finds (i + 1) tmp k fs))
    | inl e ↦ rw e (elim (Bool-cases (ltb tmp g.cnt)) [
      | inr l ↦ rw l (skip (victim_loop-Finds (i + 1) tmp k fs))
      | inl l ↦ rw l (elim (victim_loop-Finds (i + 1) g.cnt (some i) fs) [
        | inl n ↦ inr (0, g, n ∙ ground arith, refl, ground arith)
        | inr h ↦ inr (Finds-cons _ i g fs _ h)
      ])
    ])
  ]
    where
      skip :
          {r : Option ℕ}
          → (r ≡ k) ⊎ Finds (λ f. f.ref ≡ 0) (i + 1) fs r
          → (r ≡ k) ⊎ Finds (λ f. f.ref ≡ 0) i (g ∷ fs) r
      skip (inl n) = inl n
      skip {r} (inr h) = inr (Finds-cons _ i g fs r h)

  abbrev pub AllCounted : List (Frame P) → Type 0
  AllCounted [] = Unit
  AllCounted (f ∷ fs) = (0 < f.cnt) × AllCounted fs

  -- A frame, once chosen, is never dropped for none.
  pub victim_loop-some :
      (i tmp k : ℕ) (fs : List (Frame P)) → (j : ℕ) × (victim_loop i tmp (some k) fs ≡ some j)
  unfolding victim_loop
  victim_loop-some i tmp k [] = (k, refl)
  victim_loop-some i tmp k (g ∷ fs) = elim (Bool-cases (g.ref == 0)) [
    | inr e ↦ rw e (victim_loop-some (i + 1) tmp k fs)
    | inl e ↦ rw e (elim (Bool-cases (ltb tmp g.cnt)) [
      | inr l ↦ rw l (victim_loop-some (i + 1) tmp k fs)
      | inl l ↦ rw l (victim_loop-some (i + 1) g.cnt i fs)
    ])
  ]

  -- Where the counts are positive, there is no victim only if every frame is pinned.
  pub victim_loop-AllPinned :
      (i : ℕ) (fs : List (Frame P)) → AllCounted fs → victim_loop i 0 none fs ≡ none → AllPinned fs
  unfolding victim_loop
  victim_loop-AllPinned i [] c h = tt
  victim_loop-AllPinned i (g ∷ fs) c h =
      ground (arith, victim_loop-some (i + 1) g.cnt i fs, victim_loop-AllPinned (i + 1) fs)
