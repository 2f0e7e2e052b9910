-- ===== src/BTree/LowerBound.antt =====
-- `lower_bound_pr` and `lower_bound_rr` of b_tree.c: the binary search within a node.
-- A pointer into `row_ptr` is an index. `int r` starts at -1 for an empty node, so the model keeps
-- `r + 1`, as `hi`; the loop runs while `l < hi`. A comparison reads the tables of records and
-- strings, so it is a run on a store of type `X`.
pub mod Rounds
use ds_my_sql.Base.{
  ℕ, zero, suc, ◌+◌, ◌-◌, ◌/◌, ◌≤◌, ◌<◌, ◌≡◌, Bool, true, false, some, arith, ltb, if◌then◌else◌,
  Bool-cases, inl, inr, ℤ, pos, ltb_ℤ, refl,
}
use ds_my_sql.Base.State.{M, pure, ◌>>=◌}

-- `cmp(…) > 0`
abbrev pub is_above : ℤ → Bool
is_above c = ltb_ℤ (pos 0) c

module _ {R X : Type 0} where
  -- The loop, `fuel` rounds at most; `cmp` has the key that is searched for.
  unfoldable pub search_loop : (R → M X ℤ) → (ℕ → R) → (fuel l hi ans : ℕ) → M X ℕ
  search_loop cmp row zero l hi ans = pure ans
  search_loop cmp row (suc fuel) l hi ans =
      let mid = (l + (hi - 1)) / 2 in
      if ltb l hi
      then (do
        c ← cmp (row mid)
        (if is_above c
            then search_loop cmp row fuel (mid + 1) hi ans
            else search_loop cmp row fuel l mid mid))
      else pure ans

  unfoldable pub lower_bound_pr :
      {K : Type 0} → (K → ℕ → R → M X ℤ) → (ℕ → R) → (n : ℕ) → K → ℕ → M X ℕ
  lower_bound_pr cmp row n key size = search_loop (cmp key size) row n 0 n n

  unfoldable pub lower_bound_rr : (R → R → M X ℤ) → (ℕ → R) → (n : ℕ) → R → M X ℕ
  lower_bound_rr cmp row n rid = search_loop (cmp rid) row n 0 n n

  -- In a store as `I` says, the run `cmp` answers `c` of each of the `n` rows and leaves such a store.
  abbrev pub Computes : (R → M X ℤ) → (R → ℤ) → (X → Type 0) → (ℕ → R) → ℕ → Type 0
  Computes cmp c I row n =
      (i : ℕ) (x : X) → i < n → I x → (x' : X) × (cmp (row i) x ≡ some (c (row i), x')) × I x'

-- The rows that the key is above come before the others.
abbrev pub IsSorted : {R : Type 0} → (R → ℤ) → (ℕ → R) → ℕ → Type 0
IsSorted c row n =
    (i j : ℕ) → i ≤ j → j < n → is_above (c (row j)) ≡ true → is_above (c (row i)) ≡ true

-- `r` is the number of rows that the key is above.
pub record Splits {R : Type 0} (c : R → ℤ) (row : ℕ → R) (n r : ℕ) : Type 0 where
  pub within : r ≤ n
  pub above : (i : ℕ) → i < r → is_above (c (row i)) ≡ true
  pub not_above : (i : ℕ) → r ≤ i → i < n → is_above (c (row i)) ≡ false

module _ {R X : Type 0} where
  -- A run that answers the number of rows that the key is above.
  abbrev pub Finds : (R → ℤ) → (X → Type 0) → (ℕ → R) → ℕ → M X ℕ → X → Type 0
  Finds c I row n run x = (r : ℕ) × (x' : X) × (run x ≡ some (r, x')) × I x' × Splits c row n r

  module _ (cmp : R → M X ℤ) (c : R → ℤ) (I : X → Type 0) (row : ℕ → R) (n : ℕ)
      (computes : Computes cmp c I row n) (sorted : IsSorted c row n) where
    search_loop-Finds :
        (fuel l hi : ℕ) (x : X)
        → I x
        → hi ≤ l + fuel
        → l ≤ hi
        → hi ≤ n
        → ((i : ℕ) → i < l → is_above (c (row i)) ≡ true)
        → ((i : ℕ) → hi ≤ i → i < n → is_above (c (row i)) ≡ false)
        → Finds c I row n (search_loop cmp row fuel l hi hi) x
    unfolding search_loop
    search_loop-Finds zero l hi x h f o w a b =
        (hi, x, refl, h, record { within = w; above = λ i h. a i (omega arith); not_above = b })
    search_loop-Finds (suc fuel) l hi x h f o w a b = elim (Bool-cases (ltb l hi)) [
      | inr e ↦ (
        hi,
        x,
        rw e refl,
        h,
        record { within = w; above = λ i h. a i (ground arith); not_above = b },
      )
      | inl e ↦
          let mid : ℕ = (l + (hi - 1)) / 2 in
          let lt : l < hi = ground arith in
          let (x₁, run, h₁) = computes mid x (omega arith) h in
          elim (Bool-cases (is_above (c (row mid)))) [
            | inl y ↦
                let (r, x', rest, h', s) =
                  search_loop-Finds fuel (mid + 1) hi x₁ h₁ (omega arith) (omega arith) w
                    (λ i h. sorted i mid (omega arith) (omega arith) y) b in
                (r, x', rw e (rw run (rw y rest)), h', s)
            | inr m ↦
                let (r, x', rest, h', s) =
                  search_loop-Finds fuel l mid x₁ h₁ (omega arith) (omega arith) (omega arith) a
                    (λ i h h'. elim (Bool-cases (is_above (c (row i)))) [
                      | inl y ↦ absurd (ground (arith, sorted mid i (omega arith) h' y))
                      | inr k ↦ k
                    ]) in
                (r, x', rw e (rw run (rw m rest)), h', s)
          ]
    ]

  -- In a node of `n` rows that are sorted for a row, where each comparison with one of them runs and
  -- keeps the store as `I` says, `lower_bound_rr` runs and answers the number of rows that the row is
  -- above, and they are the first ones: every row before the result compares below it, and no row
  -- from the result on does.
  pub lower_bound_rr-Splits :
      (cmp : R → R → M X ℤ) (c : R → ℤ) (I : X → Type 0) (row : ℕ → R) (n : ℕ) (rid : R) (x : X)
      → Computes (cmp rid) c I row n
      → IsSorted c row n
      → I x
      → Finds c I row n (lower_bound_rr cmp row n rid) x
  unfolding lower_bound_rr
  lower_bound_rr-Splits cmp c I row n rid x computes sorted h =
      search_loop-Finds (cmp rid) c I row n computes sorted n 0 n x h (omega arith) (omega arith)
        (omega arith) (λ i h. absurd (omega arith)) (λ i h h'. absurd (omega arith))

  -- In a node of `n` rows that are sorted for a key of `size` bytes, where each comparison with one
  -- of them runs and keeps the store as `I` says, `lower_bound_pr` runs and answers the number of rows
  -- that the key is above, and they are the first ones: every row before the result compares below
  -- the key, and no row from the result on does.
  pub lower_bound_pr-Splits :
      {K : Type 0} (cmp : K → ℕ → R → M X ℤ) (c : R → ℤ) (I : X → Type 0) (row : ℕ → R) (n : ℕ)
      (key : K) (size : ℕ) (x : X)
      → Computes (cmp key size) c I row n
      → IsSorted c row n
      → I x
      → Finds c I row n (lower_bound_pr cmp row n key size) x
  unfolding lower_bound_pr
  lower_bound_pr-Splits cmp c I row n key size x computes sorted h =
      search_loop-Finds (cmp key size) c I row n computes sorted n 0 n x h (omega arith)
        (omega arith) (omega arith) (λ i h. absurd (omega arith)) (λ i h h'. absurd (omega arith))
