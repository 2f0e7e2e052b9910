-- ===== src/BTree/LowerBound/Rounds.antt =====
-- How many comparisons the binary search of b_tree.c makes.
use ds_my_sql.Base.{
  ℕ, zero, suc, ◌+◌, ◌-◌, ◌/◌, ◌^◌, ◌<◌, ◌≤◌, ◌*◌, ◌≡◌, arith, false, some, ltb, Bool-cases, inl,
  inr, ℤ, refl,
}
use native.Mathlib.Numerals.{unary_clauses}
use ds_my_sql.Base.State.{M, bind_same}
use ds_my_sql.BTree.LowerBound.{is_above, search_loop}

module _ {R X : Type 0} (cmp : R → M X ℤ) (row : ℕ → R) where
  search_loop-done :
      (fuel l hi ans : ℕ) (x : X)
      → ltb l hi ≡ false
      → search_loop cmp row fuel l hi ans x ≡ some (ans, x)
  unfolding search_loop
  search_loop-done zero l hi ans x e = refl
  search_loop-done (suc fuel) l hi ans x e = rw e refl

  half :
      (l hi fuel : ℕ)
      → l < hi
      → hi < l + 2 ^ suc fuel
      → (hi < (l + (hi - 1)) / 2 + 1 + 2 ^ fuel) × ((l + (hi - 1)) / 2 < l + 2 ^ fuel)
  half l hi fuel le lt =
      let double : 2 ^ suc fuel ≡ 2 * 2 ^ fuel = simp unary_clauses (omega arith) in
      (omega arith, omega arith)

  -- The binary search among the rows from `l` on and before `hi` ends within `fuel` comparisons if
  -- there are less than `2 ^ fuel` rows, whatever the comparisons answer: with more fuel, its run is
  -- the same.
  pub search_loop-ends :
      (fuel more l hi ans : ℕ) (x : X)
      → fuel ≤ more
      → hi < l + 2 ^ fuel
      → search_loop cmp row more l hi ans x ≡ search_loop cmp row fuel l hi ans x
  unfolding search_loop
  search_loop-ends zero more l hi ans x le lt = search_loop-done more l hi ans x (ground arith)
  search_loop-ends (suc fuel) zero l hi ans x le lt = absurd (omega arith)
  search_loop-ends (suc fuel) (suc more) l hi ans x le lt = elim (Bool-cases (ltb l hi)) [
    | inr e ↦ rw e refl
    | inl e ↦
        let mid : ℕ = (l + (hi - 1)) / 2 in
        rw e (
          bind_same (cmp (row mid)) _ _ x (λ c y. elim (Bool-cases (is_above c)) [
            | inl a ↦ rw a (
                search_loop-ends fuel more (mid + 1) hi ans y (omega arith)
                  (half l hi fuel (ground arith) lt).0)
            | inr b ↦ rw b (
                search_loop-ends fuel more l mid mid y (omega arith)
                  (half l hi fuel (ground arith) lt).1)
          ]))
  ]
