-- ===== src/BTree/Ordered.antt =====
-- The rows of a node in the order of their keys: the search for the place of a new row, its insertion
-- and the split of a full node.
use ds_my_sql.Base.{
  ℕ, suc, ◌+◌, ◌-◌, ◌≤◌, ◌<◌, ◌≡◌, ◌∙◌, true, false, some, arith, ltb, Bool-cases, inl, inr, ℤ,
  ◌==◌, ◌⊎◌,
}
use ds_my_sql.Base.State.{M}
use ds_my_sql.BTree.Arrays.{insert_at, split_at}
use ds_my_sql.BTree.Arrays.Insertion.{insert_at-with_entry, split_at-insert_at}
use ds_my_sql.BTree.LowerBound.{
  lower_bound_rr, is_above, Computes, IsSorted, Splits, lower_bound_rr-Splits,
}

module _ {R : Type 0} (c : R → R → ℤ) where
  abbrev pub IsLe : R → R → Type 0
  IsLe a b = is_above (c a b) ≡ false

  -- The comparison is that of an order: of two rows one is not above the other, and what is not above
  -- is passed on.
  pub record IsOrder : Type 0 where
    pub reflexive : (a : R) → IsLe a a
    pub total : (a b : R) → is_above (c a b) ≡ true → IsLe b a
    pub transitive : (a b d : R) → IsLe a b → IsLe b d → IsLe a d

  -- The first `n` rows are in order.
  abbrev pub IsOrdered : (ℕ → R) → ℕ → Type 0
  IsOrdered row n = (i j : ℕ) → i ≤ j → j < n → IsLe (row i) (row j)

  into : {a b a' b' : R} → a' ≡ a → b' ≡ b → IsLe a b → IsLe a' b'
  into e e' le = rw e (rw e' le)

  module _ (order : IsOrder) (row : ℕ → R) (n : ℕ) (ordered : IsOrdered row n) (rid : R) where
    pub IsOrdered-IsSorted : IsSorted (c rid) row n
    IsOrdered-IsSorted i j le lt above = elim (Bool-cases (is_above (c rid (row i)))) [
      | inl y ↦ y
      | inr k ↦ absurd (ground (arith, order.transitive rid (row i) (row j) k (ordered i j le lt)))
    ]

    module _ (r : ℕ) (splits : Splits (c rid) row n r) where
      -- An index of the node after the insertion: its row was before the new one, is the new one, or was
      -- one index before.
      abbrev EntryCases : ℕ → Type 0
      EntryCases i =
          ((i < r) × (insert_at row n r rid i ≡ row i))
          ⊎ ((i ≡ r) × (insert_at row n r rid i ≡ rid))
          ⊎ ((k : ℕ) × (i ≡ suc k) × (r ≤ k) × (insert_at row n r rid i ≡ row k))

      entry_cases : (i : ℕ) → i ≤ n → EntryCases i
      entry_cases i le =
          let w = splits.within in
          let entry = insert_at-with_entry row n r rid i w in
          elim (Bool-cases (ltb i r)) [
            | inl lt ↦ inl (ground arith, entry ∙ ground arith)
            | inr ge ↦ elim (Bool-cases (i == r)) [
              | inl e ↦ inr (inl (ground arith, entry ∙ ground arith))
              | inr ne ↦ inr (inr (i - 1, ground arith, ground arith, entry ∙ ground arith))
            ]
          ]

      -- The rows stay in order.
      pub insert_at-IsOrdered : IsOrdered (insert_at row n r rid) (n + 1)
      insert_at-IsOrdered i j le lt = elim (entry_cases i (omega arith)) [
        | inl (before, e) ↦ elim (entry_cases j (omega arith)) [
          | inl (before', e') ↦ into e e' (let w = splits.within in ordered i j le (omega arith))
          | inr (inl (here, e')) ↦ into e e' (order.total rid (row i) (splits.above i before))
          | inr (inr (k, next, behind, e')) ↦ into e e' (ordered i k (omega arith) (omega arith))
        ]
        | inr (inl (here, e)) ↦ elim (entry_cases j (omega arith)) [
          | inl (before', e') ↦ absurd (omega arith)
          | inr (inl (here', e')) ↦ into e e' (order.reflexive rid)
          | inr (inr (k, next, behind, e')) ↦ into e e' (splits.not_above k behind (omega arith))
        ]
        | inr (inr (k, next, behind, e)) ↦ elim (entry_cases j (omega arith)) [
          | inl (before', e') ↦ absurd (omega arith)
          | inr (inl (here', e')) ↦ absurd (omega arith)
          | inr (inr (k', next', behind', e')) ↦
              into e e' (ordered k k' (omega arith) (omega arith))
        ]
      ]

module _ {R X : Type 0} (cmp : R → R → M X ℤ) (c : R → R → ℤ) (I : X → Type 0)
    (order : IsOrder c) where
  -- A node of `n` rows in order, where each comparison with one of them runs: `lower_bound_rr` runs
  -- and answers an index up to `n` at which the insertion of the row gives `n + 1` rows in order.
  pub lower_bound_rr-insert_at :
      (row : ℕ → R) (n : ℕ) (rid : R) (x : X)
      → Computes (cmp rid) (c rid) I row n
      → IsOrdered c row n
      → I x
      → (r : ℕ) × (x' : X) × (lower_bound_rr cmp row n rid x ≡ some (r, x'))
        × I x'
        × (r ≤ n)
        × IsOrdered c (insert_at row n r rid) (n + 1)
  lower_bound_rr-insert_at row n rid x computes ordered h =
      let (r, x', run, h', splits) =
        lower_bound_rr-Splits cmp (c rid) I row n rid x computes
          (IsOrdered-IsSorted c order row n ordered rid) h in
      (r, x', run, h', splits.within, insert_at-IsOrdered c order row n ordered rid r splits)

  -- A full node of 5 rows in order: `lower_bound_rr` runs and answers an index up to 5; the split at it
  -- leaves 3 rows in order in each of the two nodes, and no row of the first one is above a row of the
  -- second one.
  pub lower_bound_rr-split_at :
      (row b : ℕ → R) (rid : R) (x : X)
      → Computes (cmp rid) (c rid) I row 5
      → IsOrdered c row 5
      → I x
      → (r : ℕ) × (x' : X) × (lower_bound_rr cmp row 5 rid x ≡ some (r, x'))
        × I x'
        × (r ≤ 5)
        × IsOrdered c (split_at row b r rid).0 3
        × IsOrdered c (split_at row b r rid).1 3
        × ((i j : ℕ)
            → i < 3
            → j < 3
            → IsLe c ((split_at row b r rid).0 i) ((split_at row b r rid).1 j))
  lower_bound_rr-split_at row b rid x computes ordered h =
      let (r, x', run, h', le, six) = lower_bound_rr-insert_at row 5 rid x computes ordered h in
      let first : (i : ℕ) → i < 3 → (split_at row b r rid).0 i ≡ insert_at row 5 r rid i =
        λ i lt. (split_at-insert_at row b r rid i le lt).0 in
      let second : (i : ℕ) → i < 3 → (split_at row b r rid).1 i ≡ insert_at row 5 r rid (i + 3) =
        λ i lt. (split_at-insert_at row b r rid i le lt).1 in
      (
        r,
        x',
        run,
        h',
        le,
        (λ i j le' lt. rw (first i (omega arith)) (rw (first j lt) (six i j le' (omega arith)))),
        (λ i j le' lt.
            rw (second i (omega arith))
              (rw (second j lt) (six (i + 3) (j + 3) (omega arith) (omega arith)))),
        (λ i j lt lt'.
            rw (first i lt) (rw (second j lt') (six i (j + 3) (omega arith) (omega arith)))),
      )
