-- ===== src/BTree/Arrays/Insertion.antt =====
-- The array loops of b_tree.c and insertion: the split of a full node, and the loops that undo it.
use ds_my_sql.Base.{
  ℕ, zero, suc, ◌+◌, ◌-◌, ◌≡◌, ◌∙◌, ◌<◌, ◌≤◌, arith, Bool, true, false, ◌==◌, ltb, ◌&&◌, ◌||◌, not,
  if◌then◌else◌, Bool-cases, inl, inr,
}
use ds_my_sql.BTree.Arrays.{put_at, shift_right, shift_left, copy_range, weave, insert_at, split_at}

module _ {A : Type 0} where
  -- The entries of `a` with `v` between those before `i` and the others.
  abbrev pub with_entry : (ℕ → A) → ℕ → A → ℕ → A
  with_entry a i v j = if ltb j i then a j else if j == i then v else a (j - 1)

  shift_right-at :
      (a : ℕ → A) (i n j : ℕ)
      → i ≤ n
      → shift_right a i n j ≡ (if ltb i j && not (ltb n j) then a (j - 1) else a j)
  unfolding shift_right
  shift_right-at a i zero j le = ground arith
  shift_right-at a i (suc n) j le = elim (Bool-cases (ltb i (suc n))) [
    | inl e ↦ rw e (shift_right-at (put_at a (suc n) (a n)) i n j (ground arith) ∙ ground arith)
    | inr e ↦ rw e (ground arith)
  ]

  -- Making room at `i` in `n` entries and writing `v` there gives, of any `i` up to `n`, the entries
  -- before `i`, `v`, and the others one further on; nothing behind the `n + 1` entries changes.
  pub insert_at-with_entry :
      (a : ℕ → A) (n i : ℕ) (v : A) (j : ℕ)
      → i ≤ n
      → insert_at a n i v j ≡ (if ltb n j then a j else with_entry a i v j)
  unfolding insert_at
  insert_at-with_entry a n i v j le = ground (arith, shift_right-at a i n j le)

  shift_left-at :
      (a : ℕ → A) (i n j : ℕ)
      → shift_left a i n j ≡ (if ltb j i then a j else if ltb j (i + n) then a (j + 1) else a j)
  unfolding shift_left
  shift_left-at a i zero j = ground arith
  shift_left-at a i (suc n) j = shift_left-at (put_at a i (a (i + 1))) (i + 1) n j ∙ ground arith

  -- The loop that closes the gap at `i` undoes an insertion there: the `n` entries are back.
  pub shift_left-insert_at :
      (a : ℕ → A) (n i : ℕ) (v : A) (j : ℕ)
      → i ≤ n
      → j < n
      → shift_left (insert_at a n i v) i (n - i) j ≡ a j
  shift_left-insert_at a n i v j le lt =
      shift_left-at (insert_at a n i v) i (n - i) j
      ∙ ground (arith, insert_at-with_entry a n i v j le, insert_at-with_entry a n i v (j + 1) le)

  copy_range-at :
      (b : ℕ → A) (to : ℕ) (a : ℕ → A) (from n j : ℕ)
      → copy_range b to a from n j
        ≡ (if ltb j to then b j else if ltb j (to + n) then a (from + (j - to)) else b j)
  unfolding copy_range
  copy_range-at b to a from zero j = ground arith
  copy_range-at b to a from (suc n) j =
      copy_range-at (put_at b to (a from)) (to + 1) a (from + 1) n j ∙ ground arith

  weave-at :
      (b a : ℕ → A) (v : A) (i j count : ℕ) (tag : Bool) (n k : ℕ)
      → weave b a v i j count tag n k ≡ (
          if ltb k count || not (ltb k (count + n))
          then b k
          else if tag
          then a (j + (k - count))
          else if ltb i j
          then a (j + (k - count))
          else with_entry a i v (j + (k - count)))
  unfolding weave
  weave-at b a v i j count tag zero k = ground arith
  weave-at b a v i j count tag (suc n) k = elim (Bool-cases ((j == i) && not tag)) [
    | inl e ↦ rw e (weave-at (put_at b count v) a v i j (count + 1) true n k ∙ ground arith)
    | inr e ↦
        rw e (weave-at (put_at b count (a j)) a v i (j + 1) (count + 1) tag n k ∙ ground arith)
  ]

  -- The loop that weaves `v` into a copy of `n` entries makes the insertion that the loop in place
  -- makes: of any `i` up to `n`, all `n + 1` entries agree.
  pub weave-insert_at :
      (b a : ℕ → A) (n i : ℕ) (v : A) (j : ℕ)
      → i ≤ n
      → j ≤ n
      → weave b a v i 0 0 false (n + 1) j ≡ insert_at a n i v j
  weave-insert_at b a n i v j le le' =
      weave-at b a v i 0 0 false (n + 1) j ∙ ground (arith, insert_at-with_entry a n i v j le)

  -- The split of a full node is an insertion into five entries and a cut: of any `i` up to 5, the
  -- first three of the six entries are those of the first array, and the last three those of the
  -- second one.
  pub split_at-insert_at :
      (a b : ℕ → A) (i : ℕ) (v : A) (j : ℕ)
      → i ≤ 5
      → j < 3
      → ((split_at a b i v).0 j ≡ insert_at a 5 i v j)
        × ((split_at a b i v).1 j ≡ insert_at a 5 i v (j + 3))
  unfolding split_at
  split_at-insert_at a b i v j le lt = elim (Bool-cases (ltb i 3)) [
    | inl e ↦
        let low : i ≤ 2 = ground arith in
        (
          rw e (
              ground
                (arith, insert_at-with_entry a 2 i v j low, insert_at-with_entry a 5 i v j le)),
          rw e
              (copy_range-at b 0 a 2 3 j ∙ ground (arith, insert_at-with_entry a 5 i v (j + 3) le)),
        )
    | inr e ↦ (
      rw e (ground (arith, insert_at-with_entry a 5 i v j le)),
      rw e (
          weave-at b a v i 3 0 false 3 j ∙ ground (arith, insert_at-with_entry a 5 i v (j + 3) le)),
    )
  ]
