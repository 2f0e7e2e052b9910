-- ===== src/BTree/Arrays.antt =====
-- The loops of b_tree.c over the arrays `row_ptr` and `child` of a node, on arrays of any type.
pub mod Insertion
use ds_my_sql.Base.{ℕ, zero, suc, ◌+◌, Bool, true, false, ◌==◌, ltb, ◌&&◌, not, if◌then◌else◌}

module _ {A : Type 0} where
  -- `a[i] = v`
  abbrev pub put_at : (ℕ → A) → ℕ → A → ℕ → A
  put_at a i v = λ j. if j == i then v else a j

  -- `for (j = n; j > i; j--) a[j] = a[j - 1]`
  unfoldable pub shift_right : (ℕ → A) → ℕ → ℕ → ℕ → A
  shift_right a i zero = a
  shift_right a i (suc j) = if ltb i (suc j) then shift_right (put_at a (suc j) (a j)) i j else a

  -- `for (j = i; …; j++) a[j] = a[j + 1]`, of `n` rounds.
  unfoldable pub shift_left : (ℕ → A) → ℕ → ℕ → ℕ → A
  shift_left a i zero = a
  shift_left a i (suc n) = shift_left (put_at a i (a (i + 1))) (i + 1) n

  -- `for (j …) b[to + j] = a[from + j]`, of `n` rounds.
  unfoldable pub copy_range : (ℕ → A) → ℕ → (ℕ → A) → ℕ → ℕ → ℕ → A
  copy_range b to a from zero = b
  copy_range b to a from (suc n) = copy_range (put_at b to (a from)) (to + 1) a (from + 1) n

  -- The loop that copies `a` from `j` on to `b` from `count` on, with `v` before `a[i]`; of `n`
  -- rounds, where `tag` says that `v` is placed.
  unfoldable pub weave : (ℕ → A) → (ℕ → A) → A → (i : ℕ) → (j count : ℕ) → Bool → ℕ → ℕ → A
  weave b a v i j count tag zero = b
  weave b a v i j count tag (suc n) =
      if (j == i) && not tag
      then weave (put_at b count v) a v i j (count + 1) true n
      else weave (put_at b count (a j)) a v i (j + 1) (count + 1) tag n

  -- `v` goes to index `i` of the `n` entries of `a`.
  unfoldable pub insert_at : (ℕ → A) → ℕ → ℕ → A → ℕ → A
  insert_at a n i v = put_at (shift_right a i n) i v

  -- Five entries and `v`, which goes to index `i`, are split: the first three stay in `a`, and the
  -- others go to `b`.
  unfoldable pub split_at : (ℕ → A) → (ℕ → A) → ℕ → A → (ℕ → A) × (ℕ → A)
  split_at a b i v =
      if ltb i 3 then (insert_at a 2 i v, copy_range b 0 a 2 3) else (a, weave b a v i 3 0 false 3)
