-- ===== src/Str/Order.antt =====
-- `compare_string_record` as the order of texts, and `get_string_size` as the length of a text.
use ds_my_sql.Base.{
  ℕ, zero, suc, ◌+◌, ◌≡◌, ◌∙◌, ap, refl, sym, ◌<◌, true, false, some, List, [], ◌∷◌, ◌++◌, arith,
  length, if◌then◌else◌, Bool-cases, inl, inr, length-append, ℤ, pos, minus_one,
}
use ds_my_sql.Base.State.{◌>>=◌}
use ds_my_sql.Rid.{Rid}
use ds_my_sql.Str.{
  StringRecord, Table, char_lt, has_next_char, read_string, next_char, compare_string_record,
  size_loop, get_string_size,
}
use ds_my_sql.Str.Chain.{Laws, Chain, Keeps, Chain-Keeps, concat}
use ds_my_sql.Str.Load.{at, Rest, concat_rest, read-Chain}
use ds_my_sql.Str.Cursor.{Cursor, Cursor-Keeps, Cursor-Gives, Cursor-end}

-- The order of two texts by their first difference, as signed characters; a text comes before the
-- longer ones that it begins.
abbrev pub order : List ℕ → List ℕ → ℤ
order [] [] = pos 0
order [] (d ∷ y) = minus_one
order (c ∷ x) [] = pos 1
order (c ∷ x) (d ∷ y) =
    let rest = order x y in if char_lt d c then pos 1 else if char_lt c d then minus_one else rest

module _ {T : Type 0} (table : Table T) (laws : Laws table) where
  open laws use {IsValid}

  abbrev Compares : ℕ → T → StringRecord → StringRecord → ℤ → Type 0
  Compares fuel t a b z =
      (t' : T) × (compare_string_record table fuel a b t ≡ some (z, t'))
      × IsValid t'
      × Keeps laws t t'

  -- One round in which both texts have a character.
  compare_step :
      (fuel : ℕ) (a a' b b' : StringRecord) (c d : ℕ) (t t₁ t₂ : T)
      → has_next_char a ≡ true
      → has_next_char b ≡ true
      → next_char table a t ≡ some ((c, a'), t₁)
      → next_char table b t₁ ≡ some ((d, b'), t₂)
      → compare_string_record table (suc fuel) a b t ≡ (
          if char_lt d c
          then some (pos 1, t₂)
          else if char_lt c d
          then some (minus_one, t₂)
          else compare_string_record table fuel a' b' t₂)
  unfolding compare_string_record
  compare_step fuel a a' b b' c d t t₁ t₂ ha hb ea eb = ground arith

  compare_done :
      (fuel : ℕ) (a b : StringRecord) (t : T)
      → (has_next_char a ≡ false
          → has_next_char b ≡ false
          → compare_string_record table (suc fuel) a b t ≡ some (pos 0, t))
        × (has_next_char a ≡ false
            → has_next_char b ≡ true
            → compare_string_record table (suc fuel) a b t ≡ some (minus_one, t))
        × (has_next_char a ≡ true
            → has_next_char b ≡ false
            → compare_string_record table (suc fuel) a b t ≡ some (pos 1, t))
  unfolding compare_string_record
  compare_done fuel a b t = (λ h k. ground arith, λ h k. ground arith, λ h k. ground arith)

  compare-Cursor :
      (fuel : ℕ) (t : T) (a b : StringRecord) (x y : List ℕ)
      → length x < fuel
      → IsValid t
      → Cursor table laws t a x
      → Cursor table laws t b y
      → Compares fuel t a b (order x y)
  compare-Cursor zero t a b x y lt v p q = absurd (omega arith)
  compare-Cursor (suc fuel) t a b [] [] lt v p q = (
    t,
    (compare_done fuel a b t).0 (Cursor-end table laws t a p) (Cursor-end table laws t b q),
    v,
    λ r c h. h,
  )
  compare-Cursor (suc fuel) t a b [] (d ∷ y) lt v p q = (
    t,
    (compare_done fuel a b t).1 (Cursor-end table laws t a p)
        ((Cursor-Gives table laws t b d y v q).has),
    v,
    λ r c h. h,
  )
  compare-Cursor (suc fuel) t a b (c ∷ x) [] lt v p q = (
    t,
    (compare_done fuel a b t).2 ((Cursor-Gives table laws t a c x v p).has)
        (Cursor-end table laws t b q),
    v,
    λ r c h. h,
  )
  compare-Cursor (suc fuel) t a b (c ∷ x) (d ∷ y) lt v p q =
      let one = Cursor-Gives table laws t a c x v p in
      let t₁ = one.table' in
      let two =
        Cursor-Gives table laws t₁ b d y one.is_valid
          (Cursor-Keeps table laws t t₁ b (d ∷ y) one.keeps q) in
      let t₂ = two.table' in
      let both : Keeps laws t t₂ = λ r c h. two.keeps r c (one.keeps r c h) in
      let (t', e, v', keep) =
        compare-Cursor fuel t₂ one.then_at two.then_at x y (omega arith) two.is_valid
          (Cursor-Keeps table laws t₁ t₂ one.then_at x two.keeps one.cursor) two.cursor in
      let step =
        compare_step fuel a one.then_at b two.then_at c d t t₁ t₂ one.has two.has one.run two.run in
      elim (Bool-cases (char_lt d c)) [
        | inl g ↦ (t₂, step ∙ ground (arith, g), two.is_valid, both)
        | inr g ↦ elim (Bool-cases (char_lt c d)) [
          | inl l ↦ (t₂, step ∙ ground (arith, g, l), two.is_valid, both)
          | inr l ↦ (t', step ∙ ground (arith, g, l, e), v', λ r c h. keep r c (both r c h))
        ]
      ]

  start :
      (t : T) (r r' : Rid) (s : List ℕ) (ss : List (List ℕ))
      → Rest table laws t r' ss
      → Cursor table laws t (at table laws r' s 0) (concat s ss)
  start t r r' s ss rest = record {
    rid = r';
    text = s;
    idx = 0;
    rest = ss;
    here = refl;
    behind = rest;
    within = omega arith;
    ahead = sym (concat_rest table laws s ss);
  }

  -- Of two strings that stand in a valid table, `compare_string_record` of their records answers the
  -- order of the texts, if its fuel is above the length of the first text; it leaves a valid table
  -- that lost no chunk.
  pub compare_string_record-order :
      (fuel : ℕ) (t : T) (r r' : Rid) (s s' : List ℕ) (ss ss' : List (List ℕ))
      → length (concat s ss) < fuel
      → IsValid t
      → Chain laws t r s ss
      → Chain laws t r' s' ss'
      → (t' : T) × ((read_string table r >>= λ a.
              read_string table r' >>= λ b. compare_string_record table fuel a b)
            t
          ≡ some (order (concat s ss) (concat s' ss'), t'))
        × IsValid t'
        × Keeps laws t t'
  compare_string_record-order fuel t r r' s s' ss ss' lt v c c' =
      let (q, t₁, e, v₁, keep, rest) = read-Chain table laws t r s ss v c in
      let (q', t₂, e', v₂, keep', rest') =
        read-Chain table laws t₁ r' s' ss' v₁ (Chain-Keeps laws t t₁ r' s' ss' keep c') in
      let (t', run, v', keep'') =
        compare-Cursor fuel t₂ (at table laws q s 0) (at table laws q' s' 0) (concat s ss)
          (concat s' ss') lt v₂ (Cursor-Keeps table laws t₁ t₂ _ _ keep' (start t₁ r q s ss rest))
          (start t₂ r' q' s' ss' rest') in
      (t', rw e (rw e' run), v', λ r c h. keep'' r c (keep' r c (keep r c h)))

  -- The loop of `get_string_size` from a record on.
  size_loop-length :
      (fuel ans : ℕ) (t : T) (r : Rid) (s : List ℕ) (ss : List (List ℕ))
      → length ss < fuel
      → IsValid t
      → Rest table laws t r ss
      → (t' : T) × (size_loop table fuel ans (at table laws r s 0) t
          ≡ some (ans + length (concat s ss), t'))
        × IsValid t'
        × Keeps laws t t'
  unfolding size_loop
  size_loop-length zero ans t r s ss lt v rest = absurd (omega arith)
  size_loop-length (suc fuel) ans t r s [] lt v rest = (t, rw rest refl, v, λ r c h. h)
  size_loop-length (suc fuel) ans t r s (s' ∷ ss) lt v (neg, p, c) =
      let (r', t₁, e, v₁, keep, rest) = read-Chain table laws t r s' ss v c in
      let (t', e', v', keep') =
        size_loop-length fuel (ans + length s) t₁ r' s' ss (omega arith) v₁ rest in
      let total : ans + length s + length (concat s' ss) ≡ ans + length (s ++ concat s' ss) =
        omega (arith, length-append s (concat s' ss)) in
      (t', rw neg (rw e (e' ∙ ap (λ n. some (n, t')) total)), v', λ r c h. keep' r c (keep r c h))

  -- Of a string that stands in a valid table, `get_string_size` answers the length of its text and
  -- leaves its record at the start again, if the fuel is above the number of its chunks behind the
  -- first; it leaves a valid table that lost no chunk.
  pub get_string_size-length :
      (fuel : ℕ) (t : T) (r : Rid) (s : List ℕ) (ss : List (List ℕ))
      → length ss < fuel
      → IsValid t
      → Chain laws t r s ss
      → (out : StringRecord) × (t' : T) × ((read_string table r >>= λ a.
              get_string_size table fuel a r)
            t
          ≡ some ((length (concat s ss), out), t'))
        × Cursor table laws t' out (concat s ss)
        × IsValid t'
        × Keeps laws t t'
  unfolding get_string_size
  get_string_size-length fuel t r s ss lt v c =
      let (q, t₁, e, v₁, keep, rest) = read-Chain table laws t r s ss v c in
      let (t₂, e', v₂, keep') = size_loop-length fuel 0 t₁ q s ss lt v₁ rest in
      let there : Keeps laws t t₂ = λ r c h. keep' r c (keep r c h) in
      let (q', t', e'', v', keep'', rest') =
        read-Chain table laws t₂ r s ss v₂ (Chain-Keeps laws t t₂ r s ss there c) in
      let zero_add : 0 + length (concat s ss) ≡ length (concat s ss) = omega arith in
      (
        at table laws q' s 0,
        t',
        rw e (rw e' (rw e'' (ap (λ n. some ((n, at table laws q' s 0), t')) zero_add))),
        start t' r q' s ss rest',
        v',
        λ r c h. keep'' r c (there r c h),
      )
