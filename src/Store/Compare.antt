-- ===== src/Store/Compare.antt =====
-- The comparison of a key in memory with a key in the tables: `compare_chars` is the order of texts.
use ds_my_sql.Base.{
  ℕ, zero, suc, ◌+◌, ◌-◌, ◌≡◌, ◌∙◌, ◌<◌, ◌≤◌, ap, refl, sym, arith, ◌⊎◌, List, [], ◌∷◌, ltb,
  if◌then◌else◌, pos, minus_one, take, drop, length, get_or, Bool-cases, inl, inr,
}
use ds_my_sql.Str.{char_lt}
use ds_my_sql.Str.Load.{drop_cons}
use ds_my_sql.Str.Order.{order}
use ds_my_sql.Store.{compare_chars}

length-drop : {A : Type 0} (i : ℕ) (xs : List A) → length (drop i xs) ≡ length xs - i
length-drop zero xs = omega arith
length-drop (suc i) [] = omega arith
length-drop (suc i) (x ∷ xs) = omega (arith, length-drop i xs)

order_ends :
    (x y : List ℕ) (m n : ℕ)
    → m - n ≡ length x - length y
    → n - m ≡ length y - length x
    → (length x ≡ 0) ⊎ (length y ≡ 0)
    → (if ltb n m then pos 1 else if ltb m n then minus_one else pos 0) ≡ order x y
order_ends [] [] m n e e' h = ground arith
order_ends [] (d ∷ y) m n e e' h = ground arith
order_ends (c ∷ x) [] m n e e' h = ground arith
order_ends (c ∷ x) (d ∷ y) m n e e' h = absurd (ground arith)

-- From `i` on, where `n` characters of both texts are compared.
compare_from :
    (n i : ℕ) (t s : List ℕ)
    → i + n ≤ length t
    → i + n ≤ length s
    → (length t ≡ i + n) ⊎ (length s ≡ i + n)
    → compare_chars t s (length t) i n ≡ order (drop i t) (drop i s)
unfolding compare_chars
compare_from zero i t s le le' h =
    let p = length-drop i t in
    let q = length-drop i s in
    order_ends (drop i t) (drop i s) (length t) (length s) (omega arith) (omega arith)
      (elim h [ inl e ↦ inl (omega arith) | inr e ↦ inr (omega arith) ])
compare_from (suc n) i t s le le' h =
    let e : i + 1 ≡ suc i = omega arith in
    let rest =
      compare_from n (suc i) t s (omega arith) (omega arith)
        (elim h [ inl e ↦ inl (omega arith) | inr e ↦ inr (omega arith) ]) in
    ap
      (λ z.
        if char_lt (get_or s i 0) (get_or t i 0)
        then pos 1
        else if char_lt (get_or t i 0) (get_or s i 0)
        then minus_one
        else z)
      (ap (λ k. compare_chars t s (length t) k n) e ∙ rest)
    ∙ sym (
        ap (λ x. order x (drop i s)) (drop_cons t i (omega arith))
        ∙ ap (λ y. order (get_or t i 0 ∷ drop (suc i) t) y) (drop_cons s i (omega arith)))

-- A text that is longer than the key is so by its first two characters more.
order-take : (x y : List ℕ) (n : ℕ) → length x < n → order x (take n y) ≡ order x y
order-take x y zero lt = absurd (omega arith)
order-take [] [] (suc n) lt = refl
order-take [] (d ∷ y) (suc n) lt = refl
order-take (c ∷ x) [] (suc n) lt = refl
order-take (c ∷ x) (d ∷ y) (suc n) lt =
    ap (λ z. if char_lt d c then pos 1 else if char_lt c d then minus_one else z)
      (order-take x y n (omega arith))

-- The comparison that `rid_ptr_row_cmp` makes of a key with the first characters of a text, at least
-- one more than the key has, is the order of the key and the whole text.
pub compare_chars-order :
    (t text : List ℕ) (m : ℕ)
    → length t < m
    → let s = take m text in
      compare_chars t s (length t) 0 (if ltb (length t) (length s) then length t else length s)
      ≡ order t text
compare_chars-order t text m lt =
    let s = take m text in
    elim (Bool-cases (ltb (length t) (length s))) [
      | inl e ↦
          rw e (compare_from (length t) 0 t s (omega arith) (ground arith) (inl (omega arith)))
          ∙ order-take t text m lt
      | inr e ↦
          rw e (compare_from (length s) 0 t s (ground arith) (omega arith) (inr (omega arith)))
          ∙ order-take t text m lt
    ]
