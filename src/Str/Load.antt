-- ===== src/Str/Load.antt =====
-- `load_string` and `get_string_size` of a string that stands in the table.
use ds_my_sql.Base.{
  ℕ, zero, suc, ◌+◌, ◌≡◌, ◌∙◌, ap, refl, sym, ◌≤◌, ◌<◌, true, false, some, List, [], ◌∷◌, ◌++◌,
  arith, ltb, length, take, drop, get_or, is_negative, Bool-cases, inl, inr,
}
use mathlib.Core.List.{append-nil}
use ds_my_sql.Base.State.{◌>>=◌}
use ds_my_sql.Rid.{Rid, no_rid}
use ds_my_sql.Str.{StringRecord, Table, has_next_char, read_string, next_char, load_string}
use ds_my_sql.Str.Chain.{Laws, chunk, Chain, Keeps, Chain-Keeps, concat}

pub drop_cons : (s : List ℕ) (i : ℕ) → i < length s → drop i s ≡ get_or s i 0 ∷ drop (suc i) s
drop_cons [] i h = absurd (omega arith)
drop_cons (c ∷ s) zero h = refl
drop_cons (c ∷ s) (suc i) h = drop_cons s i (omega arith)

pub drop_all : (s : List ℕ) → drop (length s) s ≡ []
drop_all [] = refl
drop_all (c ∷ s) = drop_all s

module _ {T : Type 0} (table : Table T) (laws : Laws table) where
  open laws use {IsValid, Holds}

  abbrev pub at : Rid → List ℕ → ℕ → StringRecord
  at r s i = record { chunk = chunk r s; idx = i }

  -- The rest of a string behind a chunk.
  abbrev pub Rest : T → Rid → List (List ℕ) → Type 0
  Rest t r [] = r ≡ no_rid
  Rest t r (s ∷ ss) = (is_negative r.block_addr ≡ false) × (0 < length s) × Chain laws t r s ss

  abbrev pub rest_text : List (List ℕ) → List ℕ
  rest_text [] = []
  rest_text (s ∷ ss) = concat s ss

  pub concat_rest : (s : List ℕ) (ss : List (List ℕ)) → concat s ss ≡ s ++ rest_text ss
  concat_rest s [] = sym (append-nil s)
  concat_rest s (s' ∷ ss) = refl

  pub Rest-Keeps :
      (t t' : T) (r : Rid) (ss : List (List ℕ)) → Keeps laws t t' → Rest t r ss → Rest t' r ss
  Rest-Keeps t t' r [] keep h = h
  Rest-Keeps t t' r (s ∷ ss) keep (n, p, c) = (n, p, Chain-Keeps laws t t' r s ss keep c)

  -- The first chunk of a chain.
  first_chunk :
      (t : T) (r : Rid) (s : List ℕ) (ss : List (List ℕ))
      → Chain laws t r s ss
      → (r' : Rid) × Holds t r (chunk r' s) × Rest t r' ss
  first_chunk t r s [] h = (no_rid, h, refl)
  first_chunk t r s (s' ∷ ss) (r', h, n, p, c) = (r', h, (n, p, c))

  -- `read_string` of a chain.
  pub read-Chain :
      (t : T) (r : Rid) (s : List ℕ) (ss : List (List ℕ))
      → IsValid t
      → Chain laws t r s ss
      → (r' : Rid) × (t' : T) × (read_string table r t ≡ some (at r' s 0, t'))
        × IsValid t'
        × Keeps laws t t'
        × Rest t' r' ss
  unfolding read_string
  read-Chain t r s ss v c =
      let (r', h, rest) = first_chunk t r s ss c in
      let (t', e, v', keep) = laws.read_holds t r (chunk r' s) v h in
      (r', t', ground arith, v', keep, Rest-Keeps t t' r' ss keep rest)

  load_step :
      (n c : ℕ) (cs : List ℕ) (r r' out : StringRecord) (t t₁ t' : T)
      → has_next_char r ≡ true
      → next_char table r t ≡ some ((c, r'), t₁)
      → load_string table n r' t₁ ≡ some ((cs, out), t')
      → load_string table (suc n) r t ≡ some ((c ∷ cs, out), t')
  unfolding load_string
  load_step n c cs r r' out t t₁ t' h e e' = ground arith

  pub next_within :
      (t : T) (r : Rid) (s : List ℕ) (i : ℕ)
      → i < length s
      → (has_next_char (at r s i) ≡ true)
        × (next_char table (at r s i) t ≡ some ((get_or s i 0, at r s (suc i)), t))
  unfolding has_next_char next_char
  next_within t r s i lt = let e : i + 1 ≡ suc i = omega arith in (ground arith, ground arith)

  pub next_behind :
      (t t' : T) (r r' : Rid) (s s' : List ℕ) (i : ℕ)
      → ltb i (length s) ≡ false
      → is_negative r.block_addr ≡ false
      → read_string table r t ≡ some (at r' s' 0, t')
      → (has_next_char (at r s i) ≡ true)
        × (next_char table (at r s i) t ≡ some ((get_or s' 0 0, at r' s' 1), t'))
  unfolding has_next_char next_char
  next_behind t t' r r' s s' i ge n e = (ground arith, ground arith)

  pub no_next :
      (s : List ℕ) (i : ℕ) → ltb i (length s) ≡ false → has_next_char (at no_rid s i) ≡ false
  unfolding has_next_char
  no_next s i ge = ground arith

  load_end :
      (n : ℕ) (r : StringRecord) (t : T)
      → has_next_char r ≡ false
      → load_string table (suc n) r t ≡ some (([], r), t)
  unfolding load_string
  load_end n r t e = rw (e, load_string)

  abbrev pub LoadsAt : ℕ → ℕ → T → Rid → List ℕ → List (List ℕ) → Type 0
  LoadsAt n i t r s ss =
      (out : StringRecord) × (t' : T) × (load_string table n (at r s i) t
        ≡ some ((take n (drop i s ++ rest_text ss), out), t'))
      × IsValid t'
      × Keeps laws t t'

  abbrev pub Loads : ℕ → Type 0
  Loads n =
      (i : ℕ) (t : T) (r : Rid) (s : List ℕ) (ss : List (List ℕ))
      → IsValid t
      → Rest t r ss
      → i ≤ length s
      → LoadsAt n i t r s ss

  -- At the end of a chunk.
  load_behind :
      (n i : ℕ) (t : T) (r : Rid) (s : List ℕ) (ss : List (List ℕ))
      → Loads n
      → IsValid t
      → Rest t r ss
      → ltb i (length s) ≡ false
      → drop i s ≡ []
      → LoadsAt (suc n) i t r s ss
  load_behind n i t r s [] ih v rest ge none_left = (
    at r s i,
    t,
    load_end n (at r s i) t (ap (λ x. has_next_char (at x s i)) rest ∙ no_next s i ge)
        ∙ ap (λ l. some ((take (suc n) (l ++ []), at r s i), t)) (sym none_left),
    v,
    λ r c h. h,
  )
  load_behind n i t r s (s' ∷ ss) ih v (neg, p, c) ge none_left =
      let (r', t₁, e, v₁, keep, rest) = read-Chain t r s' ss v c in
      let (out, t', e', v', keep') = ih 1 t₁ r' s' ss v₁ rest p in
      let (h, e'') = next_behind t t₁ r r' s s' i ge neg e in
      let text : drop i s ++ concat s' ss ≡ get_or s' 0 0 ∷ (drop 1 s' ++ rest_text ss) =
        ap (λ l. l ++ concat s' ss) none_left
        ∙ concat_rest s' ss
        ∙ ap (λ l. l ++ rest_text ss) (drop_cons s' 0 p) in
      (
        out,
        t',
        load_step n _ _ (at r s i) (at r' s' 1) out t t₁ t' h e'' e'
            ∙ ap (λ l. some ((take (suc n) l, out), t')) (sym text),
        v',
        λ r c h. keep' r c (keep r c h),
      )

  pub load_chain : (n : ℕ) → Loads n
  unfolding load_string
  load_chain zero i t r s ss v rest le = (at r s i, t, refl, v, λ r c h. h)
  load_chain (suc n) i t r s ss v rest le = elim (Bool-cases (ltb i (length s))) [
    | inl lt ↦
        let lt' : i < length s = ground arith in
        let (out, t', e, v', keep) = load_chain n (suc i) t r s ss v rest lt' in
        let (h, e') = next_within t r s i lt' in
        (
          out,
          t',
          load_step n _ _ (at r s i) (at r s (suc i)) out t t t' h e' e
              ∙ ap (λ l. some ((take (suc n) (l ++ rest_text ss), out), t'))
                  (sym (drop_cons s i lt')),
          v',
          keep,
        )
    | inr ge ↦
        let end : i ≡ length s = ground arith in
        load_behind n i t r s ss (load_chain n) v rest ge (ap (λ k. drop k s) end ∙ drop_all s)
  ]

  -- Of a string that stands in a valid table from `r` on, `read_string` and then `load_string` of at
  -- most `n` characters load its first `n` characters, or all if there are fewer; they leave a valid
  -- table that lost no chunk.
  pub load_string-Chain :
      (n : ℕ) (t : T) (r : Rid) (s : List ℕ) (ss : List (List ℕ))
      → IsValid t
      → Chain laws t r s ss
      → (out : StringRecord) × (t' : T) × ((read_string table r >>= load_string table n) t
          ≡ some ((take n (concat s ss), out), t'))
        × IsValid t'
        × Keeps laws t t'
  load_string-Chain n t r s ss v c =
      let (r', t₁, e, v₁, keep, rest) = read-Chain t r s ss v c in
      let (out, t', e', v', keep') = load_chain n 0 t₁ r' s ss v₁ rest (omega arith) in
      (
        out,
        t',
        rw e (e' ∙ ap (λ l. some ((take n l, out), t')) (sym (concat_rest s ss))),
        v',
        λ r c h. keep' r c (keep r c h),
      )
