-- ===== src/Str/Cursor.antt =====
-- A `StringRecord` as a cursor in the text of a chain: `has_next_char` and `next_char`.
use ds_my_sql.Base.{
  ℕ, suc, ◌≡◌, ◌∙◌, ap, refl, sym, subst, ◌≤◌, ◌<◌, true, false, some, List, [], ◌∷◌, ◌++◌, arith,
  ltb, length, drop, take, get_or, Bool-cases, inl, inr, length-append,
}
use ds_my_sql.Rid.{Rid}
use ds_my_sql.Str.{StringRecord, Table, has_next_char, next_char, load_string}
use ds_my_sql.Str.Chain.{Laws, Keeps, concat}
use ds_my_sql.Str.Load.{
  drop_cons, drop_all, at, Rest, rest_text, concat_rest, Rest-Keeps, read-Chain, next_within,
  next_behind, no_next, load_chain,
}

module _ {T : Type 0} (table : Table T) (laws : Laws table) where
  open laws use {IsValid}

  abbrev left : List ℕ → ℕ → List (List ℕ) → List ℕ
  left s i ss = drop i s ++ rest_text table laws ss

  -- The text from the record on is `x`.
  pub record Cursor (t : T) (record_ : StringRecord) (x : List ℕ) : Type 0 where
    pub rid : Rid
    pub text : List ℕ
    pub idx : ℕ
    pub rest : List (List ℕ)
    pub here : record_ ≡ at table laws rid text idx
    pub behind : Rest table laws t rid rest
    pub within : idx ≤ length text
    pub ahead : left text idx rest ≡ x

  pub Cursor-Keeps :
      (t t' : T) (a : StringRecord) (x : List ℕ) → Keeps laws t t' → Cursor t a x → Cursor t' a x
  Cursor-Keeps t t' a x keep h = record {
    rid = h.rid;
    text = h.text;
    idx = h.idx;
    rest = h.rest;
    here = h.here;
    behind = Rest-Keeps table laws t t' h.rid h.rest keep h.behind;
    within = h.within;
    ahead = h.ahead;
  }

  -- The record gives `c` and goes on to `x`.
  pub record Gives (t : T) (a : StringRecord) (c : ℕ) (x : List ℕ) : Type 0 where
    pub has : has_next_char a ≡ true
    pub then_at : StringRecord
    pub table' : T
    pub run : next_char table a t ≡ some ((c, then_at), table')
    pub is_valid : IsValid table'
    pub keeps : Keeps laws t table'
    pub cursor : Cursor table' then_at x

  Gives-behind :
      (t : T) (r : Rid) (s : List ℕ) (i : ℕ) (ss : List (List ℕ)) (c : ℕ) (x : List ℕ)
      → IsValid t
      → Rest table laws t r ss
      → ltb i (length s) ≡ false
      → rest_text table laws ss ≡ c ∷ x
      → Gives t (at table laws r s i) c x
  Gives-behind t r s i [] c x v rest ge e = absurd (ground (arith, e))
  Gives-behind t r s i (s' ∷ ss) c x v (neg, p, chain) ge e =
      let (r', t', run, v', keep, rest) = read-Chain table laws t r s' ss v chain in
      let (h, run') = next_behind table laws t t' r r' s s' i ge neg run in
      let split : get_or s' 0 0 ∷ left s' 1 ss ≡ c ∷ x =
        ap (λ l. l ++ rest_text table laws ss) (sym (drop_cons s' 0 p))
        ∙ sym (concat_rest table laws s' ss)
        ∙ e in
      record {
        has = h;
        then_at = at table laws r' s' 1;
        table' = t';
        run = run' ∙ ap (λ l. some ((get_or l 0 0, at table laws r' s' 1), t')) split;
        is_valid = v';
        keeps = keep;
        cursor = record {
          rid = r';
          text = s';
          idx = 1;
          rest = ss;
          here = refl;
          behind = rest;
          within = p;
          ahead = ap (λ l. drop 1 l) split;
        };
      }

  Gives-at :
      (t : T) (r : Rid) (s : List ℕ) (i : ℕ) (ss : List (List ℕ)) (c : ℕ) (x : List ℕ)
      → IsValid t
      → Rest table laws t r ss
      → i ≤ length s
      → left s i ss ≡ c ∷ x
      → Gives t (at table laws r s i) c x
  Gives-at t r s i ss c x v rest le e = elim (Bool-cases (ltb i (length s))) [
    | inr ge ↦
        let end : i ≡ length s = ground arith in
        let none_left : drop i s ≡ [] = ap (λ k. drop k s) end ∙ drop_all s in
        Gives-behind t r s i ss c x v rest ge
          (ap (λ l. l ++ rest_text table laws ss) (sym none_left) ∙ e)
    | inl lt ↦
        let lt' : i < length s = ground arith in
        let (h, run) = next_within table laws t r s i lt' in
        let split : get_or s i 0 ∷ left s (suc i) ss ≡ c ∷ x =
          ap (λ l. l ++ rest_text table laws ss) (sym (drop_cons s i lt')) ∙ e in
        record {
          has = h;
          then_at = at table laws r s (suc i);
          table' = t;
          run = run ∙ ap (λ l. some ((get_or l 0 0, at table laws r s (suc i)), t)) split;
          is_valid = v;
          keeps = λ r c h. h;
          cursor = record {
            rid = r;
            text = s;
            idx = suc i;
            rest = ss;
            here = refl;
            behind = rest;
            within = lt';
            ahead = ap (λ l. drop 1 l) split;
          };
        }
  ]

  -- Where characters are left, `next_char` answers the first of them.
  pub Cursor-Gives :
      (t : T) (a : StringRecord) (c : ℕ) (x : List ℕ)
      → IsValid t
      → Cursor t a (c ∷ x)
      → Gives t a c x
  Cursor-Gives t a c x v h =
      subst (λ r. Gives t r c x) (sym h.here)
        (Gives-at t h.rid h.text h.idx h.rest c x v h.behind h.within h.ahead)

  no_more :
      (t : T) (r : Rid) (s : List ℕ) (i : ℕ) (ss : List (List ℕ))
      → Rest table laws t r ss
      → length (left s i ss) ≡ 0
      → ltb i (length s) ≡ false
      → has_next_char (at table laws r s i) ≡ false
  no_more t r s i [] rest e ge =
      ap (λ x. has_next_char (at table laws x s i)) rest ∙ no_next table laws s i ge
  no_more t r s i (s' ∷ ss) (neg, p, chain) e ge = absurd (
      omega (
        arith,
        length-append (drop i s) (concat s' ss),
        p,
        e,
        ap (λ l. length l) (concat_rest table laws s' ss),
        length-append s' (rest_text table laws ss),
      ))

  -- Where no character is left, `has_next_char` says so.
  pub Cursor-end : (t : T) (a : StringRecord) → Cursor t a [] → has_next_char a ≡ false
  Cursor-end t a h =
      ap (λ r. has_next_char r) h.here ∙ elim (Bool-cases (ltb h.idx (length h.text))) [
        | inr ge ↦ no_more t h.rid h.text h.idx h.rest h.behind (ap (λ l. length l) h.ahead) ge
        | inl lt ↦
            let lt' : h.idx < length h.text = ground arith in
            absurd (
              omega (
                arith,
                ap (λ l. length l) h.ahead,
                length-append (drop h.idx h.text) (rest_text table laws h.rest),
                ap (λ l. length l) (drop_cons h.text h.idx lt'),
              ))
      ]

  pub load_string-Cursor :
      (n : ℕ) (t : T) (a : StringRecord) (x : List ℕ)
      → IsValid t
      → Cursor t a x
      → (out : StringRecord) × (t' : T) × (load_string table n a t ≡ some ((take n x, out), t'))
        × IsValid t'
        × Keeps laws t t'
  load_string-Cursor n t a x v h =
      let (out, t', e, v', keep) =
        load_chain table laws n h.idx t h.rid h.text h.rest v h.behind h.within in
      (
        out,
        t',
        ap (λ r. load_string table n r t) h.here ∙ e ∙ ap (λ l. some ((take n l, out), t')) h.ahead,
        v',
        keep,
      )
