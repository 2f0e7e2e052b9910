-- ===== src/Client/Answers.antt =====
-- What a thread of the server answers once a request is here, over a connection that loses nothing.
use ds_my_sql.Base.{
  ℕ, ◌≡◌, ◌≤◌, ◌<◌, false, true, List, [], ◌∷◌, ℤ, pos, minus_one, ltb_ℤ, length, take, arith, refl,
}
use ds_my_sql.Server.{
  Text, max_str_len, Net, Db, Thread, Outcome, next, both, alloc_value, enter, leave, free_key,
  free_value, db_get, db_set, db_del, reply_get, answer_get, answer_set, answer_del,
}
use ds_my_sql.Client.{Socket}
use ds_my_sql.Client.Link.{Item, word, bytes, Link, Carries, server_gives_word, server_gives_text}

module _ {W D : Type 0} {net : Net W} {socket : Socket W} (link : Link net socket)
    (database : Db D) where
  -- A run that goes on with `a`, and leaves the database and the connection as said.
  abbrev pub Leaves : {A : Type 0} → Outcome A × Thread W D → A → D → List Item → Type 0
  Leaves {A = A} r a d down =
      (t' : Thread W D) × (r ≡ (next a, t')) × (t'.db ≡ d) × Carries link database t'.world [] down

  pub answer_get-Leaves :
      (t : Thread W D) (key : Text) (len n : ℕ) (value : Text) (d : D)
      → len ≤ max_str_len
      → database.get t.db key (pos len) ≡ (pos n, value, d)
      → n ≤ length value
      → Carries link database t.world [] []
      → Leaves
          (answer_get net database key (pos len) t)
          tt
          d
          (word (pos 1) ∷ word (pos n) ∷ bytes (take n value))
  unfolding answer_get reply_get
  answer_get-Leaves t key len n value d le found small c =
      let short : ltb_ℤ (pos max_str_len) (pos len) ≡ false = ground arith in
      let t₁ : Thread W D = record t {
        db = d;
        trace = leave ∷ db_get key (pos len) ∷ enter ∷ alloc_value ∷ t.trace;
      } in
      let (w₂, r₂, c₂) = server_gives_word link database t₁ [] [] both (pos 1) c in
      let t₂ : Thread W D = record t₁ { world = w₂; code = pos 1 } in
      let (w₃, r₃, c₃) =
        server_gives_word link database t₂ [] (word (pos 1) ∷ []) both (pos n) c₂ in
      let t₃ : Thread W D = record t₂ { world = w₃; code = pos n } in
      let (w₄, r₄, c₄) =
        server_gives_text link database t₃ [] (word (pos 1) ∷ word (pos n) ∷ []) both value n small
          c₃ in
      (
        record t₃ { world = w₄; trace = free_value ∷ t₃.trace },
        rw short (rw found (rw r₂ (rw r₃ (rw r₄ refl)))),
        refl,
        c₄,
      )

  pub answer_get_absent :
      (t : Thread W D) (key value : Text) (len : ℕ) (d : D)
      → len ≤ max_str_len
      → database.get t.db key (pos len) ≡ (minus_one, value, d)
      → Carries link database t.world [] []
      → Leaves (answer_get net database key (pos len) t) tt d (word (pos 0) ∷ [])
  unfolding answer_get reply_get
  answer_get_absent t key value len d le found c =
      let short : ltb_ℤ (pos max_str_len) (pos len) ≡ false = ground arith in
      let t₁ : Thread W D = record t {
        db = d;
        trace = leave ∷ db_get key (pos len) ∷ enter ∷ alloc_value ∷ t.trace;
      } in
      let (w₂, r₂, c₂) = server_gives_word link database t₁ [] [] both (pos 0) c in
      let t₂ : Thread W D = record t₁ { world = w₂; code = pos 0 } in
      (record t₂ { trace = free_value ∷ t₂.trace }, rw short (rw found (rw r₂ refl)), refl, c₂)

  pub answer_get_long :
      (t : Thread W D) (key : Text) (len : ℕ)
      → max_str_len < len
      → Carries link database t.world [] []
      → Leaves (answer_get net database key (pos len) t) tt t.db (word (pos 2) ∷ [])
  unfolding answer_get
  answer_get_long t key len lt c =
      let long : ltb_ℤ (pos max_str_len) (pos len) ≡ true = ground arith in
      let (w₂, r₂, c₂) = server_gives_word link database t [] [] (free_key ∷ []) (pos 2) c in
      (record t { world = w₂; code = pos 2 }, rw long r₂, refl, c₂)

  pub answer_del-Leaves :
      (t : Thread W D) (key : Text) (len : ℕ)
      → len ≤ max_str_len
      → Carries link database t.world [] []
      → Leaves
          (answer_del net database key (pos len) t)
          tt
          (database.del t.db key (pos len))
          (word (pos 1) ∷ [])
  unfolding answer_del
  answer_del-Leaves t key len le c =
      let short : ltb_ℤ (pos max_str_len) (pos len) ≡ false = ground arith in
      let t₁ : Thread W D = record t {
        db = database.del t.db key (pos len);
        trace = leave ∷ db_del key (pos len) ∷ enter ∷ t.trace;
      } in
      let (w₂, r₂, c₂) = server_gives_word link database t₁ [] [] (free_key ∷ []) (pos 1) c in
      (record t₁ { world = w₂; code = pos 1 }, rw short r₂, refl, c₂)

  pub answer_del_long :
      (t : Thread W D) (key : Text) (len : ℕ)
      → max_str_len < len
      → Carries link database t.world [] []
      → Leaves (answer_del net database key (pos len) t) tt t.db (word (pos 2) ∷ [])
  unfolding answer_del
  answer_del_long t key len lt c =
      let long : ltb_ℤ (pos max_str_len) (pos len) ≡ true = ground arith in
      let (w₂, r₂, c₂) = server_gives_word link database t [] [] (free_key ∷ []) (pos 2) c in
      (record t { world = w₂; code = pos 2 }, rw long r₂, refl, c₂)

  pub answer_set-Leaves :
      (t : Thread W D) (key value : Text) (len n : ℕ)
      → len ≤ max_str_len
      → n ≤ max_str_len
      → Carries link database t.world [] []
      → Leaves
          (answer_set net database key (pos len) value (pos n) t)
          tt
          (database.set t.db key (pos len) value (pos n))
          (word (pos 1) ∷ [])
  unfolding answer_set
  answer_set-Leaves t key value len n le le' c =
      let short : ltb_ℤ (pos max_str_len) (pos len) ≡ false = ground arith in
      let short' : ltb_ℤ (pos max_str_len) (pos n) ≡ false = ground arith in
      let t₁ : Thread W D = record t {
        db = database.set t.db key (pos len) value (pos n);
        trace = leave ∷ db_set key (pos len) value (pos n) ∷ enter ∷ t.trace;
      } in
      let (w₂, r₂, c₂) = server_gives_word link database t₁ [] [] both (pos 1) c in
      (record t₁ { world = w₂; code = pos 1 }, rw short (rw short' r₂), refl, c₂)

  -- The answer to a value that is too long, after a key that is not.
  pub answer_set_long :
      (t : Thread W D) (key value : Text) (len n : ℕ)
      → len ≤ max_str_len
      → max_str_len < n
      → Carries link database t.world [] []
      → Leaves (answer_set net database key (pos len) value (pos n) t) tt t.db (word (pos 3) ∷ [])
  unfolding answer_set
  answer_set_long t key value len n le lt c =
      let short : ltb_ℤ (pos max_str_len) (pos len) ≡ false = ground arith in
      let long : ltb_ℤ (pos max_str_len) (pos n) ≡ true = ground arith in
      let (w₂, r₂, c₂) = server_gives_word link database t [] [] both (pos 3) c in
      (record t { world = w₂; code = pos 3 }, rw short (rw long r₂), refl, c₂)

  pub answer_set_long_key :
      (t : Thread W D) (key value : Text) (len : ℕ) (value_len : ℤ)
      → max_str_len < len
      → Carries link database t.world [] []
      → Leaves (answer_set net database key (pos len) value value_len t) tt t.db (word (pos 2) ∷ [])
  unfolding answer_set
  answer_set_long_key t key value len value_len lt c =
      let long : ltb_ℤ (pos max_str_len) (pos len) ≡ true = ground arith in
      let (w₂, r₂, c₂) = server_gives_word link database t [] [] both (pos 2) c in
      (record t { world = w₂; code = pos 2 }, rw long r₂, refl, c₂)
