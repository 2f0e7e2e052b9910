-- ===== src/Client/Session.antt =====
-- A client's requests, one after the other, as calls of the database.
use ds_my_sql.Base.{
  ◌≡◌, ◌≤◌, ◌<◌, ◌^◌, ◌∙◌, inl, inr, ltb, Bool, false, Bool-cases, Option, none, some, List, [],
  ◌∷◌, ℤ, pos, negsuc, length, take, arith, refl, ap, sym, subst,
}
use ds_my_sql.Server.{Text, max_str_len, Net, Db, Thread, Outcome, next}
use ds_my_sql.Client.{Socket, Result, returned, threw, key_too_long, value_too_long, c_string}
use ds_my_sql.Client.Direct.{
  Request, get, del, set, Answer, got, done, HasInts, HaveInts, direct, direct_all, IsAnswer,
  HasAnswer, HaveAnswers,
}
use ds_my_sql.Client.Link.{Link, Carries}
use ds_my_sql.Client.Exchange.{received}
use ds_my_sql.Client.Rounds.{Gives}
use ds_my_sql.Client.RoundTrip.{
  get_exchange, set_exchange, del_exchange, found_lem, absent_lem, del_lem, set_lem,
}
use ds_my_sql.Client.Errors.{exchange-key_too_long, set_exchange-value_too_long}

module _ {W D : Type 0} {net : Net W} {socket : Socket W} (link : Link net socket)
    (database : Db D) where
  -- A request over the connection.
  unfoldable pub request : Request → Thread W D → Answer × Outcome Bool × Thread W D
  request (get key) t = let (r, o, t') = get_exchange link database key t in (got r, o, t')
  request (del key) t = let (r, o, t') = del_exchange link database key t in (done r, o, t')
  request (set key value) t =
      let (r, o, t') = set_exchange link database key value t in (done r, o, t')

  unfoldable pub session : List Request → Thread W D → List Answer × Thread W D
  unfolding request
  session [] t = ([], t)
  session (r ∷ rs) t =
      let (answer, o, t') = request r t in
      let (answers, t'') = session rs t' in (answer ∷ answers, t'')

  abbrev Serves : Request → Thread W D → Type 0
  Serves r t =
      (answer : Answer) × (t' : Thread W D) × (request r t ≡ (answer, next false, t'))
      × (direct database (received link database) r t.db ≡ (answer, t'.db))
      × Carries link database t'.world [] []

  module _ (t : Thread W D) where
    got_lem :
        (key : Text) (result : Result (Option Text)) (d : D)
        → Gives link database (get_exchange link database key t) result d
        → direct database (received link database) (get key) t.db ≡ (got result, d)
        → Serves (get key) t
    unfolding request
    got_lem key result d (t', e, h, c) e' =
        (got result, t', ap (λ r. (got r.0, r.1, r.2)) e, e' ∙ ap (λ d. (got result, d)) (sym h), c)

    deleted_lem :
        (key : Text) (result : Result (Unit {0})) (d : D)
        → Gives link database (del_exchange link database key t) result d
        → direct database (received link database) (del key) t.db ≡ (done result, d)
        → Serves (del key) t
    unfolding request
    deleted_lem key result d (t', e, h, c) e' = (
      done result,
      t',
      ap (λ r. (done r.0, r.1, r.2)) e,
      e' ∙ ap (λ d. (done result, d)) (sym h),
      c,
    )

    stored_lem :
        (key value : Text) (result : Result (Unit {0})) (d : D)
        → Gives link database (set_exchange link database key value t) result d
        → direct database (received link database) (set key value) t.db ≡ (done result, d)
        → Serves (set key value) t
    unfolding request
    stored_lem key value result d (t', e, h, c) e' = (
      done result,
      t',
      ap (λ r. (done r.0, r.1, r.2)) e,
      e' ∙ ap (λ d. (done result, d)) (sym h),
      c,
    )

  module _ (t : Thread W D) (c : Carries link database t.world [] []) where
    get_short :
        (key : Text) (answer : ℤ × Text × D)
        → length key ≤ max_str_len
        → database.get t.db (received link database key) (pos (length key)) ≡ answer
        → IsAnswer database (received link database) answer
        → Serves (get key) t
    unfolding direct
    get_short key (pos n, value, d) le found small =
        let short : ltb max_str_len (length key) ≡ false = ground arith in
        got_lem t key (returned (some (c_string (take n value)))) d
          (found_lem link database t c key le value n d small found) (rw short (rw found refl))
    get_short key (negsuc n, value, d) le absent small =
        let short : ltb max_str_len (length key) ≡ false = ground arith in
        got_lem t key (returned none) d
          (absent_lem link database t c key le value d
            (absent ∙ ap (λ m. (negsuc m, value, d)) small))
          (rw short (rw absent refl))

    get-Serves :
        (key : Text)
        → length key < 2 ^ 31
        → HasAnswer database (received link database) (get key) t.db
        → Serves (get key) t
    unfolding direct
    get-Serves key lt answers = elim (Bool-cases (ltb max_str_len (length key))) [
      | inl long ↦
          got_lem t key (threw key_too_long) t.db
            (exchange-key_too_long link database t c key (ground arith) lt [] (omega arith)).0
            (rw long refl)
      | inr short ↦
          let le : length key ≤ max_str_len = ground arith in
          get_short key (database.get t.db (received link database key) (pos (length key))) le refl
            (answers le)
    ]

    del-Serves : (key : Text) → length key < 2 ^ 31 → Serves (del key) t
    unfolding direct
    del-Serves key lt = elim (Bool-cases (ltb max_str_len (length key))) [
      | inl long ↦
          deleted_lem t key (threw key_too_long) t.db
            (exchange-key_too_long link database t c key (ground arith) lt [] (omega arith)).2
            (rw long refl)
      | inr short ↦
          deleted_lem t key (returned tt) _ (del_lem link database t c key (ground arith))
            (rw short refl)
    ]

    set-Serves :
        (key value : Text) → length key < 2 ^ 31 → length value < 2 ^ 31 → Serves (set key value) t
    unfolding direct
    set-Serves key value lt lt' = elim (Bool-cases (ltb max_str_len (length key))) [
      | inl long ↦
          stored_lem t key value (threw key_too_long) t.db
            (exchange-key_too_long link database t c key (ground arith) lt value lt').1
            (rw long refl)
      | inr short ↦ elim (Bool-cases (ltb max_str_len (length value))) [
        | inl long ↦
            stored_lem t key value (threw value_too_long) t.db
              (set_exchange-value_too_long link database t c key value (ground arith) (ground arith)
                lt')
              (rw short (rw long refl))
        | inr short' ↦
            stored_lem t key value (returned tt) _
              (set_lem link database t c key (ground arith) value (ground arith))
              (rw short (rw short' refl))
      ]
    ]

    request-Serves :
        (r : Request) → HasInts r → HasAnswer database (received link database) r t.db → Serves r t
    request-Serves (get key) lt answers = get-Serves key lt answers
    request-Serves (del key) lt answers = del-Serves key lt
    request-Serves (set key value) (lt, lt') answers = set-Serves key value lt lt'

  -- Over a connection that loses nothing, the requests of a client whose lengths are an `int` have the
  -- answers, errors included, and the effect that they have as direct calls of the database with the
  -- buffers that the texts come in, if each `myjql_get` of those calls answers -1, or a length of
  -- which its buffer has the characters; and the connection carries nothing after them.
  pub session-direct_all :
      (rs : List Request) (t : Thread W D)
      → HaveInts rs
      → HaveAnswers database (received link database) rs t.db
      → Carries link database t.world [] []
      → (((session rs t).0, ((session rs t).1).db)
          ≡ direct_all database (received link database) rs t.db)
        × Carries link database ((session rs t).1).world [] []
  unfolding session direct_all
  session-direct_all [] t lt answers c = (refl, c)
  session-direct_all (r ∷ rs) t (lt, lts) (fits, more) c =
      let (answer, t', e, e', c') = request-Serves t c r lt fits in
      let after = ap (λ p. p.1) e' in
      let (same, c'') =
        session-direct_all rs t' lts
          (subst (λ d. HaveAnswers database (received link database) rs d) after more) c' in
      rw e (rw e' (ap (λ p. (answer ∷ p.0, p.1)) same, c''))
