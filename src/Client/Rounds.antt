-- ===== src/Client/Rounds.antt =====
-- A request of a client and the round of its thread, over a connection that loses nothing: what the
-- client sends and what it makes of the answer.
use ds_my_sql.Base.{
  ◌≡◌, ◌<◌, ◌^◌, ◌∙◌, Bool, false, none, some, List, [], ◌∷◌, ◌++◌, ℤ, pos, length, refl, ap, sym,
}
use mathlib.Core.List.{append-nil, append_assoc}
use ds_my_sql.Server.{Text, Net, Db, Thread, Outcome, next, serve_one}
use ds_my_sql.Client.{
  Socket, M, Result, Thrown, returned, threw, key_too_long, value_too_long, c_string, send_key,
  receive_get, send_set, receive_set, receive_del, text_of,
}
use ds_my_sql.Client.Link.{
  Item, word, bytes, Link, Carries, Goes, client_gives_word, client_gives_text, client_takes_word,
  client_takes_value, int_of-small, take-append,
}
use ds_my_sql.Client.Answers.{Leaves}

module _ {W D : Type 0} {net : Net W} {socket : Socket W} (link : Link net socket)
    (database : Db D) where
  abbrev pub after_served :
      {A : Type 0} → M W A → Outcome Bool × Thread W D → Result A × Outcome Bool × Thread W D
  after_served receive (o, t) =
      let (result, w) = receive t.world in (result, o, record t { world = w })

  abbrev pub after_sent :
      {A : Type 0}
      → M W A
      → Thread W D
      → Result (Unit {0}) × W
      → Result A × Outcome Bool × Thread W D
  after_sent receive t (threw e, w) = (threw e, next false, record t { world = w })
  after_sent receive t (returned u, w) =
      after_served receive (serve_one net database (record t { world = w }))

  -- A request: what the client sends, one round of the thread, and what the client receives. The
  -- client waits for the thread there.
  abbrev pub exchange :
      {A : Type 0} → M W (Unit {0}) → M W A → Thread W D → Result A × Outcome Bool × Thread W D
  exchange ask receive t = after_sent receive t (ask t.world)

  -- The exchange has a result and leaves the database as said, the connection with nothing on its
  -- way, and the thread ready for the next request.
  abbrev pub Gives : {A : Type 0} → Result A × Outcome Bool × Thread W D → Result A → D → Type 0
  Gives r result d =
      (t' : Thread W D) × (r ≡ (result, next false, t'))
      × (t'.db ≡ d)
      × Carries link database t'.world [] []

  pub sent_key :
      (code : ℤ) (w : W) (key : Text)
      → length key < 2 ^ 31
      → Carries link database w [] []
      → Goes link database
          (send_key socket code key)
          w
          tt
          (word code ∷ word (pos (length key)) ∷ (bytes key ++ []))
          []
  unfolding send_key
  sent_key code w key lt c =
      let (w₁, r₁, c₁) = client_gives_word link database w [] [] code c in
      let (w₂, r₂, c₂) = client_gives_word link database w₁ _ [] (pos (length key)) c₁ in
      let (w₃, r₃, (u, d)) = client_gives_text link database w₂ _ [] key c₂ in
      (
        w₃,
        rw r₁ (rw (int_of-small (length key) lt) (rw r₂ r₃)),
        (u ∙ ap (λ l. word code ∷ word (pos (length key)) ∷ l) (sym (append-nil (bytes key))), d),
      )

  pub sent_set :
      (w : W) (key value : Text)
      → length key < 2 ^ 31
      → length value < 2 ^ 31
      → Carries link database w [] []
      → Goes link database
          (send_set socket key value)
          w
          tt
          (word (pos 1)
            ∷ word (pos (length key))
            ∷ (bytes key ++ (word (pos (length value)) ∷ (bytes value ++ []))))
          []
  unfolding send_set
  sent_set w key value lt lt' c =
      let (w₁, r₁, (u₁, d₁)) = sent_key (pos 1) w key lt c in
      let u₂ = u₁ ∙ ap (λ l. word (pos 1) ∷ word (pos (length key)) ∷ l) (append-nil (bytes key)) in
      let (w₂, r₂, c₂) = client_gives_word link database w₁ _ [] (pos (length value)) (u₂, d₁) in
      let (w₃, r₃, (u₃, d₃)) = client_gives_text link database w₂ _ [] value c₂ in
      let m = word (pos (length value)) in
      (
        w₃,
        rw r₁ (rw (int_of-small (length value) lt') (rw r₂ r₃)),
        (
          u₃
              ∙ ap (λ l. word (pos 1) ∷ word (pos (length key)) ∷ l)
                  (append_assoc (bytes key) (m ∷ []) (bytes value)
                    ∙ ap (λ l. bytes key ++ (m ∷ l)) (sym (append-nil (bytes value)))),
          d₃,
        ),
      )

  -- A request, from its three parts.
  pub exchanged :
      {A : Type 0} (ask : M W (Unit {0})) (receive : M W A) (t : Thread W D) (up down : List Item)
      (result : Result A) (d : D)
      → Goes link database ask t.world tt up []
      → ((t' : Thread W D)
          → t'.db ≡ t.db
          → Carries link database t'.world up []
          → Leaves link database (serve_one net database t') false d down)
      → ((w : W)
          → Carries link database w [] down
          → (w' : W) × (receive w ≡ (result, w')) × Carries link database w' [] [])
      → Gives (exchange ask receive t) result d
  exchanged ask receive t up down result d (w₁, r₁, c₁) served received_by =
      let (t₂, r₂, e, c₂) = served (record t { world = w₁ }) refl c₁ in
      let (w₃, r₃, c₃) = received_by t₂.world c₂ in
      (
        record t₂ { world = w₃ },
        ap (after_sent receive t) r₁
            ∙ ap (after_served receive) r₂
            ∙ ap (λ r. (r.0, next false, record t₂ { world = r.1 })) r₃,
        e,
        c₃,
      )

  abbrev pub Throws : {A : Type 0} → M W A → W → Thrown → Type 0
  Throws m w e = (w' : W) × (m w ≡ (threw e, w')) × Carries link database w' [] []

  -- The client receives its answer.
  pub receives_found :
      (w : W) (old : ℤ) (s : Text)
      → Carries link database w [] (word (pos 1) ∷ word (pos (length s)) ∷ bytes s)
      → Goes link database (receive_get socket old) w (some (c_string s)) [] []
  unfolding receive_get text_of
  receives_found w old s c =
      let (w₁, r₁, c₁) = client_takes_word link database w [] _ old (pos 1) c in
      let (w₂, r₂, (u₂, d₂)) =
        client_takes_word link database w₁ [] _ (pos 1) (pos (length s)) c₁ in
      let (w₃, r₃, c₃) =
        client_takes_value link database w₂ [] [] s (u₂, d₂ ∙ sym (append-nil (bytes s))) in
      (
        w₃,
        rw r₁ (rw r₂ (rw r₃ (ap (λ l. (returned (some (c_string l)), w₃)) (take-append s _)))),
        c₃,
      )

  pub receives_absent :
      (w : W) (old : ℤ)
      → Carries link database w [] (word (pos 0) ∷ [])
      → Goes link database (receive_get socket old) w none [] []
  unfolding receive_get
  receives_absent w old c =
      let (w₁, r₁, c₁) = client_takes_word link database w [] [] old (pos 0) c in
      (w₁, rw r₁ refl, c₁)

  -- The codes that `receive_set` and `receive_del` answer with.
  pub receives_done :
      (w : W) (old : ℤ)
      → Carries link database w [] (word (pos 1) ∷ [])
      → Goes link database (receive_set socket old) w tt [] []
        × Goes link database (receive_del socket old) w tt [] []
  unfolding receive_set receive_del
  receives_done w old c =
      let (w₁, r₁, c₁) = client_takes_word link database w [] [] old (pos 1) c in
      ((w₁, rw r₁ refl, c₁), (w₁, rw r₁ refl, c₁))

  -- The client receives that a text was too long.
  pub receives_long :
      (w : W) (old : ℤ)
      → Carries link database w [] (word (pos 2) ∷ [])
      → Throws (receive_get socket old) w key_too_long
        × Throws (receive_set socket old) w key_too_long
        × Throws (receive_del socket old) w key_too_long
  unfolding receive_get receive_set receive_del
  receives_long w old c =
      let (w₁, r₁, c₁) = client_takes_word link database w [] [] old (pos 2) c in
      ((w₁, rw r₁ refl, c₁), (w₁, rw r₁ refl, c₁), (w₁, rw r₁ refl, c₁))

  pub receives_long_value :
      (w : W) (old : ℤ)
      → Carries link database w [] (word (pos 3) ∷ [])
      → Throws (receive_set socket old) w value_too_long
  unfolding receive_set
  receives_long_value w old c =
      let (w₁, r₁, c₁) = client_takes_word link database w [] [] old (pos 3) c in
      (w₁, rw r₁ refl, c₁)
