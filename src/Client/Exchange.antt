-- ===== src/Client/Exchange.antt =====
-- What a thread of the server does with the request of a client, over a connection that loses nothing.
use ds_my_sql.Base.{◌≡◌, false, List, [], ◌∷◌, ◌++◌, pos, length, refl}
use ds_my_sql.Server.{
  Text, Net, Db, Thread, both, alloc_key, alloc_value, free_key, free_value, answer_get, handle_get,
  answer_set, handle_set, answer_del, handle_del, dispatch, serve_one,
}
use ds_my_sql.Client.{Socket}
use ds_my_sql.Client.Link.{
  Item, word, bytes, filled, Link, Carries, server_takes_word, server_takes_text,
}
use ds_my_sql.Client.Answers.{Leaves}

module _ {W D : Type 0} {net : Net W} {socket : Socket W} (link : Link net socket)
    (database : Db D) where
  -- The buffer of a text that was sent.
  abbrev pub received : Text → Text
  received s = filled s (net.malloc (pos (length s)))

  -- A request to get: what `answer` leaves once the key is here.
  pub serve_get :
      (t : Thread W D) (key : Text) (d : D) (down : List Item)
      → Carries link database t.world
          (word (pos 0) ∷ word (pos (length key)) ∷ (bytes key ++ []))
          []
      → ((t' : Thread W D)
          → t'.db ≡ t.db
          → Carries link database t'.world [] []
          → Leaves link database
              (answer_get net database (received key) (pos (length key)) t')
              tt
              d
              down)
      → Leaves link database (serve_one net database t) false d down
  unfolding serve_one dispatch handle_get
  serve_get t key d down c answer =
      let n = pos (length key) in
      let (w₁, r₁, c₁) = server_takes_word link database t _ [] [] (pos 0) c in
      let t₁ : Thread W D = record t { world = w₁; code = pos 0 } in
      let (w₂, r₂, c₂) = server_takes_word link database t₁ _ [] [] n c₁ in
      let t₂ : Thread W D = record t₁ { world = w₂; code = n; trace = alloc_key ∷ t.trace } in
      let (w₃, r₃, c₃) = server_takes_text link database t₂ [] [] (free_key ∷ []) key c₂ in
      let (t₄, r₄, e, c₄) = answer (record t₂ { world = w₃ }) refl c₃ in
      (record t₄ { trace = free_key ∷ t₄.trace }, rw r₁ (rw r₂ (rw r₃ (rw r₄ refl))), e, c₄)

  pub serve_del :
      (t : Thread W D) (key : Text) (d : D) (down : List Item)
      → Carries link database t.world
          (word (pos 2) ∷ word (pos (length key)) ∷ (bytes key ++ []))
          []
      → ((t' : Thread W D)
          → t'.db ≡ t.db
          → Carries link database t'.world [] []
          → Leaves link database
              (answer_del net database (received key) (pos (length key)) t')
              tt
              d
              down)
      → Leaves link database (serve_one net database t) false d down
  unfolding serve_one dispatch handle_del
  serve_del t key d down c answer =
      let n = pos (length key) in
      let (w₁, r₁, c₁) = server_takes_word link database t _ [] [] (pos 2) c in
      let t₁ : Thread W D = record t { world = w₁; code = pos 2 } in
      let (w₂, r₂, c₂) = server_takes_word link database t₁ _ [] [] n c₁ in
      let t₂ : Thread W D = record t₁ { world = w₂; code = n; trace = alloc_key ∷ t.trace } in
      let (w₃, r₃, c₃) = server_takes_text link database t₂ [] [] (free_key ∷ []) key c₂ in
      let (t₄, r₄, e, c₄) = answer (record t₂ { world = w₃ }) refl c₃ in
      (record t₄ { trace = free_key ∷ t₄.trace }, rw r₁ (rw r₂ (rw r₃ (rw r₄ refl))), e, c₄)

  pub serve_set :
      (t : Thread W D) (key value : Text) (d : D) (down : List Item)
      → Carries link database t.world
          (word (pos 1)
            ∷ word (pos (length key))
            ∷ (bytes key ++ (word (pos (length value)) ∷ (bytes value ++ []))))
          []
      → ((t' : Thread W D)
          → t'.db ≡ t.db
          → Carries link database t'.world [] []
          → Leaves link database
              (answer_set net database
                (received key)
                (pos (length key))
                (received value)
                (pos (length value))
                t')
              tt
              d
              down)
      → Leaves link database (serve_one net database t) false d down
  unfolding serve_one dispatch handle_set
  serve_set t key value d down c answer =
      let n = pos (length key) in
      let m = pos (length value) in
      let (w₁, r₁, c₁) = server_takes_word link database t _ [] [] (pos 1) c in
      let t₁ : Thread W D = record t { world = w₁; code = pos 1 } in
      let (w₂, r₂, c₂) = server_takes_word link database t₁ _ [] [] n c₁ in
      let t₂ : Thread W D = record t₁ { world = w₂; code = n; trace = alloc_key ∷ t.trace } in
      let (w₃, r₃, c₃) = server_takes_text link database t₂ _ [] (free_key ∷ []) key c₂ in
      let t₃ : Thread W D = record t₂ { world = w₃ } in
      let (w₄, r₄, c₄) = server_takes_word link database t₃ _ [] [] m c₃ in
      let t₄ : Thread W D = record t₃ { world = w₄; code = m; trace = alloc_value ∷ t₃.trace } in
      let (w₅, r₅, c₅) = server_takes_text link database t₄ [] [] both value c₄ in
      let (t₆, r₆, e, c₆) = answer (record t₄ { world = w₅ }) refl c₅ in
      (
        record t₆ { trace = free_value ∷ free_key ∷ t₆.trace },
        rw r₁ (rw r₂ (rw r₃ (rw r₄ (rw r₅ (rw r₆ refl))))),
        e,
        c₆,
      )
