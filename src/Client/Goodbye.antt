-- ===== src/Client/Goodbye.antt =====
-- The client's destructor and the end of its thread, over a connection that loses nothing.
use ds_my_sql.Base.{ℕ, suc, ◌≡◌, ◌∙◌, true, false, some, [], ◌∷◌, ◌++◌, ℤ, pos, arith, refl, ap}
use ds_my_sql.Server.{
  Net, Db, Thread, close_socket, returned, next, dispatch, serve_one, finish, after_round,
  instance_thread,
}
use ds_my_sql.Client.{Socket, receive_goodbye}
use ds_my_sql.Client.Link.{word, Link, Carries, server_takes_word, server_gives_word}

module _ {W D : Type 0} {net : Net W} {socket : Socket W} (link : Link net socket)
    (database : Db D) where
  -- `shutdown` of the server's end succeeds, and what is on its way still comes.
  abbrev pub ShutsDown : Type 0
  ShutsDown =
      (w : W)
      → (w' : W) × (net.shutdown w ≡ (false, w'))
        × (link.to_server w' ≡ link.to_server w)
        × (link.to_client w' ≡ link.to_client w)

  serve_goodbye :
      (t : Thread W D)
      → Carries link database t.world (word (pos 3) ∷ []) []
      → (w : W) × (serve_one net database t ≡ (next true, record t { world = w; code = pos 1 }))
        × Carries link database w [] (word (pos 1) ∷ [])
  unfolding serve_one dispatch
  serve_goodbye t c =
      let (w₁, r₁, c₁) = server_takes_word link database t [] [] [] (pos 3) c in
      let t₁ : Thread W D = record t { world = w₁; code = pos 3 } in
      let (w₂, r₂, c₂) = server_gives_word link database t₁ [] [] [] (pos 1) c₁ in
      (w₂, rw r₁ (rw r₂ refl), c₂)

  receive_goodbye_lem :
      {c : ℤ} (w w' : W)
      → socket.recv_word w (pos 3) ≡ (some c, w')
      → receive_goodbye socket w ≡ socket.close_socket (socket.shutdown w').1
  unfolding receive_goodbye
  receive_goodbye_lem w w' run = ground (arith, run)

  -- Over a connection that loses nothing and whose server's end shuts down, the goodbye of a client
  -- ends its thread: whatever fuel it has, it returns 0 with the socket closed and the database as it
  -- was. The client then gets its answer, shuts down and closes.
  pub instance_thread-goodbye :
      (closes : ShutsDown) (t : Thread W D) (fuel : ℕ)
      → Carries link database t.world [] []
      → (w : W) × (t' : Thread W D) × (w' : W) × (socket.send_word t.world (pos 3) ≡ (false, w))
        × (instance_thread net database (suc fuel) (record t { world = w }) ≡ (returned 0, t'))
        × (t'.db ≡ t.db)
        × (t'.trace ≡ close_socket ∷ t.trace)
        × (receive_goodbye socket t'.world ≡ socket.close_socket (socket.shutdown w').1)
        × Carries link database w' [] []
  unfolding instance_thread after_round finish
  instance_thread-goodbye closes t fuel (e, e') =
      let (w₁, sent, u₁, d₁) = link.client_word t.world (pos 3) in
      let (w₂, r₂, c₂) =
        serve_goodbye (record t { world = w₁ })
          (u₁ ∙ ap (λ l. l ++ (word (pos 3) ∷ [])) e, d₁ ∙ e') in
      let (w₃, r₃, u₃, d₃) = closes w₂ in
      let (w₄, r₄, u₄, d₄) = link.client_recv_word w₃ (pos 3) (pos 1) [] (d₃ ∙ c₂.1) in
      (
        w₁,
        record t { world = w₃; code = pos 1; trace = close_socket ∷ t.trace },
        w₄,
        sent,
        rw r₂ (rw r₃ refl),
        refl,
        refl,
        receive_goodbye_lem _ _ r₄,
        (u₄ ∙ u₃ ∙ c₂.0, d₄),
      )
