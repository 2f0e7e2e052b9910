-- ===== src/Client/Faults.antt =====
-- What the functions of the client answer on a connection that the server has closed.
use ds_my_sql.Base.{arith, ℕ, ◌≡◌, ◌∙◌, some, none, [], ◌∷◌, ℤ, pos, refl, ap}
use ds_my_sql.Server.{Text}
use ds_my_sql.Client.{
  Socket, returned, int_of, recv_int, continue_with, send_set, receive_set, client_set, send_key,
  receive_get, client_get, receive_del, client_del,
}

module _ {W : Type 0} (socket : Socket W)
    (closed : (w : W) (old : ℤ) → socket.recv_word w old ≡ (some old, w)) where
  recv_int_closed : (w : W) (old : ℤ) → recv_int socket old w ≡ (returned old, w)
  unfolding recv_int
  recv_int_closed w old = let run = closed w old in ground (arith, run)

  receive_closed :
      (w : W)
      → (receive_set socket (pos 1) w ≡ (returned tt, w))
        × (receive_del socket (pos 1) w ≡ (returned tt, w))
        × (receive_get socket (pos 0) w ≡ (returned none, w))
  unfolding receive_set receive_del receive_get
  receive_closed w = (
    rw (recv_int_closed w (pos 1)) refl,
    rw (recv_int_closed w (pos 1)) refl,
    rw (recv_int_closed w (pos 0)) refl,
  )

  -- Where each `recv` answers 0 and leaves its variable alone, the length that was sent last is taken
  -- for the answer: if what is sent goes out, `set` of a value of one byte and `del` of a key of one
  -- byte succeed, and `get` of the empty key answers that there is none.
  pub client-closed :
      (key : Text) (c d : ℕ) (v w w' : W)
      → send_set socket key (c ∷ []) w ≡ (returned tt, w')
      → send_key socket (pos 2) (d ∷ []) v ≡ (returned tt, w')
      → send_key socket (pos 0) [] v ≡ (returned tt, w')
      → (client_set socket key (c ∷ []) w ≡ (returned tt, w'))
        × (client_del socket (d ∷ []) v ≡ (returned tt, w'))
        × (client_get socket [] v ≡ (returned none, w'))
  unfolding client_set client_del client_get int_of
  client-closed key c d v w w' sent_set sent_del sent_get = (
    ap (λ r. continue_with r (λ _. receive_set socket (pos 1))) sent_set ∙ (receive_closed w').0,
    ap (λ r. continue_with r (λ _. receive_del socket (pos 1))) sent_del ∙ (receive_closed w').1,
    ap (λ r. continue_with r (λ _. receive_get socket (pos 0))) sent_get ∙ (receive_closed w').2,
  )
