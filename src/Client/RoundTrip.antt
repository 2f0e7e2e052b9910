-- ===== src/Client/RoundTrip.antt =====
-- A client and its thread of the server, over a connection that loses nothing: what the functions of
-- the client answer.
use ds_my_sql.Base.{
  ℕ, ◌≡◌, ◌≤◌, ◌<◌, ◌^◌, ◌∙◌, Bool, Option, none, some, [], ◌∷◌, pos, minus_one, length, take,
  arith, ap, sym, subst,
}
use ds_my_sql.Server.{Text, max_str_len, Net, Db, Thread, Outcome, answer_del, answer_set}
use ds_my_sql.Client.{
  Socket, Result, returned, int_of, c_string, send_key, receive_get, send_set, receive_set,
  receive_del,
}
use ds_my_sql.Client.Link.{length-take, word, bytes, Link, Carries}
use ds_my_sql.Client.Answers.{
  Leaves, answer_get-Leaves, answer_get_absent, answer_del-Leaves, answer_set-Leaves,
}
use ds_my_sql.Client.Exchange.{received, serve_get, serve_del, serve_set}
use ds_my_sql.Client.Rounds.{
  exchange, Gives, sent_key, sent_set, exchanged, receives_found, receives_absent, receives_done,
}

pub small : (n : ℕ) → n ≤ max_str_len → n < 2 ^ 31
small n le = omega arith

module _ {W D : Type 0} {net : Net W} {socket : Socket W} (link : Link net socket)
    (database : Db D) where
  -- The requests, each with the round of the thread and the answer.
  abbrev pub get_exchange : Text → Thread W D → Result (Option Text) × Outcome Bool × Thread W D
  get_exchange key =
      exchange link database (send_key socket (pos 0) key)
        (receive_get socket (int_of (length key)))

  abbrev pub set_exchange : Text → Text → Thread W D → Result (Unit {0}) × Outcome Bool × Thread W D
  set_exchange key value =
      exchange link database (send_set socket key value)
        (receive_set socket (int_of (length value)))

  abbrev pub del_exchange : Text → Thread W D → Result (Unit {0}) × Outcome Bool × Thread W D
  del_exchange key =
      exchange link database (send_key socket (pos 2) key)
        (receive_del socket (int_of (length key)))

  module _ (t : Thread W D) (c : Carries link database t.world [] []) (key : Text)
      (le : length key ≤ max_str_len) where
    pub found_lem :
        (value : Text) (n : ℕ) (d : D)
        → n ≤ length value
        → database.get t.db (received link database key) (pos (length key)) ≡ (pos n, value, d)
        → Gives link database (get_exchange key t) (returned (some (c_string (take n value)))) d
    found_lem value n d le' found =
        exchanged link database (send_key socket (pos 0) key)
          (receive_get socket (int_of (length key))) t _ _ _ d
          (sent_key link database (pos 0) t.world key (small (length key) le) c)
          (λ t' e c'. serve_get link database t' key d _ c' (λ t'' e' c''.
            answer_get-Leaves link database t'' (received link database key) (length key) n value d
              le
              (ap (λ x. database.get x (received link database key) (pos (length key))) (e' ∙ e)
                ∙ found)
              le' c''))
          (λ w c'. receives_found link database w (int_of (length key)) (take n value) (
            c'.0,
            c'.1
                ∙ ap (λ m. word (pos 1) ∷ word (pos m) ∷ bytes (take n value))
                    (sym (length-take n value le')),
          ))

    pub absent_lem :
        (value : Text) (d : D)
        → database.get t.db (received link database key) (pos (length key)) ≡ (minus_one, value, d)
        → Gives link database (get_exchange key t) (returned none) d
    absent_lem value d absent =
        exchanged link database (send_key socket (pos 0) key)
          (receive_get socket (int_of (length key))) t _ _ _ d
          (sent_key link database (pos 0) t.world key (small (length key) le) c)
          (λ t' e c'. serve_get link database t' key d _ c' (λ t'' e' c''.
            answer_get_absent link database t'' (received link database key) value (length key) d le
              (ap (λ x. database.get x (received link database key) (pos (length key))) (e' ∙ e)
                ∙ absent)
              c''))
          (λ w c'. receives_absent link database w (int_of (length key)) c')

    pub del_lem :
        Gives link database
          (del_exchange key t)
          (returned tt)
          (database.del t.db (received link database key) (pos (length key)))
    del_lem =
        exchanged link database (send_key socket (pos 2) key)
          (receive_del socket (int_of (length key))) t _ _ _ _
          (sent_key link database (pos 2) t.world key (small (length key) le) c)
          (λ t' e c'. serve_del link database t' key _ _ c' (λ t'' e' c''.
            subst
              (λ x.
                Leaves link database
                  (answer_del net database (received link database key) (pos (length key)) t'') tt
                  (database.del x (received link database key) (pos (length key)))
                  (word (pos 1) ∷ []))
              (e' ∙ e)
              (answer_del-Leaves link database t'' (received link database key) (length key) le
                c'')))
          (λ w c'. (receives_done link database w (int_of (length key)) c').1)

    pub set_lem :
        (value : Text)
        → length value ≤ max_str_len
        → Gives link database (set_exchange key value t) (returned tt) (
            database.set t.db
              (received link database key)
              (pos (length key))
              (received link database value)
              (pos (length value)))
    set_lem value le' =
        let k = received link database key in
        let v = received link database value in
        let n = pos (length key) in
        let m = pos (length value) in
        exchanged link database (send_set socket key value)
          (receive_set socket (int_of (length value))) t _ _ _ _
          (sent_set link database t.world key value (small (length key) le)
            (small (length value) le') c)
          (λ t' e c'. serve_set link database t' key value _ _ c' (λ t'' e' c''.
            subst
              (λ x.
                Leaves link database (answer_set net database k n v m t'') tt
                  (database.set x k n v m) (word (pos 1) ∷ []))
              (e' ∙ e)
              (answer_set-Leaves link database t'' k v (length key) (length value) le le' c'')))
          (λ w c'. (receives_done link database w (int_of (length value)) c').0)
