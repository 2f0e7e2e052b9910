-- ===== src/Client/Errors.antt =====
-- The errors that the functions of the client throw for texts that are too long, each over a
-- connection that loses nothing.
use ds_my_sql.Base.{◌≤◌, ◌<◌, ◌^◌, ◌∙◌, ◌∷◌, [], pos, length, subst}
use ds_my_sql.Server.{Text, max_str_len, Net, Db, Thread, answer_get, answer_del, answer_set}
use ds_my_sql.Client.{
  Socket, threw, key_too_long, value_too_long, int_of, send_key, receive_get, send_set, receive_set,
  receive_del,
}
use ds_my_sql.Client.Link.{word, Link, Carries}
use ds_my_sql.Client.Answers.{
  Leaves, answer_get_long, answer_del_long, answer_set_long, answer_set_long_key,
}
use ds_my_sql.Client.Exchange.{received, serve_get, serve_del, serve_set}
use ds_my_sql.Client.Rounds.{
  Gives, sent_key, sent_set, exchanged, receives_long, receives_long_value,
}
use ds_my_sql.Client.RoundTrip.{get_exchange, set_exchange, del_exchange, small}

module _ {W D : Type 0} {net : Net W} {socket : Socket W} (link : Link net socket) (database : Db D)
    (t : Thread W D) (c : Carries link database t.world [] []) (key : Text) where
  module _ (long : max_str_len < length key) (lt : length key < 2 ^ 31) where
    get_long : Gives link database (get_exchange link database key t) (threw key_too_long) t.db
    get_long =
        exchanged link database (send_key socket (pos 0) key)
          (receive_get socket (int_of (length key))) t _ _ _ _
          (sent_key link database (pos 0) t.world key lt c)
          (λ t' e c'. serve_get link database t' key _ _ c' (λ t'' e' c''.
            subst
              (λ x.
                Leaves link database
                  (answer_get net database (received link database key) (pos (length key)) t'') tt x
                  (word (pos 2) ∷ []))
              (e' ∙ e)
              (answer_get_long link database t'' (received link database key) (length key) long
                c'')))
          (λ w c'. (receives_long link database w (int_of (length key)) c').0)

    del_long : Gives link database (del_exchange link database key t) (threw key_too_long) t.db
    del_long =
        exchanged link database (send_key socket (pos 2) key)
          (receive_del socket (int_of (length key))) t _ _ _ _
          (sent_key link database (pos 2) t.world key lt c)
          (λ t' e c'. serve_del link database t' key _ _ c' (λ t'' e' c''.
            subst
              (λ x.
                Leaves link database
                  (answer_del net database (received link database key) (pos (length key)) t'') tt x
                  (word (pos 2) ∷ []))
              (e' ∙ e)
              (answer_del_long link database t'' (received link database key) (length key) long
                c'')))
          (λ w c'. (receives_long link database w (int_of (length key)) c').2)

    set_long :
        (value : Text)
        → length value < 2 ^ 31
        → Gives link database (set_exchange link database key value t) (threw key_too_long) t.db
    set_long value lt' =
        let k = received link database key in
        let v = received link database value in
        let n = pos (length key) in
        let m = pos (length value) in
        exchanged link database (send_set socket key value)
          (receive_set socket (int_of (length value))) t _ _ _ _
          (sent_set link database t.world key value lt lt' c)
          (λ t' e c'. serve_set link database t' key value _ _ c' (λ t'' e' c''.
            subst
              (λ x.
                Leaves link database (answer_set net database k n v m t'') tt x (word (pos 2) ∷ []))
              (e' ∙ e) (answer_set_long_key link database t'' k v (length key) m long c'')))
          (λ w c'. (receives_long link database w (int_of (length value)) c').1)

    -- With a key of more than `MAX_STR_LEN` bytes, and lengths that are an `int`, `get`, `set` and
    -- `del` throw that the key is too long; the database is as it was, and the thread is ready for
    -- the next request.
    pub exchange-key_too_long :
        (value : Text)
        → length value < 2 ^ 31
        → Gives link database (get_exchange link database key t) (threw key_too_long) t.db
          × Gives link database (set_exchange link database key value t) (threw key_too_long) t.db
          × Gives link database (del_exchange link database key t) (threw key_too_long) t.db
    exchange-key_too_long value lt' = (get_long, set_long value lt', del_long)

  -- With a value of more than `MAX_STR_LEN` bytes, whose length is an `int`, and a key that is not
  -- too long, `set` throws that the value is too long; the database is as it was, and the thread is
  -- ready for the next request.
  pub set_exchange-value_too_long :
      (value : Text)
      → length key ≤ max_str_len
      → max_str_len < length value
      → length value < 2 ^ 31
      → Gives link database (set_exchange link database key value t) (threw value_too_long) t.db
  set_exchange-value_too_long value le long lt =
      let k = received link database key in
      let v = received link database value in
      let n = pos (length key) in
      let m = pos (length value) in
      exchanged link database (send_set socket key value)
        (receive_set socket (int_of (length value))) t _ _ _ _
        (sent_set link database t.world key value (small (length key) le) lt c)
        (λ t' e c'. serve_set link database t' key value _ _ c' (λ t'' e' c''.
          subst
            (λ x.
              Leaves link database (answer_set net database k n v m t'') tt x (word (pos 3) ∷ []))
            (e' ∙ e)
            (answer_set_long link database t'' k v (length key) (length value) le long c'')))
        (λ w c'. receives_long_value link database w (int_of (length value)) c')
