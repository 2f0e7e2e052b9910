-- ===== src/Server/Faults.antt =====
-- What `InstanceThread` does where a client leaves without a goodbye, or sends a negative length.
use ds_my_sql.Base.{ℕ, ◌≡◌, ◌∙◌, ap, sym, subst, some, List, [], ◌∷◌, arith, ℤ, pos, negsuc}
use ds_my_sql.Server.{
  Text, Net, Db, Event, alloc_key, alloc_value, free_key, both, next, Outcome, M, continue_with,
  Thread, returned, recv_code, recv_buffer, answer_set, handle_set, dispatch, serve_one,
}

module _ {W D : Type 0} (net : Net W) (database : Db D) (t : Thread W D) where
  -- A length below 0 passes the test of the length: `myjql_set` is called with it.
  pub answer_set-negative :
      (key value : Text) (n m : ℕ)
      → ((answer_set net database key (negsuc n) value (negsuc m) t).1).db
        ≡ database.set t.db key (negsuc n) value (negsuc m)
  unfolding answer_set
  answer_set-negative key value n m = ground arith

-- A run that leaves the database as said.
data Leaves {W D A : Type 0} (d : D) : Outcome A × Thread W D → Type 0 where
  leaves : {o : Outcome A} {t : Thread W D} → t.db ≡ d → Leaves d (o, t)

module _ {W D : Type 0} {d : D} where
  step :
      {A B : Type 0} {r : Outcome A × Thread W D} (f : A → M W D B) {a : A} {t : Thread W D}
      → r ≡ (next a, t)
      → Leaves d (f a t)
      → Leaves d (continue_with r f)
  step f e h = subst (λ r. Leaves d (continue_with r f)) (sym e) h

  and_then :
      {A B : Type 0} {r : Outcome A × Thread W D} {f : A → M W D B}
      → Leaves d r
      → ((a : A) (t : Thread W D) → t.db ≡ d → Leaves d (f a t))
      → Leaves d (continue_with r f)
  and_then (leaves {o = next a} {t} e) k = k a t e
  and_then (leaves {o = returned n} {t} e) k = leaves e

  db_of : {A : Type 0} {r : Outcome A × Thread W D} → Leaves d r → (r.1).db ≡ d
  db_of (leaves e) = e

module _ {W D : Type 0} (net : Net W) (database : Db D)
    (words : (w : W) (c : ℤ) → net.recv_word w c ≡ (some c, w))
    (texts : (w : W) (n : ℤ) (s : Text) → net.recv_text w n s ≡ (some s, w)) where
  recv_code_closed : (t : Thread W D) → recv_code net database [] t ≡ (next tt, t)
  unfolding recv_code
  recv_code_closed t = ground (arith, words t.world t.code)

  recv_buffer_closed :
      (n : ℤ) (frees : List Event) (t : Thread W D)
      → recv_buffer net database n frees t ≡ (next (net.malloc n), t)
  unfolding recv_buffer
  recv_buffer_closed n frees t = ground (arith, texts t.world n (net.malloc n))

  answer_set_one :
      (key value : Text) (n : ℤ) (t : Thread W D)
      → n ≡ pos 1
      → ((answer_set net database key n value n t).1).db ≡ database.set t.db key n value n
  unfolding answer_set
  answer_set_one key value n t e = ground arith

  leaves_answer : (d : D) (r : Outcome (Unit {0}) × Thread W D) → (r.1).db ≡ d → Leaves d r
  leaves_answer d (o, t) e = leaves e

  handle_set_closed :
      (t : Thread W D)
      → t.code ≡ pos 1
      → Leaves
          (database.set t.db (net.malloc t.code) t.code (net.malloc t.code) t.code)
          (handle_set net database t)
  unfolding handle_set
  handle_set_closed t last =
      let t₁ : Thread W D = record t { trace = alloc_key ∷ t.trace } in
      let t₂ : Thread W D = record t { trace = alloc_value ∷ alloc_key ∷ t.trace } in
      let s = net.malloc t.code in
      let answer : Leaves (database.set t.db s t.code s t.code)
          (answer_set net database s t.code s t.code t₂) =
        leaves_answer _ (answer_set net database s t.code s t.code t₂)
          (answer_set_one s s t.code t₂ last) in
      step _ (recv_code_closed t) (
        step _ (recv_buffer_closed t.code (free_key ∷ []) t₁) (
          step _ (recv_code_closed t₁)
            (step _ (recv_buffer_closed t.code both t₂) (and_then answer λ a t' e. leaves e))))

  dispatched :
      {d : D} (t : Thread W D) (c : ℤ)
      → c ≡ pos 1
      → Leaves d (handle_set net database t)
      → Leaves d (dispatch net database c t)
  unfolding dispatch
  dispatched t c e run = rw (e, dispatch) (and_then run λ a t' e'. leaves e')

  -- On a connection that the client has closed, where each `recv` answers 0 and leaves its buffer
  -- alone, a thread whose last code was 1, the status that it sent, takes that for a request and
  -- stores a record: its key and its value are one byte each of memory that nothing was written to.
  pub serve_one-closed :
      (t : Thread W D)
      → t.code ≡ pos 1
      → ((serve_one net database t).1).db
        ≡ database.set t.db (net.malloc (pos 1)) (pos 1) (net.malloc (pos 1)) (pos 1)
  unfolding serve_one
  serve_one-closed t last =
      db_of (step _ (recv_code_closed t) (dispatched t t.code last (handle_set_closed t last)))
      ∙ ap (λ c. database.set t.db (net.malloc c) c (net.malloc c) c) last
