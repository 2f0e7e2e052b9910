-- ===== src/Server/Lock.antt =====
-- The lock of `InstanceThread`, and the lengths that reach the database.
use ds_my_sql.Base.{
  ℕ, zero, suc, ◌≡◌, Bool, true, false, some, List, [], ◌∷◌, arith, ℤ, pos, minus_one, eq_ℤ, ltb_ℤ,
  inl, inr, Bool-cases, Option-cases,
}
use ds_my_sql.Server.{
  Text, max_str_len, Net, Db, Event, alloc_key, free_key, alloc_value, free_value, enter, leave,
  db_get, db_del, db_set, Thread, Outcome, recv_code, recv_buffer, send_code, send_value, reply_get,
  both, answer_get, handle_get, answer_set, handle_set, answer_del, handle_del, dispatch, serve_one,
  finish, after_round, instance_thread,
}
use ds_my_sql.Server.Trace.{
  holds_lock, After, goes, ends, AreFrees, key_free, both_free, bind, fail-After, fits_lem,
}

module _ {W D : Type 0} (net : Net W) (database : Db D) where
  module _ (frees : List Event) (q : AreFrees frees) (t : Thread W D)
      (e : holds_lock t.trace ≡ some false) where
    recv_code-After : After false (recv_code net database frees t)
    unfolding recv_code
    recv_code-After = elim (Option-cases ((net.recv_word t.world t.code).0)) [
      | inl n ↦ rw (n, recv_code) (fail-After frees _ q e)
      | inr (c, n) ↦ rw (n, recv_code) (goes e)
    ]

    recv_buffer-After : (len : ℤ) → After false (recv_buffer net database len frees t)
    unfolding recv_buffer
    recv_buffer-After len = elim (Option-cases ((net.recv_text t.world len (net.malloc len)).0)) [
      | inl n ↦ rw (n, recv_buffer) (fail-After frees _ q e)
      | inr (c, n) ↦ rw (n, recv_buffer) (goes e)
    ]

    send_code-After : (c : ℤ) → After false (send_code net database c frees t)
    unfolding send_code
    send_code-After c = elim (Bool-cases ((net.send_word t.world c).0)) [
      | inl n ↦ rw n (fail-After frees _ q e)
      | inr n ↦ rw n (goes e)
    ]

    send_value-After : (s : Text) (len : ℤ) → After false (send_value net database s len frees t)
    unfolding send_value
    send_value-After s len = elim (Bool-cases ((net.send_text t.world s len).0)) [
      | inl n ↦ rw n (fail-After frees _ q e)
      | inr n ↦ rw n (goes e)
    ]

  reply_get-After :
      (n : ℤ) (value : Text) (t : Thread W D)
      → holds_lock t.trace ≡ some false
      → After false (reply_get net database n value t)
  unfolding reply_get
  reply_get-After n value t e = elim (Bool-cases (eq_ℤ n minus_one)) [
    | inl gone ↦ rw (gone, reply_get) (send_code-After both both_free t e (pos 0))
    | inr here ↦
        rw (here, reply_get)
          (bind (send_code-After both both_free t e (pos 1)) λ _ t₁ e₁.
            bind (send_code-After both both_free t₁ e₁ n)
              λ _ t₂ e₂. send_value-After both both_free t₂ e₂ value n)
  ]

  module _ (key : Text) (len : ℤ) (t : Thread W D) (e : holds_lock t.trace ≡ some false) where
    answer_get-After : After false (answer_get net database key len t)
    unfolding answer_get holds_lock
    answer_get-After = elim (Bool-cases (ltb_ℤ (pos max_str_len) len)) [
      | inl long ↦ rw (long, answer_get) (send_code-After (free_key ∷ []) key_free t e (pos 2))
      | inr short ↦
          let ok = fits_lem len short in
          let (n, value, d) = database.get t.db key len in
          let t' : Thread W D = record t {
            db = d;
            trace = leave ∷ db_get key len ∷ enter ∷ alloc_value ∷ t.trace;
          } in
          rw (short, answer_get)
            (bind (reply_get-After n value t' (ground arith)) λ _ t₁ e₁. goes (ground arith))
    ]

    answer_del-After : After false (answer_del net database key len t)
    unfolding answer_del holds_lock
    answer_del-After = elim (Bool-cases (ltb_ℤ (pos max_str_len) len)) [
      | inl long ↦ rw (long, answer_del) (send_code-After (free_key ∷ []) key_free t e (pos 2))
      | inr short ↦
          let ok = fits_lem len short in
          let t' : Thread W D = record t {
            db = database.del t.db key len;
            trace = leave ∷ db_del key len ∷ enter ∷ t.trace;
          } in
          rw (short, answer_del)
            (send_code-After (free_key ∷ []) key_free t' (ground arith) (pos 1))
    ]

    answer_set-After :
        (value : Text) (value_len : ℤ)
        → After false (answer_set net database key len value value_len t)
    unfolding answer_set holds_lock
    answer_set-After value value_len = elim (Bool-cases (ltb_ℤ (pos max_str_len) len)) [
      | inl long ↦ rw (long, answer_set) (send_code-After both both_free t e (pos 2))
      | inr short ↦ elim (Bool-cases (ltb_ℤ (pos max_str_len) value_len)) [
        | inl long ↦ rw (short, answer_set) (rw (long) (send_code-After both both_free t e (pos 3)))
        | inr short' ↦
            let ok = fits_lem len short in
            let ok' = fits_lem value_len short' in
            let t' : Thread W D = record t {
              db = database.set t.db key len value value_len;
              trace = leave ∷ db_set key len value value_len ∷ enter ∷ t.trace;
            } in
            rw (short, answer_set)
              (rw (short') (send_code-After both both_free t' (ground arith) (pos 1)))
      ]
    ]

  module _ (t : Thread W D) (e : holds_lock t.trace ≡ some false) where
    allocated :
        (t : Thread W D)
        → holds_lock t.trace ≡ some false
        → (holds_lock (alloc_key ∷ t.trace) ≡ some false)
          × (holds_lock (alloc_value ∷ t.trace) ≡ some false)
    unfolding holds_lock
    allocated t e = (ground arith, ground arith)

    freed :
        (t : Thread W D)
        → holds_lock t.trace ≡ some false
        → (holds_lock (free_key ∷ t.trace) ≡ some false)
          × (holds_lock (free_value ∷ free_key ∷ t.trace) ≡ some false)
    unfolding holds_lock
    freed t e = (ground arith, ground arith)

    handle_get-After : After false (handle_get net database t)
    unfolding handle_get
    handle_get-After = bind (recv_code-After [] tt t e) λ _ t₁ e₁.
        bind (recv_buffer-After (free_key ∷ []) key_free _ (allocated t₁ e₁).0 t₁.code)
          λ key t₂ e₂. bind (answer_get-After key t₁.code t₂ e₂) λ _ t₃ e₃. goes (freed t₃ e₃).0

    handle_del-After : After false (handle_del net database t)
    unfolding handle_del
    handle_del-After = bind (recv_code-After [] tt t e) λ _ t₁ e₁.
        bind (recv_buffer-After (free_key ∷ []) key_free _ (allocated t₁ e₁).0 t₁.code)
          λ key t₂ e₂. bind (answer_del-After key t₁.code t₂ e₂) λ _ t₃ e₃. goes (freed t₃ e₃).0

    handle_set-After : After false (handle_set net database t)
    unfolding handle_set
    handle_set-After = bind (recv_code-After [] tt t e) λ _ t₁ e₁.
        bind (recv_buffer-After (free_key ∷ []) key_free _ (allocated t₁ e₁).0 t₁.code) λ key t₂ e₂.
          bind (recv_code-After [] tt t₂ e₂) λ _ t₃ e₃.
            bind (recv_buffer-After both both_free _ (allocated t₃ e₃).1 t₃.code) λ value t₄ e₄.
              bind (answer_set-After key t₁.code t₄ e₄ value t₃.code)
                λ _ t₅ e₅. goes (freed t₅ e₅).1

    dispatch-After : (code : ℤ) → After false (dispatch net database code t)
    unfolding dispatch
    dispatch-After code = elim (Bool-cases (eq_ℤ code (pos 0))) [
      | inl y ↦ rw (y, dispatch) (bind handle_get-After λ _ t' e'. goes e')
      | inr n₀ ↦ elim (Bool-cases (eq_ℤ code (pos 1))) [
        | inl y ↦ rw (n₀, dispatch) (rw y (bind handle_set-After λ _ t' e'. goes e'))
        | inr n₁ ↦ elim (Bool-cases (eq_ℤ code (pos 2))) [
          | inl y ↦ rw (n₀, dispatch) (rw n₁ (rw y (bind handle_del-After λ _ t' e'. goes e')))
          | inr n₂ ↦ elim (Bool-cases (eq_ℤ code (pos 3))) [
            | inl y ↦
                rw (n₀, dispatch)
                  (rw n₁
                    (rw n₂ (rw y (bind (send_code-After [] tt t e (pos 1)) λ _ t' e'. goes e'))))
            | inr n₃ ↦ rw (n₀, dispatch) (rw n₁ (rw n₂ (rw n₃ (goes e))))
          ]
        ]
      ]
    ]

    finish-After : After false (finish net database t)
    unfolding finish holds_lock
    finish-After = elim (Bool-cases ((net.shutdown t.world).0)) [
      | inl failed ↦ rw (failed, finish) (fail-After [] _ tt e)
      | inr closed ↦ rw (closed, finish) (ends (ground arith))
    ]

  serve_one-After :
      (t : Thread W D) → holds_lock t.trace ≡ some false → After false (serve_one net database t)
  unfolding serve_one
  serve_one-After t e = bind (recv_code-After [] tt t e) λ _ t₁ e₁. dispatch-After t₁ e₁ t₁.code

  thread-After :
      (fuel : ℕ) (t : Thread W D)
      → holds_lock t.trace ≡ some false
      → After false (instance_thread net database fuel t)
  unfolding instance_thread
  thread-After zero t e = goes e
  thread-After (suc fuel) t e =
      bind (serve_one-After t e) (again (λ t' e'. thread-After fuel t' e'))
    where
      again :
          (rest : (t' : Thread W D)
            → holds_lock t'.trace ≡ some false
            → After false (instance_thread net database fuel t'))
          (broke : Bool) (t' : Thread W D)
          → holds_lock t'.trace ≡ some false
          → After false (after_round net database (instance_thread net database fuel) broke t')
      again rest true t' e' = finish-After t' e'
      again rest false t' e' = rest t' e'

  without_lock :
      {A : Type 0} {r : Outcome A × Thread W D}
      → After false r
      → holds_lock (r.1).trace ≡ some false
  without_lock (goes e) = e
  without_lock (ends e) = e

  -- From a start without the lock, the thread of a client gives the lock back each time that it has
  -- taken it, calls the database only with the lock and with lengths of at most `MAX_STR_LEN`, and
  -- does not hold the lock at the end, however the thread ends and whatever the socket does.
  pub instance_thread-holds_lock :
      (fuel : ℕ) (t : Thread W D)
      → holds_lock t.trace ≡ some false
      → holds_lock ((instance_thread net database fuel t).1).trace ≡ some false
  instance_thread-holds_lock fuel t e = without_lock (thread-After fuel t e)
