-- ===== src/Server.antt =====
-- The server's thread for one client: `InstanceThread` of main/myjqlserver.c (the Linux branch).
-- The socket, `malloc` and the database are the parameters `Net` and `Db`. A thread keeps a trace,
-- newest first, of what it does to memory, the lock, the database and the socket.
pub mod Trace
pub mod Lock
pub mod Faults
pub mod Mutex
pub mod Exclusion
pub mod Main
pub mod Accept
use ds_my_sql.Base.{
  ℕ, zero, suc, ◌+◌, Bool, true, false, Option, none, some, List, [], ◌∷◌, ◌++◌, if◌then◌else◌, ℤ,
  pos, minus_one, eq_ℤ, ltb_ℤ,
}

abbrev pub Text : Type 0
Text = List ℕ

abbrev pub max_str_len : ℕ
max_str_len = 1024

-- `recv_word` and `recv_text` are given what the buffer holds and answer what it holds after the
-- call, or nothing on SOCKET_ERROR; the sends and `shutdown` answer whether SOCKET_ERROR came;
-- `malloc` of an `int` answers what the memory holds.
pub record Net (W : Type 0) : Type 0 where
  pub recv_word : W → ℤ → Option ℤ × W
  pub recv_text : W → ℤ → Text → Option Text × W
  pub send_word : W → ℤ → Bool × W
  pub send_text : W → Text → ℤ → Bool × W
  pub shutdown : W → Bool × W
  pub malloc : ℤ → Text

-- `myjql_get` answers `(int)` of its result and the buffer; an `int` length is passed as it is.
pub record Db (D : Type 0) : Type 0 where
  pub get : D → Text → ℤ → ℤ × Text × D
  pub set : D → Text → ℤ → Text → ℤ → D
  pub del : D → Text → ℤ → D

pub data Event : Type 0 where
  alloc_key free_key alloc_value free_value enter leave close_socket : Event
  db_get db_del : Text → ℤ → Event
  db_set : Text → ℤ → Text → ℤ → Event

pub record Thread (W D : Type 0) : Type 0 where
  pub world : W
  pub db : D
  pub code : ℤ
  pub trace : List Event

abbrev pub both : List Event
both = free_key ∷ free_value ∷ []

-- A statement goes on with a value, or returns from the function.
pub data Outcome (A : Type 0) : Type 0 where
  next : A → Outcome A
  returned : ℕ → Outcome A

abbrev pub M : Type 0 → Type 0 → Type 0 → Type 0
M W D A = Thread W D → Outcome A × Thread W D

module _ {W D : Type 0} where
  abbrev pub pure : {A : Type 0} → A → M W D A
  pure a t = (next a, t)

  abbrev pub return : {A : Type 0} → ℕ → M W D A
  return n t = (returned n, t)

  abbrev pub continue_with :
      {A B : Type 0} → Outcome A × Thread W D → (A → M W D B) → Outcome B × Thread W D
  continue_with (next a, t) f = f a t
  continue_with (returned n, t) f = (returned n, t)

  infixl 5 ◌>>=◌ ◌>>◌
  abbrev pub ◌>>=◌ : {A B : Type 0} → M W D A → (A → M W D B) → M W D B
  ◌>>=◌ m f t = continue_with (m t) f

  abbrev pub ◌>>◌ : {B : Type 0} → M W D (Unit {0}) → M W D B → M W D B
  m >> k = m >>= λ _. k

  abbrev pub emit : Event → M W D (Unit {0})
  emit e t = (next tt, record t { trace = e ∷ t.trace })

  abbrev pub get_code : M W D ℤ
  get_code t = (next t.code, t)

  -- The calls of `free` on an error path, in their order.
  abbrev pub emit_all : List Event → M W D (Unit {0})
  emit_all [] t = (next tt, t)
  emit_all (e ∷ es) t = emit_all es (record t { trace = e ∷ t.trace })

  -- `printf(…); closesocket(ClientSocket); free(…); return 1;`
  pub fail : {A : Type 0} → List Event → M W D A
  fail frees = do emit close_socket; emit_all frees; return 1

module _ {W D : Type 0} (net : Net W) (database : Db D) where
  -- `recv(ClientSocket, (char*)&code, sizeof(code), 0)` and its test.
  unfoldable pub recv_code : List Event → M W D (Unit {0})
  unfolding fail
  recv_code frees t =
      let (r, w) = net.recv_word t.world t.code in
      elim r [
        | none ↦ fail frees (record t { world = w })
        | some c ↦ (next tt, record t { world = w; code = c })
      ]

  -- `malloc(code + 1)`, `recv` into it and its test.
  unfoldable pub recv_buffer : ℤ → List Event → M W D Text
  unfolding fail
  recv_buffer len frees t =
      let (r, w) = net.recv_text t.world len (net.malloc len) in
      elim r [
        | none ↦ fail frees (record t { world = w })
        | some s ↦ (next s, record t { world = w })
      ]

  -- `code = c; send(ClientSocket, (char*)&code, sizeof(code), 0)` and its test.
  unfoldable pub send_code : ℤ → List Event → M W D (Unit {0})
  unfolding fail
  send_code c frees t =
      let (failed, w) = net.send_word t.world c in
      if failed
      then fail frees (record t { world = w; code = c })
      else (next tt, record t { world = w; code = c })

  unfoldable pub send_value : Text → ℤ → List Event → M W D (Unit {0})
  unfolding fail
  send_value s len frees t =
      let (failed, w) = net.send_text t.world s len in
      if failed then fail frees (record t { world = w }) else (next tt, record t { world = w })

  call_get : Text → ℤ → M W D (ℤ × Text)
  call_get key len t =
      let (n, value, d) = database.get t.db key len in
      (next (n, value), record t { db = d; trace = db_get key len ∷ t.trace })

  call_set : Text → ℤ → Text → ℤ → M W D (Unit {0})
  call_set key key_len value len t = (
    next tt,
    record t {
      db = database.set t.db key key_len value len;
      trace = db_set key key_len value len ∷ t.trace;
    },
  )

  call_del : Text → ℤ → M W D (Unit {0})
  call_del key len t =
      (next tt, record t { db = database.del t.db key len; trace = db_del key len ∷ t.trace })

  -- What `myjql_get` answered goes to the client.
  unfoldable pub reply_get : ℤ → Text → M W D (Unit {0})
  unfolding send_code send_value
  reply_get n value =
      if eq_ℤ n minus_one
      then send_code (pos 0) both
      else do send_code (pos 1) both; send_code n both; send_value value n both

  -- `code == 0`, once the key is here.
  unfoldable pub answer_get : Text → ℤ → M W D (Unit {0})
  unfolding send_code reply_get call_get
  answer_get key len = if ltb_ℤ (pos max_str_len) len then send_code (pos 2) (free_key ∷ []) else do
    emit alloc_value
    emit enter
    (n, value) ← call_get key len
    emit leave
    reply_get n value
    emit free_value

  unfoldable pub handle_get : M W D (Unit {0})
  unfolding recv_code recv_buffer answer_get
  handle_get = do
    recv_code []
    len ← get_code
    emit alloc_key
    key ← recv_buffer len (free_key ∷ [])
    answer_get key len
    emit free_key

  -- `code == 1`, once key and value are here.
  unfoldable pub answer_set : Text → ℤ → Text → ℤ → M W D (Unit {0})
  unfolding send_code call_set
  answer_set key key_len value value_len =
      if ltb_ℤ (pos max_str_len) key_len
      then send_code (pos 2) both
      else if ltb_ℤ (pos max_str_len) value_len
      then send_code (pos 3) both
      else do emit enter; call_set key key_len value value_len; emit leave; send_code (pos 1) both

  -- The key is not freed if the length of the value does not come.
  unfoldable pub handle_set : M W D (Unit {0})
  unfolding recv_code recv_buffer answer_set
  handle_set = do
    recv_code []
    key_len ← get_code
    emit alloc_key
    key ← recv_buffer key_len (free_key ∷ [])
    recv_code []
    value_len ← get_code
    emit alloc_value
    value ← recv_buffer value_len both
    answer_set key key_len value value_len
    emit free_key
    emit free_value

  -- `code == 2`, once the key is here.
  unfoldable pub answer_del : Text → ℤ → M W D (Unit {0})
  unfolding send_code call_del
  answer_del key len =
      if ltb_ℤ (pos max_str_len) len
      then send_code (pos 2) (free_key ∷ [])
      else do emit enter; call_del key len; emit leave; send_code (pos 1) (free_key ∷ [])

  unfoldable pub handle_del : M W D (Unit {0})
  unfolding recv_code recv_buffer answer_del
  handle_del = do
    recv_code []
    len ← get_code
    emit alloc_key
    key ← recv_buffer len (free_key ∷ [])
    answer_del key len
    emit free_key

  -- The branches on the code of a request; the answer is whether the loop breaks.
  unfoldable pub dispatch : ℤ → M W D Bool
  unfolding handle_get handle_set handle_del send_code
  dispatch code =
      if eq_ℤ code (pos 0)
      then (do handle_get; pure false)
      else if eq_ℤ code (pos 1)
      then (do handle_set; pure false)
      else if eq_ℤ code (pos 2)
      then (do handle_del; pure false)
      else if eq_ℤ code (pos 3)
      then (do send_code (pos 1) []; pure true)
      else pure false

  -- One round of the loop.
  unfoldable pub serve_one : M W D Bool
  unfolding recv_code dispatch
  serve_one = do recv_code []; code ← get_code; dispatch code

  -- What follows the loop.
  unfoldable pub finish : M W D ℕ
  unfolding fail
  finish t =
      let (failed, w) = net.shutdown t.world in
      if failed
      then fail [] (record t { world = w })
      else (returned 0, record t { world = w; trace = close_socket ∷ t.trace })

  -- `break`, or the next round.
  unfoldable pub after_round : M W D ℕ → Bool → M W D ℕ
  after_round again true = finish
  after_round again false = again

  -- `fuel` rounds at most; the loop of a client that keeps sending has no bound.
  unfoldable pub instance_thread : ℕ → M W D ℕ
  unfolding serve_one finish after_round
  instance_thread zero = pure 0
  instance_thread (suc fuel) = serve_one >>= after_round (instance_thread fuel)
