-- ===== src/Server/Main.antt =====
-- The main thread of the server: `main` and `exit_nicely` of main/myjqlserver.c (the Linux branch).
-- The calls of the operating system are the parameter `System`. The main thread keeps a trace, newest
-- first, of what it does to sockets, memory, the lock, the store and threads.
use ds_my_sql.Base.{ℕ, zero, suc, Bool, List, [], ◌∷◌, ℤ, pos, is_negative, eq_ℤ, if◌then◌else◌}

-- `signal` answers whether SIG_ERR came; the others what the C functions answer.
pub record System (W : Type 0) : Type 0 where
  pub signal : W → Bool × W
  pub socket : W → ℤ × W
  pub bind : W → ℤ × W
  pub listen : W → W
  pub mutex_init : W → ℤ × W
  pub accept : W → ℤ × W
  pub pthread_create : W → ℤ → ℤ × W

pub data MainEvent : Type 0 where
  listening init_store accepted alloc_arg started closed_client free_arg closed_listening :
      MainEvent
  locked close_store unlocked destroy_lock exited : MainEvent

pub record Main (W : Type 0) : Type 0 where
  pub world : W
  pub trace : List MainEvent

-- `main` returns, or waits for the next client.
pub data Status : Type 0 where
  returned : ℕ → Status
  waiting : Status

module _ {W : Type 0} (system : System W) where
  -- The thread for a client, which has the socket and `arg`; or neither is kept.
  unfoldable pub start_thread : ℤ → W → List MainEvent → Main W
  start_thread client w trace =
      let (failed, w') = system.pthread_create w client in
      if eq_ℤ failed (pos 0)
      then record { world = w'; trace = started ∷ alloc_arg ∷ trace }
      else record { world = w'; trace = free_arg ∷ closed_client ∷ alloc_arg ∷ trace }

  -- One round of the loop.
  unfoldable pub accept_one : Main W → Main W
  unfolding start_thread
  accept_one m =
      let (client, w) = system.accept m.world in
      if is_negative client
      then record m { world = w }
      else start_thread client w (accepted ∷ m.trace)

  -- `fuel` rounds of the loop, which has no end.
  unfoldable pub accept_loop : ℕ → Main W → Main W
  unfolding accept_one
  accept_loop zero m = m
  accept_loop (suc fuel) m = accept_loop fuel (accept_one m)

  -- From `pthread_mutex_init` on.
  unfoldable pub set_up_store : ℕ → Main W → Status × Main W
  unfolding accept_loop
  set_up_store fuel m =
      let (failed, w) = system.mutex_init m.world in
      if eq_ℤ failed (pos 0)
      then (waiting, accept_loop fuel (record { world = w; trace = init_store ∷ m.trace }))
      else (returned 1, record { world = w; trace = closed_listening ∷ m.trace })

  -- From `bind` on.
  unfoldable pub set_up_socket : ℕ → Main W → Status × Main W
  unfolding set_up_store
  set_up_socket fuel m =
      let (r, w) = system.bind m.world in
      if is_negative r
      then (returned 1, record m { world = w })
      else set_up_store fuel (record m { world = system.listen w })

  unfoldable pub main : ℕ → W → Status × Main W
  unfolding set_up_socket
  main fuel w =
      let (failed, w₁) = system.signal w in
      let (r, w₂) = system.socket w₁ in
      if failed
      then (returned 1, record { world = w₁; trace = [] })
      else if is_negative r
      then (returned 1, record { world = w₂; trace = [] })
      else set_up_socket fuel (record { world = w₂; trace = listening ∷ [] })

-- The handler of SIGINT. It waits for the lock.
unfoldable pub exit_nicely : List MainEvent → List MainEvent
exit_nicely trace =
    exited ∷ destroy_lock ∷ closed_listening ∷ unlocked ∷ close_store ∷ locked ∷ trace
