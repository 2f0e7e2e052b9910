-- ===== src/Server/Accept.antt =====
-- What the main thread of the server does with the sockets that it accepts.
use ds_my_sql.Base.{
  ℕ, zero, suc, ◌≡◌, ◌⊎◌, inl, inr, Bool-cases, Option, none, some, List, [], ◌∷◌, pos, eq_ℤ,
  is_negative, arith, refl,
}
use ds_my_sql.Server.Main.{
  System, MainEvent, listening, init_store, accepted, alloc_arg, started, closed_client, free_arg,
  closed_listening, Main, Status, returned, waiting, start_thread, accept_one, accept_loop,
  set_up_store, set_up_socket, main,
}

-- What the main thread has in its hands: the listening socket, with the store once it is open, and of
-- the last client its socket, its `arg` or both.
pub data Hands : Type 0 where
  empty bound serving got_client got_both got_arg : Hands

-- There is no answer if it uses what it does not have, or takes a client before it is done with the
-- last one.
pub move : MainEvent → Hands → Option Hands
move listening empty = some bound
move init_store bound = some serving
move accepted serving = some got_client
move alloc_arg got_client = some got_both
move started got_both = some serving
move closed_client got_both = some got_arg
move free_arg got_arg = some serving
move closed_listening bound = some empty
move e h = none

unfoldable pub hands : List MainEvent → Option Hands
unfolding move
hands [] = some empty
hands (e ∷ es) = elim (hands es) [ none ↦ none | some h ↦ move e h ]

module _ {W : Type 0} (system : System W) where
  accept_one-serving :
      (m : Main W) → hands m.trace ≡ some serving → hands (accept_one system m).trace ≡ some serving
  unfolding accept_one start_thread hands
  accept_one-serving m e = elim (Bool-cases (is_negative (system.accept m.world).0)) [
    | inl none_came ↦ rw (none_came, accept_one) e
    | inr came ↦
        elim (Bool-cases (
          eq_ℤ (system.pthread_create (system.accept m.world).1 (system.accept m.world).0).0
            (pos 0))) [
              | inl ok ↦ rw (came, accept_one) (rw ok (ground arith))
              | inr failed ↦ rw (came, accept_one) (rw failed (ground arith))
            ]
  ]

  accept_loop-serving :
      (fuel : ℕ) (m : Main W)
      → hands m.trace ≡ some serving
      → hands (accept_loop system fuel m).trace ≡ some serving
  unfolding accept_loop
  accept_loop-serving zero m e = e
  accept_loop-serving (suc fuel) m e =
      accept_loop-serving fuel (accept_one system m) (accept_one-serving m e)

  -- The set-up returned 1 with the listening socket at most, or the loop is at `accept`.
  abbrev pub IsSound : Status × Main W → Type 0
  IsSound r =
      ((r.0 ≡ returned 1) × ((hands (r.1).trace ≡ some empty) ⊎ (hands (r.1).trace ≡ some bound)))
      ⊎ ((r.0 ≡ waiting) × (hands (r.1).trace ≡ some serving))

  set_up_store-IsSound :
      (fuel : ℕ) (m : Main W) → hands m.trace ≡ some bound → IsSound (set_up_store system fuel m)
  unfolding set_up_store hands
  set_up_store-IsSound fuel m e = elim (Bool-cases (eq_ℤ (system.mutex_init m.world).0 (pos 0))) [
    | inl ok ↦ rw (ok, set_up_store) (inr (refl, accept_loop-serving fuel _ (ground arith)))
    | inr failed ↦ rw (failed, set_up_store) (inl (refl, inl (ground arith)))
  ]

  set_up_socket-IsSound :
      (fuel : ℕ) (m : Main W) → hands m.trace ≡ some bound → IsSound (set_up_socket system fuel m)
  unfolding set_up_socket
  set_up_socket-IsSound fuel m e = elim (Bool-cases (is_negative (system.bind m.world).0)) [
    | inl failed ↦ rw (failed, set_up_socket) (inl (refl, inr e))
    | inr ok ↦ rw (ok, set_up_socket) (set_up_store-IsSound fuel _ e)
  ]

  -- Whatever the calls of the operating system answer: either the main thread returns 1, before it
  -- opens the store, and has at most its listening socket; or it has opened the store once, and is done
  -- with each client that it has accepted: a thread has its socket and its `arg`, or the socket is
  -- closed and the `arg` freed.
  pub main-IsSound : (fuel : ℕ) (w : W) → IsSound (main system fuel w)
  unfolding main hands
  main-IsSound fuel w = elim (Bool-cases (system.signal w).0) [
    | inl failed ↦ rw (failed, main) (inl (refl, inl refl))
    | inr ok ↦ elim (Bool-cases (is_negative (system.socket (system.signal w).1).0)) [
      | inl failed ↦ rw (ok, main) (rw failed (inl (refl, inl refl)))
      | inr opened ↦ rw (ok, main) (rw opened (set_up_socket-IsSound fuel _ refl))
    ]
  ]
