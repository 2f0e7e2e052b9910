-- ===== src/Tests/Servers.antt =====
-- The main thread of the server, and two threads and their lock.
use ds_my_sql.Base.{
  ◌+◌, ℕ, zero, suc, ◌≡◌, ◌==◌, true, false, some, [], ◌∷◌, if◌then◌else◌, pos, minus_one, refl,
  arith,
}
use ds_my_sql.Server.{Net, Db, enter, leave, alloc_key, free_key, db_del, instance_thread}
use ds_my_sql.Server.Trace.{holds_lock}
use ds_my_sql.Server.Mutex.{Machine, owner_after, push, act, Reach, here, then_step}
use ds_my_sql.Server.Exclusion.{AreThreads, Reach-excludes}
use ds_my_sql.Server.Main.{
  System, main, exit_nicely, exited, destroy_lock, closed_listening, unlocked, close_store, locked,
}
use ds_my_sql.Server.Accept.{IsSound, main-IsSound}

abbrev deletes : Net ℕ
deletes = record {
  recv_word = λ w c. (some (pos 2), w);
  recv_text = λ w n s. (some s, w);
  send_word = λ w c. (false, w);
  send_text = λ w s n. (false, w);
  shutdown = λ w. (false, w);
  malloc = λ n. 0 ∷ 0 ∷ [];
}

abbrev nothing : Db ℕ
nothing = record {
  get = λ d key len. (minus_one, [], d);
  set = λ d key key_len value len. d;
  del = λ d key len. d + 1;
}

abbrev one_deletes : Machine
one_deletes = record {
  owner = some 0;
  traces =
      push 0 (db_del (0 ∷ 0 ∷ []) (pos 2))
        (push 0 enter (push 1 alloc_key (push 0 alloc_key (λ i. []))));
}

reached : Reach one_deletes
unfolding owner_after
reached =
    then_step
      (then_step
        (then_step (then_step here (act 0 alloc_key (λ e. refl))) (act 1 alloc_key (λ e. refl)))
        (act 0 enter (λ e. refl)))
      (act 0 (db_del (0 ∷ 0 ∷ []) (pos 2)) (λ e. ground arith))

served : AreThreads deletes nothing one_deletes
unfolding instance_thread push
served zero =
    (1, record { world = 0; db = 0; code = pos 0; trace = [] }, free_key ∷ leave ∷ [], refl, refl)
served (suc zero) = (
  1,
  record { world = 0; db = 0; code = pos 0; trace = [] },
  free_key ∷ leave ∷ db_del (0 ∷ 0 ∷ []) (pos 2) ∷ enter ∷ [],
  refl,
  refl,
)
served (suc (suc i)) =
    let zeroth : (0 == suc (suc i)) ≡ false = ground arith in
    let first : (1 == suc (suc i)) ≡ false = ground arith in
    (0, record { world = 0; db = 0; code = pos 0; trace = [] }, [], refl, rw zeroth (rw first refl))

Reach-excludes_example :
    ((i : ℕ) → holds_lock (one_deletes.traces i) ≡ some true → one_deletes.owner ≡ some i)
    × ((i j : ℕ)
        → holds_lock (one_deletes.traces i) ≡ some true
        → holds_lock (one_deletes.traces j) ≡ some true
        → i ≡ j)
Reach-excludes_example = Reach-excludes deletes nothing reached served

-- The first client comes to a thread, and for the second one no thread can be made.
abbrev second_fails : System ℕ
second_fails = record {
  signal = λ w. (false, w);
  socket = λ w. (pos 3, w);
  bind = λ w. (pos 0, w);
  listen = λ w. w;
  mutex_init = λ w. (pos 0, w);
  accept = λ w. (if w == 2 then minus_one else pos 4, w + 1);
  pthread_create = λ w client. (if w == 1 then pos 0 else pos 11, w);
}

main-IsSound_example : IsSound second_fails (main second_fails 3 0)
main-IsSound_example = main-IsSound second_fails 3 0

exit_nicely_test :
    exit_nicely [] ≡ exited ∷ destroy_lock ∷ closed_listening ∷ unlocked ∷ close_store ∷ locked ∷ []
unfolding exit_nicely
exit_nicely_test = refl
