-- ===== src/Tests/Threads.antt =====
-- Clients of the server: one that leaves after it has sent a key, and one whose connection is
-- closed. The database keeps the last record that was set.
use ds_my_sql.Base.{
  ℕ, ◌≡◌, Option, none, some, [], ◌∷◌, ◌==◌, if◌then◌else◌, ℤ, pos, minus_one, refl, false,
}
use ds_my_sql.Server.{
  Text, Net, Db, Thread, returned, alloc_key, close_socket, handle_set, serve_one, instance_thread,
}
use ds_my_sql.Server.Trace.{holds_lock}
use ds_my_sql.Server.Lock.{instance_thread-holds_lock}
use ds_my_sql.Server.Faults.{serve_one-closed}

abbrev Last : Type 0
Last = Option (Text × ℤ × Text × ℤ)

abbrev last_set : Db Last
last_set = record {
  get = λ d key len. (minus_one, [], d);
  set = λ d key key_len value len. some (key, key_len, value, len);
  del = λ d key len. none;
}

-- The world counts the calls; the third one fails.
abbrev leaves_early : Net ℕ
leaves_early = record {
  recv_word = λ w c. if w == 0 then (some (pos 3), 1) else (none, 3);
  recv_text = λ w n s. (some (1 ∷ 2 ∷ 3 ∷ []), 2);
  send_word = λ w c. (false, w);
  send_text = λ w s n. (false, w);
  shutdown = λ w. (false, w);
  malloc = λ n. [];
}

abbrev closed : Net ℕ
closed = record {
  recv_word = λ w c. (some c, w);
  recv_text = λ w n s. (some s, w);
  send_word = λ w c. (false, w);
  send_text = λ w s n. (false, w);
  shutdown = λ w. (false, w);
  malloc = λ n. 0 ∷ 0 ∷ [];
}

abbrev thread : Thread ℕ Last
thread = record { world = 0; db = none; code = pos 1; trace = [] }

abbrev garbage : Text
garbage = 0 ∷ 0 ∷ []

instance_thread-holds_lock_example :
    holds_lock ((instance_thread closed last_set 3 thread).1).trace ≡ some false
unfolding holds_lock
instance_thread-holds_lock_example = instance_thread-holds_lock closed last_set 3 thread refl

-- The key is not freed.
leak_test : handle_set leaves_early last_set thread ≡ (
  returned 1,
  record { world = 3; db = none; code = pos 3; trace = close_socket ∷ alloc_key ∷ [] },
)
unfolding handle_set
leak_test = refl

serve_one-closed_example :
    ((serve_one closed last_set thread).1).db ≡ some (garbage, pos 1, garbage, pos 1)
serve_one-closed_example =
    serve_one-closed closed last_set (λ w c. refl) (λ w n s. refl) thread refl
