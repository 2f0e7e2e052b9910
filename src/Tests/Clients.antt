-- ===== src/Tests/Clients.antt =====
-- A client and its thread, over two queues, with the database of texts.
use ds_my_sql.Base.{
  ℕ, ◌+◌, zero, suc, ◌≡◌, ◌<◌, ◌^◌, none, some, List, [], ◌∷◌, pos, length, arith, refl, ap, false,
}
use ds_my_sql.Server.{Text, max_str_len, Thread, Outcome, close_socket, instance_thread, serve_one}
use ds_my_sql.Client.Faults.{client-closed}
use ds_my_sql.Client.{
  Socket, client_get, client_set, client_del, returned, threw, c_string, int_of, send_key, send_set,
  receive_get, receive_set, receive_del, key_too_long, value_too_long, receive_goodbye,
}
use ds_my_sql.Client.Link.{Carries}
use ds_my_sql.Client.Rounds.{Gives}
use ds_my_sql.Client.RoundTrip.{get_exchange, set_exchange, del_exchange}
use ds_my_sql.Client.Errors.{exchange-key_too_long, set_exchange-value_too_long}
use ds_my_sql.Client.Direct.{Request, get, del, set, Answer, got, done}
use ds_my_sql.Client.Session.{session}
use ds_my_sql.Client.Goodbye.{instance_thread-goodbye}
use ds_my_sql.Client.Loopback.{Queues, loop_net, loop_socket, loop_link}
use ds_my_sql.Tests.Texts.{Pairs, texts}

abbrev Served : Type 0
Served = Thread Queues Pairs

abbrev thread : Pairs → Served
thread d = record { world = record { up = []; down = [] }; db = d; code = pos 0; trace = [] }

abbrev name : Text
name = 1 ∷ 2 ∷ []

abbrev value : Text
value = 5 ∷ 0 ∷ 6 ∷ []

abbrev before : Pairs
before = (name, 9 ∷ []) ∷ []

abbrev copies : ℕ → Text
copies zero = []
copies (suc n) = 1 ∷ copies n

length-copies : (n : ℕ) → length (copies n) ≡ n
length-copies zero = refl
length-copies (suc n) = ap suc (length-copies n)

long : Text
long = copies 1025

length-long : length long ≡ 1025
unfolding long
length-long = length-copies 1025

above : max_str_len < length long
above = let e = length-long in omega arith

is_int : length long < 2 ^ 31
is_int = let e = length-long in omega arith

key_too_long_test :
    Gives loop_link texts
      (get_exchange loop_link texts long (thread before))
      (threw key_too_long)
      before
    × Gives loop_link texts
        (set_exchange loop_link texts long value (thread before))
        (threw key_too_long)
        before
    × Gives loop_link texts
        (del_exchange loop_link texts long (thread before))
        (threw key_too_long)
        before
key_too_long_test =
    exchange-key_too_long loop_link texts (thread before) (refl, refl) long above is_int value
      (omega arith)

value_too_long_test :
    Gives loop_link texts
      (set_exchange loop_link texts name long (thread before))
      (threw value_too_long)
      before
value_too_long_test =
    set_exchange-value_too_long loop_link texts (thread before) (refl, refl) name long (omega arith)
      above is_int

abbrev requests : List Request
requests = get name ∷ set name value ∷ get name ∷ del name ∷ get name ∷ []

abbrev ended : List Answer × Served
ended = session loop_link texts requests (thread before)

instance_thread-goodbye_example :
    (w : Queues) × (t' : Served) × (w' : Queues) × (loop_socket.send_word
        (thread before).world
        (pos 3)
      ≡ (false, w))
    × (instance_thread loop_net texts 1 (record (thread before) { world = w })
        ≡ (ds_my_sql.Server.returned 0, t'))
    × (t'.db ≡ before)
    × (t'.trace ≡ close_socket ∷ [])
    × (receive_goodbye loop_socket t'.world ≡ loop_socket.close_socket (loop_socket.shutdown w').1)
    × Carries loop_link texts w' [] []
instance_thread-goodbye_example =
    instance_thread-goodbye loop_link texts (λ w. (w, refl, refl, refl)) (thread before) 0
      (refl, refl)

-- The run of the requests.
session_test :
    ended.0
    ≡ got (returned (some (9 ∷ [])))
      ∷ done (returned tt)
      ∷ got (returned (some (5 ∷ [])))
      ∷ done (returned tt)
      ∷ got (returned none)
      ∷ []
unfolding session send_key receive_get serve_one int_of c_string send_set receive_set receive_del
session_test = refl

-- The server has closed its end: what is sent goes out, and each `recv` answers 0.
abbrev hung_up : Socket ℕ
hung_up = record {
  send_word = λ w c. (false, w + 1);
  send_text = λ w s len. (false, w + 1);
  recv_word = λ w old. (some old, w);
  recv_text = λ w len buf. (some (pos 0, buf), w);
  shutdown = λ w. (false, w);
  close_socket = λ w. w;
  malloc = λ n. [];
}

client-closed_example :
    (client_set hung_up name (9 ∷ []) 0 ≡ (returned tt, 5))
    × (client_del hung_up (9 ∷ []) 2 ≡ (returned tt, 5))
    × (client_get hung_up [] 2 ≡ (returned none, 5))
unfolding send_set send_key
client-closed_example = client-closed hung_up (λ w old. refl) name 9 9 2 0 5 refl refl refl
