-- ===== src/Client/Loopback.antt =====
-- A connection of two queues, which fills the interface `Link`.
use ds_my_sql.Base.{
  ℕ, zero, suc, ◌≡◌, false, Option, none, some, List, [], ◌∷◌, ◌++◌, ℤ, pos, negsuc, length, take,
  arith, refl, ap,
}
use ds_my_sql.Server.{Text, Net}
use ds_my_sql.Client.{Socket}
use ds_my_sql.Client.Link.{Item, word, byte, bytes, filled, Link}

pub record Queues : Type 0 where
  pub up : List Item
  pub down : List Item

abbrev pub first_word : List Item → Option (ℤ × List Item)
first_word [] = none
first_word (word c ∷ items) = some (c, items)
first_word (byte b ∷ items) = none

abbrev pub first_text : ℕ → List Item → Option (Text × List Item)
first_text zero items = some ([], items)
first_text (suc n) [] = none
first_text (suc n) (word c ∷ items) = none
first_text (suc n) (byte b ∷ items) = elim (first_text n items) [
  | none ↦ none
  | some (s, rest) ↦ some (b ∷ s, rest)
]

pub first_text-append :
    (s : Text) (rest : List Item) → first_text (length s) (bytes s ++ rest) ≡ some (s, rest)
first_text-append [] rest = refl
first_text-append (b ∷ s) rest = rw (first_text-append s rest) refl

abbrev pub cut : Text → ℤ → Text
cut s (pos n) = take n s
cut s (negsuc n) = []

abbrev pub text_at : ℤ → List Item → Option (Text × List Item)
text_at (pos n) items = first_text n items
text_at (negsuc n) items = none

abbrev pub loop_net : Net Queues
loop_net = record {
  recv_word = λ w old. elim (first_word w.up) [
    | none ↦ (none, w)
    | some (c, rest) ↦ (some c, record w { up = rest })
  ];
  recv_text = λ w len buf. elim (text_at len w.up) [
    | none ↦ (none, w)
    | some (s, rest) ↦ (some (filled s buf), record w { up = rest })
  ];
  send_word = λ w c. (false, record w { down = w.down ++ (word c ∷ []) });
  send_text = λ w s len. (false, record w { down = w.down ++ bytes (cut s len) });
  shutdown = λ w. (false, w);
  malloc = λ n. 7 ∷ [];
}

abbrev pub loop_socket : Socket Queues
loop_socket = record {
  send_word = λ w c. (false, record w { up = w.up ++ (word c ∷ []) });
  send_text = λ w s len. (false, record w { up = w.up ++ bytes (cut s len) });
  recv_word = λ w old. elim (first_word w.down) [
    | none ↦ (none, w)
    | some (c, rest) ↦ (some c, record w { down = rest })
  ];
  recv_text = λ w len buf. elim (text_at len w.down) [
    | none ↦ (none, w)
    | some (s, rest) ↦ (some (len, filled s buf), record w { down = rest })
  ];
  shutdown = λ w. (false, w);
  close_socket = λ w. record { up = []; down = [] };
  malloc = λ n. 7 ∷ [];
}

pub take-length : (s : Text) → take (length s) s ≡ s
take-length [] = refl
take-length (c ∷ s) = ap (λ l. c ∷ l) (take-length s)

pub server_word-first :
    (w : Queues) (old c : ℤ) (rest : List Item)
    → w.up ≡ word c ∷ rest
    → loop_net.recv_word w old ≡ (some c, record w { up = rest })
server_word-first w old c rest e = ground (arith, e)

pub server_text-first :
    (w : Queues) (s buf : Text) (rest : List Item)
    → w.up ≡ bytes s ++ rest
    → loop_net.recv_text w (pos (length s)) buf ≡ (some (filled s buf), record w { up = rest })
server_text-first w s buf rest e = let first = first_text-append s rest in ground (arith, e, first)

pub client_word-first :
    (w : Queues) (old c : ℤ) (rest : List Item)
    → w.down ≡ word c ∷ rest
    → loop_socket.recv_word w old ≡ (some c, record w { down = rest })
client_word-first w old c rest e = ground (arith, e)

pub client_text-first :
    (w : Queues) (s buf : Text) (rest : List Item)
    → w.down ≡ bytes s ++ rest
    → loop_socket.recv_text w (pos (length s)) buf
      ≡ (some (pos (length s), filled s buf), record w { down = rest })
client_text-first w s buf rest e = let first = first_text-append s rest in ground (arith, e, first)

abbrev pub loop_link : Link loop_net loop_socket
loop_link = record {
  to_server = λ w. w.up;
  to_client = λ w. w.down;
  client_word = λ w c. (_, refl, refl, refl);
  client_text = λ w s. (_, refl, ap (λ l. w.up ++ bytes l) (take-length s), refl);
  server_word = λ w c. (_, refl, refl, refl);
  server_text = λ w s n le. (_, refl, refl, refl);
  server_recv_word = λ w old c rest e. (_, server_word-first w old c rest e, refl, refl);
  server_recv_text = λ w s buf rest e. (_, server_text-first w s buf rest e, refl, refl);
  client_recv_word = λ w old c rest e. (_, client_word-first w old c rest e, refl, refl);
  client_recv_text = λ w s buf rest e. (_, client_text-first w s buf rest e, refl, refl);
}
