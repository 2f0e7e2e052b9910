-- ===== src/Client.antt =====
-- The client library: src/driver/myjqlclient.cpp and myjqlclient.h (the Linux branch).
-- The socket and `malloc` are the parameter `Socket`, the calls of the constructor `Network`. Each
-- request is what the client sends, and the function that receives the answer.
pub mod Link
pub mod Answers
pub mod Exchange
pub mod Rounds
pub mod RoundTrip
pub mod Errors
pub mod Direct
pub mod Session
pub mod Goodbye
pub mod Loopback
pub mod Faults
use ds_my_sql.Base.{
  ℕ, zero, suc, ◌%◌, ◌^◌, ◌-◌, ◌==◌, Bool, Option, none, some, List, [], ◌∷◌, ltb, if◌then◌else◌, ℤ,
  pos, negsuc, eq_ℤ, length, take,
}
use ds_my_sql.Server.{Text}

-- As `Server.Net`, but that `recv` of a text answers the number of bytes too.
pub record Socket (W : Type 0) : Type 0 where
  pub send_word : W → ℤ → Bool × W
  pub send_text : W → Text → ℤ → Bool × W
  pub recv_word : W → ℤ → Option ℤ × W
  pub recv_text : W → ℤ → Text → Option (ℤ × Text) × W
  pub shutdown : W → Bool × W
  pub close_socket : W → W
  pub malloc : ℤ → Text

pub data Message : Type 0 where
  making_socket finding_host connecting sending receiving incomplete_response unknown_return_code :
      Message

-- What the functions throw.
pub data Thrown : Type 0 where
  system_error : Message → ℤ → Thrown
  key_too_long value_too_long : Thrown

pub data Result (A : Type 0) : Type 0 where
  returned : A → Result A
  threw : Thrown → Result A

abbrev pub M : Type 0 → Type 0 → Type 0
M W A = W → Result A × W

-- `(int)` of a size.
unfoldable pub int_of : ℕ → ℤ
int_of n = let m = n % 2 ^ 32 in if ltb m (2 ^ 31) then pos m else negsuc (2 ^ 32 - 1 - m)

-- The characters up to the first 0.
unfoldable pub c_string : Text → Text
c_string [] = []
c_string (c ∷ s) = let rest = c_string s in if c == 0 then [] else c ∷ rest

-- `buf[code] = 0; std::string res = buf;`. A `recv` does not answer a negative number of bytes.
unfoldable pub text_of : ℤ → Text → Text
text_of (pos n) buf = c_string (take n buf)
text_of (negsuc n) buf = []

module _ {W : Type 0} where
  abbrev pub pure : {A : Type 0} → A → M W A
  pure a w = (returned a, w)

  abbrev pub throw : {A : Type 0} → Thrown → M W A
  throw e w = (threw e, w)

  abbrev pub continue_with : {A B : Type 0} → Result A × W → (A → M W B) → Result B × W
  continue_with (returned a, w) f = f a w
  continue_with (threw e, w) f = (threw e, w)

  infixl 5 ◌>>=◌ ◌>>◌
  abbrev pub ◌>>=◌ : {A B : Type 0} → M W A → (A → M W B) → M W B
  ◌>>=◌ m f w = continue_with (m w) f

  abbrev pub ◌>>◌ : {B : Type 0} → M W (Unit {0}) → M W B → M W B
  m >> k = m >>= λ _. k

module _ {W : Type 0} (socket : Socket W) where
  -- `send(ConnectSocket, (char*)&code, sizeof(code), 0)` and its test; `WSAGetLastError` answers 0.
  unfoldable pub send_int : ℤ → M W (Unit {0})
  send_int c w =
      let (failed, w') = socket.send_word w c in
      if failed then (threw (system_error sending (pos 0)), w') else (returned tt, w')

  unfoldable pub send_bytes : Text → ℤ → M W (Unit {0})
  send_bytes s len w =
      let (failed, w') = socket.send_text w s len in
      if failed then (threw (system_error sending (pos 0)), w') else (returned tt, w')

  -- `recv` into `code` and its test.
  unfoldable pub recv_int : ℤ → M W ℤ
  recv_int code w =
      let (r, w') = socket.recv_word w code in
      elim r [ none ↦ (threw (system_error receiving (pos 0)), w') | some c ↦ (returned c, w') ]

  unfoldable pub recv_value : ℤ → M W Text
  unfolding text_of
  recv_value len w =
      let (r, w') = socket.recv_text w len (socket.malloc len) in
      elim r [
        | none ↦ (threw (system_error receiving (pos 0)), w')
        | some (n, buf) ↦
            if eq_ℤ n len
            then (returned (text_of len buf), w')
            else (threw (system_error incomplete_response (pos 0)), w')
      ]

  -- A code, then a key with its length.
  unfoldable pub send_key : ℤ → Text → M W (Unit {0})
  unfolding send_int send_bytes
  send_key code key = do
    send_int code
    send_int (int_of (length key))
    send_bytes key (int_of (length key))

  -- The answer to `get`, from the first code on; `code` is what the variable holds before.
  unfoldable pub receive_get : ℤ → M W (Option Text)
  unfolding recv_int recv_value
  receive_get code = do
    c ← recv_int code
    (if eq_ℤ c (pos 0)
        then pure none
        else if eq_ℤ c (pos 1)
        then (do len ← recv_int c; s ← recv_value len; pure (some s))
        else if eq_ℤ c (pos 2)
        then throw key_too_long
        else throw (system_error unknown_return_code c))

  unfoldable pub client_get : Text → M W (Option Text)
  unfolding send_key receive_get
  client_get key = do send_key (pos 0) key; receive_get (int_of (length key))

  unfoldable pub send_set : Text → Text → M W (Unit {0})
  unfolding send_key send_int send_bytes
  send_set key value = do
    send_key (pos 1) key
    send_int (int_of (length value))
    send_bytes value (int_of (length value))

  unfoldable pub receive_set : ℤ → M W (Unit {0})
  unfolding recv_int
  receive_set code = do
    c ← recv_int code
    (if eq_ℤ c (pos 1)
        then pure tt
        else if eq_ℤ c (pos 2)
        then throw key_too_long
        else if eq_ℤ c (pos 3)
        then throw value_too_long
        else throw (system_error unknown_return_code c))

  unfoldable pub client_set : Text → Text → M W (Unit {0})
  unfolding send_set receive_set
  client_set key value = do send_set key value; receive_set (int_of (length value))

  unfoldable pub receive_del : ℤ → M W (Unit {0})
  unfolding recv_int
  receive_del code = do
    c ← recv_int code
    (if eq_ℤ c (pos 1)
        then pure tt
        else if eq_ℤ c (pos 2)
        then throw key_too_long
        else throw (system_error unknown_return_code c))

  unfoldable pub client_del : Text → M W (Unit {0})
  unfolding send_key receive_del
  client_del key = do send_key (pos 2) key; receive_del (int_of (length key))

  -- The destructor, behind its first `send`: it waits for the answer and shuts down; whatever fails,
  -- the socket is closed, and nothing is thrown.
  unfoldable pub receive_goodbye : W → W
  receive_goodbye w =
      let (r, w₁) = socket.recv_word w (pos 3) in
      elim r [
        | none ↦ socket.close_socket w₁
        | some c ↦ let (failed, w₂) = socket.shutdown w₁ in socket.close_socket w₂
      ]

  unfoldable pub client_close : W → W
  unfolding receive_goodbye
  client_close w =
      let (failed, w₁) = socket.send_word w (pos 3) in
      if failed then socket.close_socket w₁ else receive_goodbye w₁

-- `socket`, `gethostbyname` and `connect`: whether they fail.
pub record Network (W : Type 0) : Type 0 where
  pub make_socket : W → Bool × W
  pub find_host : W → Bool × W
  pub connect : W → Bool × W

module _ {W : Type 0} where
  -- A call of the constructor and its test.
  unfoldable pub attempt : Message → (W → Bool × W) → M W (Unit {0})
  attempt message call w =
      let (failed, w') = call w in
      if failed then (threw (system_error message (pos 0)), w') else (returned tt, w')

  -- The constructor.
  unfoldable pub client_init : Network W → M W (Unit {0})
  unfolding attempt
  client_init network = do
    attempt making_socket network.make_socket
    attempt finding_host network.find_host
    attempt connecting network.connect
