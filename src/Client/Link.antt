-- ===== src/Client/Link.antt =====
-- A connection that delivers what was sent, in its order, and the calls on its two ends.
use ds_my_sql.Base.{
  ℕ, zero, suc, ◌≡◌, ◌≤◌, ◌<◌, ◌^◌, false, true, some, List, [], ◌∷◌, ◌++◌, ℤ, pos, length, take,
  drop, arith, refl, ap, ◌∙◌, map, eq_ℤ,
}
use ds_my_sql.Server.{Text, Net, Db, Event, Thread, recv_code, recv_buffer, send_code, send_value}
use ds_my_sql.Server.{next}
use ds_my_sql.Client.{
  Socket, M, returned, int_of, text_of, send_int, send_bytes, recv_int, recv_value,
}

-- A code, or a byte of a text.
pub data Item : Type 0 where
  word : ℤ → Item
  byte : ℕ → Item

abbrev pub bytes : Text → List Item
bytes s = map byte s

-- What a `recv` of a text leaves in its buffer.
abbrev pub filled : Text → Text → Text
filled s buf = s ++ drop (length s) buf

-- The two ends of a connection that loses nothing: `to_server` and `to_client` are on their way. A
-- `recv` takes what is first on its way, and all of a text that is as long as it asks for.
pub record Link {W : Type 0} (net : Net W) (socket : Socket W) : Type 0 where
  pub to_server : W → List Item
  pub to_client : W → List Item
  pub client_word :
      (w : W) (c : ℤ)
      → (w' : W) × (socket.send_word w c ≡ (false, w'))
        × (to_server w' ≡ to_server w ++ (word c ∷ []))
        × (to_client w' ≡ to_client w)
  pub client_text :
      (w : W) (s : Text)
      → (w' : W) × (socket.send_text w s (pos (length s)) ≡ (false, w'))
        × (to_server w' ≡ to_server w ++ bytes s)
        × (to_client w' ≡ to_client w)
  pub server_word :
      (w : W) (c : ℤ)
      → (w' : W) × (net.send_word w c ≡ (false, w'))
        × (to_server w' ≡ to_server w)
        × (to_client w' ≡ to_client w ++ (word c ∷ []))
  pub server_text :
      (w : W) (s : Text) (n : ℕ)
      → n ≤ length s
      → (w' : W) × (net.send_text w s (pos n) ≡ (false, w'))
        × (to_server w' ≡ to_server w)
        × (to_client w' ≡ to_client w ++ bytes (take n s))
  pub server_recv_word :
      (w : W) (old c : ℤ) (rest : List Item)
      → to_server w ≡ word c ∷ rest
      → (w' : W) × (net.recv_word w old ≡ (some c, w'))
        × (to_server w' ≡ rest)
        × (to_client w' ≡ to_client w)
  pub server_recv_text :
      (w : W) (s buf : Text) (rest : List Item)
      → to_server w ≡ bytes s ++ rest
      → (w' : W) × (net.recv_text w (pos (length s)) buf ≡ (some (filled s buf), w'))
        × (to_server w' ≡ rest)
        × (to_client w' ≡ to_client w)
  pub client_recv_word :
      (w : W) (old c : ℤ) (rest : List Item)
      → to_client w ≡ word c ∷ rest
      → (w' : W) × (socket.recv_word w old ≡ (some c, w'))
        × (to_server w' ≡ to_server w)
        × (to_client w' ≡ rest)
  pub client_recv_text :
      (w : W) (s buf : Text) (rest : List Item)
      → to_client w ≡ bytes s ++ rest
      → (w' : W) × (socket.recv_text w (pos (length s)) buf
          ≡ (some (pos (length s), filled s buf), w'))
        × (to_server w' ≡ to_server w)
        × (to_client w' ≡ rest)

module _ {W D : Type 0} {net : Net W} {socket : Socket W} (link : Link net socket)
    (database : Db D) where
  open link use {
    to_server, to_client, client_word, client_text, server_word, server_text, server_recv_word,
    server_recv_text, client_recv_word, client_recv_text,
  }

  -- What is on its way.
  abbrev pub Carries : W → List Item → List Item → Type 0
  Carries w up down = (to_server w ≡ up) × (to_client w ≡ down)

  -- A step of the thread that goes on with `a`.
  abbrev pub Steps :
      {A : Type 0}
      → (Thread W D → (ds_my_sql.Server.Outcome A) × Thread W D)
      → Thread W D
      → A
      → ℤ
      → List Item
      → List Item
      → Type 0
  Steps m t a code up down =
      (w : W) × (m t ≡ (next a, record t { world = w; code = code })) × Carries w up down

  module _ (t : Thread W D) (up down : List Item) (frees : List Event) where
    pub server_takes_word :
        (c : ℤ)
        → Carries t.world (word c ∷ up) down
        → Steps (recv_code net database frees) t tt c up down
    unfolding recv_code
    server_takes_word c (e, e') =
        let (w, run, u, d) = server_recv_word t.world t.code c up e in
        (w, ground (arith, run), (u, d ∙ e'))

    pub server_takes_text :
        (s : Text)
        → Carries t.world (bytes s ++ up) down
        → Steps
            (recv_buffer net database (pos (length s)) frees)
            t
            (filled s (net.malloc (pos (length s))))
            t.code
            up
            down
    unfolding recv_buffer
    server_takes_text s (e, e') =
        let (w, run, u, d) = server_recv_text t.world s (net.malloc (pos (length s))) up e in
        (w, ground (arith, run), (u, d ∙ e'))

    pub server_gives_word :
        (c : ℤ)
        → Carries t.world up down
        → Steps (send_code net database c frees) t tt c up (down ++ (word c ∷ []))
    unfolding send_code
    server_gives_word c (e, e') =
        let (w, run, u, d) = server_word t.world c in
        (w, rw (run, send_code) refl, (u ∙ e, d ∙ ap (λ l. l ++ (word c ∷ [])) e'))

    pub server_gives_text :
        (s : Text) (n : ℕ)
        → n ≤ length s
        → Carries t.world up down
        → Steps (send_value net database s (pos n) frees) t tt t.code up (down ++ bytes (take n s))
    unfolding send_value
    server_gives_text s n le (e, e') =
        let (w, run, u, d) = server_text t.world s n le in
        (w, rw (run, send_value) refl, (u ∙ e, d ∙ ap (λ l. l ++ bytes (take n s)) e'))

  -- A step of the client.
  abbrev pub Goes : {A : Type 0} → M W A → W → A → List Item → List Item → Type 0
  Goes m w a up down = (w' : W) × (m w ≡ (returned a, w')) × Carries w' up down

  module _ (w : W) (up down : List Item) where
    pub client_gives_word :
        (c : ℤ) → Carries w up down → Goes (send_int socket c) w tt (up ++ (word c ∷ [])) down
    unfolding send_int
    client_gives_word c (e, e') =
        let (w', run, u, d) = client_word w c in
        (w', rw (run, send_int) refl, (u ∙ ap (λ l. l ++ (word c ∷ [])) e, d ∙ e'))

    pub client_gives_text :
        (s : Text)
        → Carries w up down
        → Goes (send_bytes socket s (pos (length s))) w tt (up ++ bytes s) down
    unfolding send_bytes
    client_gives_text s (e, e') =
        let (w', run, u, d) = client_text w s in
        (w', rw (run, send_bytes) refl, (u ∙ ap (λ l. l ++ bytes s) e, d ∙ e'))

    pub client_takes_word :
        (old c : ℤ) → Carries w up (word c ∷ down) → Goes (recv_int socket old) w c up down
    unfolding recv_int
    client_takes_word old c (e, e') =
        let (w', run, u, d) = client_recv_word w old c down e' in
        (w', ground (arith, run), (u ∙ e, d))

    pub client_takes_value :
        (s : Text)
        → Carries w up (bytes s ++ down)
        → Goes
            (recv_value socket (pos (length s)))
            w
            (text_of (pos (length s)) (filled s (socket.malloc (pos (length s)))))
            up
            down
    unfolding recv_value
    client_takes_value s (e, e') =
        let (w', run, u, d) = client_recv_text w s (socket.malloc (pos (length s))) down e' in
        let whole : eq_ℤ (pos (length s)) (pos (length s)) ≡ true = ground arith in
        (w', ground (arith, run), (u ∙ e, d))

pub int_of-small : (n : ℕ) → n < 2 ^ 31 → int_of n ≡ pos n
unfolding int_of
int_of-small n lt = ground arith

pub take-append : (s rest : Text) → take (length s) (s ++ rest) ≡ s
take-append [] rest = refl
take-append (c ∷ s) rest = ap (λ l. c ∷ l) (take-append s rest)

pub length-take : (n : ℕ) (s : Text) → n ≤ length s → length (take n s) ≡ n
length-take zero s le = refl
length-take (suc n) [] le = ground arith
length-take (suc n) (c ∷ s) le = ap suc (length-take n s (ground arith))
