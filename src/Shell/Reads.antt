-- ===== src/Shell/Reads.antt =====
-- What `read_input` makes of its input.
use ds_my_sql.Base.{
  ℕ, zero, suc, ◌+◌, ◌≡◌, ◌≤◌, ◌<◌, ◌==◌, ◌∙◌, ◌⊎◌, inl, inr, Bool-cases, true, false, none, some,
  [], ◌∷◌, ◌++◌, length, arith, refl, ap, sym,
}
use ds_my_sql.Server.{Text}
use ds_my_sql.Shell.{
  input_buffer_size, new_line, eof, get_char, fill, last_of, drop_last, skip, success, too_long,
  exits, hangs, too_long_or_not, close_line, read_input,
}

-- No character ends the line.
abbrev pub IsPlain : Text → Type 0
IsPlain [] = Unit
IsPlain (c ∷ s) = ((c == new_line) ≡ false) × ((c == eof) ≡ false) × IsPlain s

last_of-append : (s : Text) (c : ℕ) → last_of (s ++ (c ∷ [])) ≡ c
unfolding last_of
last_of-append [] c = refl
last_of-append (d ∷ []) c = refl
last_of-append (d ∷ e ∷ s) c = last_of-append (e ∷ s) c

drop_last-append : (s : Text) (c : ℕ) → drop_last (s ++ (c ∷ [])) ≡ s
unfolding drop_last
drop_last-append [] c = refl
drop_last-append (d ∷ []) c = refl
drop_last-append (d ∷ e ∷ s) c = ap (λ l. d ∷ l) (drop_last-append (e ∷ s) c)

-- The loop stops behind a character that ends the line.
fill-stops :
    (n : ℕ) (s : Text) (c : ℕ) (rest : Text)
    → IsPlain s
    → length s < n
    → ((c == new_line) ≡ true) ⊎ ((c == eof) ≡ true)
    → fill n (s ++ (c ∷ rest)) ≡ (s ++ (c ∷ []), rest)
unfolding fill get_char
fill-stops zero s c rest plain lt stop = ground arith
fill-stops (suc n) [] c rest plain lt (inl line) = rw line refl
fill-stops (suc n) [] c rest plain lt (inr end) = elim (Bool-cases (c == new_line)) [
  | inl line ↦ rw line refl
  | inr other ↦ rw other (rw end refl)
]
fill-stops (suc n) (d ∷ s) c rest (no_line, no_end, plain) lt stop =
    rw no_line
      (rw no_end (ap (λ r. (d ∷ r.0, r.1)) (fill-stops n s c rest plain (ground arith) stop)))

-- The loop stops when the buffer is full.
fill-full : (s rest : Text) → IsPlain s → fill (length s) (s ++ rest) ≡ (s, rest)
unfolding fill get_char
fill-full [] rest plain = refl
fill-full (d ∷ s) rest (no_line, no_end, plain) =
    rw no_line (rw no_end (ap (λ r. (d ∷ r.0, r.1)) (fill-full s rest plain)))

-- A line of at most 1024 characters is read as it is, and the input goes on behind its new-line.
pub read_input-line :
    (line rest : Text)
    → IsPlain line
    → length line ≤ input_buffer_size
    → read_input (line ++ (new_line ∷ rest)) ≡ success line rest
unfolding read_input close_line
read_input-line line rest plain le =
    rw (fill-stops (input_buffer_size + 1) line new_line rest plain (ground arith) (inl refl))
      (rw (last_of-append line new_line) (rw (drop_last-append line new_line) refl))

last_of-IsPlain :
    (d : ℕ) (s : Text)
    → IsPlain (d ∷ s)
    → ((last_of (d ∷ s) == new_line) ≡ false) × ((last_of (d ∷ s) == eof) ≡ false)
unfolding last_of
last_of-IsPlain d [] (no_line, no_end, plain) = (no_line, no_end)
last_of-IsPlain d (e ∷ s) (no_line, no_end, plain) = last_of-IsPlain e s plain

length-drop_last : (d : ℕ) (s : Text) → length (drop_last (d ∷ s)) ≡ length s
unfolding drop_last
length-drop_last d [] = refl
length-drop_last d (e ∷ s) = ap suc (length-drop_last e s)

-- No character is a new-line.
abbrev pub HasNoLine : Text → Type 0
HasNoLine [] = Unit
HasNoLine (c ∷ s) = ((c == new_line) ≡ false) × HasNoLine s

skip-append : (s rest : Text) → HasNoLine s → skip (s ++ (new_line ∷ rest)) ≡ some rest
unfolding skip
skip-append [] rest plain = refl
skip-append (c ∷ s) rest (no_line, plain) = rw no_line (skip-append s rest plain)

skip-none : (s : Text) → HasNoLine s → skip s ≡ none
unfolding skip
skip-none [] plain = refl
skip-none (c ∷ s) (no_line, plain) = rw no_line (skip-none s plain)

-- A full buffer.
full_lem :
    (line rest : Text)
    → IsPlain line
    → length line ≡ input_buffer_size + 1
    → read_input (line ++ rest) ≡ too_long_or_not (skip rest)
unfolding read_input close_line
full_lem [] rest plain e = ground arith
full_lem (d ∷ s) rest plain e =
    let (no_line, no_end) = last_of-IsPlain d s plain in
    let below : length s ≡ 1024 = omega arith in
    let full : length (drop_last (d ∷ s)) ≡ 1024 = length-drop_last d s ∙ below in
    let short : (length (drop_last (d ∷ s)) == input_buffer_size) ≡ true = ground arith in
    ap close_line (ap (λ n. fill n ((d ∷ s) ++ rest)) (sym e) ∙ fill-full (d ∷ s) rest plain)
    ∙ rw no_end (rw no_line (rw short refl))

-- Of 1025 characters without a new-line or an end of file, `read_input` answers that the line is too
-- long, and the input goes on behind the next new-line; if there is none it does not end.
pub read_input-long :
    (line more rest : Text)
    → IsPlain line
    → length line ≡ input_buffer_size + 1
    → HasNoLine more
    → (read_input (line ++ (more ++ (new_line ∷ rest))) ≡ too_long rest)
      × (read_input (line ++ more) ≡ hangs)
read_input-long line more rest plain e no_line = (
  full_lem line _ plain e ∙ ap too_long_or_not (skip-append more rest no_line),
  full_lem line more plain e ∙ ap too_long_or_not (skip-none more no_line),
)

fill-end : (n : ℕ) (s : Text) → IsPlain s → length s < n → fill n s ≡ (s ++ (eof ∷ []), [])
unfolding fill get_char
fill-end zero s plain lt = ground arith
fill-end (suc n) [] plain lt = refl
fill-end (suc n) (d ∷ s) (no_line, no_end, plain) lt =
    rw no_line (rw no_end (ap (λ r. (d ∷ r.0, r.1)) (fill-end n s plain (ground arith))))

-- Where the input ends within a line of at most 1024 characters, and at the byte 255 in one, the shell
-- exits.
pub read_input-exits :
    (line rest : Text)
    → IsPlain line
    → length line ≤ input_buffer_size
    → (read_input line ≡ exits) × (read_input (line ++ (255 ∷ rest)) ≡ exits)
unfolding read_input close_line
read_input-exits line rest plain le = (
  rw (fill-end (input_buffer_size + 1) line plain (ground arith))
      (rw (last_of-append line eof) refl),
  rw (fill-stops (input_buffer_size + 1) line eof rest plain (ground arith) (inr refl))
      (rw (last_of-append line eof) refl),
)
