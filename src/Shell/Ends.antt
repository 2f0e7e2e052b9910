-- ===== src/Shell/Ends.antt =====
-- The loop of the shell ends.
use ds_my_sql.Base.{
  ℕ, zero, suc, ◌+◌, ◌≡◌, ◌≤◌, ◌<◌, ◌==◌, ◌⊎◌, inl, inr, Bool-cases, true, false, subst, List, [],
  ◌∷◌, length, arith, refl,
}
use ds_my_sql.Server.{Text}
use ds_my_sql.Client.{Socket}
use ds_my_sql.Shell.{
  input_buffer_size, new_line, eof, get_char, fill, last_of, drop_last, skip, Read, success,
  too_long, exits, hangs, too_long_or_not, close_line, read_input, Command, leave, invalid_input,
  invalid_command, get, del, set, scan, Printed, Progress, said_bye, at_eof, run, run_then, round,
  shell,
}

-- Every line has its new-line, the last one too.
abbrev pub IsLines : Text → Type 0
IsLines input = (input ≡ []) ⊎ (last_of input ≡ new_line)

-- What the shell goes on with is shorter than `n`, and of whole lines.
abbrev IsShorter : ℕ → Read → Type 0
IsShorter n (success line input) = (length input < n) × IsLines input
IsShorter n (too_long input) = (length input < n) × IsLines input
IsShorter n exits = Unit
IsShorter n hangs = ⊥

fill-length : (n : ℕ) (input : Text) → length (fill n input).1 ≤ length input
unfolding fill get_char
fill-length zero input = omega arith
fill-length (suc n) [] = omega arith
fill-length (suc n) (c ∷ input) =
    let below = fill-length n input in
    elim (Bool-cases (c == new_line)) [
      | inl line ↦ rw line (omega arith)
      | inr other ↦ elim (Bool-cases (c == eof)) [
        | inl end ↦ rw other (rw end (omega arith))
        | inr other' ↦ rw other (rw other' (omega arith))
      ]
    ]

fill-shorter :
    (m n c : ℕ) (input : Text)
    → length (c ∷ input) < suc n
    → length (fill (suc m) (c ∷ input)).1 < n
unfolding fill get_char
fill-shorter m n c input lt =
    let below = fill-length m input in
    elim (Bool-cases (c == new_line)) [
      | inl line ↦ rw line (omega arith)
      | inr other ↦ elim (Bool-cases (c == eof)) [
        | inl end ↦ rw other (rw end (omega arith))
        | inr other' ↦ rw other (rw other' (omega arith))
      ]
    ]

last_of-cons : (c : ℕ) (s : Text) → last_of s ≡ new_line → last_of (c ∷ s) ≡ new_line
unfolding last_of
last_of-cons c [] e = ground arith
last_of-cons c (d ∷ s) e = e

last_of-IsLines : (c : ℕ) (s : Text) → last_of (c ∷ s) ≡ new_line → IsLines s
unfolding last_of
last_of-IsLines c [] e = inl refl
last_of-IsLines c (d ∷ s) e = inr e

-- One more character, with more behind it.
fill-lines_step :
    (n c d : ℕ) (s : Text)
    → last_of (d ∷ s) ≡ new_line
    → (((fill n (d ∷ s)).1 ≡ []) × (last_of (c ∷ (fill n (d ∷ s)).0) ≡ new_line))
      ⊎ (last_of (fill n (d ∷ s)).1 ≡ new_line)
    → (((fill (suc n) (c ∷ d ∷ s)).1 ≡ []) × (last_of (fill (suc n) (c ∷ d ∷ s)).0 ≡ new_line))
      ⊎ (last_of (fill (suc n) (c ∷ d ∷ s)).1 ≡ new_line)
unfolding fill get_char
fill-lines_step n c d s e more = elim (Bool-cases (c == new_line)) [
  | inl line ↦ rw line (inr e)
  | inr other ↦ elim (Bool-cases (c == eof)) [
    | inl end ↦ rw other (rw end (inr e))
    | inr other' ↦ rw other (rw other' more)
  ]
]

-- The buffer ends with the last new-line of the input, or that new-line is still to come.
fill-lines :
    (n : ℕ) (input : Text)
    → last_of input ≡ new_line
    → (((fill (suc n) input).1 ≡ []) × (last_of (fill (suc n) input).0 ≡ new_line))
      ⊎ (last_of (fill (suc n) input).1 ≡ new_line)
unfolding fill get_char last_of
fill-lines n [] e = ground arith
fill-lines n (c ∷ []) e =
    let line : (c == new_line) ≡ true = ground arith in rw line (inl (refl, e))
fill-lines zero (c ∷ d ∷ s) e = fill-lines_step zero c d s e (inr e)
fill-lines (suc n) (c ∷ d ∷ s) e = fill-lines_step (suc n) c d s e (elim (fill-lines n (d ∷ s) e) [
  | inl (empty, line) ↦ inl (empty, last_of-cons c (fill (suc n) (d ∷ s)).0 line)
  | inr later ↦ inr later
])

-- `skip` finds the new-line, and leaves less.
skip-IsShorter :
    (n : ℕ) (input : Text)
    → length input < n
    → last_of input ≡ new_line
    → IsShorter n (too_long_or_not (skip input))
unfolding skip last_of
skip-IsShorter n [] lt e = ground arith
skip-IsShorter n (c ∷ input) lt e = elim (Bool-cases (c == new_line)) [
  | inl line ↦ rw line (omega arith, last_of-IsLines c input e)
  | inr other ↦ rw other (elim (last_of-IsLines c input e) [
    | inl empty ↦ absurd (not_last other empty)
    | inr later ↦ skip-IsShorter n input (ground arith) later
  ])
]
  where
    not_last : (c == new_line) ≡ false → input ≡ [] → ⊥
    not_last other empty =
        let last : c ≡ new_line = subst (λ s. last_of (c ∷ s) ≡ new_line) empty e in ground arith

close_line-IsShorter :
    (n : ℕ) (buffer input : Text)
    → length input < n
    → ((input ≡ []) × (last_of buffer ≡ new_line)) ⊎ (last_of input ≡ new_line)
    → IsShorter n (close_line (buffer, input))
unfolding close_line
close_line-IsShorter n buffer input lt lines = elim (Bool-cases (last_of buffer == eof)) [
  | inl end ↦ rw end tt
  | inr more ↦ elim (Bool-cases (last_of buffer == new_line)) [
    | inl line ↦ rw more (rw line (lt, elim lines [ inl l ↦ inl l.0 | inr l ↦ inr l ]))
    | inr other ↦ elim lines [
      | inl l ↦ ground (arith, l.1)
      | inr later ↦ elim (Bool-cases (length (drop_last buffer) == input_buffer_size)) [
        | inl full ↦ rw more (rw other (rw full (skip-IsShorter n input lt later)))
        | inr short ↦ rw more (rw other (rw short (lt, inr later)))
      ]
    ]
  ]
]

read_input-IsShorter :
    (n : ℕ) (input : Text) → length input < suc n → IsLines input → IsShorter n (read_input input)
unfolding read_input
read_input-IsShorter n [] lt lines = tt
read_input-IsShorter n (c ∷ input) lt (inl empty) = ground arith
read_input-IsShorter n (c ∷ input) lt (inr last) =
    close_line-IsShorter n (fill (input_buffer_size + 1) (c ∷ input)).0
      (fill (input_buffer_size + 1) (c ∷ input)).1 (fill-shorter input_buffer_size n c input lt)
      (fill-lines input_buffer_size (c ∷ input) last)

-- `main` leaves its loop.
abbrev pub IsEnd : Progress → Type 0
IsEnd progress = (progress ≡ said_bye) ⊎ (progress ≡ at_eof)

module _ {W : Type 0} (socket : Socket W) where
  run_then-ends :
      (again : Text → W → Progress × List Printed × W) (input : Text) (command : Command) (w : W)
      → ((w' : W) → IsEnd (again input w').0)
      → IsEnd (run_then socket again input command w).0
  unfolding run_then run
  run_then-ends again input leave w ends = inl refl
  run_then-ends again input invalid_input w ends = ends _
  run_then-ends again input invalid_command w ends = ends _
  run_then-ends again input (get key) w ends = ends _
  run_then-ends again input (del key) w ends = ends _
  run_then-ends again input (set key text) w ends = ends _

  round-ends :
      (n : ℕ) (again : Text → W → Progress × List Printed × W) (r : Read) (w : W)
      → ((input : Text) (w' : W) → length input < n → IsLines input → IsEnd (again input w').0)
      → IsShorter n r
      → IsEnd (round socket again r w).0
  unfolding round
  round-ends n again exits w ends short = inr refl
  round-ends n again hangs w ends short = absurd short
  round-ends n again (too_long input) w ends short = ends input w short.0 short.1
  round-ends n again (success line input) w ends short =
      run_then-ends again input (scan line) w (λ w'. ends input w' short.0 short.1)

  -- If every line of the input has its new-line, the last one too, then the loop of the shell ends
  -- in fewer rounds than any number above the characters of the input, whatever the connection does:
  -- it leaves at `exit` or at the end of the input, and no call of `read_input` hangs.
  pub shell-ends :
      (fuel : ℕ) (input : Text) (w : W)
      → length input < fuel
      → IsLines input
      → IsEnd (shell socket fuel input w).0
  unfolding shell
  shell-ends zero input w lt lines = ground arith
  shell-ends (suc fuel) input w lt lines =
      round-ends fuel (shell socket fuel) (read_input input) w
        (λ input' w' lt' lines'. shell-ends fuel input' w' lt' lines')
        (read_input-IsShorter fuel input lt lines)
