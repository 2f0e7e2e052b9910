-- ===== src/Shell.antt =====
-- The shell: src/main/myjqlshell.cpp. Its standard input is the list of the bytes that are still to
-- come; what it prints is a list of `Printed`, oldest first, the prompt left out.
pub mod Words
pub mod Reads
pub mod Ends
pub mod Scans
use ds_my_sql.Base.{
  ℕ, zero, suc, ◌+◌, ◌-◌, ◌==◌, Bool, true, false, Option, none, some, List, [], ◌∷◌, length, take,
  if◌then◌else◌, ltb, ℤ, pos,
}
use ds_my_sql.Server.{Text}
use ds_my_sql.Client.{
  Socket, Result, returned, threw, Thrown, c_string, Network, continue_with, client_init,
  client_close, client_get, client_set, client_del,
}
use ds_my_sql.Shell.Words.{eq_text, words}

abbrev pub input_buffer_size : ℕ
input_buffer_size = 1024

abbrev pub new_line : ℕ
new_line = 10

-- `EOF` in a `char`: it is the byte 255, too.
abbrev pub eof : ℕ
eof = 255

-- `getchar()` into a `char`.
unfoldable pub get_char : Text → ℕ × Text
get_char [] = (eof, [])
get_char (c ∷ input) = (c, input)

-- The loop of `read_input` for as many characters as the buffer has room for: what it stores.
unfoldable pub fill : ℕ → Text → Text × Text
unfolding get_char
fill zero input = ([], input)
fill (suc n) input =
    let (c, input') = get_char input in
    let (rest, input'') = fill n input' in
    if c == new_line
    then (c ∷ [], input')
    else if c == eof
    then (c ∷ [], input')
    else (c ∷ rest, input'')

-- `buffer[length - 1]`, and the characters before it.
unfoldable pub last_of : Text → ℕ
last_of [] = 0
last_of (c ∷ []) = c
last_of (c ∷ d ∷ s) = last_of (d ∷ s)

unfoldable pub drop_last : Text → Text
drop_last [] = []
drop_last (c ∷ []) = []
drop_last (c ∷ d ∷ s) = c ∷ drop_last (d ∷ s)

-- `while (getchar() != '\n');`, which has no end if no new-line comes.
unfoldable pub skip : Text → Option Text
skip [] = none
skip (c ∷ input) = let rest = skip input in if c == new_line then some input else rest

-- `read_input` answers, or exits, or does not end.
pub data Read : Type 0 where
  success : Text → Text → Read
  too_long : Text → Read
  exits hangs : Read

abbrev pub too_long_or_not : Option Text → Read
too_long_or_not none = hangs
too_long_or_not (some input) = too_long input

-- What follows the loop of `read_input`.
unfoldable pub close_line : Text × Text → Read
unfolding skip last_of drop_last
close_line (buffer, input) =
    if last_of buffer == eof
    then exits
    else if last_of buffer == new_line
    then success (drop_last buffer) input
    else if length (drop_last buffer) == input_buffer_size
    then too_long_or_not (skip input)
    else success (drop_last buffer) input

unfoldable pub read_input : Text → Read
unfolding fill close_line
read_input input = close_line (fill (input_buffer_size + 1) input)

pub data Command : Type 0 where
  leave invalid_input invalid_command : Command
  get del : Text → Command
  set : Text → Text → Command

-- The names of the commands.
abbrev pub exit_name : Text
exit_name = 101 ∷ 120 ∷ 105 ∷ 116 ∷ []

abbrev pub get_name : Text
get_name = 103 ∷ 101 ∷ 116 ∷ []

abbrev pub set_name : Text
set_name = 115 ∷ 101 ∷ 116 ∷ []

abbrev pub del_name : Text
del_name = 100 ∷ 101 ∷ 108 ∷ []

-- The calls of `sscanf` behind the name of a command.
unfoldable pub scan_key : (Text → Command) → List Text → Command
scan_key command [] = invalid_input
scan_key command (key ∷ fields) = command key

unfoldable pub scan_key_value : List Text → Command
scan_key_value [] = invalid_input
scan_key_value (key ∷ []) = invalid_input
scan_key_value (key ∷ text ∷ fields) = set key text

unfoldable pub scan_command : List Text → Command
unfolding scan_key scan_key_value
scan_command [] = invalid_input
scan_command (command ∷ fields) =
    if eq_text command get_name
    then scan_key get fields
    else if eq_text command set_name
    then scan_key_value fields
    else if eq_text command del_name
    then scan_key del fields
    else invalid_command

-- The command of a line.
unfoldable pub scan : Text → Command
unfolding scan_command
scan buffer =
    let line = c_string buffer in
    if eq_text line exit_name then leave else scan_command (words line)

pub data Printed : Type 0 where
  input_is_too_long says_invalid_input says_invalid_command bye not_found ok : Printed
  value : Text → Printed
  error : Thrown → Printed

unfoldable pub print_get : Result (Option Text) → Printed
print_get (returned none) = not_found
print_get (returned (some s)) = value (c_string s)
print_get (threw e) = error e

unfoldable pub print_done : Result (Unit {0}) → Printed
print_done (returned u) = ok
print_done (threw e) = error e

-- How far `main` comes: it ends at `exit`, or at the end of its input; or it never ends, within the
-- loop of `read_input` that skips; or it has rounds to go.
pub data Progress : Type 0 where
  said_bye at_eof skips_forever not_yet : Progress

module _ {W : Type 0} (socket : Socket W) where
  -- A command but `exit`.
  unfoldable pub run : Command → W → Printed × W
  unfolding print_get print_done
  run leave w = (bye, w)
  run invalid_input w = (says_invalid_input, w)
  run invalid_command w = (says_invalid_command, w)
  run (get key) w = let (result, w') = client_get socket key w in (print_get result, w')
  run (set key text) w = let (result, w') = client_set socket key text w in (print_done result, w')
  run (del key) w = let (result, w') = client_del socket key w in (print_done result, w')

  -- A command, and then the rest of the loop, unless it is `exit`.
  unfoldable pub run_then :
      (Text → W → Progress × List Printed × W) → Text → Command → W → Progress × List Printed × W
  unfolding run
  run_then again input leave w = (said_bye, bye ∷ [], w)
  run_then again input command w =
      let (printed, w₁) = run command w in
      let (end, more, w₂) = again input w₁ in (end, printed ∷ more, w₂)

  -- A round of the loop of `main`, behind `read_input`.
  unfoldable pub round :
      (Text → W → Progress × List Printed × W) → Read → W → Progress × List Printed × W
  unfolding run_then scan
  round again exits w = (at_eof, [], w)
  round again hangs w = (skips_forever, [], w)
  round again (too_long input) w =
      let (end, more, w') = again input w in (end, input_is_too_long ∷ more, w')
  round again (success line input) w = run_then again input (scan line) w

  -- `fuel` rounds of the loop of `main`.
  unfoldable pub shell : ℕ → Text → W → Progress × List Printed × W
  unfolding read_input round
  shell zero input w = (not_yet, [], w)
  shell (suc fuel) input w = round (shell fuel) (read_input input) w

  -- The destructor of the client, which `exit` within `read_input` does not run.
  unfoldable pub close_at : Progress → W → W
  close_at said_bye w = client_close socket w
  close_at at_eof w = w
  close_at skips_forever w = w
  close_at not_yet w = w

  -- `main`, with `fuel` rounds of its loop.
  unfoldable pub shell_main : Network W → ℕ → Text → W → Result (Progress × List Printed) × W
  unfolding shell close_at
  shell_main network fuel input w = continue_with (client_init network w) λ _ w₁.
      let (end, printed, w₂) = shell fuel input w₁ in (returned (end, printed), close_at end w₂)
