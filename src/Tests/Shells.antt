-- ===== src/Tests/Shells.antt =====
-- Lines of the shell, and a run of it with the connection of two queues.
use ds_my_sql.Base.{ℕ, zero, suc, ◌+◌, ◌≡◌, [], ◌∷◌, ◌++◌, length, arith, refl, ap, inr}
use ds_my_sql.Server.{Text}
use ds_my_sql.Client.{c_string}
use ds_my_sql.Client.Loopback.{Queues, loop_socket}
use ds_my_sql.Shell.{
  last_of, input_buffer_size, new_line, success, too_long, exits, hangs, read_input, scan, leave,
  get, del, set, get_name, del_name, exit_name, said_bye, shell,
}
use ds_my_sql.Shell.Words.{eq_text, is_space, words}
use ds_my_sql.Shell.Reads.{IsPlain, read_input-line, read_input-long, read_input-exits}
use ds_my_sql.Shell.Scans.{IsWord, line_of_key, line_of_pair, scan-line}
use ds_my_sql.Shell.Ends.{IsEnd, shell-ends}

abbrev line : Text
line = 103 ∷ 101 ∷ 116 ∷ 32 ∷ 97 ∷ []

abbrev same : ℕ → Text
same zero = []
same (suc n) = 97 ∷ same n

length-same : (n : ℕ) → length (same n) ≡ n
length-same zero = refl
length-same (suc n) = ap suc (length-same n)

same-IsPlain : (n : ℕ) → IsPlain (same n)
same-IsPlain zero = tt
same-IsPlain (suc n) = (refl, refl, same-IsPlain n)

long_line : Text
long_line = same 1025

long_line-IsPlain : IsPlain long_line
unfolding long_line
long_line-IsPlain = same-IsPlain 1025

length-long_line : length long_line ≡ input_buffer_size + 1
unfolding long_line
length-long_line = length-same 1025

line-IsPlain : IsPlain line
line-IsPlain = (refl, refl, (refl, refl, (refl, refl, (refl, refl, (refl, refl, tt)))))

read_input-line_example : read_input (line ++ (new_line ∷ line)) ≡ success line line
read_input-line_example = read_input-line line line line-IsPlain (omega arith)

read_input-long_example :
    (read_input (long_line ++ (line ++ (new_line ∷ 98 ∷ []))) ≡ too_long (98 ∷ []))
    × (read_input (long_line ++ line) ≡ hangs)
read_input-long_example =
    read_input-long long_line line (98 ∷ []) long_line-IsPlain length-long_line
      (refl, (refl, (refl, (refl, (refl, tt)))))

read_input_exits_test : (read_input line ≡ exits) × (read_input (line ++ (255 ∷ line)) ≡ exits)
read_input_exits_test = read_input-exits line line line-IsPlain (omega arith)

abbrev word_a : Text
word_a = 97 ∷ 98 ∷ []

word_a-IsWord : IsWord word_a
unfolding is_space
word_a-IsWord = (refl, refl, (refl, refl, tt))

scan-line_example :
    (scan (line_of_key get_name word_a) ≡ get word_a)
    × (scan (line_of_key del_name word_a) ≡ del word_a)
    × (scan (line_of_pair word_a word_a) ≡ set word_a word_a)
    × (scan exit_name ≡ leave)
scan-line_example = scan-line word_a word_a word_a-IsWord word_a-IsWord

abbrev still : Queues
still = record { up = []; down = [] }

shell-ends_example : IsEnd (shell loop_socket 7 (line ++ (new_line ∷ [])) still).0
unfolding last_of
shell-ends_example =
    shell-ends loop_socket 7 (line ++ (new_line ∷ [])) still (omega arith) (inr refl)

-- The shell gets and exits; the server has not answered.
no_answer_test :
    ((shell loop_socket 6 (line ++ (new_line ∷ exit_name ++ (new_line ∷ []))) still).0) ≡ said_bye
unfolding shell eq_text c_string words
no_answer_test = refl
