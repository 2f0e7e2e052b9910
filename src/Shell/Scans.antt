-- ===== src/Shell/Scans.antt =====
-- The commands of the shell and the lines that they are read from.
use ds_my_sql.Base.{ℕ, ◌≡◌, ◌==◌, ◌∙◌, false, List, [], ◌∷◌, ◌++◌, refl, ap}
use ds_my_sql.Server.{Text}
use ds_my_sql.Client.{c_string}
use ds_my_sql.Shell.Words.{eq_text, is_space, push_char, starts_with_space, words}
use ds_my_sql.Shell.{
  leave, get, del, set, exit_name, get_name, set_name, del_name, scan_command, scan,
}

-- A text that `%s` reads: no spaces, and no 0.
abbrev pub AreLetters : Text → Type 0
AreLetters [] = Unit
AreLetters (c ∷ s) = (is_space c ≡ false) × ((c == 0) ≡ false) × AreLetters s

words_letter :
    (c : ℕ) (s : Text)
    → is_space c ≡ false
    → words (c ∷ s) ≡ push_char c (starts_with_space s) (words s)
unfolding words
words_letter c s letter = rw letter refl

words-push :
    (c d : ℕ) (s : Text) (fields : List Text)
    → is_space c ≡ false
    → is_space d ≡ false
    → words (d ∷ s) ≡ fields
    → words (c ∷ d ∷ s) ≡ push_char c false fields
unfolding starts_with_space
words-push c d s fields letter letter' e =
    words_letter c (d ∷ s) letter
    ∙ ap (λ b. push_char c b (words (d ∷ s))) letter'
    ∙ ap (push_char c false) e

-- The field in front of a space, and the last one.
words-space :
    (c : ℕ) (s rest : Text)
    → AreLetters (c ∷ s)
    → words ((c ∷ s) ++ (32 ∷ rest)) ≡ (c ∷ s) ∷ words rest
unfolding words push_char
words-space c [] rest (letter, _, _) = words_letter c (32 ∷ rest) letter
words-space c (d ∷ s) rest (letter, _, letters) =
    words-push c d (s ++ (32 ∷ rest)) ((d ∷ s) ∷ words rest) letter letters.0
      (words-space d s rest letters)

words-end : (c : ℕ) (s : Text) → AreLetters (c ∷ s) → words (c ∷ s) ≡ (c ∷ s) ∷ []
unfolding words push_char
words-end c [] (letter, _, _) = words_letter c [] letter
words-end c (d ∷ s) (letter, _, letters) =
    words-push c d s ((d ∷ s) ∷ []) letter letters.0 (words-end d s letters)

-- No character is 0.
abbrev HasNoZero : Text → Type 0
HasNoZero [] = Unit
HasNoZero (c ∷ s) = ((c == 0) ≡ false) × HasNoZero s

c_string-HasNoZero : (s : Text) → HasNoZero s → c_string s ≡ s
unfolding c_string
c_string-HasNoZero [] plain = refl
c_string-HasNoZero (c ∷ s) (other, plain) = rw other (ap (λ l. c ∷ l) (c_string-HasNoZero s plain))

HasNoZero-append : (s t : Text) → AreLetters s → HasNoZero t → HasNoZero (s ++ t)
HasNoZero-append [] t letters plain = plain
HasNoZero-append (c ∷ s) t (letter, other, letters) plain =
    (other, HasNoZero-append s t letters plain)

HasNoZero-AreLetters : (s : Text) → AreLetters s → HasNoZero s
HasNoZero-AreLetters [] letters = tt
HasNoZero-AreLetters (c ∷ s) (letter, other, letters) = (other, HasNoZero-AreLetters s letters)

-- A key or a value.
abbrev pub IsWord : Text → Type 0
IsWord [] = ⊥
IsWord (c ∷ s) = AreLetters (c ∷ s)

-- The lines of the commands, as a user writes them.
unfoldable pub line_of_key : Text → Text → Text
line_of_key name key = name ++ (32 ∷ key)

unfoldable pub line_of_pair : Text → Text → Text
line_of_pair key text = set_name ++ (32 ∷ (key ++ (32 ∷ text)))

field-end : (key : Text) → IsWord key → words key ≡ key ∷ []
field-end [] word = elim word [ ]
field-end (c ∷ s) word = words-end c s word

field-space : (key rest : Text) → IsWord key → words (key ++ (32 ∷ rest)) ≡ key ∷ words rest
field-space [] rest word = elim word [ ]
field-space (c ∷ s) rest word = words-space c s rest word

letters_lem : (key : Text) → IsWord key → AreLetters key
letters_lem [] word = elim word [ ]
letters_lem (c ∷ s) word = word

whole : (key : Text) → IsWord key → c_string key ≡ key
whole key word = c_string-HasNoZero key (HasNoZero-AreLetters key (letters_lem key word))

letters_of_name : AreLetters get_name × AreLetters set_name × AreLetters del_name
unfolding is_space
letters_of_name = (
  (refl, refl, (refl, refl, (refl, refl, tt))),
  (refl, refl, (refl, refl, (refl, refl, tt))),
  (refl, refl, (refl, refl, (refl, refl, tt))),
)

scan_get : (key : Text) → IsWord key → scan (line_of_key get_name key) ≡ get key
unfolding scan line_of_key scan_command c_string eq_text
scan_get key word = rw (whole key word) (
    ap scan_command
      (field-space get_name key letters_of_name.0 ∙ ap (λ l. get_name ∷ l) (field-end key word)))

scan_del : (key : Text) → IsWord key → scan (line_of_key del_name key) ≡ del key
unfolding scan line_of_key scan_command c_string eq_text
scan_del key word = rw (whole key word) (
    ap scan_command
      (field-space del_name key letters_of_name.2 ∙ ap (λ l. del_name ∷ l) (field-end key word)))

scan_set :
    (key text : Text) → IsWord key → IsWord text → scan (line_of_pair key text) ≡ set key text
unfolding scan line_of_pair scan_command c_string eq_text
scan_set key text word word' =
    let both : c_string (key ++ (32 ∷ text)) ≡ key ++ (32 ∷ text) =
      c_string-HasNoZero (key ++ (32 ∷ text)) (
        HasNoZero-append key (32 ∷ text) (letters_lem key word)
          (refl, HasNoZero-AreLetters text (letters_lem text word'))) in
    rw both (
      ap scan_command (
        field-space set_name (key ++ (32 ∷ text)) letters_of_name.1
        ∙ ap (λ l. set_name ∷ l)
            (field-space key text word ∙ ap (λ l. key ∷ l) (field-end text word'))))

-- A line of `get`, `set` or `del` and their fields, which are not empty and without spaces and 0, is
-- read as that command with those fields; and `exit` as the end.
pub scan-line :
    (key text : Text)
    → IsWord key
    → IsWord text
    → (scan (line_of_key get_name key) ≡ get key)
      × (scan (line_of_key del_name key) ≡ del key)
      × (scan (line_of_pair key text) ≡ set key text)
      × (scan exit_name ≡ leave)
unfolding scan c_string eq_text
scan-line key text word word' =
    (scan_get key word, scan_del key word, scan_set key text word word', refl)
