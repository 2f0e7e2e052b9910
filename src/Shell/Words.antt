-- ===== src/Shell/Words.antt =====
-- What the shell uses of the standard library: `strcmp` for equality, and the fields that `sscanf`
-- reads with `%s`.
use ds_my_sql.Base.{ℕ, ◌==◌, Bool, true, false, List, [], ◌∷◌, if◌then◌else◌, ltb}
use ds_my_sql.Server.{Text}

unfoldable pub is_space : ℕ → Bool
is_space c = if c == 32 then true else if ltb c 9 then false else ltb c 14

unfoldable pub eq_text : Text → Text → Bool
eq_text [] [] = true
eq_text [] (d ∷ t) = false
eq_text (c ∷ s) [] = false
eq_text (c ∷ s) (d ∷ t) = if c == d then eq_text s t else false

-- A character in front of the fields of what follows it, which begins with a space or not.
unfoldable pub push_char : ℕ → Bool → List Text → List Text
push_char c true fields = (c ∷ []) ∷ fields
push_char c false [] = (c ∷ []) ∷ []
push_char c false (f ∷ fields) = (c ∷ f) ∷ fields

unfoldable pub starts_with_space : Text → Bool
unfolding is_space
starts_with_space [] = true
starts_with_space (c ∷ s) = is_space c

-- The fields between the spaces.
unfoldable pub words : Text → List Text
unfolding is_space push_char starts_with_space
words [] = []
words (c ∷ s) =
    let fields = words s in if is_space c then fields else push_char c (starts_with_space s) fields
