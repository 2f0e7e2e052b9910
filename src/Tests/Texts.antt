-- ===== src/Tests/Texts.antt =====
-- A database that keeps its texts in a list.
use ds_my_sql.Base.{
  ◌==◌, true, false, Bool, Option, none, some, List, [], ◌∷◌, ℤ, pos, minus_one, length,
  if◌then◌else◌,
}
use ds_my_sql.Server.{Text, Db}
use ds_my_sql.Client.Loopback.{cut}

abbrev pub Pairs : Type 0
Pairs = List (Text × Text)

abbrev pub eq_text : Text → Text → Bool
eq_text [] [] = true
eq_text [] (d ∷ t) = false
eq_text (c ∷ s) [] = false
eq_text (c ∷ s) (d ∷ t) = if c == d then eq_text s t else false

abbrev pub lookup : Text → Pairs → Option Text
lookup key [] = none
lookup key ((k, v) ∷ ps) = let rest = lookup key ps in if eq_text key k then some v else rest

abbrev pub remove : Text → Pairs → Pairs
remove key [] = []
remove key ((k, v) ∷ ps) = let rest = remove key ps in if eq_text key k then rest else (k, v) ∷ rest

abbrev pub answer : Option Text → Pairs → ℤ × Text × Pairs
answer none ps = (minus_one, [], ps)
answer (some v) ps = (pos (length v), v, ps)

abbrev pub texts : Db Pairs
texts = record {
  get = λ ps key len. answer (lookup (cut key len) ps) ps;
  set = λ ps key key_len value len. (cut key key_len, cut value len) ∷ ps;
  del = λ ps key len. remove (cut key len) ps;
}
