-- ===== src/Client/Direct.antt =====
-- The requests of a client as calls of the database, without a connection.
use ds_my_sql.Base.{
  ◌≡◌, ◌≤◌, ◌<◌, ◌^◌, ltb, if◌then◌else◌, Option, none, some, List, [], ◌∷◌, ℤ, pos, negsuc, length,
  take,
}
use ds_my_sql.Server.{Text, max_str_len, Db}
use ds_my_sql.Client.{Result, returned, threw, key_too_long, value_too_long, c_string}

pub data Request : Type 0 where
  get del : Text → Request
  set : Text → Text → Request

pub data Answer : Type 0 where
  got : Result (Option Text) → Answer
  done : Result (Unit {0}) → Answer

-- The lengths are an `int`.
abbrev pub HasInts : Request → Type 0
HasInts (get key) = length key < 2 ^ 31
HasInts (del key) = length key < 2 ^ 31
HasInts (set key value) = (length key < 2 ^ 31) × (length value < 2 ^ 31)

abbrev pub HaveInts : List Request → Type 0
HaveInts [] = Unit
HaveInts (r ∷ rs) = HasInts r × HaveInts rs

-- The database is called with the buffer that a text came in, and with the length of the text.
module _ {D : Type 0} (database : Db D) (buffer : Text → Text) where
  reply : ℤ × Text × D → Answer × D
  reply (pos n, value, d) = (got (returned (some (c_string (take n value)))), d)
  reply (negsuc n, value, d) = (got (returned none), d)

  -- A request as a call of the database, without a connection.
  unfoldable pub direct : Request → D → Answer × D
  unfolding reply
  direct (get key) d =
      if ltb max_str_len (length key)
      then (got (threw key_too_long), d)
      else reply (database.get d (buffer key) (pos (length key)))
  direct (del key) d =
      if ltb max_str_len (length key)
      then (done (threw key_too_long), d)
      else (done (returned tt), database.del d (buffer key) (pos (length key)))
  direct (set key value) d =
      if ltb max_str_len (length key)
      then (done (threw key_too_long), d)
      else if ltb max_str_len (length value)
      then (done (threw value_too_long), d)
      else (
        done (returned tt),
        database.set d (buffer key) (pos (length key)) (buffer value) (pos (length value)),
      )

  unfoldable pub direct_all : List Request → D → List Answer × D
  unfolding direct
  direct_all [] d = ([], d)
  direct_all (r ∷ rs) d =
      let (answer, d') = direct r d in
      let (answers, d'') = direct_all rs d' in (answer ∷ answers, d'')

  -- `myjql_get` has answered -1, or a length of which the buffer has the characters.
  abbrev pub IsAnswer : ℤ × Text × D → Type 0
  IsAnswer (pos n, value, d) = n ≤ length value
  IsAnswer (negsuc n, value, d) = n ≡ 0

  abbrev pub HasAnswer : Request → D → Type 0
  HasAnswer (get key) d =
      length key ≤ max_str_len → IsAnswer (database.get d (buffer key) (pos (length key)))
  HasAnswer (del key) d = Unit
  HasAnswer (set key value) d = Unit

  -- Each `myjql_get` of this run has.
  abbrev pub HaveAnswers : List Request → D → Type 0
  HaveAnswers [] d = Unit
  HaveAnswers (r ∷ rs) d = HasAnswer r d × HaveAnswers rs (direct r d).1
