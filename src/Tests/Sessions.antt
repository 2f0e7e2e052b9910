-- ===== src/Tests/Sessions.antt =====
-- A client of the server with the store of src/myjql.c on its files as the database.
use ds_my_sql.Base.{
  ℕ, ◌≡◌, Option, none, some, List, [], ◌∷◌, ℤ, pos, negsuc, minus_one, replicate, arith, refl,
}
use ds_my_sql.Server.{Text, Db, Thread}
use ds_my_sql.Client.Link.{Carries}
use ds_my_sql.Client.Exchange.{received}
use ds_my_sql.Client.Direct.{Request, get, del, set, direct, HaveAnswers, direct_all}
use ds_my_sql.Client.Session.{session, session-direct_all}
use ds_my_sql.Client.Loopback.{Queues, loop_link}
use ds_my_sql.Store.{myjql_get, myjql_set, myjql_del}
use ds_my_sql.Store.Disk.{disk_records, disk_strings, myjql_init}
use ds_my_sql.Tests.Streams.{io}
use ds_my_sql.Tests.Stores
use ds_my_sql.Tests.Stores.{memory, files, store_code}

-- The store, or none if it has followed a null pointer.
abbrev State : Type 0
State = Option Stores.Db

abbrev size_of : ℤ → ℕ
size_of (pos n) = n
size_of (negsuc n) = 0

-- The buffer of `myjql_get` has the characters of the value.
abbrev answer : Option ((ℤ × List ℕ) × Stores.Db) → ℤ × Text × State
answer none = (minus_one, [], none)
answer (some ((n, value), store)) = (n, value, some store)

abbrev state : Option (Unit {0} × Stores.Db) → State
state none = none
state (some (u, store)) = some store

abbrev get_from : State → Text → ℕ → ℤ × Text × State
get_from none key n = (minus_one, [], none)
get_from (some store) key n =
    answer (myjql_get (disk_records io io 40) (disk_strings io io 40) 40 io key n 1024 store)

abbrev set_in : State → Text → ℕ → Text → ℕ → State
set_in none key n value m = none
set_in (some store) key n value m =
    state (myjql_set (disk_records io io 40) (disk_strings io io 40) 40 io key n value m store)

abbrev del_from : State → Text → ℕ → State
del_from none key n = none
del_from (some store) key n =
    state (myjql_del (disk_records io io 40) (disk_strings io io 40) 40 io key n store)

abbrev database : Db State
database = record {
  get = λ d key n. get_from d key (size_of n);
  set = λ d key n value m. set_in d key (size_of n) value (size_of m);
  del = λ d key n. del_from d key (size_of n);
}

abbrev name : Text
name = 1 ∷ 2 ∷ []

-- The value is two chunks.
abbrev value : Text
value = replicate 22 65

abbrev requests : List Request
requests = get name ∷ set name value ∷ get name ∷ del name ∷ get name ∷ []

abbrev thread : Thread Queues State
thread = record {
  world = record { up = []; down = [] };
  db = myjql_init io io io memory files;
  code = pos 0;
  trace = [];
}

requests-HaveAnswers :
    HaveAnswers database (received loop_link database) requests (myjql_init io io io memory files)
unfolding store_code direct
requests-HaveAnswers = (λ le. refl, (tt, (λ le. omega arith, (tt, (λ le. refl, tt)))))

session-direct_all_example :
    ((
      (session loop_link database requests thread).0,
      ((session loop_link database requests thread).1).db,
    )
      ≡ direct_all database (received loop_link database) requests thread.db)
    × Carries loop_link database ((session loop_link database requests thread).1).world [] []
session-direct_all_example =
    session-direct_all loop_link database requests thread
      (omega arith, ((omega arith, omega arith), (omega arith, (omega arith, (omega arith, tt)))))
      requests-HaveAnswers (refl, refl)
