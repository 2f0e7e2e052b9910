-- ===== src/Server/Mutex.antt =====
-- The threads of the server and the lock that they share: `CriticalSection` of main/myjqlserver.c.
use ds_my_sql.Base.{ℕ, ◌≡◌, ◌==◌, Option, none, some, List, [], ◌∷◌, if◌then◌else◌}
use ds_my_sql.Server.{
  Event, enter, leave, alloc_key, free_key, alloc_value, free_value, close_socket, db_get, db_del,
  db_set,
}

-- The thread that has the lock, and what each thread has done, newest first.
pub record Machine : Type 0 where
  pub owner : Option ℕ
  pub traces : ℕ → List Event

abbrev pub start : Machine
start = record { owner = none; traces = λ i. [] }

-- `EnterCriticalSection` and `LeaveCriticalSection`.
unfoldable pub owner_after : ℕ → Event → Option ℕ → Option ℕ
owner_after i enter owner = some i
owner_after i leave owner = none
owner_after i alloc_key owner = owner
owner_after i free_key owner = owner
owner_after i alloc_value owner = owner
owner_after i free_value owner = owner
owner_after i close_socket owner = owner
owner_after i (db_get key len) owner = owner
owner_after i (db_del key len) owner = owner
owner_after i (db_set key len value len') owner = owner

unfoldable pub push : ℕ → Event → (ℕ → List Event) → ℕ → List Event
push i e traces j = if i == j then e ∷ traces j else traces j

-- Any thread may do its next thing, but `EnterCriticalSection` waits until the lock is free.
pub data Step (m : Machine) : Machine → Type 0 where
  act :
      (i : ℕ) (e : Event)
      → (e ≡ enter → m.owner ≡ none)
      → Step m (record { owner = owner_after i e m.owner; traces = push i e m.traces })

pub data Reach : Machine → Type 0 where
  here : Reach start
  then_step : {m m' : Machine} → Reach m → Step m m' → Reach m'
