-- ===== src/Server/Exclusion.antt =====
-- The lock of the server excludes: at most one thread of a client is at the database at a time.
use ds_my_sql.Base.{
  ℕ, ◌≡◌, ◌==◌, ◌∙◌, ◌⊎◌, inl, inr, true, false, Bool, Option, none, some, List, [], ◌∷◌, ◌++◌,
  arith, refl, ap, sym, subst, Bool-cases, Option-cases, ℤ,
}
use ds_my_sql.Server.Lock.{instance_thread-holds_lock}
use ds_my_sql.Server.{
  Net, Db, Thread, instance_thread, Event, enter, leave, alloc_key, free_key, alloc_value,
  free_value, close_socket, db_get, db_del, db_set,
}
use ds_my_sql.Server.Trace.{holds_lock, after, when, fits}
use ds_my_sql.Server.Mutex.{Machine, owner_after, push, Step, act, Reach, here, then_step}

-- The lock after a part of a run.
held_before :
    (later es : List Event) {b : Bool}
    → holds_lock (later ++ es) ≡ some b
    → (b' : Bool) × (holds_lock es ≡ some b')
unfolding holds_lock
held_before [] es e = (_, e)
held_before (x ∷ later) es e = elim (Option-cases (holds_lock (later ++ es))) [
  | inl n ↦ ground arith
  | inr (b', h) ↦ held_before later es h
]

when_lem : (t : Bool) (o : Option Bool) {b : Bool} → when t o ≡ some b → (t ≡ true) × (o ≡ some b)
unfolding when
when_lem true o e = (refl, e)
when_lem false o e = ground arith

-- A call of the database is made with the lock, and keeps it.
called_once :
    (h : Bool) (len : ℤ) {b : Bool}
    → when h (when (fits len) (some true)) ≡ some b
    → (h ≡ true) × (b ≡ true)
called_once h len e =
    let (held, e₁) = when_lem h _ e in
    let (short, e₂) = when_lem (fits len) _ e₁ in (held, ground arith)

called_twice :
    (h : Bool) (len len' : ℤ) {b : Bool}
    → when h (when (fits len) (when (fits len') (some true))) ≡ some b
    → (h ≡ true) × (b ≡ true)
called_twice h len len' e =
    let (held, e₁) = when_lem h _ e in
    let (short, e₂) = when_lem (fits len) _ e₁ in
    let (short', e₃) = when_lem (fits len') _ e₂ in (held, ground arith)

-- An event other than those of the lock leaves it alone.
abbrev IsOther : ℕ → Event → Type 0
IsOther i e = ((o : Option ℕ) → owner_after i e o ≡ o) × ((h b : Bool) → after e h ≡ some b → h ≡ b)

plain : {h b : Bool} → some h ≡ some b → h ≡ b
plain e = ground arith

event_cases : (i : ℕ) (e : Event) → (e ≡ enter) ⊎ (e ≡ leave) ⊎ IsOther i e
unfolding owner_after after
event_cases i enter = inl refl
event_cases i leave = inr (inl refl)
event_cases i alloc_key = inr (inr ((λ o. refl), (λ h b e. plain e)))
event_cases i free_key = inr (inr ((λ o. refl), (λ h b e. plain e)))
event_cases i alloc_value = inr (inr ((λ o. refl), (λ h b e. plain e)))
event_cases i free_value = inr (inr ((λ o. refl), (λ h b e. plain e)))
event_cases i close_socket = inr (inr ((λ o. refl), (λ h b e. plain e)))
event_cases i (db_get key len) =
    inr (inr ((λ o. refl), (λ h b e. let (y, z) = called_once h len e in y ∙ sym z)))
event_cases i (db_del key len) =
    inr (inr ((λ o. refl), (λ h b e. let (y, z) = called_once h len e in y ∙ sym z)))
event_cases i (db_set key len value len') =
    inr (inr ((λ o. refl), (λ h b e. let (y, z) = called_twice h len len' e in y ∙ sym z)))

-- The trace of the thread that acts, and those of the others.
pushed_here :
    (i j : ℕ) (e : Event) (traces : ℕ → List Event)
    → (i == j) ≡ true
    → push i e traces j ≡ e ∷ traces j
unfolding push
pushed_here i j e traces same = rw same refl

pushed_there :
    (i j : ℕ) (e : Event) (traces : ℕ → List Event)
    → (i == j) ≡ false
    → push i e traces j ≡ traces j
unfolding push
pushed_there i j e traces other = rw other refl

-- The lock has an answer after each trace.
abbrev AreFine : Machine → Type 0
AreFine m = (i : ℕ) → (b : Bool) × (holds_lock (m.traces i) ≡ some b)

AreFine-Step : {m m' : Machine} → Step m m' → AreFine m' → AreFine m
AreFine-Step {m = m} (act i e free) fine j =
    let (b, h) = fine j in
    elim (Bool-cases (i == j)) [
      | inl same ↦
          held_before (e ∷ []) (m.traces j)
            (ap holds_lock (sym (pushed_here i j e m.traces same)) ∙ h)
      | inr other ↦ (b, ap holds_lock (sym (pushed_there i j e m.traces other)) ∙ h)
    ]

-- A thread that has the lock by its own trace is the owner.
abbrev OwnerHolds : Machine → Type 0
OwnerHolds m = (i : ℕ) → holds_lock (m.traces i) ≡ some true → m.owner ≡ some i

leave_lem : (h : Bool) {b : Bool} → after leave h ≡ some b → (h ≡ true) × (b ≡ false)
unfolding after
leave_lem true e = (refl, ground arith)
leave_lem false e = ground arith

same_owner : {o : Option ℕ} {i j : ℕ} → o ≡ some i → o ≡ some j → i ≡ j
same_owner e e' = ground arith

module _ (m : Machine) (i : ℕ) (e : Event) (free : e ≡ enter → m.owner ≡ none) (owns : OwnerHolds m)
    {h b : Bool} (run : holds_lock (m.traces i) ≡ some h) (step : after e h ≡ some b) where
  -- The thread that acts, and still has the lock.
  owner_here : b ≡ true → owner_after i e m.owner ≡ some i
  unfolding owner_after
  owner_here held = elim (event_cases i e) [
    | inl entered ↦ rw entered refl
    | inr (inl left) ↦
        let (before, gone) = leave_lem h (ap (λ x. after x h) (sym left) ∙ step) in ground arith
    | inr (inr (keeps, same)) ↦ keeps m.owner ∙ owns i (run ∙ ap some (same h b step ∙ held))
  ]

  -- Another thread, that has the lock.
  owner_there :
      (j : ℕ)
      → (i == j) ≡ false
      → holds_lock (m.traces j) ≡ some true
      → owner_after i e m.owner ≡ some j
  unfolding owner_after
  owner_there j other held = elim (event_cases i e) [
    | inl entered ↦ let none_has = free entered in let has = owns j held in ground arith
    | inr (inl left) ↦
        let (before, gone) = leave_lem h (ap (λ x. after x h) (sym left) ∙ step) in
        let same = same_owner (owns i (run ∙ ap some before)) (owns j held) in ground arith
    | inr (inr (keeps, same)) ↦ keeps m.owner ∙ owns j held
  ]

answers :
    (e : Event) (es : List Event) (h : Bool) {b : Bool}
    → holds_lock es ≡ some h
    → holds_lock (e ∷ es) ≡ some b
    → after e h ≡ some b
unfolding holds_lock
answers e es h before run = ground (arith, before)

last_event :
    (e : Event) (es : List Event) {b : Bool}
    → holds_lock (e ∷ es) ≡ some b
    → (h : Bool) × (holds_lock es ≡ some h) × (after e h ≡ some b)
unfolding holds_lock
last_event e es run = elim (Option-cases (holds_lock es)) [
  | inl n ↦ ground arith
  | inr (h, before) ↦ (h, before, answers e es h before run)
]

last_flag :
    (es : List Event) {b : Bool} → holds_lock es ≡ some true → holds_lock es ≡ some b → b ≡ true
last_flag es e e' = ground arith

OwnerHolds-Step : {m m' : Machine} → Step m m' → AreFine m' → OwnerHolds m → OwnerHolds m'
OwnerHolds-Step {m = m} (act i e free) fine owns j held =
    let (b, now) = fine i in
    let (h, before, step) =
      last_event e (m.traces i)
        (ap holds_lock (sym (pushed_here i i e m.traces (ground arith))) ∙ now) in
    elim (Bool-cases (i == j)) [
      | inl same ↦
          let i≡j : i ≡ j = ground arith in
          let still : b ≡ true =
            last_flag _ (subst (λ k. holds_lock (push i e m.traces k) ≡ some true) (sym i≡j) held)
              now in
          owner_here m i e free owns before step still ∙ ap some i≡j
      | inr other ↦
          owner_there m i e free owns before step j other
            (ap holds_lock (sym (pushed_there i j e m.traces other)) ∙ held)
    ]

Reach-OwnerHolds : {m : Machine} → Reach m → AreFine m → OwnerHolds m
unfolding holds_lock
Reach-OwnerHolds here fine = λ i held. ground arith
Reach-OwnerHolds (then_step reach step) fine =
    OwnerHolds-Step step fine (Reach-OwnerHolds reach (AreFine-Step step fine))

module _ {W D : Type 0} (net : Net W) (database : Db D) where
  -- Each thread has done a first part of a run of `instance_thread`. What the other threads do to the
  -- store is in the state of its database.
  abbrev pub AreThreads : Machine → Type 0
  AreThreads m =
      (i : ℕ)
      → (fuel : ℕ) × (t : Thread W D) × (later : List Event) × (t.trace ≡ [])
        × (((instance_thread net database fuel t).1).trace ≡ later ++ m.traces i)

  AreThreads-AreFine : (m : Machine) → AreThreads m → AreFine m
  unfolding holds_lock
  AreThreads-AreFine m threads i =
      let (fuel, t, later, fresh, run) = threads i in
      held_before later (m.traces i) (
        ap holds_lock (sym run)
        ∙ instance_thread-holds_lock net database fuel t (ap holds_lock fresh))

  -- However the threads of the clients interleave, as long as the lock lets one thread enter at a
  -- time, no two threads are between taking the lock and giving it back, which is where the database
  -- is called; and a thread that is there is the one that the lock has let in.
  pub Reach-excludes :
      {m : Machine}
      → Reach m
      → AreThreads m
      → ((i : ℕ) → holds_lock (m.traces i) ≡ some true → m.owner ≡ some i)
        × ((i j : ℕ)
            → holds_lock (m.traces i) ≡ some true
            → holds_lock (m.traces j) ≡ some true
            → i ≡ j)
  Reach-excludes {m = m} reach threads =
      let owns = Reach-OwnerHolds reach (AreThreads-AreFine m threads) in
      (owns, λ i j held held'. same_owner (owns i held) (owns j held'))
