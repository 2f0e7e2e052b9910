-- ===== src/Server/Trace.antt =====
-- The trace of `InstanceThread`: the lock after its events, and runs that give the lock back.
use ds_my_sql.Base.{
  ℕ, ◌+◌, ◌≡◌, Bool, true, false, Option, none, some, List, [], ◌∷◌, arith, ℤ, pos, negsuc, ltb_ℤ,
  ◌⊎◌, inl, inr, refl,
}
use ds_my_sql.Server.{
  max_str_len, Event, alloc_key, free_key, alloc_value, free_value, enter, leave, close_socket,
  db_get, db_del, db_set, Thread, Outcome, next, returned, M, both, continue_with, emit_all, fail,
}

pub fits : ℤ → Bool
fits len = ltb_ℤ len (pos (max_str_len + 1))

unfoldable pub when : Bool → Option Bool → Option Bool
when true held = held
when false held = none

-- Whether the thread has the lock after an event. There is no answer if it takes the lock while it
-- has it, gives it back or calls the database without it, or calls the database with a length above
-- `MAX_STR_LEN`.
unfoldable pub after : Event → Bool → Option Bool
unfolding fits when
after enter false = some true
after enter true = none
after leave true = some false
after leave false = none
after (db_get key len) held = when held (when (fits len) (some true))
after (db_del key len) held = when held (when (fits len) (some true))
after (db_set key len value len') held = when held (when (fits len) (when (fits len') (some true)))
after alloc_key held = some held
after free_key held = some held
after alloc_value held = some held
after free_value held = some held
after close_socket held = some held

-- The lock after a trace, which is newest first.
unfoldable pub holds_lock : List Event → Option Bool
unfolding after
holds_lock [] = some false
holds_lock (e ∷ es) = elim (holds_lock es) [ none ↦ none | some held ↦ after e held ]

pub fits_lem : (len : ℤ) → ltb_ℤ (pos max_str_len) len ≡ false → fits len ≡ true
unfolding fits
fits_lem (pos n) h = ground arith
fits_lem (negsuc n) h = ground arith

-- A run that goes on with the lock as said, or that returns without it.
pub data After {W D A : Type 0} (held : Bool) : Outcome A × Thread W D → Type 0 where
  goes : {a : A} {t : Thread W D} → holds_lock t.trace ≡ some held → After held (next a, t)
  ends : {n : ℕ} {t : Thread W D} → holds_lock t.trace ≡ some false → After held (returned n, t)

-- Calls of `free` only.
abbrev pub AreFrees : List Event → Type 0
AreFrees [] = Unit
AreFrees (e ∷ es) = ((e ≡ free_key) ⊎ (e ≡ free_value)) × AreFrees es

pub key_free : AreFrees (free_key ∷ [])
key_free = (inl refl, tt)

pub both_free : AreFrees both
both_free = (inl refl, (inr refl, tt))

module _ {W D : Type 0} where
  pub bind :
      {A B : Type 0} {h h' : Bool} {r : Outcome A × Thread W D} {f : A → M W D B}
      → After h r
      → ((a : A) (t : Thread W D) → holds_lock t.trace ≡ some h → After h' (f a t))
      → After h' (continue_with r f)
  bind (goes e) k = k _ _ e
  bind (ends e) k = ends e

  emit_all-After :
      (es : List Event) (t : Thread W D) (h : Bool)
      → AreFrees es
      → holds_lock t.trace ≡ some h
      → After h (emit_all es t)
  unfolding holds_lock
  emit_all-After [] t h q e = goes e
  emit_all-After (x ∷ es) t h q e =
      emit_all-After es (record t { trace = x ∷ t.trace }) h q.1 (ground arith)

  pub fail-After :
      {A : Type 0} (es : List Event) (t : Thread W D)
      → AreFrees es
      → holds_lock t.trace ≡ some false
      → After {A = A} false (fail es t)
  unfolding fail holds_lock
  fail-After es t q e =
      bind (emit_all-After es (record t { trace = close_socket ∷ t.trace }) false q (ground arith))
        λ _ t' e'. ends e'
