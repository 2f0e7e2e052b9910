-- ===== src/Base/State.antt =====
-- Code that changes a state of type `T`. There is no result where the C code would follow a null
-- pointer, or where a loop is out of fuel.
use mathlib.Core.Option.{Option, none, some}
use mathlib.Core.Path.{◌≡◌, refl, sym, ap, ◌∙◌}
use native.Mathlib.Omega.{arith}

abbrev pub M : Type 0 → Type 0 → Type 0
M T A = T → Option (A × T)

module _ {T : Type 0} where
  abbrev pub pure : {A : Type 0} → A → M T A
  pure a t = some (a, t)

  abbrev pub fault : {A : Type 0} → M T A
  fault t = none

  abbrev pub and_then : {A B : Type 0} → Option (A × T) → (A → M T B) → Option (B × T)
  and_then none f = none
  and_then (some (a, t)) f = f a t

  infixl 5 ◌>>=◌ ◌>>◌
  abbrev pub ◌>>=◌ : {A B : Type 0} → M T A → (A → M T B) → M T B
  ◌>>=◌ m f t = and_then (m t) f

  abbrev pub ◌>>◌ : {B : Type 0} → M T (Unit {0}) → M T B → M T B
  m >> k = m >>= λ _. k

  -- A chain that has a result has one of its first part, and of the rest from there.
  pub bind_some :
      {A B : Type 0} (m : M T A) (f : A → M T B) (t : T) (r : B × T)
      → (m >>= f) t ≡ some r
      → (a : A) × (t' : T) × (m t ≡ some (a, t')) × (f a t' ≡ some r)
  bind_some {A = A} m f t r e = go (m t) refl
    where
      go :
          (o : Option (A × T))
          → m t ≡ o
          → (a : A) × (t' : T) × (m t ≡ some (a, t')) × (f a t' ≡ some r)
      go none q =
          let no_result : none ≡ some r = sym (ap (λ x. and_then x f) q) ∙ e in
          absurd (ground arith)
      go (some (a, t')) q = (a, t', q, sym (ap (λ x. and_then x f) q) ∙ e)

  -- Chains with the same rest.
  pub bind_same :
      {A B : Type 0} (m : M T A) (f g : A → M T B) (t : T)
      → ((a : A) (t' : T) → f a t' ≡ g a t')
      → (m >>= f) t ≡ (m >>= g) t
  bind_same {A = A} m f g t same = go (m t)
    where
      go : (o : Option (A × T)) → and_then o f ≡ and_then o g
      go none = refl
      go (some (a, t')) = same a t'
