-- ===== src/BufferPool/Clients.antt =====
-- Writes through the pointer that `get_page` answered, and `release`.
use ds_my_sql.Base.{
  ℕ, zero, suc, ◌+◌, ◌≤◌, ◌≡◌, inl, inr, refl, true, false, none, some, List, [], ◌∷◌, arith, ◌==◌,
  if◌then◌else◌, Bool-cases, ℤ, pos, eq_ℤ, get_elem?, get_elem?-lt, get_elem?-set_self,
  get_elem?-set_ne, set, ap, ◌∙◌,
}
use ds_my_sql.FileIo.{Stdio}
use ds_my_sql.BufferPool.{Frame, BufferPool, first_at, assign, release}
use ds_my_sql.BufferPool.Arrays.{
  holds, count, lookup_at, count-set, lookup-set, AllInFile-set, InFile-get_elem?,
}
use ds_my_sql.BufferPool.Loops.{first_at-Finds}
use ds_my_sql.BufferPool.View.{view, IsValid, SamePages}

module _ {P : Type 0} where
  holds_once :
      (a j k : ℕ) (fs : List (Frame P)) (f g : Frame P)
      → get_elem? fs j ≡ some f
      → get_elem? fs k ≡ some g
      → holds a f ≡ true
      → holds a g ≡ true
      → count a fs ≤ 1
      → j ≡ k
  unfolding count
  holds_once a j k [] f g e e' h h' c = ground arith
  holds_once a zero zero (x ∷ fs) f g e e' h h' c = refl
  holds_once a zero (suc k) (x ∷ fs) f g e e' h h' c = ground (arith, lookup_at a k fs g)
  holds_once a (suc j) zero (x ∷ fs) f g e e' h h' c = ground (arith, lookup_at a j fs f)
  holds_once a (suc j) (suc k) (x ∷ fs) f g e e' h h' c =
      ap suc (holds_once a j k fs f g e e' h h' (ground arith))

  first_at-none :
      (addr : ℤ) (i k : ℕ) (fs : List (Frame P)) (f : Frame P)
      → first_at addr i fs ≡ none
      → get_elem? fs k ≡ some f
      → eq_ℤ f.addr addr ≡ false
  unfolding first_at
  first_at-none addr i k [] f e at = ground arith
  first_at-none addr i zero (g ∷ fs) f e at = ground arith
  first_at-none addr i (suc k) (g ∷ fs) f e at = ground (arith, first_at-none addr (i + 1) k fs f)

module _ {P S Name : Type 0} (io : Stdio P S Name) where
  -- Frame `k` gets a new value at the same address.
  module _ (pool : BufferPool P S) (v : IsValid io pool) (k : ℕ) (f g : Frame P)
      (at : get_elem? pool.frames k ≡ some f) (addr : g.addr ≡ f.addr) where
    same_count : (b : ℕ) → count b (set pool.frames k g) ≡ count b pool.frames
    same_count b = ground (arith, count-set g b k pool.frames f at)

    set-IsValid : IsValid io (record pool { frames = set pool.frames k g })
    set-IsValid = record {
      aligned = v.aligned;
      unique = λ b. omega (arith, same_count b, v.unique b);
      inside =
          AllInFile-set g _ k pool.frames v.inside
            (rw addr (InFile-get_elem? _ k pool.frames f v.inside at));
      readable = v.readable;
    }

    set-view :
        (b : ℕ)
        → view io (record pool { frames = set pool.frames k g }) b
          ≡ (if holds b f then some g.page else view io pool b)
    unfolding view
    set-view b = ground (arith, same_count b, v.unique b, lookup-set g b k pool.frames f at)

  pub held_view :
      (pool : BufferPool P S)
      → IsValid io pool
      → (b k : ℕ) (f : Frame P) → get_elem? pool.frames k ≡ some f
      → holds b f ≡ true
      → view io pool b ≡ some f.page
  unfolding view
  held_view pool v b k f at h = ground (arith, lookup_at b k pool.frames f, v.unique b)

  -- A write through a pointer to the page at `a` leaves a valid pool, and changes the contents of
  -- that page and of no other.
  pub assign-view :
      (pool : BufferPool P S) (k a : ℕ) (f : Frame P) (p : P)
      → IsValid io pool
      → get_elem? pool.frames k ≡ some f
      → f.addr ≡ pos a
      → IsValid io (assign pool k p)
        × ((b : ℕ) → view io (assign pool k p) b ≡ (if a == b then some p else view io pool b))
  unfolding assign
  assign-view pool k a f p v at e =
      let g : Frame P = record f { page = p } in
      let whole : assign pool k p ≡ record pool { frames = set pool.frames k g } = ground arith in
      rw whole
        (set-IsValid pool v k f g at refl, λ b. set-view pool v k f g at refl b ∙ ground arith)

  -- `release` of a page leaves a valid pool that stands for the same pages, unpins the frame that
  -- holds the page, and changes no other frame.
  pub release-unpins :
      (pool : BufferPool P S) (a k : ℕ) (f : Frame P)
      → IsValid io pool
      → get_elem? pool.frames k ≡ some f
      → SamePages io pool (release pool (pos a))
        × (get_elem? (release pool (pos a)).frames k
            ≡ some (if holds a f then record f { ref = 0 } else f))
  unfolding release
  release-unpins pool a k f v at = elim (first_at-Finds (pos a) 0 pool.frames) [
    | inl e ↦
        let whole : release pool (pos a) ≡ pool = ground arith in
        rw whole (
          record { valid = v; length = refl; pages = λ b al lt. refl },
          at ∙ ground (arith, first_at-none (pos a) 0 k pool.frames f),
        )
    | inr (j, h, e, at', q) ↦
        let g : Frame P = record h { ref = 0 } in
        let whole : release pool (pos a) ≡ record pool { frames = set pool.frames j g } =
          ground arith in
        rw whole (
          record {
            valid = set-IsValid pool v j h g at' refl;
            length = refl;
            pages = λ b al lt.
                set-view pool v j h g at' refl b ∙ ground (arith, held_view pool v b j h at');
          },
          elim (Bool-cases (j == k)) [
            | inl same ↦
                let same' : j ≡ k = ground arith in
                rw same' (
                  get_elem?-set_self pool.frames k g (get_elem?-lt pool.frames k at)
                  ∙ ground (arith, same'))
            | inr other ↦
                get_elem?-set_ne pool.frames j k g (ground arith)
                ∙ at
                ∙ ground (arith, holds_once a j k pool.frames h f at' at q, v.unique a)
          ],
        )
  ]
