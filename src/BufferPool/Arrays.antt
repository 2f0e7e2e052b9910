-- ===== src/BufferPool/Arrays.antt =====
-- Where an address stands among the frames of a pool.
use ds_my_sql.Base.{
  ℕ, zero, suc, ◌+◌, ◌%◌, ◌≤◌, ◌<◌, ◌≡◌, refl, Bool, true, Option, none, some, List, [], ◌∷◌, arith,
  if◌then◌else◌, to_nat, ℤ, pos, negsuc, eq_ℤ, get_elem?, set,
}
use ds_my_sql.FileIo.{page_size}
use ds_my_sql.BufferPool.{Frame, touch}

-- A frame is empty, or holds a page of a file of that length.
abbrev pub InFile : ℕ → ℤ → Type 0
InFile n (pos a) = (a % page_size ≡ 0) × (a < n)
InFile n (negsuc k) = k ≡ 0

InFile-mono : (n m : ℕ) (a : ℤ) → n ≤ m → InFile n a → InFile m a
InFile-mono n m (pos a) le h = omega arith
InFile-mono n m (negsuc k) le h = h

module _ {P : Type 0} where
  abbrev pub holds : ℕ → Frame P → Bool
  holds a f = eq_ℤ f.addr (pos a)

  -- The number of frames that hold a page.
  unfoldable pub count : ℕ → List (Frame P) → ℕ
  count a [] = 0
  count a (f ∷ fs) = to_nat (holds a f) + count a fs

  -- The page in the first frame that holds it.
  unfoldable pub lookup : ℕ → List (Frame P) → Option P
  lookup a [] = none
  lookup a (f ∷ fs) = if holds a f then some f.page else lookup a fs

  abbrev pub AllInFile : ℕ → List (Frame P) → Type 0
  AllInFile n [] = Unit
  AllInFile n (f ∷ fs) = InFile n f.addr × AllInFile n fs

  pub lookup-none : (a : ℕ) (fs : List (Frame P)) → count a fs ≡ 0 → lookup a fs ≡ none
  unfolding count lookup
  lookup-none a [] h = refl
  lookup-none a (f ∷ fs) h = ground (arith, lookup-none a fs)

  pub lookup_at :
      (a j : ℕ) (fs : List (Frame P)) (f : Frame P)
      → get_elem? fs j ≡ some f
      → holds a f ≡ true
      → count a fs ≤ 1
      → (lookup a fs ≡ some f.page) × (count a fs ≡ 1)
  unfolding count lookup
  lookup_at a j [] f e h c = ground arith
  lookup_at a zero (g ∷ fs) f e h c = ground arith
  lookup_at a (suc j) (g ∷ fs) f e h c = ground (arith, lookup_at a j fs f)

  module _ (g : Frame P) where
    pub count-set :
        (a j : ℕ) (fs : List (Frame P)) (f : Frame P)
        → get_elem? fs j ≡ some f
        → count a (set fs j g) + to_nat (holds a f) ≡ count a fs + to_nat (holds a g)
    unfolding count
    count-set a j [] f e = ground arith
    count-set a zero (h ∷ fs) f e = ground arith
    count-set a (suc j) (h ∷ fs) f e = ground (arith, count-set a j fs f)

    pub lookup-set :
        (a j : ℕ) (fs : List (Frame P)) (f : Frame P)
        → get_elem? fs j ≡ some f
        → count a fs ≤ 1
        → count a (set fs j g) ≤ 1
        → lookup a (set fs j g)
          ≡ (if holds a g then some g.page else if holds a f then none else lookup a fs)
    unfolding count lookup
    lookup-set a j [] f e c c' = ground arith
    lookup-set a zero (h ∷ fs) f e c c' = ground (arith, lookup-none a fs)
    lookup-set a (suc j) (h ∷ fs) f e c c' =
        ground
          (arith, lookup-set a j fs f, count-set a j fs f, lookup-none a fs, lookup_at a j fs f)

    pub AllInFile-set :
        (n j : ℕ) (fs : List (Frame P))
        → AllInFile n fs
        → InFile n g.addr
        → AllInFile n (set fs j g)
    AllInFile-set n j [] h i = tt
    AllInFile-set n zero (f ∷ fs) h i = (i, h.1)
    AllInFile-set n (suc j) (f ∷ fs) h i = (h.0, AllInFile-set n j fs h.1 i)

  pub InFile-get_elem? :
      (n j : ℕ) (fs : List (Frame P)) (f : Frame P)
      → AllInFile n fs
      → get_elem? fs j ≡ some f
      → InFile n f.addr
  InFile-get_elem? n j [] f h e = ground arith
  InFile-get_elem? n zero (g ∷ fs) f h e = ground arith
  InFile-get_elem? n (suc j) (g ∷ fs) f h e = InFile-get_elem? n j fs f h.1 e

  pub AllInFile-mono : (n m : ℕ) (fs : List (Frame P)) → n ≤ m → AllInFile n fs → AllInFile m fs
  AllInFile-mono n m [] le h = tt
  AllInFile-mono n m (f ∷ fs) le h = (InFile-mono n m f.addr le h.0, AllInFile-mono n m fs le h.1)

  pub lookup_in_file : (n a : ℕ) (fs : List (Frame P)) → AllInFile n fs → n ≤ a → count a fs ≡ 0
  unfolding count
  lookup_in_file n a [] h le = refl
  lookup_in_file n a (f ∷ fs) h le = ground (arith, lookup_in_file n a fs)

  -- The loop at the head of `get_page` moves no page.
  module _ (addr : ℤ) where
    pub count-touch : (a : ℕ) (fs : List (Frame P)) → count a (touch addr fs) ≡ count a fs
    unfolding count touch
    count-touch a [] = refl
    count-touch a (f ∷ fs) = ground (arith, count-touch a fs)

    pub lookup-touch : (a : ℕ) (fs : List (Frame P)) → lookup a (touch addr fs) ≡ lookup a fs
    unfolding lookup touch
    lookup-touch a [] = refl
    lookup-touch a (f ∷ fs) = ground (arith, lookup-touch a fs)

    pub AllInFile-touch :
        (n : ℕ) (fs : List (Frame P)) → AllInFile n fs → AllInFile n (touch addr fs)
    unfolding touch
    AllInFile-touch n [] h = tt
    AllInFile-touch n (f ∷ fs) h = ground (arith, AllInFile-touch n fs)

    pub get_elem?-touch :
        (j : ℕ) (fs : List (Frame P)) (f : Frame P)
        → get_elem? fs j ≡ some f
        → (g : Frame P) × (get_elem? (touch addr fs) j ≡ some g)
          × (g.page ≡ f.page)
          × (g.addr ≡ f.addr)
          × (g.ref ≡ (if eq_ℤ f.addr addr then 1 else f.ref))
    unfolding touch
    get_elem?-touch j [] f e = ground arith
    get_elem?-touch zero (h ∷ fs) f e = (_, refl, ground arith, ground arith, ground arith)
    get_elem?-touch (suc j) (h ∷ fs) f e = get_elem?-touch j fs f e
