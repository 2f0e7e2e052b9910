-- ===== src/BufferPool/View.antt =====
-- The pages that a pool stands for, whether they are in a frame or on disk, and the steps of a miss.
use ds_my_sql.Base.{
  ℕ, ◌%◌, ◌≤◌, ◌<◌, ◌≡◌, ◌∙◌, ap, ◌⊎◌, inl, inr, refl, Option, none, some, arith, if◌then◌else◌,
  Bool-cases, Option-cases, ℤ, pos, negsuc, minus_one, eq_ℤ_eq, get_elem?, set,
}
use ds_my_sql.FileIo.{page_size, Stdio, FileInfo, read_page, write_page, Reliable}
use ds_my_sql.FileIo.Laws.{write_page_lem, write_page-length}
use ds_my_sql.BufferPool.{Frame, BufferPool, victim_loop, evict, choose, fill}
use ds_my_sql.BufferPool.Arrays.{
  holds, count, lookup, InFile, AllInFile, lookup-none, lookup_at, count-set, lookup-set,
  AllInFile-set, InFile-get_elem?,
}
use ds_my_sql.BufferPool.Loops.{first_at-Finds, victim_loop-Finds}

module _ {P S Name : Type 0} (io : Stdio P S Name) where
  -- The contents of the page at an address.
  unfoldable pub view : BufferPool P S → ℕ → Option P
  view pool a = elim (lookup a pool.frames) [ some p ↦ some p | none ↦ io.read_at pool.file.fp a ]

  pub record IsValid (pool : BufferPool P S) : Type 0 where
    pub aligned : pool.file.length % page_size ≡ 0
    pub unique : (a : ℕ) → count a pool.frames ≤ 1
    pub inside : AllInFile pool.file.length pool.frames
    pub readable :
        (a : ℕ)
        → a % page_size ≡ 0
        → a < pool.file.length
        → (p : P) × (io.read_at pool.file.fp a ≡ some p)

  pub view-some :
      (pool : BufferPool P S) (a : ℕ)
      → IsValid pool
      → a % page_size ≡ 0
      → a < pool.file.length
      → (p : P) × (view pool a ≡ some p)
  unfolding view
  view-some pool a v al lt = elim (Option-cases (lookup a pool.frames)) [
    | inl n ↦ let (p, e) = v.readable a al lt in (p, ground arith)
    | inr (p, e) ↦ (p, ground arith)
  ]

  -- `pool'` is valid and stands for the same pages.
  pub record SamePages (pool pool' : BufferPool P S) : Type 0 where
    pub valid : IsValid pool'
    pub length : pool'.file.length ≡ pool.file.length
    pub pages : (b : ℕ) → b % page_size ≡ 0 → b < pool.file.length → view pool' b ≡ view pool b

  -- On disk, `file'` has the page of frame `f` and is else as `file`.
  pub record IsFlushed (file : FileInfo S) (f : Frame P) (file' : FileInfo S) : Type 0 where
    pub length : file'.length ≡ file.length
    pub reads :
        (b : ℕ)
        → b % page_size ≡ 0
        → b < file.length
        → io.read_at file'.fp b ≡ (if holds b f then some f.page else io.read_at file.fp b)

  pub IsFlushed-empty :
      (file : FileInfo S) (f : Frame P) → f.addr ≡ minus_one → IsFlushed file f file
  IsFlushed-empty file f e = record { length = refl; reads = λ b al lt. ground arith }

  module _ (r : Reliable io) (file : FileInfo S) (f : Frame P) where
    write_back :
        (z : ℤ)
        → f.addr ≡ z
        → InFile file.length z
        → IsFlushed file f (write_page io f.page file z).1
    unfolding write_page
    write_back (negsuc k) e h = let z : k ≡ 0 = h in rw z (IsFlushed-empty file f (e ∙ ap negsuc z))
    write_back (pos a) e (al, lt) = record {
      length = write_page-length io r f.page file a al lt;
      reads = λ b al' lt'. ground (
        arith,
        write_page_lem io r f.page file a,
        r.read_back file.fp a f.page,
        r.read_other file.fp a b f.page,
      );
    }

    -- Writing a frame back flushes it.
    pub write_page-IsFlushed :
        InFile file.length f.addr → IsFlushed file f (write_page io f.page file f.addr).1
    write_page-IsFlushed h = write_back f.addr refl h

  -- What `choose` answers: a frame that is empty or unpinned, whose page is on disk.
  pub record IsChosen (pool : BufferPool P S) (file' : FileInfo S) (k : ℕ) (f : Frame P)
      : Type 0 where
    pub at : get_elem? pool.frames k ≡ some f
    pub flushed : IsFlushed pool.file f file'
    pub free : (f.addr ≡ minus_one) ⊎ (f.ref ≡ 0)

  pub choose-IsChosen :
      (r : Reliable io) (pool : BufferPool P S)
      → IsValid pool
      → ((choose io pool.file pool.frames ≡ (pool.file, none))
          × (victim_loop 0 0 none pool.frames ≡ none))
        ⊎ ((file' : FileInfo S) × (k : ℕ) × (f : Frame P) × (choose io pool.file pool.frames
              ≡ (file', some k))
            × IsChosen pool file' k f)
  unfolding choose evict
  choose-IsChosen r pool v = elim (first_at-Finds minus_one 0 pool.frames) [
    | inr (j, f, e, at, q) ↦ inr (
      pool.file,
      j,
      f,
      ground arith,
      record {
        at = at;
        flushed = IsFlushed-empty pool.file f (eq_ℤ_eq _ _ q);
        free = inl (eq_ℤ_eq _ _ q);
      },
    )
    | inl e ↦ elim (victim_loop-Finds 0 0 none pool.frames) [
      | inl n ↦ inl (ground arith, n)
      | inr (j, f, e', at, q) ↦ inr (
        (write_page io f.page pool.file f.addr).1,
        j,
        f,
        ground arith,
        record {
          at = at;
          flushed =
              write_page-IsFlushed r pool.file f (InFile-get_elem? _ j pool.frames f v.inside at);
          free = inr q;
        },
      )
    ]
  ]

  -- A page of the file that is in no frame takes a chosen frame: the frame holds the page, and the
  -- pool stands for the pages of before.
  module _ (pool : BufferPool P S) (v : IsValid pool) (file' : FileInfo S) (k : ℕ) (f : Frame P)
      (c : IsChosen pool file' k f) (a : ℕ) (al : a % page_size ≡ 0) (lt : a < pool.file.length)
      (absent : count a pool.frames ≡ 0) where
    on_disk : (p : P) × (io.read_at file'.fp a ≡ some p) × (view pool a ≡ some p)
    unfolding view
    on_disk =
        let (p, e) = v.readable a al lt in
        (
          p,
          c.flushed.reads a al lt ∙ ground (arith, lookup_at a k pool.frames f c.at, v.unique a),
          ground (arith, lookup-none a pool.frames),
        )

    abbrev placed : P → Frame P
    placed p = record { page = p; addr = pos a; cnt = 1; ref = 1 }

    pub fill_lem :
        (p : P) × (view pool a ≡ some p)
        × (fill io file' pool.frames k (pos a) f
            ≡ record { file = file'; frames = set pool.frames k (placed p) })
    unfolding fill read_page
    fill_lem = let (p, e, e') = on_disk in (p, e', ground (arith, c.flushed.length))

    pub fill-SamePages :
        (p : P)
        → view pool a ≡ some p
        → SamePages pool (record { file = file'; frames = set pool.frames k (placed p) })
    unfolding view
    fill-SamePages p e =
        let fs = pool.frames in
        let once = λ (b : ℕ). count-set (placed p) b k fs f c.at in
        let unique' : (b : ℕ) → count b (set fs k (placed p)) ≤ 1 =
          λ b. ground (arith, once b, v.unique b) in
        record {
          valid = record {
            aligned = rw c.flushed.length v.aligned;
            unique = unique';
            inside =
                rw c.flushed.length
                  (AllInFile-set (placed p) pool.file.length k fs v.inside (al, lt));
            readable = λ b al' lt'.
                let lt'' : b < pool.file.length = omega (arith, c.flushed.length) in
                let (q, e'') = v.readable b al' lt'' in
                elim (Bool-cases (holds b f)) [
                  | inl h ↦ (f.page, c.flushed.reads b al' lt'' ∙ rw h)
                  | inr h ↦ (q, c.flushed.reads b al' lt'' ∙ rw h e'')
                ];
          };
          length = c.flushed.length;
          pages = λ b al' lt'. ground (
            arith,
            lookup-set (placed p) b k fs f c.at (v.unique b) (unique' b),
            lookup_at b k fs f c.at,
            v.unique b,
            c.flushed.reads b al' lt',
          );
        }
