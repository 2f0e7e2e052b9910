-- ===== src/BufferPool/Pins.antt =====
-- Pinning: a page that a client holds stays in its frame, and when `get_page` answers NULL.
use ds_my_sql.Base.{
  ℕ, ◌≡◌, ◌≢◌, ◌⊎◌, inl, inr, refl, true, false, none, some, List, arith, Bool-cases, Option-cases,
  ltb_ℤ, ℤ, pos, minus_one, eq_ℤ, eq_ℤ_eq, get_elem?, get_elem?-set_ne, set,
}
use ds_my_sql.FileIo.{Stdio, FileInfo, read_page}
use ds_my_sql.BufferPool.{Frame, BufferPool, touch, hit_loop, choose, evict, fill, miss, get_page}
use ds_my_sql.BufferPool.Arrays.{get_elem?-touch}
use ds_my_sql.BufferPool.Loops.{first_at-Finds, victim_loop-Finds}

module _ {P S Name : Type 0} (io : Stdio P S Name) where
  fill_frames :
      (file : FileInfo S) (fs : List (Frame P)) (k : ℕ) (addr : ℤ) (f : Frame P)
      → (g : Frame P) × ((fill io file fs k addr f).frames ≡ set fs k g)
  unfolding fill
  fill_frames file fs k addr f = elim (Bool-cases (eq_ℤ (pos file.length) addr)) [
    | inl e ↦ (record { page = f.page; addr = addr; cnt = 1; ref = 1 }, ground arith)
    | inr e ↦ (
      record {
        page = elim ((read_page io file addr).1) [ none ↦ f.page | some p ↦ p ];
        addr = addr;
        cnt = 1;
        ref = 1;
      },
      ground arith,
    )
  ]

  -- The frame that a miss takes is empty or unpinned.
  pub choose_free :
      (file : FileInfo S) (fs : List (Frame P))
      → ((choose io file fs).1 ≡ none)
        ⊎ ((j : ℕ) × (h : Frame P) × ((choose io file fs).1 ≡ some j)
            × (get_elem? fs j ≡ some h)
            × ((eq_ℤ h.addr minus_one ≡ true) ⊎ (h.ref ≡ 0)))
  unfolding choose evict
  choose_free file fs = elim (first_at-Finds minus_one 0 fs) [
    | inr (j, f, e, at, q) ↦ inr (j, f, ground arith, at, inl q)
    | inl e ↦ elim (victim_loop-Finds 0 0 none fs) [
      | inl n ↦ inl (ground arith)
      | inr (j, f, e', at, q) ↦ inr (j, f, ground arith, at, inr q)
    ]
  ]

  module _ (k : ℕ) (f : Frame P) (pinned : f.ref ≢ 0) (used : eq_ℤ f.addr minus_one ≡ false) where
    miss_keeps :
        (file : FileInfo S) (fs : List (Frame P)) (addr : ℤ)
        → get_elem? fs k ≡ some f
        → get_elem? ((miss io file fs addr).0).frames k ≡ some f
    unfolding miss
    miss_keeps file fs addr at = elim (choose_free file fs) [
      | inl n ↦ ground arith
      | inr (j, h, e, at', free) ↦
          let (g, set_at) = fill_frames (choose io file fs).0 fs j addr h in
          ground (arith, get_elem?-set_ne fs j k g)
    ]

  -- `get_page`, of any address, leaves a frame alone that is in use and pinned, but for its count:
  -- the frame stays where it is, with its page and address, and stays pinned. So a pointer from an
  -- earlier `get_page` is good until its page is released.
  pub get_page-pinned :
      (pool : BufferPool P S) (addr : ℤ) (k : ℕ) (f : Frame P)
      → get_elem? pool.frames k ≡ some f
      → f.ref ≢ 0
      → f.addr ≢ minus_one
      → (g : Frame P) × (get_elem? ((get_page io pool addr).0).frames k ≡ some g)
        × (g.page ≡ f.page)
        × (g.addr ≡ f.addr)
        × (g.ref ≢ 0)
  unfolding get_page
  get_page-pinned pool addr k f at pinned used =
      let (g, at', page, addr', ref) = get_elem?-touch addr k pool.frames f at in
      let still : g.ref ≢ 0 = ground arith in
      let used' : eq_ℤ g.addr minus_one ≡ false = ground (arith, eq_ℤ_eq f.addr minus_one) in
      elim (Bool-cases (ltb_ℤ (pos pool.file.length) addr)) [
        | inl high ↦ (f, ground arith, refl, refl, pinned)
        | inr low ↦ elim (Option-cases (hit_loop addr 0 none pool.frames)) [
          | inl n ↦ (
            g,
            ground (arith, miss_keeps k g still used' pool.file (touch addr pool.frames) addr),
            page,
            addr',
            still,
          )
          | inr (j, e) ↦ (g, ground arith, page, addr', still)
        ]
      ]
