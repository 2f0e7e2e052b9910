-- ===== src/BufferPool.antt =====
-- The page cache: src/buffer_pool.c and include/buffer_pool.h.
-- The arrays `pages`, `addrs`, `cnt` and `ref` have one index, so the pool is one array of frames;
-- a `Page *` into the pool is the index of its frame. -1 in `int k` is `none`.
pub mod Arrays
pub mod Loops
pub mod View
pub mod GetPage
pub mod Pins
pub mod Full
pub mod Idle
pub mod Ready
pub mod Reads
pub mod Extend
pub mod Clients
pub mod Close
use ds_my_sql.Base.{
  ℕ, zero, suc, ◌+◌, ◌%◌, ◌^◌, Option, none, some, List, [], ◌∷◌, ◌==◌, ltb, if◌then◌else◌, ℤ, pos,
  minus_one, eq_ℤ, ltb_ℤ, is_negative, get_elem?, set,
}
use ds_my_sql.FileIo.{
  Stdio, FileIoResult, file_io_success, FileInfo, open_file, close_file, read_page, write_page,
}

abbrev pub cache_page : ℕ
cache_page = 8

pub record Frame (P : Type 0) : Type 0 where
  pub page : P
  pub addr : ℤ
  pub cnt : ℕ
  pub ref : ℕ

pub record BufferPool (P S : Type 0) : Type 0 where
  pub file : FileInfo S
  pub frames : List (Frame P)

module _ {P : Type 0} where
  -- The body of the loop in `init_buffer_pool`; the frame's page is what memory held.
  unfoldable pub clear_frames : List P → List (Frame P)
  clear_frames [] = []
  clear_frames (p ∷ ps) = record { page = p; addr = minus_one; cnt = 1; ref = 0 } ∷ clear_frames ps

  -- The loop under `//hit` of `get_page`: its effect on the frames ...
  unfoldable pub touch : ℤ → List (Frame P) → List (Frame P)
  touch addr [] = []
  touch addr (f ∷ fs) =
      (if eq_ℤ f.addr addr
        then record f { ref = 1; cnt = 1 }
        else record f { cnt = (f.cnt + 1) % 2 ^ 64 })
      ∷ touch addr fs

  -- ... and the last value that it gives `k`.
  unfoldable pub hit_loop : ℤ → ℕ → Option ℕ → List (Frame P) → Option ℕ
  hit_loop addr i k [] = k
  hit_loop addr i k (f ∷ fs) = hit_loop addr (i + 1) (if eq_ℤ f.addr addr then some i else k) fs

  -- The first frame whose address is `addr`: the loop under `//not full` at -1, and the one of
  -- `release`.
  unfoldable pub first_at : ℤ → ℕ → List (Frame P) → Option ℕ
  first_at addr i [] = none
  first_at addr i (f ∷ fs) = if eq_ℤ f.addr addr then some i else first_at addr (i + 1) fs

  -- The loop under `//full`.
  unfoldable pub victim_loop : ℕ → ℕ → Option ℕ → List (Frame P) → Option ℕ
  victim_loop i tmp k [] = k
  victim_loop i tmp k (f ∷ fs) =
      if f.ref == 0
      then (if ltb tmp f.cnt
          then victim_loop (i + 1) f.cnt (some i) fs
          else victim_loop (i + 1) tmp k fs)
      else victim_loop (i + 1) tmp k fs

  -- The loop of `num_valid_pool`.
  unfoldable pub count_unpinned : List (Frame P) → ℕ
  count_unpinned [] = 0
  count_unpinned (f ∷ fs) = if f.ref == 0 then suc (count_unpinned fs) else count_unpinned fs

module _ {P S : Type 0} where
  unfoldable pub num_valid_pool : BufferPool P S → ℕ
  num_valid_pool pool = count_unpinned pool.frames

  -- What `*page` is.
  unfoldable pub deref : BufferPool P S → ℕ → Option P
  deref pool k = elim (get_elem? pool.frames k) [ none ↦ none | some f ↦ some f.page ]

  -- `*page = p`, the writes that clients make through the pointer.
  unfoldable pub assign : BufferPool P S → ℕ → P → BufferPool P S
  assign pool k p = elim (get_elem? pool.frames k) [
    | none ↦ pool
    | some f ↦ record pool { frames = set pool.frames k (record f { page = p }) }
  ]

  unfoldable pub release : BufferPool P S → ℤ → BufferPool P S
  release pool addr = elim (first_at addr 0 pool.frames) [
    | none ↦ pool
    | some i ↦ elim (get_elem? pool.frames i) [
      | none ↦ pool
      | some f ↦ record pool { frames = set pool.frames i (record f { ref = 0 }) }
    ]
  ]

module _ {P S Name : Type 0} (io : Stdio P S Name) where
  -- `garbage` is what the memory of the frames holds.
  unfoldable pub init_buffer_pool : List P → Name → FileIoResult × Option (BufferPool P S)
  init_buffer_pool garbage name =
      let (result, opened) = open_file io name in
      elim opened [
        | none ↦ (result, none)
        | some file ↦ (result, some (record { file = file; frames = clear_frames garbage }))
      ]

  -- The loop of `close_buffer_pool`.
  unfoldable pub flush : FileInfo S → List (Frame P) → FileInfo S
  flush file [] = file
  flush file (f ∷ fs) =
      flush (if is_negative f.addr then file else (write_page io f.page file f.addr).1) fs

  unfoldable pub close_buffer_pool : BufferPool P S → S
  close_buffer_pool pool = close_file io (flush pool.file pool.frames)

  -- `//full`: the victim's page is written back.
  unfoldable pub evict : FileInfo S → List (Frame P) → FileInfo S × Option ℕ
  evict file frames = elim (victim_loop 0 0 none frames) [
    | none ↦ (file, none)
    | some k ↦ elim (get_elem? frames k) [
      | none ↦ (file, none)
      | some f ↦ ((write_page io f.page file f.addr).1, some k)
    ]
  ]

  -- `//read`: frame `k` is given to `addr`.
  unfoldable pub fill : FileInfo S → List (Frame P) → ℕ → ℤ → Frame P → BufferPool P S
  fill file frames k addr f =
      if eq_ℤ (pos file.length) addr
      then record {
        file = (write_page io f.page file addr).1;
        frames = set frames k (record { page = f.page; addr = addr; cnt = 1; ref = 1 });
      }
      else record {
        file = file;
        frames = set frames k (record {
          page = elim ((read_page io file addr).1) [ none ↦ f.page | some p ↦ p ];
          addr = addr;
          cnt = 1;
          ref = 1;
        });
      }

  -- `//not full`, then `//full`.
  unfoldable pub choose : FileInfo S → List (Frame P) → FileInfo S × Option ℕ
  choose file frames = elim (first_at minus_one 0 frames) [
    | some k ↦ (file, some k)
    | none ↦ evict file frames
  ]

  -- `//miss`
  unfoldable pub miss : FileInfo S → List (Frame P) → ℤ → BufferPool P S × Option ℕ
  miss file frames addr =
      let (file', chosen) = choose file frames in
      elim chosen [
        | none ↦ (record { file = file'; frames = frames }, none)
        | some k ↦ elim (get_elem? frames k) [
          | none ↦ (record { file = file'; frames = frames }, none)
          | some f ↦ (fill file' frames k addr f, some k)
        ]
      ]

  -- The result is the frame of the page, or `none` for NULL.
  unfoldable pub get_page : BufferPool P S → ℤ → BufferPool P S × Option ℕ
  get_page pool addr =
      if ltb_ℤ (pos pool.file.length) addr
      then (pool, none)
      else elim (hit_loop addr 0 none pool.frames) [
        | some k ↦ (record pool { frames = touch addr pool.frames }, some k)
        | none ↦ miss pool.file (touch addr pool.frames) addr
      ]
