-- ===== src/HashMap/Words.antt =====
-- The pages of the free space map (include/hash_map.h) as 16 words of type `off_t`.
-- A control block has `free_block_head`, `n_directory_blocks` and `max_size` in words 0 to 2; a
-- directory block has its 16 entries; a hash block has `prv`, `next`, `n_items` and the 13 words of
-- `table`. There is no result where C follows a null page or indexes past a page.
use ds_my_sql.Base.{
  ℕ, zero, suc, ◌+◌, ◌-◌, none, some, ◌==◌, ltb, if◌then◌else◌, ℤ, pos, negsuc, minus_one,
  get_elem?, set,
}
use ds_my_sql.Base.State.{M}
use ds_my_sql.FileIo.{Stdio, page_size}
use ds_my_sql.BufferPool.{BufferPool, first_at, deref, assign, release, get_page}

abbrev pub Words : Type 0
Words = ℕ → ℤ

-- `HASH_MAP_DIR_BLOCK_SIZE` and `HASH_MAP_BLOCK_SIZE`
abbrev pub hash_map_dir_block_size : ℕ
hash_map_dir_block_size = 16

abbrev pub hash_map_block_size : ℕ
hash_map_block_size = 13

abbrev pub prv : ℕ
prv = 0

abbrev pub next : ℕ
next = 1

abbrev pub n_items : ℕ
n_items = 2

-- The word of `table[i]`, or one past the page.
abbrev pub table_word : ℤ → ℕ
table_word (pos i) = 3 + i
table_word (negsuc i) = 16

abbrev pub inc : ℤ → ℤ
inc (pos n) = pos (n + 1)
inc (negsuc zero) = pos 0
inc (negsuc (suc n)) = negsuc n

abbrev pub dec : ℤ → ℤ
dec (pos zero) = negsuc 0
dec (pos (suc n)) = pos n
dec (negsuc n) = negsuc (n + 1)

-- The rounds of a loop `for (i = 0; i < n; i++)`.
abbrev pub rounds : ℤ → ℕ
rounds (pos n) = n
rounds (negsuc n) = 0

module _ {S : Type 0} where
  unfoldable pub load : ℕ → ℕ → M (BufferPool Words S) ℤ
  load k i pool =
      if ltb i 16 then elim (deref pool k) [ none ↦ none | some p ↦ some (p i, pool) ] else none

  unfoldable pub store : ℕ → ℕ → ℤ → M (BufferPool Words S) (Unit {0})
  store k i v pool =
      if ltb i 16
      then elim (deref pool k) [
        | none ↦ none
        | some p ↦ some (tt, assign pool k (λ j. if j == i then v else p j))
      ]
      else none

  unfoldable pub rel : ℤ → M (BufferPool Words S) (Unit {0})
  rel addr pool = some (tt, release pool addr)

  unfoldable pub file_length : M (BufferPool Words S) ℤ
  file_length pool = some (pos pool.file.length, pool)

  -- Under `//del the last block`: the frame of `now` is emptied, and the file is a page shorter.
  unfoldable pub drop_last : ℤ → BufferPool Words S → BufferPool Words S
  drop_last now pool = record {
    file = record pool.file { length = pool.file.length - page_size };
    frames = elim (first_at now 0 pool.frames) [
      | none ↦ pool.frames
      | some j ↦ elim (get_elem? pool.frames j) [
        | none ↦ pool.frames
        | some f ↦ set pool.frames j (record { page = f.page; addr = minus_one; cnt = 1; ref = 0 })
      ]
    ];
  }

module _ {S Name : Type 0} (io : Stdio Words S Name) where
  unfoldable pub get : ℤ → M (BufferPool Words S) ℕ
  get addr pool =
      let (pool', page) = get_page io pool addr in
      elim page [ none ↦ none | some k ↦ some (k, pool') ]
