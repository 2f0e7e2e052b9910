-- ===== src/FileIo.antt =====
-- Page files: src/file_io.c and include/file_io.h.
-- The C library's stream calls are the parameter `Stdio`; a page is of any type, since this layer
-- moves pages and never looks into one.
use ds_my_sql.Base.{
  ℕ, ◌+◌, ◌-◌, ◌%◌, ◌≢◌, ◌≡◌, Option, none, some, ◌==◌, ltb, leb, if◌then◌else◌, ℤ, pos, negsuc,
}
pub mod Laws

abbrev pub page_size : ℕ
page_size = 128

-- The C library over streams of type `S`, whose pages have type `P`.
-- `tell` has no value where `ftell` returns -1; `read_at` and `write_at` are `fseek` from the start
-- followed by `fread` or `fwrite` of one page, and have no value where a call reports an error.
pub record Stdio (P S Name : Type 0) : Type 0 where
  pub open_existing : Name → Option S
  pub create : Name → Option S
  pub seek_end : S → Option S
  pub tell : S → Option ℕ
  pub read_at : S → ℕ → Option P
  pub write_at : S → ℕ → P → Option S

pub data FileIoResult : Type 0 where
  file_io_success file_io_failed invalid_len invalid_addr addr_out_of_range : FileIoResult

pub record FileInfo (S : Type 0) : Type 0 where
  pub fp : S
  pub length : ℕ

-- `addr & PAGE_MASK` on a 64-bit two's complement word.
abbrev pub masked : ℤ → ℕ
masked (pos n) = n % page_size
masked (negsuc n) = page_size - 1 - n % page_size

module _ {P S Name : Type 0} (io : Stdio P S Name) where
  open io use {open_existing, create, seek_end, tell, read_at, write_at}

  measure : S → FileIoResult × Option (FileInfo S)
  measure fp = elim (seek_end fp) [
    | none ↦ (file_io_failed, none)
    | some fp ↦ elim (tell fp) [
      | none ↦ (invalid_len, none)
      | some n ↦
          if masked (pos n) == 0
          then (file_io_success, some (record { fp = fp; length = n }))
          else (invalid_len, none)
    ]
  ]

  -- No file is handed out with a failure.
  unfoldable pub open_file : Name → FileIoResult × Option (FileInfo S)
  unfolding measure
  open_file name = elim (open_existing name) [
    | some fp ↦ measure fp
    | none ↦ elim (create name) [ some fp ↦ measure fp | none ↦ (file_io_failed, none) ]
  ]

  -- What is on disk once the stream is closed.
  unfoldable pub close_file : FileInfo S → S
  close_file file = file.fp

  read_in_range : FileInfo S → ℕ → FileIoResult × Option P
  read_in_range file n =
      if leb file.length n then (addr_out_of_range, none) else elim (read_at file.fp n) [
        | none ↦ (file_io_failed, none)
        | some p ↦ (file_io_success, some p)
      ]

  -- `*page` is left as it was where no page is returned.
  unfoldable pub read_page : FileInfo S → ℤ → FileIoResult × Option P
  unfolding read_in_range
  read_page file addr =
      if masked addr == 0
      then elim addr [ negsuc _ ↦ (addr_out_of_range, none) | pos n ↦ read_in_range file n ]
      else (invalid_addr, none)

  write_in_range : P → FileInfo S → ℕ → FileIoResult × FileInfo S
  write_in_range page file n =
      if ltb file.length n then (addr_out_of_range, file) else elim (write_at file.fp n page) [
        | none ↦ (file_io_failed, file)
        | some fp ↦ (
          file_io_success,
          record {
            fp = fp;
            length = if n == file.length then file.length + page_size else file.length;
          },
        )
      ]

  unfoldable pub write_page : P → FileInfo S → ℤ → FileIoResult × FileInfo S
  unfolding write_in_range
  write_page page file addr =
      if masked addr == 0
      then elim addr [ negsuc _ ↦ (addr_out_of_range, file) | pos n ↦ write_in_range page file n ]
      else (invalid_addr, file)

  -- Documented behaviour of a stream without device errors: a page that is written at a page
  -- boundary is read back, and the other pages are left alone.
  pub record Reliable : Type 0 where
    pub wrote : S → ℕ → P → S
    pub write_lands : (fp : S) (a : ℕ) (p : P) → write_at fp a p ≡ some (wrote fp a p)
    pub read_back : (fp : S) (a : ℕ) (p : P) → a % page_size ≡ 0 → read_at (wrote fp a p) a ≡ some p
    pub read_other :
        (fp : S) (a b : ℕ) (p : P)
        → a % page_size ≡ 0
        → b % page_size ≡ 0
        → a ≢ b
        → read_at (wrote fp a p) b ≡ read_at fp b
