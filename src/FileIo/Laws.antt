-- ===== src/FileIo/Laws.antt =====
-- What `read_page` and `write_page` of file_io.c do to the pages of a file.
use ds_my_sql.Base.{ℕ, ◌+◌, ◌%◌, ◌≤◌, ◌<◌, ◌≢◌, ◌≡◌, some, arith, ◌==◌, if◌then◌else◌, pos}
use ds_my_sql.FileIo.{page_size, Stdio, file_io_success, FileInfo, read_page, write_page, Reliable}

module _ {P S Name : Type 0} (io : Stdio P S Name) (r : Reliable io) where
  -- The file after a page went to an address within it or at its end.
  abbrev pub written : P → FileInfo S → ℕ → FileInfo S
  written page file n = (write_page io page file (pos n)).1

  pub write_page_lem :
      (page : P) (file : FileInfo S) (n : ℕ)
      → n % page_size ≡ 0
      → n ≤ file.length
      → (written page file n).fp ≡ r.wrote file.fp n page
  unfolding write_page
  write_page_lem page file n al le = ground (arith, r.write_lands file.fp n page)

  pub write_page-length :
      (page : P) (file : FileInfo S) (n : ℕ)
      → n % page_size ≡ 0
      → n < file.length
      → (written page file n).length ≡ file.length
  unfolding write_page
  write_page-length page file n al lt = ground (arith, r.write_lands file.fp n page)

  pub write_page-length_end :
      (page : P) (file : FileInfo S) (n : ℕ)
      → n % page_size ≡ 0
      → n ≡ file.length
      → (written page file n).length ≡ file.length + page_size
  unfolding write_page
  write_page-length_end page file n al e = ground (arith, r.write_lands file.fp n page)

  -- A page written at a page boundary within the file or at its end is what `read_page` then reads
  -- there; the file grows by one page if the address was its end, and keeps its length if not; and
  -- every other page of the file reads as before.
  pub read_page-write_page :
      (page : P) (file : FileInfo S) (n b : ℕ)
      → n % page_size ≡ 0
      → n ≤ file.length
      → b % page_size ≡ 0
      → b < file.length
      → b ≢ n
      → (read_page io (written page file n) (pos n) ≡ (file_io_success, some page))
        × ((written page file n).length
            ≡ (if n == file.length then file.length + page_size else file.length))
        × (read_page io (written page file n) (pos b) ≡ read_page io file (pos b))
  unfolding read_page write_page
  read_page-write_page page file n b al le al' lt ne = (
    ground (arith, r.write_lands file.fp n page, r.read_back file.fp n page),
    ground (arith, r.write_lands file.fp n page),
    ground (arith, r.write_lands file.fp n page, r.read_other file.fp n b page),
  )
