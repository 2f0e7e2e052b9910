-- ===== src/Tests/Disk.antt =====
-- A stream that never fails, and a file of two pages, each of them one number. The name of a file is the stream that it opens.
use ds_my_sql.Base.{ℕ, ◌+◌, ◌≡◌, Option, none, some, arith, ◌==◌, if◌then◌else◌, pos, refl}
use ds_my_sql.FileIo.{page_size, Stdio, file_io_success, FileInfo, read_page, Reliable}
use ds_my_sql.FileIo.Laws.{written, read_page-write_page}

pub record Disk (P : Type 0) : Type 0 where
  pub size : ℕ
  pub page : ℕ → Option P

abbrev pub written_at : {P : Type 0} → Disk P → ℕ → P → Disk P
written_at disk a p = record {
  size = if a == disk.size then disk.size + page_size else disk.size;
  page = λ b. if b == a then some p else disk.page b;
}

abbrev pub stdio : {P : Type 0} → Stdio P (Disk P) (Disk P)
stdio = record {
  open_existing = λ disk. some disk;
  create = λ disk. none;
  seek_end = λ disk. some disk;
  tell = λ disk. some disk.size;
  read_at = λ disk a. disk.page a;
  write_at = λ disk a p. some (written_at disk a p);
}

pub reliable : {P : Type 0} → Reliable (stdio {P = P})
reliable = record {
  wrote = written_at;
  write_lands = λ fp a p. refl;
  read_back = λ fp a p al. ground arith;
  read_other = λ fp a b p al al' ne. ground arith;
}

abbrev pub disk : Disk ℕ
disk = record {
  size = 256;
  page = λ a. if a == 0 then some 10 else if a == 128 then some 20 else none;
}

abbrev pub file : FileInfo (Disk ℕ)
file = record { fp = disk; length = 256 }

read_page-write_page_example :
    (read_page stdio (written stdio reliable 30 file 256) (pos 256) ≡ (file_io_success, some 30))
    × ((written stdio reliable 30 file 256).length
        ≡ (if 256 == file.length then file.length + page_size else file.length))
    × (read_page stdio (written stdio reliable 30 file 256) (pos 128)
        ≡ read_page stdio file (pos 128))
read_page-write_page_example =
    read_page-write_page stdio reliable 30 file 256 128 refl (omega arith) refl (omega arith)
      (omega arith)
