-- ===== src/Tests/Streams.antt =====
-- Files that are empty at first, of pages of any type.
use ds_my_sql.Base.{ℕ, ◌+◌, Option, none, some, List, ◌==◌, if◌then◌else◌, pos, replicate}
use ds_my_sql.FileIo.{Stdio, page_size}
use ds_my_sql.Block.{Block}
use ds_my_sql.HashMap.Words.{Words}

pub record Stream (P : Type 0) : Type 0 where
  pub size : ℕ
  pub page : ℕ → Option P

abbrev pub no_pages : {P : Type 0} → Stream P
no_pages = record { size = 0; page = λ a. none }

-- Every file is there, and empty.
abbrev pub io : {P : Type 0} → Stdio P (Stream P) ℕ
io = record {
  open_existing = λ name. some no_pages;
  create = λ s. none;
  seek_end = λ s. some s;
  tell = λ s. some s.size;
  read_at = λ s a. s.page a;
  write_at = λ s a p. some (record {
    size = if a == s.size then s.size + page_size else s.size;
    page = λ b. if b == a then some p else s.page b;
  });
}

abbrev pub zeroes : List Words
zeroes = replicate 8 (λ i. pos 0)

abbrev pub blank : Block
blank = record { n_items = 0; head_ptr = 0; tail_ptr = 0; bytes = λ q. 0 }
