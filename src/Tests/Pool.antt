-- ===== src/Tests/Pool.antt =====
-- A page cache over the stream of two pages, with the second page pinned in its first frame.
use ds_my_sql.Base.{
  ℕ, ◌≡◌, ap, ◌≢◌, ◌↔◌, ◌⊎◌, none, some, ◌∷◌, arith, ◌==◌, pos, minus_one, refl, get_elem?,
  replicate, Bool-cases, inl, inr,
}
use ds_my_sql.FileIo.{file_io_success, close_file, write_page}
use ds_my_sql.BufferPool.{Frame, BufferPool, init_buffer_pool, flush, close_buffer_pool, get_page}
use ds_my_sql.BufferPool.Arrays.{count}
use ds_my_sql.BufferPool.View.{view, IsValid, SamePages}
use ds_my_sql.BufferPool.GetPage.{Answers, Pinned, get_page-Answers}
use ds_my_sql.BufferPool.Pins.{get_page-pinned}
use ds_my_sql.BufferPool.Full.{AllBusy, get_page-null}
use ds_my_sql.BufferPool.Extend.{Extends, get_page-Extends}
use ds_my_sql.BufferPool.Close.{close_buffer_pool-view, init_buffer_pool-close_buffer_pool}
use ds_my_sql.Tests.Disk.{Disk, stdio, reliable, file}

abbrev empty : Frame ℕ
empty = record { page = 0; addr = minus_one; cnt = 1; ref = 0 }

abbrev second : Frame ℕ
second = record { page = 25; addr = pos 128; cnt = 3; ref = 1 }

abbrev pool : BufferPool ℕ (Disk ℕ)
pool = record { file = file; frames = second ∷ replicate 7 empty }

pool-IsValid : IsValid stdio pool
unfolding count
pool-IsValid = record {
  aligned = refl;
  unique = λ a. ground arith;
  inside = ((refl, omega arith), (refl, (refl, (refl, (refl, (refl, (refl, (refl, tt))))))));
  readable = λ a al lt. elim (Bool-cases (a == 0)) [
    | inl e ↦ (10, ground arith)
    | inr n ↦ (20, ground arith)
  ];
}

get_page-Answers_example :
    SamePages stdio pool (get_page stdio pool (pos 0)).0
    × Answers stdio pool 0 (get_page stdio pool (pos 0))
get_page-Answers_example = get_page-Answers stdio reliable pool 0 pool-IsValid refl (omega arith)

get_page-pinned_example :
    (g : Frame ℕ) × (get_elem? ((get_page stdio pool (pos 0)).0).frames 0 ≡ some g)
    × (g.page ≡ 25)
    × (g.addr ≡ pos 128)
    × (g.ref ≢ 0)
get_page-pinned_example =
    get_page-pinned stdio pool (pos 0) 0 second refl (ground arith) (ground arith)

get_page-null_example :
    ((get_page stdio pool (pos 0)).1 ≡ none) ↔ ((count 0 pool.frames ≡ 0) × AllBusy pool.frames)
get_page-null_example =
    get_page-null stdio pool 0
      (
        omega arith,
        (
          omega arith,
          (
            omega arith,
            (omega arith, (omega arith, (omega arith, (omega arith, (omega arith, tt))))),
          ),
        ),
      )
      (omega arith)

get_page-Extends_example :
    let (pool', out) = get_page stdio pool (pos 256) in
    ((out ≡ none) × SamePages stdio pool pool')
    ⊎ ((k : ℕ) × (p : ℕ) × (out ≡ some k) × Pinned stdio pool' k 256 p × Extends stdio pool pool')
get_page-Extends_example = get_page-Extends stdio reliable pool pool-IsValid

close_buffer_pool-view_example :
    stdio.read_at (close_buffer_pool stdio pool) 128 ≡ view stdio pool 128
close_buffer_pool-view_example =
    close_buffer_pool-view stdio reliable pool 128 pool-IsValid refl (omega arith)

closed_size : (close_buffer_pool stdio pool).size ≡ 256
unfolding close_buffer_pool close_file flush write_page
closed_size = refl

init_buffer_pool-close_buffer_pool_example :
    (pool' : BufferPool ℕ (Disk ℕ)) × (init_buffer_pool stdio
        (replicate 8 0)
        (close_buffer_pool stdio pool)
      ≡ (file_io_success, some pool'))
    × SamePages stdio pool pool'
init_buffer_pool-close_buffer_pool_example =
    init_buffer_pool-close_buffer_pool stdio reliable pool (replicate 8 0)
      (close_buffer_pool stdio pool) (close_buffer_pool stdio pool) (close_buffer_pool stdio pool)
      pool-IsValid refl refl (ap some closed_size) (λ b. refl)
