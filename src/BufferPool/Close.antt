-- ===== src/BufferPool/Close.antt =====
-- `close_buffer_pool` writes back what the pool stands for, and `init_buffer_pool` reads it again.
use ds_my_sql.Base.{
  ℕ, ◌%◌, ◌≤◌, ◌<◌, ◌≡◌, ◌∙◌, inl, inr, refl, true, none, some, List, [], ◌∷◌, arith, if◌then◌else◌,
  Bool-cases, ℤ, pos, negsuc, minus_one, is_negative, ap,
}
use ds_my_sql.FileIo.{
  page_size, Stdio, FileInfo, file_io_success, open_file, write_page, close_file, Reliable,
}
use ds_my_sql.BufferPool.{
  Frame, BufferPool, clear_frames, init_buffer_pool, flush, close_buffer_pool,
}
use ds_my_sql.BufferPool.Arrays.{count, lookup, InFile, AllInFile, lookup-none}
use ds_my_sql.BufferPool.View.{
  view, IsValid, view-some, SamePages, IsFlushed, IsFlushed-empty, write_page-IsFlushed,
}

empty_addr : (n : ℕ) (z : ℤ) → InFile n z → is_negative z ≡ true → z ≡ minus_one
empty_addr n (pos a) h e = ground arith
empty_addr n (negsuc a) h e = ap negsuc h

module _ {P : Type 0} where
  count-clear_frames : (a : ℕ) (ps : List P) → count a (clear_frames ps) ≡ 0
  unfolding count clear_frames
  count-clear_frames a [] = refl
  count-clear_frames a (p ∷ ps) = ground (arith, count-clear_frames a ps)

  AllInFile-clear_frames : (n : ℕ) (ps : List P) → AllInFile n (clear_frames ps)
  unfolding clear_frames
  AllInFile-clear_frames n [] = tt
  AllInFile-clear_frames n (p ∷ ps) = (refl, AllInFile-clear_frames n ps)

module _ {P S Name : Type 0} (io : Stdio P S Name) where
  module _ (r : Reliable io) where
    flush_one :
        (file : FileInfo S) (f : Frame P)
        → InFile file.length f.addr
        → IsFlushed io file f
            (if is_negative f.addr then file else (write_page io f.page file f.addr).1)
    flush_one file f h = elim (Bool-cases (is_negative f.addr)) [
      | inl e ↦ rw e (IsFlushed-empty io file f (empty_addr _ _ h e))
      | inr e ↦ rw e (write_page-IsFlushed io r file f h)
    ]

    flush_lem :
        (file : FileInfo S) (fs : List (Frame P))
        → AllInFile file.length fs
        → ((a : ℕ) → count a fs ≤ 1)
        → (b : ℕ) → b % page_size ≡ 0
        → b < file.length
        → io.read_at (flush io file fs).fp b
          ≡ (elim (lookup b fs) [ some p ↦ some p | none ↦ io.read_at file.fp b ])
    unfolding flush lookup count
    flush_lem file [] h u b al lt = refl
    flush_lem file (f ∷ fs) h u b al lt =
        let file' : FileInfo S =
          if is_negative f.addr then file else (write_page io f.page file f.addr).1 in
        let one : IsFlushed io file f file' = flush_one file f h.0 in
        let rest =
          flush_lem file' fs (rw one.length h.1) (λ a. omega (arith, u a)) b al
            (rw one.length lt) in
        rest ∙ ground (arith, one.reads b al lt, lookup-none b fs, u b)

  -- On a stream without device errors, closing a valid pool leaves on disk, at each page of the
  -- file, the contents that the pool stood for.
  pub close_buffer_pool-view :
      (r : Reliable io) (pool : BufferPool P S) (b : ℕ)
      → IsValid io pool
      → b % page_size ≡ 0
      → b < pool.file.length
      → io.read_at (close_buffer_pool io pool) b ≡ view io pool b
  unfolding close_buffer_pool close_file view
  close_buffer_pool-view r pool b v al lt =
      flush_lem r pool.file pool.frames v.inside v.unique b al lt

  -- Suppose that opening the file named `name` again finds the stream `fp` with the pages that the
  -- closed pool left on disk, and the length of its file. Then `init_buffer_pool` succeeds with a
  -- valid pool that stands for the same pages as the pool that was closed.
  pub init_buffer_pool-close_buffer_pool :
      (r : Reliable io) (pool : BufferPool P S) (garbage : List P) (name : Name) (fp fp' : S)
      → IsValid io pool
      → io.open_existing name ≡ some fp
      → io.seek_end fp ≡ some fp'
      → io.tell fp' ≡ some pool.file.length
      → ((b : ℕ) → io.read_at fp' b ≡ io.read_at (close_buffer_pool io pool) b)
      → (pool' : BufferPool P S) × (init_buffer_pool io garbage name
          ≡ (file_io_success, some pool'))
        × SamePages io pool pool'
  unfolding init_buffer_pool open_file view
  init_buffer_pool-close_buffer_pool r pool garbage name fp fp' v opened ended told same =
      let back = λ (b : ℕ) (al : b % page_size ≡ 0) (lt : b < pool.file.length).
        same b ∙ close_buffer_pool-view r pool b v al lt in
      (
        record {
          file = record { fp = fp'; length = pool.file.length };
          frames = clear_frames garbage;
        },
        ground (arith, v.aligned),
        record {
          valid = record {
            aligned = v.aligned;
            unique = λ a. omega (arith, count-clear_frames a garbage);
            inside = AllInFile-clear_frames _ garbage;
            readable = λ a al lt. let (p, e) = view-some io pool a v al lt in (p, back a al lt ∙ e);
          };
          length = refl;
          pages = λ b al lt. ground (
            arith,
            back b al lt,
            lookup-none b (clear_frames garbage),
            count-clear_frames b garbage,
          );
        },
      )
