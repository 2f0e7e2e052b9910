-- ===== src/Tests/Word.antt =====
-- A write to a word of a page of the free space map.
use ds_my_sql.Base.{
  ℕ, ◌<◌, ◌%◌, ◌≡◌, ◌⊎◌, inl, inr, none, some, arith, ◌∷◌, ◌==◌, if◌then◌else◌, pos, minus_one,
  refl, replicate, Bool-cases,
}
use ds_my_sql.Base.State.{◌>>=◌, ◌>>◌}
use ds_my_sql.FileIo.{page_size}
use ds_my_sql.BufferPool.{Frame, BufferPool, get_page}
use ds_my_sql.BufferPool.Arrays.{count}
use ds_my_sql.BufferPool.View.{view, IsValid}
use ds_my_sql.HashMap.Words.{Words, store, rel, get}
use ds_my_sql.HashMap.Refines.{changed, store-view}
use ds_my_sql.Tests.Disk.{Disk, stdio, reliable}

abbrev two_pages : Disk Words
two_pages = record {
  size = 256;
  page =
      λ a. if a == 0 then some (λ i. minus_one) else if a == 128 then some (λ i. pos i) else none;
}

abbrev no_words : Frame Words
no_words = record { page = λ i. pos 0; addr = minus_one; cnt = 1; ref = 0 }

-- A pool with the first page in its first frame.
abbrev words_pool : BufferPool Words (Disk Words)
words_pool = record {
  file = record { fp = two_pages; length = 256 };
  frames = record { page = λ i. pos 7; addr = pos 0; cnt = 2; ref = 0 } ∷ replicate 7 no_words;
}

words_pool-IsValid : IsValid stdio words_pool
unfolding count
words_pool-IsValid = record {
  aligned = refl;
  unique = λ a. ground arith;
  inside = ((refl, omega arith), (refl, (refl, (refl, (refl, (refl, (refl, (refl, tt))))))));
  readable = λ a al lt. elim (Bool-cases (a == 0)) [
    | inl e ↦ ((λ i. minus_one), ground arith)
    | inr n ↦ ((λ i. pos i), ground arith)
  ];
}

store-view_example :
    ((get_page stdio words_pool (pos 128)).1 ≡ none)
    ⊎ ((pool' : BufferPool Words (Disk Words)) × (p : Words) × (view stdio words_pool 128 ≡ some p)
        × ((get stdio (pos 128) >>= λ k. store k 3 (pos 512) >> rel (pos 128)) words_pool
            ≡ some (tt, pool'))
        × IsValid stdio pool'
        × (pool'.file.length ≡ 256)
        × ((b : ℕ)
            → b % page_size ≡ 0
            → b < 256
            → view stdio pool' b
              ≡ (if 128 == b then some (changed p 3 (pos 512)) else view stdio words_pool b)))
store-view_example =
    store-view stdio reliable words_pool 128 3 (pos 512) words_pool-IsValid refl (omega arith)
      (omega arith)
