-- ===== src/BufferPool/Extend.antt =====
-- `get_page` at the end of the file adds a page to it.
use ds_my_sql.Base.{
  ℕ, ◌+◌, ◌%◌, ◌≤◌, ◌<◌, ◌≡◌, ◌⊎◌, inl, inr, refl, sym, false, none, some, arith, Bool-cases, ltb,
  pos, get_elem?-lt, if◌then◌else◌, get_elem?-set_self, set, ◌∙◌,
}
use ds_my_sql.FileIo.{page_size, Stdio, FileInfo, Reliable}
use ds_my_sql.FileIo.Laws.{written, write_page_lem, write_page-length_end}
use ds_my_sql.BufferPool.{Frame, BufferPool, touch, fill, miss, get_page}
use ds_my_sql.BufferPool.Arrays.{
  holds, count, lookup_at, count-set, lookup-set, AllInFile-set, AllInFile-mono, lookup_in_file,
}
use ds_my_sql.BufferPool.Loops.{hit_loop-Finds}
use ds_my_sql.BufferPool.View.{view, IsValid, SamePages, IsChosen, choose-IsChosen}
use ds_my_sql.BufferPool.GetPage.{Pinned, touch-SamePages}

module _ {P S Name : Type 0} (io : Stdio P S Name) where
  -- `pool'` is valid, its file is one page longer, and the pages of before are the same.
  pub record Extends (pool pool' : BufferPool P S) : Type 0 where
    pub valid : IsValid io pool'
    pub length : pool'.file.length ≡ pool.file.length + page_size
    pub pages :
        (b : ℕ) → b % page_size ≡ 0 → b < pool.file.length → view io pool' b ≡ view io pool b

  module _ (r : Reliable io) (pool : BufferPool P S) (v : IsValid io pool) (file' : FileInfo S)
      (k : ℕ) (f : Frame P) (c : IsChosen io pool file' k f) where
    abbrev end : ℕ
    end = pool.file.length

    abbrev fresh : Frame P
    fresh = record { page = f.page; addr = pos end; cnt = 1; ref = 1 }

    abbrev grown : BufferPool P S
    grown = record { file = written io r f.page file' end; frames = set pool.frames k fresh }

    fill_end : fill io file' pool.frames k (pos end) f ≡ grown
    unfolding fill
    fill_end = ground (arith, c.flushed.length)

    fp_end : grown.file.fp ≡ r.wrote file'.fp end f.page
    fp_end = write_page_lem io r f.page file' end v.aligned (omega (arith, c.flushed.length))

    length_end : grown.file.length ≡ end + page_size
    length_end =
        write_page-length_end io r f.page file' end v.aligned (sym c.flushed.length)
        ∙ ground (arith, c.flushed.length)

    absent : count end pool.frames ≡ 0
    absent = lookup_in_file end end pool.frames v.inside (omega arith)

    unique_end : (b : ℕ) → count b grown.frames ≤ 1
    unique_end b = ground (arith, count-set fresh b k pool.frames f c.at, v.unique b, absent)

    read_old :
        (b : ℕ)
        → b % page_size ≡ 0
        → b < end
        → io.read_at grown.file.fp b
          ≡ (if holds b f then some f.page else io.read_at pool.file.fp b)
    read_old b al lt =
        rw fp_end
          (r.read_other file'.fp end b f.page v.aligned al (omega arith) ∙ c.flushed.reads b al lt)

    read_new : io.read_at grown.file.fp end ≡ some f.page
    read_new = rw fp_end (r.read_back file'.fp end f.page v.aligned)

    readable_end :
        (b : ℕ)
        → b % page_size ≡ 0
        → b < grown.file.length
        → (p : P) × (io.read_at grown.file.fp b ≡ some p)
    readable_end b al lt = elim (Bool-cases (ltb b end)) [
      | inr at_end ↦
          let same : b ≡ end = omega (arith, v.aligned, length_end, not_ltb b end at_end) in
          (f.page, rw same read_new)
      | inl below ↦
          let lt' : b < end = ground arith in
          let (q, e) = v.readable b al lt' in
          elim (Bool-cases (holds b f)) [
            | inl h ↦ (f.page, read_old b al lt' ∙ rw h)
            | inr h ↦ (q, read_old b al lt' ∙ rw h e)
          ]
    ]
      where
        not_ltb : (m n : ℕ) → ltb m n ≡ false → n ≤ m
        not_ltb m n h = ground arith

    grown-Extends : Extends pool grown
    unfolding view
    grown-Extends = record {
      valid = record {
        aligned = rw length_end (omega (arith, v.aligned));
        unique = unique_end;
        inside = rw length_end (
            AllInFile-set fresh _ k pool.frames
              (AllInFile-mono end (end + page_size) pool.frames (omega arith) v.inside)
              (v.aligned, omega arith));
        readable = readable_end;
      };
      length = length_end;
      pages = λ b al lt. ground (
        arith,
        lookup-set fresh b k pool.frames f c.at (v.unique b) (unique_end b),
        lookup_at b k pool.frames f c.at,
        v.unique b,
        read_old b al lt,
      );
    }

  -- On a stream without device errors, `get_page` of a valid pool at the end of its file either
  -- answers NULL and leaves a valid pool that stands for the same pages, or makes the file one page
  -- longer, keeps its other pages, and answers a frame that is pinned and holds the new page.
  pub get_page-Extends :
      (r : Reliable io) (pool : BufferPool P S)
      → IsValid io pool
      → let (pool', out) = get_page io pool (pos pool.file.length) in
        ((out ≡ none) × SamePages io pool pool')
        ⊎ ((k : ℕ) × (p : P) × (out ≡ some k)
            × Pinned io pool' k pool.file.length p
            × Extends pool pool')
  unfolding get_page miss view
  get_page-Extends r pool v =
      let n = pool.file.length in
      let touched : BufferPool P S = record pool { frames = touch (pos n) pool.frames } in
      let same = touch-SamePages io pool (pos n) v in
      elim (hit_loop-Finds n 0 none pool.frames) [
        | inr (j, f, e, at, h) ↦ absurd (
            ground (
              arith,
              lookup_at n j pool.frames f at h,
              v.unique n,
              lookup_in_file n n pool.frames v.inside,
            ))
        | inl (e, none_held) ↦ elim (choose-IsChosen io r touched same.valid) [
          | inl (e', m) ↦
              let whole : get_page io pool (pos n) ≡ (touched, none) = ground arith in
              rw whole (inl (refl, same))
          | inr (file', k, f, e', c) ↦
              let x = grown-Extends r touched same.valid file' k f c in
              let whole : get_page io pool (pos n)
                  ≡ (grown r touched same.valid file' k f c, some k) =
                ground (arith, c.at, fill_end r touched same.valid file' k f c) in
              rw whole (
                inr (
                  k,
                  f.page,
                  refl,
                  (
                    _,
                    get_elem?-set_self touched.frames k _ (get_elem?-lt touched.frames k c.at),
                    refl,
                    refl,
                    refl,
                  ),
                  record {
                    valid = x.valid;
                    length = x.length;
                    pages = λ b al lt. x.pages b al lt ∙ same.pages b al lt;
                  },
                ))
        ]
      ]
