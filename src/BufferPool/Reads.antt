-- ===== src/BufferPool/Reads.antt =====
-- `get_page` and the release of the page, from a pool in which no page is held.
use ds_my_sql.Base.{
  ℕ, ◌%◌, ◌≤◌, ◌<◌, ◌≡◌, inl, inr, ap, sym, subst, false, Option, none, some, List, arith, ltb, ◌∙◌,
  pos, minus_one, set,
}
use ds_my_sql.FileIo.{page_size, Stdio, FileInfo, Reliable}
use ds_my_sql.BufferPool.{Frame, BufferPool, touch, choose, evict, miss, get_page, release}
use ds_my_sql.BufferPool.Loops.{hit_loop-Finds, first_at-Finds, victim_loop-Finds}
use ds_my_sql.BufferPool.View.{view, IsValid, SamePages}
use ds_my_sql.BufferPool.GetPage.{Pinned, get_page-Answers, SamePages-trans}
use ds_my_sql.BufferPool.Pins.{choose_free}
use ds_my_sql.BufferPool.Idle.{fill_frame}
use ds_my_sql.BufferPool.Ready.{
  AllFreeBut, HasLow, HasVictim, IsReady, touch-AllFreeBut, set-AllFreeBut, set-HasLow,
  touch-HasLow, touch-HasVictim, victim_loop-HasVictim, release-IsReady,
}
use ds_my_sql.BufferPool.Clients.{release-unpins}

module _ {P S Name : Type 0} (io : Stdio P S Name) where
  -- What `get_page` leaves: it answers a frame, and no frame but that of the page is pinned.
  abbrev Got : ℕ → BufferPool P S × Option ℕ → Type 0
  Got a (pool, out) = ((out ≡ none) → ⊥) × AllFreeBut a pool.frames × HasLow pool.frames

  choose-HasVictim :
      (file : FileInfo S) (fs : List (Frame P)) → HasVictim fs → (choose io file fs).1 ≡ none → ⊥
  unfolding choose evict
  choose-HasVictim file fs h n = elim (first_at-Finds minus_one 0 fs) [
    | inr (j, f, e, at, q) ↦ ground arith
    | inl e ↦ elim (victim_loop-Finds 0 0 none fs) [
      | inl n' ↦ victim_loop-HasVictim 0 fs h n'
      | inr (j, f, e', at, q) ↦ ground arith
    ]
  ]

  miss-Got :
      (file : FileInfo S) (fs : List (Frame P)) (a : ℕ)
      → AllFreeBut a fs
      → HasVictim fs
      → Got a (miss io file fs (pos a))
  unfolding miss
  miss-Got file fs a h v = elim (choose_free io file fs) [
    | inl e ↦ absurd (choose-HasVictim file fs v e)
    | inr (j, f, e, at, free) ↦
        let (g, frames, addr, cnt) = fill_frame io (choose io file fs).0 fs j (pos a) f in
        let whole : (miss io file fs (pos a)).0.frames ≡ set fs j g = ground arith in
        (
          λ n. ground arith,
          subst (λ x. AllFreeBut a x) (sym whole) (set-AllFreeBut a j g fs h (ground arith)),
          subst (λ x. HasLow x) (sym whole) (set-HasLow j f g fs at (omega arith)),
        )
  ]

  get_page-Got :
      (pool : BufferPool P S) (a : ℕ)
      → a ≤ pool.file.length
      → IsReady pool
      → Got a (get_page io pool (pos a))
  unfolding get_page
  get_page-Got pool a le h =
      let low : ltb pool.file.length a ≡ false = ground arith in
      let free = touch-AllFreeBut a pool.frames h.free in
      rw low (elim (hit_loop-Finds a 0 none pool.frames) [
        | inl (e, absent) ↦
            let victim = touch-HasVictim a pool.frames h.free h.low absent in
            rw e (miss-Got pool.file (touch (pos a) pool.frames) a free victim)
        | inr (j, f, e, at, q) ↦ rw e (λ n. ground arith, free, touch-HasLow a j f pool.frames at q)
      ])

  -- A call of `get_page` for the page at `a`, which is released later.
  pub record Reads (pool : BufferPool P S) (a : ℕ) (page : P) : Type 0 where
    pub k : ℕ
    pub pool' : BufferPool P S
    pub run : get_page io pool (pos a) ≡ (pool', some k)
    pub pinned : Pinned io pool' k a page
    pub released : SamePages io pool (release pool' (pos a))
    pub ready : IsReady (release pool' (pos a))

  -- On a stream without device errors, a valid pool in which no page is held, however often it was
  -- used, answers a pinned frame with the page at `a`. After its release the pool stands for the same
  -- pages, and no page is held again.
  pub get_page-Reads :
      (r : Reliable io) (pool : BufferPool P S) (a : ℕ) (page : P)
      → IsValid io pool
      → IsReady pool
      → a % page_size ≡ 0
      → a < pool.file.length
      → view io pool a ≡ some page
      → Reads pool a page
  get_page-Reads r pool a page v h al lt there =
      let (same, answer) = get_page-Answers io r pool a v al lt in
      let (some_frame, free, low) = get_page-Got pool a (omega arith) h in
      elim answer [
        | inl null ↦ absurd (some_frame null)
        | inr (k, p, out, seen, (f, at, addr, ref, page_eq)) ↦
            let pool' : BufferPool P S = (get_page io pool (pos a)).0 in
            let (same', at') = release-unpins io pool' a k f same.valid at in
            let same_page : p ≡ page = ground (arith, seen, there) in
            record {
              k = k;
              pool' = pool';
              run = ap (λ o. (pool', o)) out;
              pinned = (f, at, addr, ref, page_eq ∙ same_page);
              released = SamePages-trans io pool pool' (release pool' (pos a)) same same';
              ready = release-IsReady a pool' free low (same.valid.unique a);
            }
      ]
