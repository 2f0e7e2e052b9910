-- ===== src/Block/Slots.antt =====
-- The array of item ids: an assignment to one id, and the loops of block.c over all of them.
use ds_my_sql.Base.{
  ℕ, zero, suc, ◌+◌, ◌^◌, ◌≤◌, ◌<◌, ◌≡◌, ◌≢◌, ◌⊎◌, inl, inr, refl, true, false, arith, ◌==◌, ltb,
  leb, ◌&&◌, not, if◌then◌else◌, Bool-cases, none, some, Bool, ◌∙◌,
}
use ds_my_sql.Block.{
  ItemId, slot_at, get_item_id, set_item_id, availability, offset, size, compose_item_id,
  find_available, relocate,
}
use ds_my_sql.Block.Bytes.{store32_other, load32_congr, load32-store32_self}

module _ (m : ℕ → ℕ) (i : ℕ) (id : ItemId) where
  pub set_item_id_other :
      (q : ℕ) → (q < slot_at i) ⊎ (slot_at (i + 1) ≤ q) → set_item_id m i id q ≡ m q
  unfolding set_item_id
  set_item_id_other q h = store32_other m (slot_at i) id q (omega arith)

  pub get_item_id-set_item_id :
      (j : ℕ)
      → id < 2 ^ 32
      → get_item_id (set_item_id m i id) j ≡ (if i == j then id else get_item_id m j)
  unfolding get_item_id set_item_id
  get_item_id-set_item_id j small = elim (Bool-cases (i == j)) [
    | inl e ↦
        let e' : i ≡ j = ground arith in
        rw e (rw (← e') (load32-store32_self m (slot_at i) id small))
    | inr e ↦
        rw e (
          load32_congr _ m (slot_at j)
            λ q lo hi. store32_other m (slot_at i) id q (apart q lo hi e))
  ]
    where
      apart :
          (q : ℕ)
          → slot_at j ≤ q
          → q < slot_at j + 4
          → (i == j) ≡ false
          → (q < slot_at i) ⊎ (slot_at i + 4 ≤ q)
      apart q lo hi e =
          let ne : i ≢ j = ground arith in
          elim (Bool-cases (ltb i j)) [
            | inl l ↦ let l' : i < j = ground arith in inr (omega arith)
            | inr g ↦ let g' : j ≤ i = ground arith in inl (omega arith)
          ]

-- Two memories that agree on the id's bytes.
pub get_item_id_congr :
    (m m' : ℕ → ℕ) (j k : ℕ)
    → ((q : ℕ) → slot_at 0 ≤ q → q < slot_at k → m q ≡ m' q)
    → j < k
    → get_item_id m j ≡ get_item_id m' j
unfolding get_item_id
get_item_id_congr m m' j k same lt =
    load32_congr m m' (slot_at j) λ q lo hi. same q (omega arith) (omega arith)

abbrev pub is_available : (ℕ → ℕ) → ℕ → Bool
is_available m i = availability (get_item_id m i) == 1

-- `find_available` is the first available id, if there is one.
pub find_available-some :
    (m : ℕ → ℕ) (n i j : ℕ)
    → find_available m n i ≡ some j
    → (i ≤ j) × (j < i + n) × (is_available m j ≡ true)
unfolding find_available
find_available-some m zero i j e = ground arith
find_available-some m (suc n) i j e = ground (arith, find_available-some m n (i + 1) j)

pub find_available-none :
    (m : ℕ → ℕ) (n i j : ℕ)
    → find_available m n i ≡ none
    → i ≤ j
    → j < i + n
    → is_available m j ≡ false
unfolding find_available
find_available-none m zero i j e lo hi = absurd (omega arith)
find_available-none m (suc n) i j e lo hi = elim (Bool-cases (i == j)) [
  | inl same ↦ let same' : i ≡ j = ground arith in rw (← same') (ground arith)
  | inr other ↦ find_available-none m n (i + 1) j (ground arith) (ground arith) (omega arith)
]

-- What `relocate` makes of an id.
abbrev pub moves : ℕ → ℕ → (ℕ → ℕ) → ℕ → Bool
moves idx off m j =
    not (j == idx) && (availability (get_item_id m j) == 0) && leb (offset (get_item_id m j)) off

abbrev pub moved_id : ℕ → ItemId → ItemId
moved_id sz id = compose_item_id 0 (offset id + sz) (size id)

pub compose_item_id-lt : (a o s : ℕ) → compose_item_id a o s < 2 ^ 32
unfolding compose_item_id
compose_item_id-lt a o s = omega arith

module _ (idx off sz : ℕ) where
  abbrev one_moved : (ℕ → ℕ) → ℕ → ℕ → ℕ
  one_moved m i = if moves idx off m i then set_item_id m i (moved_id sz (get_item_id m i)) else m

  one_moved_other :
      (m : ℕ → ℕ) (i j : ℕ) → (i == j) ≡ false → get_item_id (one_moved m i) j ≡ get_item_id m j
  one_moved_other m i j e = elim (Bool-cases (moves idx off m i)) [
    | inl y ↦ rw y (
        get_item_id-set_item_id m i (moved_id sz (get_item_id m i)) j (compose_item_id-lt _ _ _)
        ∙ rw e)
    | inr n ↦ rw n
  ]

  pub relocate_id :
      (n i j : ℕ) (m : ℕ → ℕ)
      → get_item_id (relocate idx off sz n i m) j ≡ (
          if leb i j && ltb j (i + n) && moves idx off m j
          then moved_id sz (get_item_id m j)
          else get_item_id m j)
  unfolding relocate
  relocate_id zero i j m = ground arith
  relocate_id (suc n) i j m = elim (Bool-cases (i == j)) [
    | inl e ↦
        let e' : i ≡ j = ground arith in
        rw (← e') (
          ground (
            arith,
            relocate_id n (i + 1) i (one_moved m i),
            get_item_id-set_item_id m i (moved_id sz (get_item_id m i)) i
                (compose_item_id-lt _ _ _),
          ))
    | inr e ↦
        let same = one_moved_other m i j e in
        relocate_id n (i + 1) j (one_moved m i) ∙ rw same (ground arith)
  ]

  pub relocate_other :
      (n i q : ℕ) (m : ℕ → ℕ) → slot_at (i + n) ≤ q → relocate idx off sz n i m q ≡ m q
  unfolding relocate
  relocate_other zero i q m le = refl
  relocate_other (suc n) i q m le = ground (
    arith,
    relocate_other n (i + 1) q (one_moved m i),
    set_item_id_other m i (moved_id sz (get_item_id m i)) q,
  )
