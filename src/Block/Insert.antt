-- ===== src/Block/Insert.antt =====
-- `new_item`: the block stays well formed, holds the new item, and keeps the others.
use ds_my_sql.Base.{
  ℕ, suc, ◌+◌, ◌-◌, ◌^◌, ◌≤◌, ◌<◌, ◌≡◌, ◌≢◌, ◌⊎◌, inl, inr, refl, sym, arith, ◌==◌, ltb, leb, ◌&&◌,
  if◌then◌else◌, Bool-cases, Option-cases, ◌∙◌, ap,
}
use ds_my_sql.Block.{
  Block, slot_at, sub_short, set_item_id, availability, offset, size, compose_item_id,
  find_available, place_item, new_item,
}
use ds_my_sql.Block.Bytes.{copy_item_lem}
use ds_my_sql.Block.ItemId.{compose_item_id_fields}
use ds_my_sql.Block.Slots.{
  set_item_id_other, get_item_id-set_item_id, get_item_id_congr, find_available-some,
  compose_item_id-lt,
}
use ds_my_sql.Block.Inv.{id_of, Live, IsValid, Holds, HasRoom}

congr : (f : ℕ → ℕ) (m n : ℕ) → m ≡ n → f m ≡ f n
congr f m n e = ap f e

-- What `new_item` of an item should do to a block, and answer.
abbrev pub Stores : Block → (ℕ → ℕ) → ℕ → Block × ℕ → Type 0
Stores b item sz (b', i) =
    IsValid b'
    × Holds b' i sz item
    × (Live b i → ⊥)
    × ((j s : ℕ) (bs : ℕ → ℕ) → Holds b j s bs → Holds b' j s bs)

kept :
    (b : Block) (i : ℕ) (item : ℕ → ℕ) (sz : ℕ)
    → ((place_item b i item sz).n_items ≡ b.n_items)
      × ((place_item b i item sz).head_ptr ≡ b.head_ptr)
unfolding place_item
kept b i item sz = (refl, refl)

-- Slot `i`, not in use, takes the item, and the block has `n'` slots after it.
module _ (b : Block) (v : IsValid b) (i n' : ℕ) (item : ℕ → ℕ) (sz : ℕ) (i_lt : i < n')
    (grows : b.n_items ≤ n') (others : (j : ℕ) → j < n' → i ≢ j → j < b.n_items)
    (unused : Live b i → ⊥) (room : slot_at n' + sz ≤ b.tail_ptr) where
  abbrev tail' : ℕ
  tail' = sub_short b.tail_ptr sz

  tail'_eq : tail' + sz ≡ b.tail_ptr
  tail'_eq = omega (arith, v.end)

  abbrev new_id : ℕ
  new_id = compose_item_id 0 tail' sz

  abbrev placed : Block
  placed = record (place_item b i item sz) { n_items = n'; head_ptr = slot_at n' }

  new_id_fields : (availability new_id ≡ 0) × (offset new_id ≡ tail') × (size new_id ≡ sz)
  new_id_fields =
      let (a, o, s, _) =
        compose_item_id_fields 0 tail' sz (omega arith) (omega (arith, v.end))
          (omega (arith, v.end)) in
      (a, o, s)

  placed_bytes :
      (q : ℕ)
      → placed.bytes q ≡ (
          if leb tail' q && ltb q b.tail_ptr
          then item (q - tail')
          else set_item_id b.bytes i new_id q)
  unfolding place_item
  placed_bytes q =
      ground (arith, copy_item_lem tail' item sz 0 (set_item_id b.bytes i new_id) q, tail'_eq)

  placed_id : (j : ℕ) → j < n' → id_of placed j ≡ (if i == j then new_id else id_of b j)
  placed_id j lt =
      get_item_id_congr placed.bytes (set_item_id b.bytes i new_id) j n'
        (λ q lo hi. ground (arith, placed_bytes q, tail'_eq)) lt
      ∙ get_item_id-set_item_id b.bytes i new_id j (compose_item_id-lt _ _ _)

  placed_old : (q : ℕ) → b.tail_ptr ≤ q → placed.bytes q ≡ b.bytes q
  placed_old q le = ground (arith, placed_bytes q, set_item_id_other b.bytes i new_id q)

  placed_self : id_of placed i ≡ new_id
  placed_self = placed_id i i_lt ∙ ground arith

  placed_other : (j : ℕ) → j < n' → i ≢ j → id_of placed j ≡ id_of b j
  placed_other j lt ne = placed_id j lt ∙ ground arith

  -- A live id after it is the new one, or was live.
  was-Live : (j : ℕ) → Live placed j → i ≢ j → Live b j
  was-Live j l ne = record {
    below = others j l.below ne;
    used = ap availability (sym (placed_other j l.below ne)) ∙ l.used;
  }

  still-Live : (j : ℕ) → Live b j → (i ≢ j) × Live placed j
  still-Live j l =
      let ne : i ≢ j = λ e. unused (rw e l) in
      let lt : j < n' = omega (arith, l.below) in
      (ne, record { below = lt; used = ap availability (placed_other j lt ne) ∙ l.used })

  placed_tail : placed.tail_ptr ≡ tail'
  unfolding place_item
  placed_tail = refl

  spot :
      (j : ℕ)
      → Live placed j
      → ((i ≡ j) × (offset (id_of placed j) ≡ tail') × (size (id_of placed j) ≡ sz))
        ⊎ ((i ≢ j)
            × Live b j
            × (offset (id_of placed j) ≡ offset (id_of b j))
            × (size (id_of placed j) ≡ size (id_of b j)))
  spot j l = elim (Bool-cases (i == j)) [
    | inl e ↦
        let same : i ≡ j = ground arith in
        let (_, o, s) = new_id_fields in
        inl (same, rw (← same) (ap offset placed_self ∙ o), rw (← same) (ap size placed_self ∙ s))
    | inr e ↦
        let ne : i ≢ j = ground arith in
        let id = placed_other j l.below ne in inr (ne, was-Live j l ne, ap offset id, ap size id)
  ]

  placed-IsValid : IsValid placed
  placed-IsValid = record {
    head = refl;
    order = rw placed_tail (omega (arith, tail'_eq));
    end = rw placed_tail (omega (arith, tail'_eq, v.end));
    low = λ j l. elim (spot j l) [
      | inl (same, o, s) ↦ omega (arith, placed_tail)
      | inr (ne, l', o, s) ↦ omega (arith, placed_tail, tail'_eq, v.low j l')
    ];
    high = λ j l. elim (spot j l) [
      | inl (same, o, s) ↦ omega (arith, tail'_eq, v.end)
      | inr (ne, l', o, s) ↦ omega (arith, v.high j l')
    ];
    apart = λ j k lj lk ne. elim (spot j lj) [
      | inl (same, o, s) ↦ elim (spot k lk) [
        | inl (same', o', s') ↦ absurd (ne (sym same ∙ same'))
        | inr (ne', l', o', s') ↦ omega (arith, tail'_eq, v.low k l')
      ]
      | inr (ne', l', o, s) ↦ elim (spot k lk) [
        | inl (same', o', s') ↦ omega (arith, tail'_eq, v.low j l')
        | inr (ne'', l'', o', s') ↦ omega (arith, v.apart j k l' l'' ne)
      ]
    ];
  }

  placed-Holds : Holds placed i sz item
  placed-Holds =
      let (a, o, s) = new_id_fields in
      let o' = ap offset placed_self ∙ o in
      record {
        live = record { below = i_lt; used = ap availability placed_self ∙ a };
        size_eq = ap size placed_self ∙ s;
        contents = λ q lt.
            rw o' (
              placed_bytes (tail' + q)
              ∙ ground (arith, tail'_eq, congr item (tail' + q - tail') q));
      }

  placed_keeps : (j s : ℕ) (bs : ℕ → ℕ) → Holds b j s bs → Holds placed j s bs
  placed_keeps j s bs h =
      let (ne, l) = still-Live j h.live in
      let id = placed_other j l.below ne in
      record {
        live = l;
        size_eq = ap size id ∙ h.size_eq;
        contents = λ q lt.
            rw id (
              placed_old (offset (id_of b j) + q) (omega (arith, v.low j h.live))
              ∙ h.contents q lt);
      }

  placed-Stores : Stores b item sz (placed, i)
  placed-Stores = (placed-IsValid, placed-Holds, unused, placed_keeps)

-- In a well-formed block with room for the item, `new_item` answers the index of a slot that was
-- not in use, at which the block then holds the item; the block is well formed, and holds every
-- item that it held before.
pub new_item-Stores :
    (b : Block) (item : ℕ → ℕ) (sz : ℕ)
    → IsValid b
    → HasRoom b sz
    → Stores b item sz (new_item b item sz)
unfolding new_item
new_item-Stores b item sz v room = elim (Option-cases (find_available b.bytes b.n_items 0)) [
  | inr (i, e) ↦
      let (_, lt, free) = find_available-some b.bytes b.n_items 0 i e in
      let stored =
        placed-Stores b v i b.n_items item sz (omega arith) (omega arith) (λ j l n. l)
          (λ l. ground (arith, l.used)) (ground (arith, v.head)) in
      let same : record b { head_ptr = slot_at b.n_items } ≡ b = ground (arith, v.head) in
      let whole : new_item b item sz ≡ (
        record (place_item b i item sz) { n_items = b.n_items; head_ptr = slot_at b.n_items },
        i,
      ) =
        ground (arith, kept b i item sz, v.head) in
      rw whole stored
  | inl e ↦
      let n = b.n_items in
      let few : n < 2 ^ 8 = omega (arith, v.head, v.order, v.end) in
      let stored =
        placed-Stores b v n (suc n) item sz (omega arith) (omega arith) (λ j l ne. omega arith)
          (λ l. absurd (omega (arith, l.below))) (ground (arith, v.head)) in
      let whole : new_item b item sz
          ≡ (record (place_item b n item sz) { n_items = suc n; head_ptr = slot_at (suc n) }, n) =
        ground (arith, v.head) in
      rw whole stored
]
