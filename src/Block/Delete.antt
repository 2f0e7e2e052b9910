-- ===== src/Block/Delete.antt =====
-- `delete_item`: the block stays well formed, loses the item, gains its bytes, and keeps the others.
use ds_my_sql.Base.{
  ℕ, ◌+◌, ◌-◌, ◌≤◌, ◌<◌, ◌≡◌, ◌≢◌, ◌⊎◌, inl, inr, refl, arith, ◌==◌, ltb, leb, ◌&&◌, if◌then◌else◌,
  Bool-cases, ◌∙◌, ap, pos,
}
use ds_my_sql.FileIo.{page_size}
use ds_my_sql.Block.{
  Block, ItemId, slot_at, get_item_id, set_item_id, availability, offset, size, compose_item_id,
  relocate, shift_up, remove_item, delete_item,
}
use ds_my_sql.Block.Bytes.{shift_up_lem}
use ds_my_sql.Block.ItemId.{compose_item_id_fields}
use ds_my_sql.Block.Slots.{
  set_item_id_other, get_item_id-set_item_id, get_item_id_congr, compose_item_id-lt, moves,
  moved_id, relocate_id, relocate_other,
}
use ds_my_sql.Block.Inv.{id_of, Live, IsValid, Holds}

congr : (f : ℕ → ℕ) (m n : ℕ) → m ≡ n → f m ≡ f n
congr f m n e = ap f e

module _ (b : Block) (v : IsValid b) (idx : ℕ) (live : Live b idx) where
  abbrev off : ℕ
  off = offset (id_of b idx)

  abbrev sz : ℕ
  sz = size (id_of b idx)

  abbrev removed : Block
  removed = remove_item b idx (id_of b idx)

  abbrev freed_id : ItemId
  freed_id = compose_item_id 1 0 0

  abbrev moved : ℕ → ℕ
  moved = relocate idx off sz b.n_items 0 b.bytes

  abbrev shifted : ℕ → ℕ
  shifted = shift_up b.tail_ptr sz (off - b.tail_ptr) moved

  low_off : b.tail_ptr ≤ off
  low_off = v.low idx live

  high_off : off + sz ≤ page_size
  high_off = v.high idx live

  slots_below : slot_at b.n_items ≤ b.tail_ptr
  slots_below = omega (arith, v.head, v.order)

  removed_fields :
      (removed.tail_ptr ≡ b.tail_ptr + sz)
      × (removed.bytes ≡ set_item_id shifted idx freed_id)
      × (removed.n_items ≡ (if idx + 1 == b.n_items then idx else b.n_items))
      × (removed.head_ptr ≡ slot_at removed.n_items)
  unfolding remove_item
  removed_fields = (
    omega (arith, high_off, low_off),
    refl,
    ground (arith, slots_below, v.end),
    ground (arith, slots_below, v.end, v.head),
  )

  removed_id :
      (j : ℕ)
      → j < b.n_items
      → id_of removed j ≡ (
          if idx == j
          then freed_id
          else if moves idx off b.bytes j
          then moved_id sz (id_of b j)
          else id_of b j)
  removed_id j lt =
      ap (λ (m : ℕ → ℕ). get_item_id m j) removed_fields.1
      ∙ get_item_id-set_item_id shifted idx freed_id j (compose_item_id-lt _ _ _)
      ∙ ground (
        arith,
        get_item_id_congr shifted moved j b.n_items
            (λ q lo hi.
              ground (arith, shift_up_lem b.tail_ptr sz (off - b.tail_ptr) moved q, slots_below))
            lt,
        relocate_id idx off sz b.n_items 0 j b.bytes,
      )

  removed_bytes :
      (q : ℕ)
      → b.tail_ptr ≤ q
      → removed.bytes q
        ≡ (if leb (b.tail_ptr + sz) q && ltb q (off + sz) then b.bytes (q - sz) else b.bytes q)
  removed_bytes q le =
      ap (λ (m : ℕ → ℕ). m q) removed_fields.1
      ∙ set_item_id_other shifted idx freed_id q (inr (omega (arith, slots_below, live.below)))
      ∙ ground (
        arith,
        low_off,
        slots_below,
        shift_up_lem b.tail_ptr sz (off - b.tail_ptr) moved q,
        relocate_other idx off sz b.n_items 0 (q - sz) b.bytes,
        relocate_other idx off sz b.n_items 0 q b.bytes,
      )

  freed_used : availability (id_of removed idx) ≡ 1
  freed_used =
      let (a, _, _, _) = compose_item_id_fields 1 0 0 (omega arith) (omega arith) (omega arith) in
      ap availability (removed_id idx live.below) ∙ ground arith

  fewer : removed.n_items ≤ b.n_items
  fewer = ground (arith, removed_fields.2)

  -- Another item of the block, and where it goes.
  module _ (j : ℕ) (l : Live b j) (ne : idx ≢ j) where
    up : ℕ
    up = if leb (offset (id_of b j)) off then sz else 0

    -- Its bytes end at or before the one that goes, or start behind it.
    beside :
        ((offset (id_of b j) ≤ off)
          × ((offset (id_of b j) + size (id_of b j) ≤ off) ⊎ (sz ≡ 0))
          × (up ≡ sz))
        ⊎ ((off + sz ≤ offset (id_of b j)) × (up ≡ 0))
    unfolding up
    beside = ground (arith, v.apart idx j live l ne)

    other_id :
        (availability (id_of removed j) ≡ 0)
        × (offset (id_of removed j) ≡ offset (id_of b j) + up)
        × (size (id_of removed j) ≡ size (id_of b j))
    unfolding up
    other_id =
        let (a, o, s, _) =
          compose_item_id_fields 0 (offset (id_of b j) + sz) (size (id_of b j)) (omega arith)
            (omega (arith, v.high j l, high_off)) (omega (arith, v.high j l)) in
        elim (Bool-cases (leb (offset (id_of b j)) off)) [
          | inl e ↦
              let id : id_of removed j ≡ moved_id sz (id_of b j) =
                removed_id j l.below ∙ ground (arith, l.used) in
              (ap availability id ∙ a, ap offset id ∙ o ∙ rw e, ap size id ∙ s)
          | inr e ↦
              let id : id_of removed j ≡ id_of b j =
                removed_id j l.below ∙ ground (arith, l.used) in
              (ap availability id ∙ l.used, ap offset id ∙ rw e (omega arith), ap size id)
        ]

    other_lt : j < removed.n_items
    other_lt = ground (arith, removed_fields.2, l.below)

    other_bytes :
        (q : ℕ)
        → q < size (id_of b j)
        → removed.bytes (offset (id_of removed j) + q) ≡ b.bytes (offset (id_of b j) + q)
    other_bytes q lt =
        let (_, o, _) = other_id in
        let p = offset (id_of b j) in
        rw o (
          removed_bytes (p + up + q) (omega (arith, v.low j l))
          ∙ ground (
            arith,
            beside,
            v.low j l,
            congr b.bytes (p + up + q - sz) (p + q),
            congr b.bytes (p + up + q) (p + q),
          ))

  -- What is live afterwards was live before, and is not the item that goes.
  was-Live : (j : ℕ) → Live removed j → (idx ≢ j) × Live b j
  was-Live j l =
      let lt : j < b.n_items = omega (arith, l.below, fewer) in
      let ne : idx ≢ j = λ e. absurd (omega (arith, freed_used, rw (← e) at (l.used))) in
      (ne, record { below = lt; used = ground (arith, ap availability (removed_id j lt), l.used) })

  removed-IsValid : IsValid removed
  removed-IsValid = record {
    head = removed_fields.3;
    order = omega (arith, removed_fields.3, removed_fields.0, fewer, slots_below);
    end = omega (arith, removed_fields.0, low_off, high_off);
    low = λ j l.
        let (ne, l') = was-Live j l in
        omega (arith, other_id j l' ne, beside j l' ne, removed_fields.0, v.low j l', low_off);
    high = λ j l.
        let (ne, l') = was-Live j l in
        omega (arith, other_id j l' ne, beside j l' ne, v.high j l', high_off);
    apart = λ j k lj lk ne.
        let (nj, lj') = was-Live j lj in
        let (nk, lk') = was-Live k lk in
        omega (
          arith,
          other_id j lj' nj,
          other_id k lk' nk,
          beside j lj' nj,
          beside k lk' nk,
          v.apart j k lj' lk' ne,
        );
  }

  removed_keeps : (j s : ℕ) (bs : ℕ → ℕ) → idx ≢ j → Holds b j s bs → Holds removed j s bs
  removed_keeps j s bs ne h =
      let (a, o, s') = other_id j h.live ne in
      record {
        live = record { below = other_lt j h.live ne; used = a };
        size_eq = s' ∙ h.size_eq;
        contents = λ q lt. other_bytes j h.live ne q (rw h.size_eq lt) ∙ h.contents q lt;
      }

-- In a well-formed block, `delete_item` of an item that the block stores leaves a well-formed block
-- that no longer stores it, holds every other item that it held before, and has `tail_ptr` moved by
-- the size of the item.
pub delete_item-removes :
    (b : Block) (idx : ℕ)
    → IsValid b
    → Live b idx
    → let b' = delete_item b (pos idx) in
      IsValid b'
      × (Live b' idx → ⊥)
      × (b'.tail_ptr ≡ b.tail_ptr + size (id_of b idx))
      × ((j s : ℕ) (bs : ℕ → ℕ) → idx ≢ j → Holds b j s bs → Holds b' j s bs)
unfolding delete_item
delete_item-removes b idx v live =
    let whole : delete_item b (pos idx) ≡ remove_item b idx (id_of b idx) =
      ground (arith, live.below, live.used) in
    rw whole (
      removed-IsValid b v idx live,
      λ l. (was-Live b v idx live idx l).0 refl,
      (removed_fields b v idx live).0,
      removed_keeps b v idx live,
    )
