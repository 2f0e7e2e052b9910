-- ===== src/Block/ItemId.antt =====
-- The three fields of an item id.
use ds_my_sql.Base.{ℕ, ◌^◌, ◌<◌, ◌≡◌, arith}
use ds_my_sql.Block.{availability, offset, size, compose_item_id}

-- `compose_item_id` of an availability bit, and of an offset and a size of 15 bits each, is a word
-- of 31 bits, from which the three macros read the arguments.
pub compose_item_id_fields :
    (avail off sz : ℕ)
    → avail < 2
    → off < 2 ^ 15
    → sz < 2 ^ 15
    → (availability (compose_item_id avail off sz) ≡ avail)
      × (offset (compose_item_id avail off sz) ≡ off)
      × (size (compose_item_id avail off sz) ≡ sz)
      × (compose_item_id avail off sz < 2 ^ 31)
unfolding availability offset size compose_item_id
compose_item_id_fields avail off sz a o s = omega arith
