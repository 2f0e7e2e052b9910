-- ===== src/Table/Room.antt =====
-- The room of a block that the free space map keeps, and the room that `new_item` needs.
use ds_my_sql.Base.{
  ℕ, ◌-◌, ◌<◌, ◌≤◌, ◌≡◌, refl, true, inl, inr, arith, ltb, Bool-cases, Option-cases, pos,
  is_negative,
}
use ds_my_sql.FileIo.{page_size}
use ds_my_sql.Block.{init_block, Block, sub_short, id_size, find_available}
use ds_my_sql.Block.Inv.{IsValid, HasRoom}
use ds_my_sql.Table.{short_value, room}

sub_short_lem : (a b : ℕ) → b ≤ a → a ≤ page_size → sub_short a b ≡ a - b
sub_short_lem a b le small = omega arith

sub_short_low : (a b : ℕ) → a < b → b ≤ id_size → is_negative (short_value (sub_short a b)) ≡ true
sub_short_low a b lt small = ground arith

short_value_lem : (n : ℕ) → n ≤ page_size → short_value n ≡ pos n
short_value_lem n small = ground arith

-- If the map has a well-formed block at a room of at least the size of an item that is not empty,
-- then the block has the room that `new_item` needs, for the item and for its id.
pub room-HasRoom :
    (b : Block) (n sz : ℕ) → IsValid b → room b ≡ pos n → 0 < sz → sz ≤ n → HasRoom b sz
unfolding room
room-HasRoom b n sz v e positive le = elim (Option-cases (find_available b.bytes b.n_items 0)) [
  | inr (i, found) ↦
      let free = sub_short_lem b.tail_ptr b.head_ptr v.order v.end in
      ground (arith, free, short_value_lem (b.tail_ptr - b.head_ptr), v.order, v.end)
  | inl full ↦
      let free = sub_short_lem b.tail_ptr b.head_ptr v.order v.end in
      let m : ℕ = b.tail_ptr - b.head_ptr in
      elim (Bool-cases (ltb m id_size)) [
        | inl low ↦
            let no_room = sub_short_low m id_size (ground arith) (omega arith) in
            absurd (ground (arith, free, no_room))
        | inr high ↦
            let less = sub_short_lem m id_size (ground arith) (omega (arith, v.end)) in
            ground (arith, free, less, short_value_lem (m - id_size), v.order, v.end)
      ]
]

-- Whatever the page held, a block that `init_block` has set up is well formed and has the room that
-- `new_item` needs for any item of at most 118 bytes.
pub init_block-HasRoom :
    (b : Block) (sz : ℕ) → sz ≤ 118 → IsValid (init_block b) × HasRoom (init_block b) sz
unfolding init_block find_available
init_block-HasRoom b sz le = (
  record {
    head = refl;
    order = omega arith;
    end = omega arith;
    low = λ i l. absurd (omega (arith, l.below));
    high = λ i l. absurd (omega (arith, l.below));
    apart = λ i j l l' ne. absurd (omega (arith, l.below));
  },
  omega arith,
)
