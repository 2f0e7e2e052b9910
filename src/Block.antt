-- ===== src/Block.antt =====
-- The slotted page: src/block.c and include/block.h.
-- A block grows an array of 4-byte item ids upwards from its header and the items downwards from
-- its end. Its bytes are addressed from the start of the block, as the offsets in the ids are.
pub mod Bytes
pub mod ItemId
pub mod Slots
pub mod Inv
pub mod Insert
pub mod Delete
use ds_my_sql.Base.{
  ℕ, zero, suc, ◌+◌, ◌-◌, ◌*◌, ◌/◌, ◌%◌, ◌^◌, Bool, true, false, Option, none, some, ◌==◌, ltb, leb,
  ◌&&◌, not, if◌then◌else◌, ℤ, pos, negsuc,
}
use ds_my_sql.FileIo.{page_size}

-- `unsigned int`
abbrev pub ItemId : Type 0
ItemId = ℕ

-- The header fields are the bit patterns of C's `short`s.
pub record Block : Type 0 where
  pub n_items : ℕ
  pub head_ptr : ℕ
  pub tail_ptr : ℕ
  pub bytes : ℕ → ℕ

abbrev pub short_mod : ℕ
short_mod = 2 ^ 16

abbrev pub sub_short : ℕ → ℕ → ℕ
sub_short a b = (a + short_mod - b) % short_mod

abbrev pub add_short : ℕ → ℕ → ℕ
add_short a b = (a + b) % short_mod

-- Where `data` begins, and `sizeof(ItemID)`.
abbrev pub header_size : ℕ
header_size = 6

abbrev pub id_size : ℕ
id_size = 4

-- `get_item_id_availability`, `_offset` and `_size`; the fields of `compose_item_id` do not
-- overlap, so that its `|` is a sum.
unfoldable pub availability : ItemId → ℕ
availability id = id / 2 ^ 30 % 2

unfoldable pub offset : ItemId → ℕ
offset id = id / 2 ^ 15 % 2 ^ 15

unfoldable pub size : ItemId → ℕ
size id = id % 2 ^ 15

unfoldable pub compose_item_id : ℕ → ℕ → ℕ → ItemId
compose_item_id avail off sz = avail % 2 * 2 ^ 30 + off % 2 ^ 15 * 2 ^ 15 + sz % 2 ^ 15

-- A little-endian load and store of four bytes.
unfoldable pub load32 : (ℕ → ℕ) → ℕ → ℕ
load32 m p = m p + 2 ^ 8 * m (p + 1) + 2 ^ 16 * m (p + 2) + 2 ^ 24 * m (p + 3)

unfoldable pub store32 : (ℕ → ℕ) → ℕ → ℕ → ℕ → ℕ
store32 m p v q =
    if q == p
    then v % 2 ^ 8
    else if q == p + 1
    then v / 2 ^ 8 % 2 ^ 8
    else if q == p + 2
    then v / 2 ^ 16 % 2 ^ 8
    else if q == p + 3
    then v / 2 ^ 24 % 2 ^ 8
    else m q

abbrev pub slot_at : ℕ → ℕ
slot_at i = header_size + id_size * i

-- The macro `get_item_id`, read and assigned.
unfoldable pub get_item_id : (ℕ → ℕ) → ℕ → ItemId
get_item_id m i = load32 m (slot_at i)

unfoldable pub set_item_id : (ℕ → ℕ) → ℕ → ItemId → ℕ → ℕ
set_item_id m i id = store32 m (slot_at i) id

unfoldable pub init_block : Block → Block
init_block block = record block { n_items = 0; head_ptr = header_size; tail_ptr = page_size }

-- The item's address in the block, or `none` for NULL.
unfoldable pub get_item : Block → ℤ → Option ℕ
get_item block (negsuc i) = none
get_item block (pos i) =
    if leb block.n_items i
    then none
    else if availability (get_item_id block.bytes i) == 1
    then none
    else some (offset (get_item_id block.bytes i))

-- `for (j …) *(dst + j) = *(item + j)`: `n` rounds from `j` on.
unfoldable pub copy_item : ℕ → (ℕ → ℕ) → ℕ → ℕ → (ℕ → ℕ) → ℕ → ℕ
copy_item dst item zero j m = m
copy_item dst item (suc n) j m =
    copy_item dst item n (j + 1) (λ q. if q == dst + j then item j else m q)

-- The first loop of `new_item`, `n` rounds from `i` on: the first item id that is available.
unfoldable pub find_available : (ℕ → ℕ) → ℕ → ℕ → Option ℕ
find_available m zero i = none
find_available m (suc n) i =
    if availability (get_item_id m i) == 1 then some i else find_available m n (i + 1)

-- Slot `i` gets an id for the space below the items, and the item is copied there.
unfoldable pub place_item : Block → ℕ → (ℕ → ℕ) → ℕ → Block
place_item block i item item_size =
    let tail = sub_short block.tail_ptr item_size in
    record block {
      tail_ptr = tail;
      bytes =
          copy_item tail item item_size 0
            (set_item_id block.bytes i (compose_item_id 0 tail item_size));
    }

unfoldable pub new_item : Block → (ℕ → ℕ) → ℕ → Block × ℕ
new_item block item item_size = elim (find_available block.bytes block.n_items 0) [
  | some i ↦ (place_item block i item item_size, i)
  | none ↦ (
    record (place_item block block.n_items item item_size) {
      n_items = add_short block.n_items 1;
      head_ptr = add_short block.head_ptr id_size;
    },
    sub_short (add_short block.n_items 1) 1,
  )
]

-- The first loop of `delete_item`, `n` rounds from `i` on: items up to the one at `off` move by
-- `sz`.
unfoldable pub relocate : ℕ → ℕ → ℕ → ℕ → ℕ → (ℕ → ℕ) → ℕ → ℕ
relocate idx off sz zero i m = m
relocate idx off sz (suc n) i m =
    let id = get_item_id m i in
    relocate idx off sz n (i + 1) (
      if not (i == idx) && (availability id == 0) && leb (offset id) off
      then set_item_id m i (compose_item_id 0 (offset id + sz) (size id))
      else m)

-- The second loop of `delete_item`, which runs down from `ptrb + n - 1` to `ptrb`.
unfoldable pub shift_up : ℕ → ℕ → ℕ → (ℕ → ℕ) → ℕ → ℕ
shift_up ptrb sz zero m = m
shift_up ptrb sz (suc n) m =
    shift_up ptrb sz n (λ q. if q == ptrb + n + sz then m (ptrb + n) else m q)

unfoldable pub remove_item : Block → ℕ → ItemId → Block
remove_item block idx id =
    let moved = relocate idx (offset id) (size id) block.n_items 0 block.bytes in
    let shifted = shift_up block.tail_ptr (size id) (offset id - block.tail_ptr) moved in
    let last = idx + 1 == block.n_items in
    record {
      n_items = if last then sub_short block.n_items 1 else block.n_items;
      head_ptr = if last then sub_short block.head_ptr id_size else block.head_ptr;
      tail_ptr = add_short block.tail_ptr (size id);
      bytes = set_item_id shifted idx (compose_item_id 1 0 0);
    }

-- An index out of range or of an unused id changes nothing.
unfoldable pub delete_item : Block → ℤ → Block
delete_item block (negsuc i) = block
delete_item block (pos i) =
    if leb block.n_items i
    then block
    else if availability (get_item_id block.bytes i) == 1
    then block
    else remove_item block i (get_item_id block.bytes i)
