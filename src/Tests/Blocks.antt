-- ===== src/Tests/Blocks.antt =====
-- A block with one item of 8 bytes, and a node of five rows.
use ds_my_sql.Base.{
  ◌≤◌, ◌<◌, some, ℕ, ◌+◌, ◌*◌, ◌^◌, ◌<◌, ◌≡◌, ◌≢◌, ◌∙◌, sym, arith, ◌==◌, ltb, if◌then◌else◌, ℤ,
  pos, minus_one, refl,
}
use ds_my_sql.Block.{
  Block, load32, store32, set_item_id, get_item_id, availability, offset, size, compose_item_id,
  find_available, new_item, delete_item,
}
use ds_my_sql.Table.{room}
use ds_my_sql.Table.Room.{room-HasRoom}
use ds_my_sql.Block.Inv.{HasRoom, id_of, Live, IsValid, Holds}
use ds_my_sql.Block.ItemId.{compose_item_id_fields}
use ds_my_sql.Block.Insert.{Stores, new_item-Stores}
use ds_my_sql.Block.Delete.{delete_item-removes}
use ds_my_sql.Base.State.{M}
use ds_my_sql.BTree.Arrays.{split_at}
use ds_my_sql.BTree.Ordered.{IsLe, IsOrder, IsOrdered, lower_bound_rr-split_at}
use ds_my_sql.BTree.LowerBound.{Finds, lower_bound_pr, lower_bound_pr-Splits, lower_bound_rr}

-- The id of an item in use at offset 120.
abbrev block : Block
block = record {
  n_items = 1;
  head_ptr = 10;
  tail_ptr = 120;
  bytes = set_item_id (λ q. q) 0 3932168;
}

block_id : id_of block 0 ≡ 3932168
unfolding get_item_id set_item_id load32 store32
block_id = refl

block-Live : Live block 0
unfolding availability
block-Live = record { below = omega arith; used = rw block_id refl }

only : (i : ℕ) → Live block i → i ≡ 0
only i l = omega (arith, l.below)

block-IsValid : IsValid block
unfolding offset size
block-IsValid = record {
  head = refl;
  order = omega arith;
  end = omega arith;
  low = λ i l. rw (only i l) (rw block_id (omega arith));
  high = λ i l. rw (only i l) (rw block_id (omega arith));
  apart = λ i j l l' ne. absurd (ne (only i l ∙ sym (only j l')));
}

new_item-Stores_example : Stores block (λ q. q + 1) 20 (new_item block (λ q. q + 1) 20)
unfolding find_available availability
new_item-Stores_example =
    new_item-Stores block (λ q. q + 1) 20 block-IsValid (rw block_id (omega arith))

delete_item-removes_example :
    let b' = delete_item block (pos 0) in
    IsValid b'
    × (Live b' 0 → ⊥)
    × (b'.tail_ptr ≡ block.tail_ptr + size (id_of block 0))
    × ((j s : ℕ) (bs : ℕ → ℕ) → 0 ≢ j → Holds block j s bs → Holds b' j s bs)
delete_item-removes_example = delete_item-removes block 0 block-IsValid block-Live

compose_item_id_fields_example :
    (availability (compose_item_id 1 120 8) ≡ 1)
    × (offset (compose_item_id 1 120 8) ≡ 120)
    × (size (compose_item_id 1 120 8) ≡ 8)
    × (compose_item_id 1 120 8 < 2 ^ 31)
compose_item_id_fields_example =
    compose_item_id_fields 1 120 8 (omega arith) (omega arith) (omega arith)

abbrev row : ℕ → ℕ
row i = 10 * i

abbrev by_value : ℕ → ℕ → ℤ
by_value a b = if ltb b a then pos 1 else if a == b then pos 0 else minus_one

-- A comparison that counts its calls.
abbrev counting : ℕ → ℕ → M ℕ ℤ
counting a b calls = some (by_value a b, calls + 1)

lower_bound_pr-Splits_example :
    Finds
      (by_value 25)
      (λ calls. Unit {0})
      row
      5
      (lower_bound_pr (λ key size. counting key) row 5 25 1)
      0
lower_bound_pr-Splits_example =
    lower_bound_pr-Splits (λ key size. counting key) (by_value 25) (λ calls. Unit) row 5 25 1 0
      (λ i calls lt h. (calls + 1, refl, tt)) (λ i j le lt h. ground arith) tt

block-room : room block ≡ pos 106
unfolding room find_available availability get_item_id set_item_id load32 store32
block-room = refl

room-HasRoom_example : HasRoom block 100
room-HasRoom_example =
    room-HasRoom block 106 100 block-IsValid block-room (omega arith) (omega arith)

by_value-IsOrder : IsOrder by_value
by_value-IsOrder = record {
  reflexive = λ a. ground arith;
  total = λ a b h. ground arith;
  transitive = λ a b d h h'. ground arith;
}

row-IsOrdered : IsOrdered by_value row 5
row-IsOrdered i j le lt = ground arith

lower_bound_rr-split_at_example :
    (r x' : ℕ) × (lower_bound_rr counting row 5 25 0 ≡ some (r, x'))
    × Unit {0}
    × (r ≤ 5)
    × IsOrdered by_value (split_at row row r 25).0 3
    × IsOrdered by_value (split_at row row r 25).1 3
    × ((i j : ℕ)
        → i < 3
        → j < 3
        → IsLe by_value ((split_at row row r 25).0 i) ((split_at row row r 25).1 j))
lower_bound_rr-split_at_example =
    lower_bound_rr-split_at counting by_value (λ calls. Unit) by_value-IsOrder row row 25 0
      (λ i calls lt h. (calls + 1, refl, tt)) row-IsOrdered tt
