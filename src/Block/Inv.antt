-- ===== src/Block/Inv.antt =====
-- What a block stores, and when it is well formed.
use ds_my_sql.Base.{ℕ, ◌+◌, ◌≤◌, ◌<◌, ◌≡◌, ◌≢◌, ◌⊎◌, none, some}
use ds_my_sql.FileIo.{page_size}
use ds_my_sql.Block.{
  ItemId, Block, slot_at, id_size, get_item_id, availability, offset, size, find_available,
}

abbrev pub id_of : Block → ℕ → ItemId
id_of b i = get_item_id b.bytes i

-- The ids of the items that a block stores.
pub record Live (b : Block) (i : ℕ) : Type 0 where
  pub below : i < b.n_items
  pub used : availability (id_of b i) ≡ 0

-- The ids end at `head_ptr`, the items lie between `tail_ptr` and the end of the block, and no two
-- items overlap.
pub record IsValid (b : Block) : Type 0 where
  pub head : b.head_ptr ≡ slot_at b.n_items
  pub order : b.head_ptr ≤ b.tail_ptr
  pub end : b.tail_ptr ≤ page_size
  pub low : (i : ℕ) → Live b i → b.tail_ptr ≤ offset (id_of b i)
  pub high : (i : ℕ) → Live b i → offset (id_of b i) + size (id_of b i) ≤ page_size
  pub apart :
      (i j : ℕ)
      → Live b i
      → Live b j
      → i ≢ j
      → (offset (id_of b i) + size (id_of b i) ≤ offset (id_of b j))
        ⊎ (offset (id_of b j) + size (id_of b j) ≤ offset (id_of b i))

-- Item `i` has `sz` bytes, and they are those of `item`.
pub record Holds (b : Block) (i sz : ℕ) (item : ℕ → ℕ) : Type 0 where
  pub live : Live b i
  pub size_eq : size (id_of b i) ≡ sz
  pub contents : (q : ℕ) → q < sz → b.bytes (offset (id_of b i) + q) ≡ item q

-- "There should be enough space": for the item, and for an id where none is available.
abbrev pub HasRoom : Block → ℕ → Type 0
HasRoom b sz =
    b.head_ptr + (elim (find_available b.bytes b.n_items 0) [ some _ ↦ 0 | none ↦ id_size ]) + sz
    ≤ b.tail_ptr
