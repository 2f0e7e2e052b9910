-- ===== src/Table.antt =====
-- Tables of items: src/table.c and include/table.h.
-- A table keeps its items in the blocks of one page cache, and the room of each block in the free
-- space map of another. There is no result where C follows a null page or item.
pub mod Room
pub mod Reads
pub mod Insertion
use ds_my_sql.Base.{
  ℕ, zero, suc, ◌+◌, ◌-◌, ◌/◌, Option, none, some, List, [], ◌∷◌, ◌==◌, ltb, if◌then◌else◌, ℤ, pos,
  negsuc, minus_one, eq_ℤ, is_negative,
}
use ds_my_sql.Base.State.{M, pure, fault, ◌>>=◌, ◌>>◌}
use ds_my_sql.FileIo.{Stdio, page_size}
use ds_my_sql.BufferPool.{
  BufferPool, get_page, deref, assign, release, init_buffer_pool, close_buffer_pool,
}
use ds_my_sql.Block.{
  Block, short_mod, sub_short, id_size, get_item_id, size, init_block, get_item, find_available,
  new_item, delete_item,
}
use ds_my_sql.HashMap.Words.{Words, hash_map_dir_block_size}
use ds_my_sql.HashMap.Insert.{hash_table_init, hash_table_close, hash_table_insert}
use ds_my_sql.HashMap.Pop.{hash_table_pop_lower_bound, hash_table_pop}
use ds_my_sql.Rid.{Rid}

pub record Table (D F : Type 0) : Type 0 where
  pub data_pool : BufferPool Block D
  pub fsm_pool : BufferPool Words F

-- The value of the bits of a `short`.
abbrev pub short_value : ℕ → ℤ
short_value n = if ltb n (short_mod / 2) then pos n else negsuc (short_mod - 1 - n)

-- The room that the map has for a block: the code computes it three times, as `oldsize` and `newsize`.
unfoldable pub room : Block → ℤ
room block =
    let free = sub_short block.tail_ptr block.head_ptr in
    elim (find_available block.bytes block.n_items 0) [
      | some i ↦ short_value free
      | none ↦
          let less = short_value (sub_short free id_size) in
          if is_negative less then pos 0 else less
    ]

-- The bytes of an item, `n` of them from `p` on.
unfoldable pub item_bytes : (ℕ → ℕ) → ℕ → ℕ → List ℕ
item_bytes m p zero = []
item_bytes m p (suc n) = m p ∷ item_bytes m (p + 1) n

module _ {D F : Type 0} where
  unfoldable pub on_data : {A : Type 0} → M (BufferPool Block D) A → M (Table D F) A
  on_data m table = elim (m table.data_pool) [
    | none ↦ none
    | some (a, pool) ↦ some (a, record table { data_pool = pool })
  ]

  unfoldable pub on_fsm : {A : Type 0} → M (BufferPool Words F) A → M (Table D F) A
  on_fsm m table = elim (m table.fsm_pool) [
    | none ↦ none
    | some (a, pool) ↦ some (a, record table { fsm_pool = pool })
  ]

  unfoldable pub table_get_total_blocks : Table D F → ℕ
  table_get_total_blocks table = table.data_pool.file.length / page_size

-- A data page through its pointer.
module _ {D : Type 0} where
  unfoldable pub block_at : ℕ → M (BufferPool Block D) Block
  block_at k pool = elim (deref pool k) [ none ↦ none | some b ↦ some (b, pool) ]

  unfoldable pub put_block : ℕ → Block → M (BufferPool Block D) (Unit {0})
  put_block k b pool = some (tt, assign pool k b)

  unfoldable pub release_block : ℤ → M (BufferPool Block D) (Unit {0})
  release_block addr pool = some (tt, release pool addr)

  unfoldable pub end_of_data : M (BufferPool Block D) ℤ
  end_of_data pool = some (pos pool.file.length, pool)

module _ {D F Name : Type 0} (io : Stdio Block D Name) (fsm_io : Stdio Words F Name) where
  unfoldable pub get_block : ℤ → M (BufferPool Block D) ℕ
  get_block addr pool =
      let (pool', page) = get_page io pool addr in
      elim page [ none ↦ none | some k ↦ some (k, pool') ]

  -- `garbage` and `fsm_garbage` are what the memory of the two caches holds.
  unfoldable pub table_init :
      List Block → List Words → (data_filename fsm_filename : Name) → Option (Table D F)
  table_init garbage fsm_garbage data_filename fsm_filename =
      let (result, opened) = init_buffer_pool io garbage data_filename in
      elim opened [
        | none ↦ none
        | some data_pool ↦
            elim (hash_table_init fsm_io fsm_garbage fsm_filename
              (page_size / hash_map_dir_block_size)) [
                | none ↦ none
                | some fsm_pool ↦ some (record { data_pool = data_pool; fsm_pool = fsm_pool })
              ]
      ]

  unfoldable pub table_close : Table D F → D × F
  table_close table = (close_buffer_pool io table.data_pool, hash_table_close fsm_io table.fsm_pool)

  unfoldable pub table_block_get_total_items : ℤ → M (Table D F) ℕ
  table_block_get_total_items block_addr = on_data (do
    k ← get_block block_addr
    block ← block_at k
    release_block block_addr
    pure block.n_items)

  -- The copy of the item to `dest`.
  unfoldable pub copy_out : Block → ℤ → M (BufferPool Block D) (List ℕ)
  copy_out block (negsuc i) = fault
  copy_out block (pos i) =
      let n = size (get_item_id block.bytes i) in
      elim (get_item block (pos i)) [
        | some p ↦ pure (item_bytes block.bytes p n)
        | none ↦ if n == 0 then pure [] else fault
      ]

  unfoldable pub table_read : Rid → M (Table D F) (List ℕ)
  table_read rid = on_data (do
    k ← get_block rid.block_addr
    block ← block_at k
    bytes ← copy_out block rid.idx
    release_block rid.block_addr
    pure bytes)

  -- Under `//add a block`: a new block at the end of the file, or the one that the map has.
  unfoldable pub block_for : ℤ → M (BufferPool Block D) (ℤ × ℕ)
  block_for found =
      if eq_ℤ found minus_one
      then (do
        block_addr ← end_of_data
        k ← get_block block_addr
        block ← block_at k
        put_block k (init_block block)
        pure (block_addr, k))
      else (do k ← get_block found; pure (found, k))

  unfoldable pub insert_item : ℕ → (ℕ → ℕ) → ℕ → M (BufferPool Block D) (ℕ × ℤ)
  insert_item k src item_size = do
    block ← block_at k
    let (block', idx) = new_item block src item_size
    put_block k block'
    pure (idx, room block')

  -- The fuel bounds the blocks of a chain of the map.
  unfoldable pub table_insert : ℕ → (ℕ → ℕ) → ℕ → M (Table D F) Rid
  table_insert fuel src item_size = do
    found ← on_fsm (hash_table_pop_lower_bound fsm_io fuel (pos item_size))
    (block_addr, k) ← on_data (block_for found)
    (idx, newsize) ← on_data (insert_item k src item_size)
    on_fsm (hash_table_insert fsm_io fuel newsize block_addr)
    on_data (release_block block_addr)
    pure (record { block_addr = block_addr; idx = pos idx })

  -- The rooms of the block before and after.
  unfoldable pub delete_at : ℕ → ℤ → M (BufferPool Block D) (ℤ × ℤ)
  delete_at k idx = do
    block ← block_at k
    let block' = delete_item block idx
    put_block k block'
    pure (room block, room block')

  unfoldable pub table_delete : ℕ → Rid → M (Table D F) (Unit {0})
  table_delete fuel rid = do
    k ← on_data (get_block rid.block_addr)
    (oldsize, newsize) ← on_data (delete_at k rid.idx)
    on_fsm (hash_table_pop fsm_io fuel oldsize rid.block_addr)
    on_fsm (hash_table_insert fsm_io fuel newsize rid.block_addr)
    on_data (release_block rid.block_addr)
