-- ===== src/HashMap/Insert.antt =====
-- `hash_table_init`, `hash_table_close` and `hash_table_insert`.
use ds_my_sql.Base.{
  ℕ, zero, suc, ◌+◌, ◌*◌, ◌/◌, ◌%◌, Option, none, some, List, ◌==◌, ltb, if◌then◌else◌, ℤ, pos,
  negsuc, minus_one, eq_ℤ, ltb_ℤ,
}
use ds_my_sql.Base.State.{M, pure, ◌>>=◌, ◌>>◌}
use ds_my_sql.FileIo.{Stdio, page_size}
use ds_my_sql.BufferPool.{BufferPool, init_buffer_pool, close_buffer_pool}
use ds_my_sql.HashMap.Words.{
  Words, hash_map_dir_block_size, hash_map_block_size, prv, next, n_items, table_word, load, store,
  rel, file_length, get,
}
use ds_my_sql.HashMap.Free.{add_item, walk, get_new_hash_block}

-- `n` words of -1 from word `i` on.
unfoldable pub clear_words : {S : Type 0} → ℕ → ℕ → ℕ → M (BufferPool Words S) (Unit {0})
clear_words k i zero = pure tt
clear_words k i (suc n) = store k i minus_one >> clear_words k (i + 1) n

-- A new last block of a chain, with one address.
unfoldable pub start_block : {S : Type 0} → ℕ → ℤ → ℤ → M (BufferPool Words S) (Unit {0})
start_block mp before addr = do
  store mp prv before
  store mp next minus_one
  store mp n_items (pos 1)
  store mp (table_word (pos 0)) addr
  clear_words mp (table_word (pos 1)) 12

module _ {S Name : Type 0} (io : Stdio Words S Name) where
  -- The loop over the directory blocks, `n` of them from block `i` on.
  unfoldable pub init_directory : ℕ → ℕ → M (BufferPool Words S) (Unit {0})
  init_directory i zero = pure tt
  init_directory i (suc n) = do
    dir ← get io (pos (i * page_size))
    clear_words dir 0 hash_map_dir_block_size
    rel (pos (i * page_size))
    init_directory (i + 1) n

  unfoldable pub init_pages : ℕ → M (BufferPool Words S) (Unit {0})
  init_pages n_directory_blocks = do
    ctr ← get io (pos 0)
    store ctr 0 minus_one
    store ctr 1 (pos n_directory_blocks)
    store ctr 2 (pos (n_directory_blocks * hash_map_dir_block_size))
    rel (pos 0)
    init_directory 1 n_directory_blocks

  unfoldable pub hash_table_init : List Words → Name → ℕ → Option (BufferPool Words S)
  hash_table_init garbage name n_directory_blocks =
      let (result, opened) = init_buffer_pool io garbage name in
      elim opened [
        | none ↦ none
        | some pool ↦
            if pool.file.length == 0
            then elim (init_pages n_directory_blocks pool) [
              | none ↦ none
              | some (u, pool') ↦ some pool'
            ]
            else some pool
      ]

  unfoldable pub hash_table_close : BufferPool Words S → S
  hash_table_close pool = close_buffer_pool io pool

  -- A free block, or else the end of the file.
  unfoldable pub new_addr : M (BufferPool Words S) ℤ
  new_addr = do
    store_addr ← get_new_hash_block io
    (if eq_ℤ store_addr minus_one then file_length else pure store_addr)

  -- The chain of the size is empty.
  unfoldable pub insert_first : ℤ → ℕ → ℕ → ℤ → M (BufferPool Words S) (Unit {0})
  insert_first pre dir r_id addr = do
    store_addr ← new_addr
    store dir r_id store_addr
    mp ← get io store_addr
    rel pre
    start_block mp pre addr
    rel store_addr

  -- What follows the walk to block `now`.
  unfoldable pub insert_at : ℤ → ℤ → ℕ → M (BufferPool Words S) (Unit {0})
  insert_at addr now mp = do
    n ← load mp n_items
    (if ltb_ℤ n (pos hash_map_block_size) then add_item now mp addr else (do
      store_addr ← new_addr
      store mp next store_addr
      mp' ← get io store_addr
      rel now
      start_block mp' now addr
      rel store_addr))

  -- The fuel bounds the blocks of a chain; a size out of range only prints.
  unfoldable pub hash_table_insert : ℕ → ℤ → ℤ → M (BufferPool Words S) (Unit {0})
  hash_table_insert fuel (negsuc n) addr = pure tt
  hash_table_insert fuel (pos size) addr =
      let pre = pos ((size / hash_map_dir_block_size + 1) * page_size) in
      let r_id = size % hash_map_dir_block_size in
      if ltb size page_size
      then (do
        dir ← get io pre
        head ← load dir r_id
        (if eq_ℤ head minus_one then insert_first pre dir r_id addr else (do
          mp ← get io head
          rel pre
          (now, last) ← walk io fuel head mp
          insert_at addr now last)))
      else pure tt
