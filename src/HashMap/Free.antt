-- ===== src/HashMap/Free.antt =====
-- The list of free hash blocks: `get_new_hash_block` and `release_new_hash_block`, and the walk to
-- the block that an address is added to.
use ds_my_sql.Base.{
  ℕ, zero, suc, ◌&&◌, not, if◌then◌else◌, ℤ, pos, minus_one, eq_ℤ, ltb_ℤ, is_negative,
}
use ds_my_sql.Base.State.{M, pure, fault, ◌>>=◌, ◌>>◌}
use ds_my_sql.FileIo.{Stdio}
use ds_my_sql.BufferPool.{BufferPool}
use ds_my_sql.HashMap.Words.{
  Words, hash_map_block_size, prv, next, n_items, table_word, inc, dec, load, store, rel, get,
}

-- `mp->table[mp->n_items] = addr; mp->n_items++; release(pool, now)`
unfoldable pub add_item : {S : Type 0} → ℤ → ℕ → ℤ → M (BufferPool Words S) (Unit {0})
add_item now mp addr = do
  n ← load mp n_items
  store mp (table_word n) addr
  store mp n_items (inc n)
  rel now

module _ {S Name : Type 0} (io : Stdio Words S Name) where
  -- The loop to the first block with room, or to the last one; the fuel bounds the blocks.
  unfoldable pub walk : ℕ → ℤ → ℕ → M (BufferPool Words S) (ℤ × ℕ)
  walk zero now mp = fault
  walk (suc fuel) now mp = do
    n ← load mp n_items
    after ← load mp next
    (if eq_ℤ n (pos hash_map_block_size) && not (is_negative after)
        then (do mp' ← get io after; rel now; walk fuel after mp')
        else pure (now, mp))

  unfoldable pub get_new_hash_block : M (BufferPool Words S) ℤ
  get_new_hash_block = do
    ctr ← get io (pos 0)
    head ← load ctr 0
    (if eq_ℤ head minus_one then (do rel (pos 0); pure minus_one) else (do
      mp ← get io head
      n ← load mp n_items
      ans ← load mp (table_word (dec n))
      store mp (table_word (dec n)) minus_one
      store mp n_items (dec n)
      (if eq_ℤ (dec n) (pos 0)
          then (do after ← load mp next; store ctr 0 after; store mp next minus_one)
          else pure tt)
      rel (pos 0)
      rel head
      pure ans))

  -- What follows the walk.
  unfoldable pub add_free : ℤ → ℤ → ℕ → M (BufferPool Words S) (Unit {0})
  add_free addr now mp = do
    n ← load mp n_items
    (if ltb_ℤ n (pos hash_map_block_size) then add_item now mp addr else (do
      store mp next addr
      mp' ← get io addr
      rel now
      store mp' prv now
      store mp' next minus_one
      store mp' n_items (pos 1)
      store mp' (table_word (pos 0)) addr
      rel addr))

  unfoldable pub release_new_hash_block : ℕ → ℤ → M (BufferPool Words S) (Unit {0})
  release_new_hash_block fuel addr = do
    ctr ← get io (pos 0)
    head ← load ctr 0
    (if eq_ℤ head minus_one
        then (do
          store ctr 0 addr
          rel (pos 0)
          mp ← get io addr
          store mp next minus_one
          store mp n_items (pos 1)
          store mp (table_word (pos 0)) addr
          rel addr)
        else (do
          mp ← get io head
          rel (pos 0)
          (now, last) ← walk fuel head mp
          add_free addr now last))
