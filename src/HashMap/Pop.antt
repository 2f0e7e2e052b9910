-- ===== src/HashMap/Pop.antt =====
-- `hash_table_pop_lower_bound`, `hash_table_pop` and `my_hash_table_pop`.
use ds_my_sql.Base.{
  ℕ, zero, suc, ◌+◌, ◌-◌, ◌*◌, ◌/◌, ◌%◌, Option, none, some, ◌==◌, ltb, leb, ◌&&◌, if◌then◌else◌, ℤ,
  pos, negsuc, minus_one, eq_ℤ, ltb_ℤ, is_negative,
}
use ds_my_sql.Base.State.{M, pure, ◌>>=◌, ◌>>◌, fault}
use ds_my_sql.FileIo.{Stdio, page_size}
use ds_my_sql.BufferPool.{BufferPool}
use ds_my_sql.HashMap.Words.{
  Words, hash_map_dir_block_size, prv, next, n_items, table_word, dec, rounds, load, store, rel,
  drop_last, get,
}
use ds_my_sql.HashMap.Free.{release_new_hash_block}

-- The loop that moves the last address of a block to index `i`, from `j` down.
unfoldable pub close_gap : {S : Type 0} → ℕ → ℤ → ℕ → M (BufferPool Words S) (Unit {0})
close_gap mp i zero = pure tt
close_gap mp i (suc j) =
    if ltb_ℤ i (pos (suc j))
    then (do
      v ← load mp (table_word (pos (suc j)))
      (if is_negative v
          then close_gap mp i j
          else (do store mp (table_word i) v; store mp (table_word (pos (suc j))) minus_one)))
    else pure tt

-- The loop that searches `table` for an address, `n` rounds from `i` on.
unfoldable pub find_addr : {S : Type 0} → ℕ → ℤ → ℕ → ℕ → M (BufferPool Words S) (Option ℕ)
find_addr mp addr i zero = pure none
find_addr mp addr i (suc n) = do
  v ← load mp (table_word (pos i))
  (if eq_ℤ v addr then pure (some i) else find_addr mp addr (i + 1) n)

module _ {S Name : Type 0} (io : Stdio Words S Name) where
  -- An empty block leaves the file if it is the last one, and else goes to the free blocks.
  unfoldable pub retire : ℕ → ℤ → M (BufferPool Words S) (Unit {0})
  retire fuel now pool =
      if eq_ℤ now (pos (pool.file.length - page_size)) && leb page_size pool.file.length
      then some (tt, drop_last now pool)
      else (rel now >> release_new_hash_block io fuel now) pool

  -- What the three copies of the removal share: the entry `i` of block `now`, whose page is `mp`,
  -- goes; word `w` of page `link` points at the block, and `pre` is that page's address.
  unfoldable pub take_out : ℕ → ℕ → ℕ → ℤ → ℤ → ℕ → ℤ → M (BufferPool Words S) (Unit {0})
  take_out fuel link w pre now mp i = do
    store mp (table_word i) minus_one
    n ← load mp n_items
    store mp n_items (dec n)
    (if eq_ℤ (dec n) (pos 0)
        then (do
          after ← load mp next
          store link w after
          store mp prv minus_one
          store mp next minus_one
          rel pre
          retire fuel now)
        else (do close_gap mp i 12; rel pre; rel now))

  unfoldable pub my_hash_table_pop : ℕ → ℕ → ℤ → ℤ → M (BufferPool Words S) (Unit {0})
  my_hash_table_pop fuel size addr index =
      let pre = pos ((size / hash_map_dir_block_size + 1) * page_size) in
      let r_id = size % hash_map_dir_block_size in
      if ltb size page_size
      then (do
        dir ← get io pre
        now ← load dir r_id
        mp ← get io now
        take_out fuel dir r_id pre now mp index)
      else pure tt

  -- The loop `while (mp->next >= 0)` of `hash_table_pop`; the fuel bounds the blocks.
  unfoldable pub pop_rest : ℕ → ℤ → ℤ → ℕ → ℤ → M (BufferPool Words S) (Unit {0})
  pop_rest zero pre now fmp addr = fault
  pop_rest (suc fuel) pre now fmp addr = do
    after ← load fmp next
    (if is_negative after then pure tt else (do
      rel pre
      mp ← get io after
      n ← load mp n_items
      found ← find_addr mp addr 0 (rounds n)
      elim found [
        | some i ↦ take_out fuel fmp next now after mp (pos i)
        | none ↦ pop_rest fuel now after mp addr
      ]))

  unfoldable pub hash_table_pop : ℕ → ℤ → ℤ → M (BufferPool Words S) (Unit {0})
  hash_table_pop fuel (negsuc size) addr = pure tt
  hash_table_pop fuel (pos size) addr =
      let pre = pos ((size / hash_map_dir_block_size + 1) * page_size) in
      let r_id = size % hash_map_dir_block_size in
      if ltb size page_size
      then (do
        dir ← get io pre
        now ← load dir r_id
        mp ← get io now
        n ← load mp n_items
        found ← find_addr mp addr 0 (rounds n)
        elim found [
          | some i ↦ take_out fuel dir r_id pre now mp (pos i)
          | none ↦ pop_rest fuel pre now mp addr
        ])
      else pure tt

  -- The loop over the sizes: `left` is `PAGE_SIZE - tmp_size`.
  unfoldable pub next_size :
      (left dir dir_id r_id tmp_size : ℕ) → M (BufferPool Words S) (ℕ × ℕ × ℕ × ℕ)
  next_size zero dir dir_id r_id tmp_size = pure (dir, dir_id, r_id, tmp_size)
  next_size (suc left) dir dir_id r_id tmp_size = do
    head ← load dir r_id
    let r_id' = (tmp_size + 1) % hash_map_dir_block_size
    (if eq_ℤ head minus_one
        then (if r_id' == 0
            then (do
              rel (pos (dir_id * page_size))
              dir' ← get io (pos ((dir_id + 1) * page_size))
              next_size left dir' (dir_id + 1) r_id' (tmp_size + 1))
            else next_size left dir dir_id r_id' (tmp_size + 1))
        else pure (dir, dir_id, r_id, tmp_size))

  -- The last address of the first block of size `tmp_size`.
  unfoldable pub pop_last : ℕ → ℕ → ℕ → ℕ → ℕ → M (BufferPool Words S) ℤ
  pop_last fuel dir dir_id r_id tmp_size = do
    now ← load dir r_id
    mp ← get io now
    rel (pos (dir_id * page_size))
    n ← load mp n_items
    ans ← load mp (table_word (dec n))
    rel now
    n' ← load mp n_items
    my_hash_table_pop fuel tmp_size ans (dec n')
    pure ans

  unfoldable pub hash_table_pop_lower_bound : ℕ → ℤ → M (BufferPool Words S) ℤ
  hash_table_pop_lower_bound fuel (negsuc size) = pure minus_one
  hash_table_pop_lower_bound fuel (pos size) =
      let dir_id = size / hash_map_dir_block_size + 1 in
      if ltb size page_size
      then (do
        dir ← get io (pos (dir_id * page_size))
        (dir', dir_id', r_id, tmp_size) ←
            next_size (page_size - size) dir dir_id (size % hash_map_dir_block_size) size
        (if tmp_size == page_size
            then pure minus_one
            else pop_last fuel dir' dir_id' r_id tmp_size))
      else pure minus_one
