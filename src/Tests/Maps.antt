-- ===== src/Tests/Maps.antt =====
-- Runs of the free space map and of a table, from empty files.
use ds_my_sql.Base.{
  ℕ, ◌+◌, ◌≡◌, Option, none, some, List, [], ◌∷◌, ℤ, pos, minus_one, refl, replicate,
}
use ds_my_sql.Base.State.{M, pure, ◌>>=◌, ◌>>◌}
use ds_my_sql.FileIo.{open_file, read_page, write_page}
use ds_my_sql.BufferPool.{
  BufferPool, count_unpinned, num_valid_pool, touch, hit_loop, first_at, victim_loop, deref, assign,
  release, clear_frames, init_buffer_pool, evict, choose, fill, miss, get_page,
}
use ds_my_sql.Block.{
  Block, load32, store32, set_item_id, get_item_id, availability, offset, size, compose_item_id,
  init_block, get_item, copy_item, find_available, place_item, new_item, relocate, shift_up,
  remove_item, delete_item,
}
use ds_my_sql.HashMap.Words.{Words, load, store, rel, file_length, drop_last, get}
use ds_my_sql.HashMap.Free.{add_item, walk, get_new_hash_block, add_free, release_new_hash_block}
use ds_my_sql.HashMap.Insert.{
  clear_words, start_block, init_directory, init_pages, hash_table_init, new_addr, insert_first,
  insert_at, hash_table_insert,
}
use ds_my_sql.HashMap.Pop.{
  close_gap, find_addr, retire, take_out, my_hash_table_pop, pop_rest, hash_table_pop, next_size,
  pop_last, hash_table_pop_lower_bound,
}
use ds_my_sql.Table.{
  Table, room, item_bytes, on_data, on_fsm, block_at, put_block, release_block, end_of_data,
  get_block, table_init, copy_out, table_read, block_for, insert_item, table_insert, delete_at,
  table_delete,
}
use ds_my_sql.Rid.{Rid}
use ds_my_sql.Tests.Streams.{Stream, io, zeroes, blank}

abbrev run : {A T : Type 0} → M T A → Option T → Option A
run m none = none
run m (some t) = elim (m t) [ none ↦ none | some (a, t') ↦ some a ]

abbrev Map : Type 0
Map = BufferPool Words (Stream Words)

-- Three blocks go in; the map answers the smallest room that is enough, the newest block first.
abbrev map_session : M Map (ℤ × ℤ × ℤ × ℕ)
map_session = do
  hash_table_insert io 9 (pos 20) (pos 512)
  hash_table_insert io 9 (pos 20) (pos 640)
  hash_table_insert io 9 (pos 90) (pos 768)
  hash_table_pop io 9 (pos 20) (pos 512)
  a ← hash_table_pop_lower_bound io 9 (pos 10)
  b ← hash_table_pop_lower_bound io 9 (pos 21)
  c ← hash_table_pop_lower_bound io 9 (pos 0)
  (λ pool. some ((a, b, c, num_valid_pool pool), pool))

abbrev map_result : Option (ℤ × ℤ × ℤ × ℕ)
map_result = run map_session (hash_table_init io zeroes 0 8)

unfoldable pub program : Unit {0}
unfolding open_file read_page write_page num_valid_pool count_unpinned touch hit_loop first_at
    victim_loop deref assign release clear_frames init_buffer_pool evict choose fill miss get_page
    load32 store32 set_item_id get_item_id availability offset size compose_item_id init_block
    get_item copy_item find_available place_item new_item relocate shift_up remove_item delete_item
    load store rel file_length drop_last get add_item walk get_new_hash_block add_free
    release_new_hash_block clear_words start_block init_directory init_pages hash_table_init
    new_addr insert_first insert_at hash_table_insert close_gap find_addr retire take_out
    my_hash_table_pop pop_rest hash_table_pop next_size pop_last hash_table_pop_lower_bound room
    item_bytes on_data on_fsm block_at put_block release_block end_of_data get_block table_init
    copy_out table_read block_for insert_item table_insert delete_at table_delete
program = tt

-- The last answer, -1, leaves a page pinned: 7 of the 8 frames can be taken.
map_test : map_result ≡ some (pos 640, pos 768, minus_one, 7)
unfolding program
map_test = refl

abbrev Items : Type 0
Items = Table (Stream Block) (Stream Words)

-- Two items of one block; the first one goes, a third one takes its id, and the second one, which
-- moved, is read again. The free space map then has the block at its new room.
abbrev table_session : M Items (List ℕ × List ℕ × Rid × ℤ)
table_session = do
  one ← table_insert io io 9 (λ q. q + 1) 3
  two ← table_insert io io 9 (λ q. q + 11) 2
  table_delete io io 9 one
  three ← table_insert io io 9 (λ q. q + 21) 4
  b ← table_read io io two
  c ← table_read io io three
  found ← on_fsm (hash_table_pop_lower_bound io 9 (pos 0))
  pure (b, c, three, found)

abbrev table_result : Option (List ℕ × List ℕ × Rid × ℤ)
table_result = run table_session (table_init io io (replicate 8 blank) zeroes 0 1)

table_test :
    table_result
    ≡ some (11 ∷ 12 ∷ [], 21 ∷ 22 ∷ 23 ∷ 24 ∷ [], record { block_addr = pos 0; idx = pos 0 }, pos 0)
unfolding program
table_test = refl
