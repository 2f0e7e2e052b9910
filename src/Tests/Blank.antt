-- ===== src/Tests/Blank.antt =====
-- The insertion of the bytes of a chunk into an empty block that the cache holds.
use ds_my_sql.Base.{ℕ, ◌≡◌, arith, refl, some, List, [], ◌∷◌, pos, minus_one, replicate, get_or}
use ds_my_sql.BufferPool.{BufferPool}
use ds_my_sql.BufferPool.Arrays.{count}
use ds_my_sql.BufferPool.View
use ds_my_sql.BufferPool.View.{view}
use ds_my_sql.Block.{Block, init_block}
use ds_my_sql.Block.Inv
use ds_my_sql.Rid.{Rid, no_rid}
use ds_my_sql.Str.Chain.{chunk}
use ds_my_sql.Store.Bytes.{chunk_bytes}
use ds_my_sql.Table.{room, item_bytes, insert_item}
use ds_my_sql.Table.Room.{init_block-HasRoom}
use ds_my_sql.Table.Reads.{Item}
use ds_my_sql.Table.Insertion.{insert_item-Item}
use ds_my_sql.Tests.Streams.{Stream, io, blank}
use ds_my_sql.Tests.Tables.{Items, opened}

abbrev empty : Block
empty = init_block blank

-- The block is in the first frame.
abbrev held : Items
held = record (opened empty) {
  data_pool = record (opened empty).data_pool {
    frames =
        record { page = empty; addr = pos 0; cnt = 1; ref = 1 }
        ∷ replicate 7 (record { page = blank; addr = minus_one; cnt = 0; ref = 0 });
  };
}

held-IsValid : View.IsValid io held.data_pool
unfolding count
held-IsValid = record {
  aligned = refl;
  unique = λ a. ground arith;
  inside = ((refl, omega arith), (refl, (refl, (refl, (refl, (refl, (refl, (refl, tt))))))));
  readable = λ a al lt. (empty, ground arith);
}

abbrev bytes_at : ℕ → ℕ
bytes_at q = get_or (chunk_bytes (chunk no_rid (4 ∷ 5 ∷ []))) q 0

insert_item-Item_example :
    (idx : ℕ) × (b' : Block) × (pool : BufferPool Block (Stream Block)) × (insert_item io io 0
        bytes_at 14 held.data_pool
      ≡ some ((idx, room b'), pool))
    × View.IsValid io pool
    × (view io pool 0 ≡ some b')
    × Inv.IsValid b'
    × Item io
        (record held { data_pool = pool })
        (record { block_addr = pos 0; idx = pos idx })
        (item_bytes bytes_at 0 14)
    × ((rid : Rid) (bytes : List ℕ)
        → Item io held rid bytes
        → Item io (record held { data_pool = pool }) rid bytes)
insert_item-Item_example =
    insert_item-Item io io held 0 0 empty bytes_at 14 held-IsValid (_, refl, refl, refl, refl) refl
      (omega arith) (init_block-HasRoom blank 14 (omega arith)).0
      (init_block-HasRoom blank 14 (omega arith)).1
