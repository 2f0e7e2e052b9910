-- ===== src/Tests/Tables.antt =====
-- Tables of src/table.c on files that are just opened, with two items each in one block: chunks, and
-- records.
use ds_my_sql.Base.{
  ℕ, ◌+◌, ◌≡◌, arith, inl, none, some, List, [], ◌∷◌, ◌==◌, if◌then◌else◌, pos, minus_one, refl,
  replicate, length, get_or,
}
use ds_my_sql.FileIo.{page_size, Reliable}
use ds_my_sql.BufferPool.Arrays.{count, lookup}
use ds_my_sql.BufferPool.View.{view}
use ds_my_sql.BufferPool.Reads.{Reads, get_page-Reads}
use ds_my_sql.Block.{
  Block, store32, get_item_id, set_item_id, load32, compose_item_id, availability, offset, size,
  init_block, copy_item, find_available, place_item, new_item,
}
use ds_my_sql.HashMap.Words.{Words}
use ds_my_sql.Rid.{Rid, no_rid}
use ds_my_sql.Table.{Table, item_bytes, table_read}
use ds_my_sql.Table.Reads.{IsValid, Item, table_read-Item}
use ds_my_sql.Str
use ds_my_sql.Str.{Chunk}
use ds_my_sql.Str.Chain.{Laws, chunk, Chain}
use ds_my_sql.Store.{Record, Records}
use ds_my_sql.Store.Bytes.{
  to_bytes, of_bytes, rid_bytes, bytes_rid, record_bytes, bytes_record, chunk_bytes, bytes_chunk,
}
use ds_my_sql.Store.Keys.{RecordLaws}
use ds_my_sql.Store.Disk.{disk_records, disk_strings}
use ds_my_sql.Store.Disk.Reads.{Stored, disk_strings-Laws, disk_records-RecordLaws}
use ds_my_sql.Tests.Streams.{Stream, io, blank}

abbrev pub id_at : ℕ → Rid
id_at i = record { block_addr = pos 0; idx = pos i }

pub reliable : {P : Type 0} → Reliable (io {P = P})
reliable = record {
  wrote = λ s a p. record {
    size = if a == s.size then s.size + page_size else s.size;
    page = λ b. if b == a then some p else s.page b;
  };
  write_lands = λ s a p. refl;
  read_back = λ s a p al. ground arith;
  read_other = λ s a b p al al' ne. ground arith;
}

abbrev pub Items : Type 0
Items = Table (Stream Block) (Stream Words)

-- A file of one block.
abbrev pub opened : Block → Items
opened block = record {
  data_pool = record {
    file = record {
      fp = record { size = 128; page = λ a. if a == 0 then some block else none };
      length = 128;
    };
    frames = replicate 8 (record { page = blank; addr = minus_one; cnt = 0; ref = 0 });
  };
  fsm_pool = record {
    file = record { fp = record { size = 0; page = λ a. none }; length = 0 };
    frames = [];
  };
}

opened-IsValid : (block : Block) → IsValid io (opened block)
unfolding count
opened-IsValid block = record {
  pool_valid = record {
    aligned = refl;
    unique = λ a. ground arith;
    inside = (refl, (refl, (refl, (refl, (refl, (refl, (refl, (refl, tt))))))));
    readable = λ a al lt. (block, ground arith);
  };
  pool_ready = record {
    free = (refl, (refl, (refl, (refl, (refl, (refl, (refl, (refl, tt))))))));
    low = inl (omega arith);
  };
}

abbrev pub store_table : Str.Table Items
store_table = disk_strings io io 9

abbrev pub store_laws : Laws store_table
store_laws = disk_strings-Laws io io 9 reliable

abbrev pub rec_table : Records Items
rec_table = disk_records io io 9

abbrev pub rec_laws : RecordLaws rec_table
rec_laws = disk_records-RecordLaws io io 9 reliable

abbrev with_item : List ℕ → Block → Block
with_item bytes block = (new_item block (λ q. get_or bytes q 0) (length bytes)).0

-- Two chunks, the second one first.
abbrev head_chunk : Chunk
head_chunk = chunk (id_at 0) (1 ∷ 2 ∷ 3 ∷ [])

abbrev tail_chunk : Chunk
tail_chunk = chunk no_rid (4 ∷ 5 ∷ [])

abbrev chunk_block : Block
chunk_block =
    with_item (chunk_bytes head_chunk) (with_item (chunk_bytes tail_chunk) (init_block blank))

abbrev pub two_chunks : Items
two_chunks = opened chunk_block

-- The keys are `1 2 3 4 5`, in two chunks, and `4 5`, and each one is the value of the other.
abbrev pub long_key : Record
long_key = record { key = id_at 1; value = id_at 0 }

abbrev pub short_key : Record
short_key = record { key = id_at 0; value = id_at 1 }

abbrev record_block : Block
record_block =
    with_item (record_bytes short_key) (with_item (record_bytes long_key) (init_block blank))

abbrev pub two_records : Items
two_records = opened record_block

pub item_code : Unit {0}
unfolding count lookup view store32 get_item_id set_item_id load32 compose_item_id availability
    offset size init_block copy_item find_available place_item new_item item_bytes to_bytes of_bytes
    rid_bytes bytes_rid record_bytes bytes_record chunk_bytes bytes_chunk
item_code = tt

abbrev pub HoldsChunk : Rid → Chunk → Type 0
HoldsChunk = Stored io io 9 bytes_chunk two_chunks

abbrev pub HoldsRecord : Rid → Record → Type 0
HoldsRecord = Stored io io 9 bytes_record two_records

pub tail_item : Item io two_chunks (id_at 0) (chunk_bytes tail_chunk)
unfolding item_code
tail_item = record {
  a = 0;
  i = 0;
  block = chunk_block;
  addr = refl;
  idx = refl;
  aligned = refl;
  inside = omega arith;
  seen = refl;
  live = record { below = omega arith; used = refl };
  contents = refl;
}

pub tail_stored : HoldsChunk (id_at 0) tail_chunk
unfolding item_code
tail_stored = record { bytes = chunk_bytes tail_chunk; item = tail_item; decoded = refl }

pub head_item : Item io two_chunks (id_at 1) (chunk_bytes head_chunk)
unfolding item_code
head_item = record {
  a = 0;
  i = 1;
  block = chunk_block;
  addr = refl;
  idx = refl;
  aligned = refl;
  inside = omega arith;
  seen = refl;
  live = record { below = omega arith; used = refl };
  contents = refl;
}

pub head_stored : HoldsChunk (id_at 1) head_chunk
unfolding item_code
head_stored = record { bytes = chunk_bytes head_chunk; item = head_item; decoded = refl }

pub long_item : Item io two_records (id_at 0) (record_bytes long_key)
unfolding item_code
long_item = record {
  a = 0;
  i = 0;
  block = record_block;
  addr = refl;
  idx = refl;
  aligned = refl;
  inside = omega arith;
  seen = refl;
  live = record { below = omega arith; used = refl };
  contents = refl;
}

pub long_stored : HoldsRecord (id_at 0) long_key
unfolding item_code
long_stored = record { bytes = record_bytes long_key; item = long_item; decoded = refl }

pub short_item : Item io two_records (id_at 1) (record_bytes short_key)
unfolding item_code
short_item = record {
  a = 0;
  i = 1;
  block = record_block;
  addr = refl;
  idx = refl;
  aligned = refl;
  inside = omega arith;
  seen = refl;
  live = record { below = omega arith; used = refl };
  contents = refl;
}

pub short_stored : HoldsRecord (id_at 1) short_key
unfolding item_code
short_stored = record { bytes = record_bytes short_key; item = short_item; decoded = refl }

pub two_chunks-IsValid : IsValid io two_chunks
two_chunks-IsValid = opened-IsValid chunk_block

pub two_records-IsValid : IsValid io two_records
two_records-IsValid = opened-IsValid record_block

pub two_chunks-Chain : Chain store_laws two_chunks (id_at 1) (1 ∷ 2 ∷ 3 ∷ []) ((4 ∷ 5 ∷ []) ∷ [])
unfolding disk_strings-Laws
two_chunks-Chain = (id_at 0, head_stored, refl, omega arith, tail_stored)

table_read-Item_example :
    (table' : Items) × (table_read io io (id_at 1) two_chunks
      ≡ some (chunk_bytes head_chunk, table'))
    × IsValid io table'
    × ((rid' : Rid) (bytes' : List ℕ) → Item io two_chunks rid' bytes' → Item io table' rid' bytes')
table_read-Item_example =
    table_read-Item io io reliable two_chunks (id_at 1) (chunk_bytes head_chunk) two_chunks-IsValid
      head_item

get_page-Reads_example : Reads io two_chunks.data_pool 0 chunk_block
unfolding lookup view
get_page-Reads_example =
    get_page-Reads io reliable two_chunks.data_pool 0 chunk_block two_chunks-IsValid.pool_valid
      two_chunks-IsValid.pool_ready refl (omega arith) refl
