-- ===== src/Table/Reads.antt =====
-- `table_read` of an item that stands in a block of the data file.
use ds_my_sql.Base.{
  ℕ, ◌%◌, ◌<◌, ◌≡◌, ◌∙◌, ap, refl, arith, false, Option, none, some, List, leb, pos,
}
use ds_my_sql.FileIo.{page_size, Stdio, Reliable}
use ds_my_sql.BufferPool.{BufferPool, deref, release}
use ds_my_sql.BufferPool.View.{view, SamePages}
use ds_my_sql.BufferPool.View
use ds_my_sql.BufferPool.GetPage.{Pinned}
use ds_my_sql.BufferPool.Ready.{IsReady}
use ds_my_sql.BufferPool.Reads.{Reads, get_page-Reads}
use ds_my_sql.Block.{Block, offset, size, get_item}
use ds_my_sql.Block.Inv.{Live, id_of}
use ds_my_sql.HashMap.Words.{Words}
use ds_my_sql.Rid.{Rid}
use ds_my_sql.Table.{
  Table, item_bytes, on_data, get_block, block_at, copy_out, release_block, table_read,
}

module _ {D Name : Type 0} (io : Stdio Block D Name) where
  pub block_at-Pinned :
      (pool : BufferPool Block D) (k a : ℕ) (b : Block)
      → Pinned io pool k a b
      → block_at k pool ≡ some (b, pool)
  unfolding block_at deref
  block_at-Pinned pool k a b (f, at, addr, ref, page) =
      rw (at, block_at, deref) (ap (λ b'. some (b', pool)) page)

module _ {D F Name : Type 0} (io : Stdio Block D Name) where
  -- The cache of the blocks is a valid one, in which no page is held.
  pub record IsValid (table : Table D F) : Type 0 where
    pub pool_valid : View.IsValid io table.data_pool
    pub pool_ready : IsReady table.data_pool

  -- The table has an item at `rid`, and `bytes` are its bytes.
  pub record Item (table : Table D F) (rid : Rid) (bytes : List ℕ) : Type 0 where
    pub a : ℕ
    pub i : ℕ
    pub block : Block
    pub addr : rid.block_addr ≡ pos a
    pub idx : rid.idx ≡ pos i
    pub aligned : a % page_size ≡ 0
    pub inside : a < table.data_pool.file.length
    pub seen : view io table.data_pool a ≡ some block
    pub live : Live block i
    pub contents : item_bytes block.bytes (offset (id_of block i)) (size (id_of block i)) ≡ bytes

  Item-SamePages :
      (table : Table D F) (pool : BufferPool Block D) (rid : Rid) (bytes : List ℕ)
      → SamePages io table.data_pool pool
      → Item table rid bytes
      → Item (record table { data_pool = pool }) rid bytes
  Item-SamePages table pool rid bytes same h = record {
    a = h.a;
    i = h.i;
    block = h.block;
    addr = h.addr;
    idx = h.idx;
    aligned = h.aligned;
    inside = rw same.length (h.inside);
    seen = same.pages h.a h.aligned h.inside ∙ h.seen;
    live = h.live;
    contents = h.contents;
  }

  module _ (fsm_io : Stdio Words F Name) where
    copy_out-Live :
        (pool : BufferPool Block D) (b : Block) (i : ℕ)
        → Live b i
        → copy_out io fsm_io b (pos i) pool
          ≡ some (item_bytes b.bytes (offset (id_of b i)) (size (id_of b i)), pool)
    unfolding copy_out get_item
    copy_out-Live pool b i l =
        let below : leb b.n_items i ≡ false = ground (arith, l.below) in
        rw (below, copy_out, get_item) (rw (l.used) refl)

    get_block-Reads :
        (pool : BufferPool Block D) (a : ℕ) (b : Block) (reads : Reads io pool a b)
        → get_block io fsm_io (pos a) pool ≡ some (reads.k, reads.pool')
    unfolding get_block
    get_block-Reads pool a b reads = ap answered reads.run
      where
        answered : BufferPool Block D × Option ℕ → Option (ℕ × BufferPool Block D)
        answered o = elim o.1 [ none ↦ none | some k ↦ some (k, o.0) ]

    -- On a stream without device errors, `table_read` of an item of a table whose cache is valid and
    -- in which no page is held, however often it was used before, answers the bytes of the item; and
    -- the table that it leaves is such a table again and has the same items.
    pub table_read-Item :
        (r : Reliable io) (table : Table D F) (rid : Rid) (bytes : List ℕ)
        → IsValid table
        → Item table rid bytes
        → (table' : Table D F) × (table_read io fsm_io rid table ≡ some (bytes, table'))
          × IsValid table'
          × ((rid' : Rid) (bytes' : List ℕ) → Item table rid' bytes' → Item table' rid' bytes')
    unfolding table_read on_data release_block
    table_read-Item r table rid bytes v h =
        let reads =
          get_page-Reads io r table.data_pool h.a h.block v.pool_valid v.pool_ready h.aligned
            h.inside h.seen in
        let pool : BufferPool Block D = release reads.pool' (pos h.a) in
        (
          record table { data_pool = pool },
          rw (h.addr) (
              rw (h.idx) (
                rw (get_block-Reads table.data_pool h.a h.block reads, on_data)
                  (rw (block_at-Pinned io reads.pool' reads.k h.a h.block reads.pinned) (
                    rw (copy_out-Live reads.pool' h.block h.i h.live)
                      (ap (λ z. some (z, record table { data_pool = pool })) h.contents))))),
          record { pool_valid = reads.released.valid; pool_ready = reads.ready },
          λ rid' bytes' h'. Item-SamePages table pool rid' bytes' reads.released h',
        )
