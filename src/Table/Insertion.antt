-- ===== src/Table/Insertion.antt =====
-- `table_insert` in its block: the item is one that `table_read` finds.
use ds_my_sql.Base.{
  ℕ, zero, suc, ◌+◌, ◌%◌, ◌<◌, ◌≡◌, ◌∙◌, ◌==◌, Bool-cases, inl, inr, ap, sym, subst, refl, arith,
  some, List, ◌∷◌, pos,
}
use ds_my_sql.FileIo.{page_size, Stdio}
use ds_my_sql.BufferPool.{BufferPool, assign}
use ds_my_sql.BufferPool.View
use ds_my_sql.BufferPool.View.{view}
use ds_my_sql.BufferPool.GetPage.{Pinned}
use ds_my_sql.BufferPool.Clients.{assign-view, held_view}
use ds_my_sql.Block.{Block, offset, size, new_item}
use ds_my_sql.Block.Inv
use ds_my_sql.Block.Inv.{id_of, Holds, HasRoom}
use ds_my_sql.Block.Insert.{new_item-Stores}
use ds_my_sql.HashMap.Words.{Words}
use ds_my_sql.Rid.{Rid}
use ds_my_sql.Table.{Table, room, item_bytes, put_block, insert_item}
use ds_my_sql.Table.Reads.{Item, block_at-Pinned}

item_bytes-same :
    (m m' : ℕ → ℕ) (p p' n : ℕ)
    → ((q : ℕ) → q < n → m (p + q) ≡ m' (p' + q))
    → item_bytes m p n ≡ item_bytes m' p' n
unfolding item_bytes
item_bytes-same m m' p p' zero same = refl
item_bytes-same m m' p p' (suc n) same =
    ap (λ c. c ∷ item_bytes m (p + 1) n)
      (ap m (omega arith) ∙ same 0 (omega arith) ∙ ap m' (omega arith))
    ∙ ap (λ l. m' p' ∷ l)
        (item_bytes-same m m' (p + 1) (p' + 1) n
          (λ q lt. ap m (omega arith) ∙ same (q + 1) (omega arith) ∙ ap m' (omega arith)))

-- The bytes that a block has of an item.
item_bytes-Holds :
    (b : Block) (i sz : ℕ) (item : ℕ → ℕ)
    → Holds b i sz item
    → item_bytes b.bytes (offset (id_of b i)) (size (id_of b i)) ≡ item_bytes item 0 sz
item_bytes-Holds b i sz item h =
    ap (λ n. item_bytes b.bytes (offset (id_of b i)) n) h.size_eq
    ∙ item_bytes-same b.bytes item (offset (id_of b i)) 0 sz
        (λ q lt. h.contents q lt ∙ ap item (omega arith))

-- An item that a block has holds its own bytes.
own_bytes :
    (b : Block) (i : ℕ)
    → Inv.Live b i
    → Holds b i (size (id_of b i)) (λ q. b.bytes (offset (id_of b i) + q))
own_bytes b i live = record { live = live; size_eq = refl; contents = λ q lt. refl }

assign-length :
    {D : Type 0} (pool : BufferPool Block D) (k : ℕ) (b : Block)
    → (assign pool k b).file.length ≡ pool.file.length
unfolding assign
assign-length pool k b = ground arith

module _ {D F Name : Type 0} (io : Stdio Block D Name) where
  -- A write to the page at `a` after which the block there holds what it held keeps every item.
  assign-Item :
      (table : Table D F) (k a : ℕ) (b b' : Block)
      → View.IsValid io table.data_pool
      → Pinned io table.data_pool k a b
      → ((j s : ℕ) (bs : ℕ → ℕ) → Holds b j s bs → Holds b' j s bs)
      → (rid : Rid) (bytes : List ℕ) → Item io table rid bytes
      → Item io (record table { data_pool = assign table.data_pool k b' }) rid bytes
  assign-Item table k a b b' v (f, at, addr, ref, page) keeps rid bytes h =
      let pages = (assign-view io table.data_pool k a f b' v at addr).1 in
      let inside : h.a < (assign table.data_pool k b').file.length =
        rw (assign-length table.data_pool k b') (h.inside) in
      elim (Bool-cases (a == h.a)) [
        | inr e ↦ record {
          a = h.a;
          i = h.i;
          block = h.block;
          addr = h.addr;
          idx = h.idx;
          aligned = h.aligned;
          inside = inside;
          seen = pages h.a ∙ rw e (h.seen);
          live = h.live;
          contents = h.contents;
        }
        | inl e ↦
            let there = held_view io table.data_pool v h.a k f at (ground (arith, addr)) in
            let same : h.block ≡ b = ground (arith, h.seen, there, page) in
            let bs : ℕ → ℕ = λ q. h.block.bytes (offset (id_of h.block h.i) + q) in
            let held = keeps h.i (size (id_of h.block h.i)) bs (
              subst (λ x. Holds x h.i (size (id_of h.block h.i)) bs) same
                (own_bytes h.block h.i h.live)) in
            record {
              a = h.a;
              i = h.i;
              block = b';
              addr = h.addr;
              idx = h.idx;
              aligned = h.aligned;
              inside = inside;
              seen = pages h.a ∙ rw e refl;
              live = held.live;
              contents =
                  item_bytes-Holds b' h.i (size (id_of h.block h.i)) bs held
                  ∙ sym (
                      item_bytes-Holds h.block h.i (size (id_of h.block h.i)) bs
                        (own_bytes h.block h.i h.live))
                  ∙ h.contents;
            }
      ]

module _ {D F Name : Type 0} (io : Stdio Block D Name) (fsm_io : Stdio Words F Name) where
  -- The insertion into a well-formed block that has room for the item, in a pinned frame of a valid
  -- cache: it ends and leaves a valid cache; the item is in the table under the id of the block and
  -- of the slot that it answers; the table keeps every item, of this block and of the others; and the
  -- number that it answers for the map is the room that is left.
  pub insert_item-Item :
      (table : Table D F) (k a : ℕ) (b : Block) (src : ℕ → ℕ) (sz : ℕ)
      → View.IsValid io table.data_pool
      → Pinned io table.data_pool k a b
      → a % page_size ≡ 0
      → a < table.data_pool.file.length
      → Inv.IsValid b
      → HasRoom b sz
      → (idx : ℕ) × (b' : Block) × (pool : BufferPool Block D) × (insert_item io fsm_io k src sz
            table.data_pool
          ≡ some ((idx, room b'), pool))
        × View.IsValid io pool
        × (view io pool a ≡ some b')
        × Inv.IsValid b'
        × Item io
            (record table { data_pool = pool })
            (record { block_addr = pos a; idx = pos idx })
            (item_bytes src 0 sz)
        × ((rid : Rid) (bytes : List ℕ)
            → Item io table rid bytes
            → Item io (record table { data_pool = pool }) rid bytes)
  unfolding insert_item put_block
  insert_item-Item table k a b src sz v pin al lt valid has_room =
      let (f, at, addr, ref, page) = pin in
      let pool = table.data_pool in
      let b' : Block = (new_item b src sz).0 in
      let idx : ℕ = (new_item b src sz).1 in
      let (valid', held, unused, keeps) = new_item-Stores b src sz valid has_room in
      let (v', pages) = assign-view io pool k a f b' v at addr in
      let seen : view io (assign pool k b') a ≡ some b' = pages a ∙ ground arith in
      (
        idx,
        b',
        assign pool k b',
        rw (block_at-Pinned io pool k a b pin) refl,
        v',
        seen,
        valid',
        record {
          a = a;
          i = idx;
          block = b';
          addr = refl;
          idx = refl;
          aligned = al;
          inside = rw (assign-length pool k b') lt;
          seen = seen;
          live = held.live;
          contents = item_bytes-Holds b' idx sz src held;
        },
        assign-Item io table k a b b' v pin keeps,
      )
