-- ===== src/BTree/Insert.antt =====
-- `b_tree_insert`, with the comparison of rows and the handler of copied rows for parameters.
pub mod Leaf
use ds_my_sql.Base.{
  ℕ, zero, suc, ◌+◌, ◌==◌, Bool, true, false, if◌then◌else◌, ℤ, pos, minus_one, is_negative,
}
use ds_my_sql.Base.State.{M, pure, fault, ◌>>=◌, ◌>>◌}
use ds_my_sql.FileIo.{Stdio}
use ds_my_sql.BufferPool.{BufferPool}
use ds_my_sql.BTree.LowerBound.{lower_bound_rr}
use ds_my_sql.BTree.Pages.{
  TreePage, root_node, node_parent, node_next, tree_page, load_word, store_word, release_node,
  get_node,
}
use ds_my_sql.BTree.Arrays.{put_at, insert_at, split_at, weave}
use ds_my_sql.BTree.Index.{
  Index, max_rows, children, with_children, with_n, with_rows, with_word, on_pool, on_store, update,
  count_rows, row_at, new_node_addr, set_parent,
}
use ds_my_sql.BTree.Search.{not_found, equals_at, root_addr, step_down}
use ds_my_sql.Rid.{Rid}

-- Node `y` takes the second half of the rows of `node` and `row`; `n` rows stay in `node`.
unfoldable pub split_rows :
    {S : Type 0} → (node y : ℕ) → ℕ → ℕ → Rid → M (BufferPool TreePage S) (Unit {0})
split_rows node y n i row = do
  p ← tree_page node
  q ← tree_page y
  let (rows, rows') = split_at p.row q.row i row
  update node (λ page. with_n n (with_rows rows page))
  update y (λ page.
      record (with_n 3 (with_word node_parent (p.word node_parent) (with_rows rows' page))) {
        leaf = p.leaf;
      })

module _ {S Name : Type 0} (io : Stdio TreePage S Name) where
  -- Under `//split the leaf`: the new node and its address.
  unfoldable pub split_leaf : ℕ → ℕ → Rid → M (BufferPool TreePage S) (ℤ × ℕ)
  split_leaf node i rid = do
    y_addr ← new_node_addr io
    y ← get_node io y_addr
    split_rows node y 3 i rid
    pure (y_addr, y)

  -- The children `ch` from `j` on go to the node at `addr`, `n` of them from its child `i` on.
  unfoldable pub adopt :
      (ℕ → ℤ) → (j : ℕ) → ℤ → ℕ → (i n : ℕ) → M (BufferPool TreePage S) (Unit {0})
  adopt ch j addr node i zero = pure tt
  adopt ch j addr node i (suc n) = do
    update node (λ page. with_children (put_at (children page) i (ch j)) page)
    set_parent io (ch j) addr
    adopt ch (j + 1) addr node (i + 1) n

  -- A full parent `p` is split, after the rows of its child `now` were: the row that goes up, and the
  -- new node.
  unfoldable pub split_parent :
      (p_addr : ℤ) (p : ℕ) (tmp_addr : ℤ) (tmp i : ℕ)
      → Rid
      → (now y_addr : ℤ) → M (BufferPool TreePage S) Rid
  split_parent p_addr p tmp_addr tmp i row now y_addr = do
    split_rows p tmp 2 i row
    up ← row_at p 2
    release_node now
    release_node y_addr
    page ← tree_page p
    let ch = weave (λ j. pos 0) (children page) y_addr (i + 1) 0 0 false 7
    adopt ch 0 p_addr p 0 3
    adopt ch 3 tmp_addr tmp 0 4
    pure up

  -- A parent of `n` rows with room takes the row and the node `y_addr` behind it.
  unfoldable pub add_child :
      (p_addr : ℤ) (p n i : ℕ) → Rid → (now y_addr : ℤ) → M (BufferPool TreePage S) (Unit {0})
  add_child p_addr p n i row now y_addr = do
    update p (λ page. with_n (n + 1) (
        with_rows (insert_at page.row n i row)
          (with_children (insert_at (children page) (n + 1) (i + 1) y_addr) page)))
    release_node now
    release_node y_addr
    release_node p_addr

  -- A new root `p`, over `node` and `y`.
  unfoldable pub fill_root :
      (p node y : ℕ) → Rid → (p_addr now y_addr : ℤ) → M (BufferPool TreePage S) (Unit {0})
  fill_root p node y row p_addr now y_addr = do
    update p (λ page.
        record (with_n 1 (
          with_word node_next minus_one (
            with_word node_parent minus_one (
              with_children (put_at (put_at (children page) 0 now) 1 y_addr)
                (with_rows (put_at page.row 0 row) page))))) { leaf = false })
    store_word y node_parent p_addr
    store_word node node_parent p_addr
    release_node now
    release_node y_addr
    ctr ← get_node io (pos 0)
    store_word ctr root_node p_addr
    release_node (pos 0)
    release_node p_addr

  -- A leaf of `n` rows takes the row.
  unfoldable pub add_row : ℤ → (node n i : ℕ) → Rid → M (BufferPool TreePage S) (Unit {0})
  add_row now node n i rid = do
    update node (λ page. with_n (n + 1) (with_rows (insert_at page.row n i rid) page))
    release_node now

module _ {X S Name : Type 0} (io : Stdio TreePage S Name) (cmp : Rid → Rid → M X ℤ)
    (insert_handler : Rid → M X Rid) where
  -- `handler`: the first row that goes up is that of a leaf, and is copied.
  unfoldable pub row_up : Bool → Rid → M X Rid
  row_up handler rid = if handler then insert_handler rid else pure rid

  -- `while (tag_split)`: `node` at `now` was split, and `rid` goes up between it and `y`; the fuel
  -- bounds the depth.
  unfoldable pub split_up :
      ℕ
      → (handler : Bool) (now : ℤ) (node : ℕ) (y_addr : ℤ) (y : ℕ) → Rid
      → M (Index X S) (Unit {0})
  split_up zero handler now node y_addr y rid = fault
  split_up (suc fuel) handler now node y_addr y rid = do
    p_addr ← on_pool (load_word node node_parent)
    (if is_negative p_addr
        then (do
          p_addr' ← on_pool (new_node_addr io)
          p ← on_pool (get_node io p_addr')
          row ← on_store (row_up handler rid)
          on_pool (fill_root io p node y row p_addr' now y_addr))
        else (do
          p ← on_pool (get_node io p_addr)
          page ← on_pool (tree_page p)
          n ← on_pool (count_rows p)
          i ← on_store (lower_bound_rr cmp page.row n rid)
          (if n == max_rows
              then (do
                tmp_addr ← on_pool (new_node_addr io)
                tmp ← on_pool (get_node io tmp_addr)
                row ← on_store (row_up handler rid)
                up ← on_pool (split_parent io p_addr p tmp_addr tmp i row now y_addr)
                split_up fuel false p_addr p tmp_addr tmp up)
              else (do
                row ← on_store (row_up handler rid)
                on_pool (add_child io p_addr p n i row now y_addr)))))

  -- At the leaf; the fuel bounds the depth.
  unfoldable pub insert_row : ℕ → ℤ → (node n i : ℕ) → Rid → M (Index X S) (Unit {0})
  insert_row fuel now node n i rid =
      if n == max_rows
      then (do
        (y_addr, y) ← on_pool (split_leaf io node i rid)
        up ← on_pool (row_at y 0)
        split_up fuel true now node y_addr y up)
      else on_pool (add_row io now node n i rid)

  unfoldable pub insert_below : ℕ → ℕ → Rid → ℤ → ℕ → M (Index X S) (Unit {0})
  insert_below depth zero rid now node = fault
  insert_below depth (suc fuel) rid now node = do
    page ← on_pool (tree_page node)
    n ← on_pool (count_rows node)
    i ← on_store (lower_bound_rr cmp page.row n rid)
    hit ← on_store (equals_at (cmp rid) page.row n i)
    (if page.leaf then insert_row depth now node n i rid else (do
      (child, node') ← on_pool (step_down io now node (if hit then i + 1 else i))
      insert_below depth fuel rid child node'))

  -- The result is a row id that callers do not use.
  unfoldable pub b_tree_insert : ℕ → Rid → M (Index X S) Rid
  b_tree_insert fuel rid = do
    now ← on_pool (root_addr io)
    node ← on_pool (get_node io now)
    insert_below fuel fuel rid now node
    pure not_found
