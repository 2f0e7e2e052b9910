-- ===== src/BTree/Remove/Inner.antt =====
-- `b_tree_delete` above the leaves: under `// non leaf begin`, a node that lost a row and a child
-- borrows one of each from a sibling, or is merged with one.
use ds_my_sql.Base.{ℕ, zero, suc, ◌+◌, ◌-◌, ◌==◌, ltb, if◌then◌else◌, ℤ, pos, minus_one}
use ds_my_sql.Base.State.{M, pure, ◌>>=◌, ◌>>◌}
use ds_my_sql.FileIo.{Stdio}
use ds_my_sql.BufferPool.{BufferPool}
use ds_my_sql.BTree.Pages.{
  TreePage, root_node, node_child, tree_page, load_word, store_word, release_node, get_node,
  release_new_node,
}
use ds_my_sql.BTree.Arrays.{put_at, insert_at, shift_left, copy_range}
use ds_my_sql.BTree.Index.{
  children, with_children, with_n, with_rows, update, count_rows, row_at, set_parent,
}
use ds_my_sql.BTree.Remove.Leaf.{Family, release_family, put_row}
use ds_my_sql.Rid.{Rid}

module _ {S : Type 0} where
  -- Row `i` and the child behind it go from a node of `n` rows.
  unfoldable pub drop_child : (node n i : ℕ) → M (BufferPool TreePage S) (Unit {0})
  drop_child node n i = update node (λ page. with_n (n - 1) (
      with_rows (shift_left page.row i (n - 1 - i))
        (with_children (shift_left (children page) (i + 1) (n - 1 - i)) page)))

  -- `down` and the last child of the left sibling, of `m` rows, go to the front of the node, of `n`
  -- rows; the answer is that child.
  unfoldable pub take_last : (node n sib m : ℕ) → Rid → M (BufferPool TreePage S) ℤ
  take_last node n sib m down = do
    son ← load_word sib (node_child m)
    update node (λ page. with_n (n + 1) (
        with_rows (insert_at page.row n 0 down)
          (with_children (insert_at (children page) (n + 1) 0 son) page)))
    update sib (λ page. with_n (m - 1) page)
    pure son

  -- `down` and the first child of the right sibling go to the end of the node; the answer is that
  -- child.
  unfoldable pub take_first : (node n sib m : ℕ) → Rid → M (BufferPool TreePage S) ℤ
  take_first node n sib m down = do
    son ← load_word sib (node_child 0)
    update node (λ page. with_n (n + 1) (
        with_rows (put_at page.row n down)
          (with_children (put_at (children page) (n + 1) son) page)))
    update sib (λ page. with_n (m - 1) (
        with_rows (shift_left page.row 0 (m - 1))
          (with_children (shift_left (children page) 0 m) page)))
    pure son

module _ {S Name : Type 0} (io : Stdio TreePage S Name) where
  -- The `n` children of `from` from `j` on get a new parent.
  unfoldable pub set_parents : (from j n : ℕ) → ℤ → M (BufferPool TreePage S) (Unit {0})
  set_parents from j zero parent = pure tt
  set_parents from j (suc n) parent = do
    son ← load_word from (node_child j)
    set_parent io son parent
    set_parents from (j + 1) n parent

  unfoldable pub inner_from_left :
      Family → (sib_addr : ℤ) (sib m : ℕ) → M (BufferPool TreePage S) (Unit {0})
  inner_from_left f sib_addr sib m = do
    n ← count_rows f.node
    down ← row_at f.p (f.index - 1)
    up ← row_at sib (m - 1)
    son ← take_last f.node n sib m down
    put_row f.p (f.index - 1) up
    set_parent io son f.now
    release_family f sib_addr

  unfoldable pub inner_from_right :
      Family → (sib_addr : ℤ) (sib m : ℕ) → M (BufferPool TreePage S) (Unit {0})
  inner_from_right f sib_addr sib m = do
    n ← count_rows f.node
    down ← row_at f.p f.index
    up ← row_at sib 0
    son ← take_first f.node n sib m down
    put_row f.p f.index up
    set_parent io son f.now
    release_family f sib_addr

  -- `down`, the rows of `node` and its children go to the end of `sib`, at `sib_addr`.
  unfoldable pub join_nodes :
      (node n : ℕ) (sib_addr : ℤ) (sib m : ℕ) → Rid → M (BufferPool TreePage S) (Unit {0})
  join_nodes node n sib_addr sib m down = do
    q ← tree_page node
    update sib (λ page.
        with_rows (copy_range (put_at page.row m down) (m + 1) q.row 0 n)
          (with_children (copy_range (children page) (m + 1) (children q) 0 (n + 1)) page))
    set_parents node 0 (n + 1) sib_addr
    update sib (λ page. with_n (m + n + 1) page)
    update node (λ page. with_n 0 page)

  -- `//merge`: the node goes to its left sibling, or else its right sibling to it; the answer is the
  -- parent's row between them.
  unfoldable pub merge_nodes : Family → M (BufferPool TreePage S) Rid
  merge_nodes f =
      if ltb 0 f.index
      then (do
        sib_addr ← load_word f.p (node_child (f.index - 1))
        sib ← get_node io sib_addr
        m ← count_rows sib
        n ← count_rows f.node
        down ← row_at f.p (f.index - 1)
        join_nodes f.node n sib_addr sib m down
        release_new_node io f.now
        release_node sib_addr
        pure down)
      else (do
        sib_addr ← load_word f.p (node_child (f.index + 1))
        sib ← get_node io sib_addr
        m ← count_rows sib
        n ← count_rows f.node
        down ← row_at f.p f.index
        join_nodes sib m f.now f.node n down
        release_new_node io sib_addr
        release_node f.now
        pure down)

  -- `//change the root`: of a root of `n` rows, which gives way to its child if it has none.
  unfoldable pub change_root : ℤ → (node n : ℕ) → M (BufferPool TreePage S) (Unit {0})
  change_root now node n =
      if n == 0
      then (do
        ctr ← get_node io (pos 0)
        child ← load_word node (node_child 0)
        store_word ctr root_node child
        release_node (pos 0)
        release_new_node io now
        set_parent io child minus_one)
      else release_node now
