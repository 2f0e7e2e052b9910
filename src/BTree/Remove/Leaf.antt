-- ===== src/BTree/Remove/Leaf.antt =====
-- `b_tree_delete` at a leaf: under `//deal leaf`, a leaf with too few rows borrows one from a sibling,
-- or is merged with one. In the names, `now` is the address of the leaf and `node` its page.
use ds_my_sql.Base.{ℕ, zero, suc, ◌+◌, ◌-◌, ltb, if◌then◌else◌, Option, none, some, ℤ, eq_ℤ}
use ds_my_sql.Base.State.{M, pure, fault, ◌>>=◌, ◌>>◌}
use ds_my_sql.FileIo.{Stdio}
use ds_my_sql.BufferPool.{BufferPool}
use ds_my_sql.BTree.Pages.{
  TreePage, node_child, tree_page, load_word, release_node, get_node, release_new_node,
}
use ds_my_sql.BTree.Arrays.{put_at, insert_at, shift_left, copy_range}
use ds_my_sql.BTree.Index.{
  Index, min_rows, with_n, with_rows, on_pool, on_store, update, count_rows, row_at,
}
use ds_my_sql.Rid.{Rid}

-- The parent of a node and the sibling that a step works with.
pub record Family : Type 0 where
  pub now : ℤ
  pub node : ℕ
  pub p_addr : ℤ
  pub p : ℕ
  pub index : ℕ

module _ {S : Type 0} where
  -- The loop that looks for `now` among the children of `p`, `n` rounds from `j` on. The index is not
  -- set if it is not there.
  unfoldable pub index_of : ℕ → ℤ → ℕ → ℕ → M (BufferPool TreePage S) ℕ
  index_of p now j zero = fault
  index_of p now j (suc n) = do
    child ← load_word p (node_child j)
    (if eq_ℤ child now then pure j else index_of p now (j + 1) n)

  unfoldable pub release_family : Family → ℤ → M (BufferPool TreePage S) (Unit {0})
  release_family f sib_addr = do release_node f.now; release_node sib_addr; release_node f.p_addr

  -- Row `i` goes from a node of `n` rows.
  unfoldable pub drop_row : (node n i : ℕ) → M (BufferPool TreePage S) (Unit {0})
  drop_row node n i =
      update node (λ page. with_n (n - 1) (with_rows (shift_left page.row i (n - 1 - i)) page))

  -- The last row of the left sibling, of `m` rows, goes to the front of the leaf, of `n` rows; the
  -- answer is that row.
  unfoldable pub leaf_from_left : (node n sib m : ℕ) → M (BufferPool TreePage S) Rid
  leaf_from_left node n sib m = do
    row ← row_at sib (m - 1)
    update node (λ page. with_n (n + 1) (with_rows (insert_at page.row n 0 row) page))
    update sib (λ page. with_n (m - 1) page)
    pure row

  -- The first row of the right sibling goes to the end of the leaf; the answer is the sibling's new
  -- first row.
  unfoldable pub leaf_from_right : (node n sib m : ℕ) → M (BufferPool TreePage S) Rid
  leaf_from_right node n sib m = do
    row ← row_at sib 0
    update node (λ page. with_n (n + 1) (with_rows (put_at page.row n row) page))
    drop_row sib m 0
    row_at sib 0

  -- The `n` rows of `node` go to the end of the `m` rows of `sib`.
  unfoldable pub join_leaves : (node n sib m : ℕ) → M (BufferPool TreePage S) (Unit {0})
  join_leaves node n sib m = do
    q ← tree_page node
    update sib (λ page. with_n (m + n) (with_rows (copy_range page.row m q.row 0 n) page))
    update node (λ page. with_n 0 page)

  unfoldable pub put_row : (p i : ℕ) → Rid → M (BufferPool TreePage S) (Unit {0})
  put_row p i row = update p (λ page. with_rows (put_at page.row i row) page)

module _ {S Name : Type 0} (io : Stdio TreePage S Name) where
  -- A sibling that has a row to spare, with its number of rows; it is released if it has none.
  unfoldable pub spare : ℤ → M (BufferPool TreePage S) (Option (ℕ × ℕ))
  spare sib_addr = do
    sib ← get_node io sib_addr
    m ← count_rows sib
    (if ltb min_rows m then pure (some (sib, m)) else (do release_node sib_addr; pure none))

  -- The child of the parent before or behind the node, if there is one.
  unfoldable pub left_sibling : Family → M (BufferPool TreePage S) (Option (ℤ × ℕ × ℕ))
  left_sibling f =
      if ltb 0 f.index
      then (do
        addr ← load_word f.p (node_child (f.index - 1))
        found ← spare addr
        pure (elim found [ none ↦ none | some (sib, m) ↦ some (addr, sib, m) ]))
      else pure none

  unfoldable pub right_sibling :
      Family → (parent_rows : ℕ) → M (BufferPool TreePage S) (Option (ℤ × ℕ × ℕ))
  right_sibling f parent_rows =
      if ltb f.index parent_rows
      then (do
        addr ← load_word f.p (node_child (f.index + 1))
        found ← spare addr
        pure (elim found [ none ↦ none | some (sib, m) ↦ some (addr, sib, m) ]))
      else pure none

  -- `//merge`: the leaf goes to its left sibling, or else its right sibling to it; the answer is the
  -- parent's row between them.
  unfoldable pub merge_leaves : Family → M (BufferPool TreePage S) Rid
  merge_leaves f =
      if ltb 0 f.index
      then (do
        sib_addr ← load_word f.p (node_child (f.index - 1))
        sib ← get_node io sib_addr
        m ← count_rows sib
        n ← count_rows f.node
        join_leaves f.node n sib m
        release_new_node io f.now
        release_node sib_addr
        row_at f.p (f.index - 1))
      else (do
        sib_addr ← load_word f.p (node_child (f.index + 1))
        sib ← get_node io sib_addr
        m ← count_rows sib
        n ← count_rows f.node
        join_leaves sib m f.node n
        release_new_node io sib_addr
        release_node f.now
        row_at f.p f.index)

-- A sibling at `sib_addr` gave a row: the parent's row `i` becomes a copy of `row`.
module _ {X S : Type 0} (insert_handler : Rid → M X Rid)
    (delete_handler : Rid → M X (Unit {0})) where
  unfoldable pub replace_row : Family → (i : ℕ) → Rid → ℤ → M (Index X S) (Unit {0})
  replace_row f i row sib_addr = do
    old ← on_pool (row_at f.p i)
    on_store (delete_handler old)
    copy ← on_store (insert_handler row)
    on_pool (put_row f.p i copy)
    on_pool (release_family f sib_addr)
