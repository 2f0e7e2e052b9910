-- ===== src/BTree/Remove/Descent.antt =====
-- `b_tree_delete`: the way down to the row, and the way up of the loop `while (tag_merge)`.
use ds_my_sql.Base.{
  ℕ, zero, suc, ◌+◌, ◌-◌, ltb, Bool, true, false, if◌then◌else◌, Option, none, some, ℤ, is_negative,
}
use ds_my_sql.Base.State.{M, pure, fault, ◌>>=◌, ◌>>◌}
use ds_my_sql.FileIo.{Stdio}
use ds_my_sql.BTree.LowerBound.{lower_bound_rr}
use ds_my_sql.BTree.Pages.{TreePage, node_parent, tree_page, load_word, release_node, get_node}
use ds_my_sql.BTree.Index.{Index, min_rows, on_pool, on_store, count_rows, row_at}
use ds_my_sql.BTree.Search.{equals_at, root_addr, step_down}
use ds_my_sql.BTree.Remove.Leaf.{
  Family, index_of, drop_row, leaf_from_left, leaf_from_right, left_sibling, right_sibling,
  merge_leaves, replace_row,
}
use ds_my_sql.BTree.Remove.Inner.{
  drop_child, inner_from_left, inner_from_right, merge_nodes, change_root,
}
use ds_my_sql.Rid.{Rid}

module _ {X S Name : Type 0} (io : Stdio TreePage S Name) (cmp : Rid → Rid → M X ℤ)
    (insert_handler : Rid → M X Rid) (delete_handler : Rid → M X (Unit {0})) where
  unfoldable pub family_of : ℤ → ℕ → ℤ → M (Index X S) (Family × ℕ)
  family_of now node p_addr = do
    p ← on_pool (get_node io p_addr)
    parent_rows ← on_pool (count_rows p)
    index ← on_pool (index_of p now 0 (parent_rows + 1))
    pure (record { now = now; node = node; p_addr = p_addr; p = p; index = index }, parent_rows)

  unfoldable pub drop_copy : Bool → ℕ → ℕ → M (Index X S) (Unit {0})
  drop_copy handler node i =
      if handler then (do old ← on_pool (row_at node i); on_store (delete_handler old)) else pure tt

  -- Under `//redistribute` of a node above the leaves: the row that goes from the parent, if the node
  -- was merged.
  unfoldable pub balance_inner : Family → ℕ → M (Index X S) (Option Rid)
  balance_inner f parent_rows = do
    left ← on_pool (left_sibling io f)
    elim left [
      | some (sib_addr, sib, m) ↦ on_pool (inner_from_left io f sib_addr sib m) >> pure none
      | none ↦ do
        right ← on_pool (right_sibling io f parent_rows)
        elim right [
          | some (sib_addr, sib, m) ↦ on_pool (inner_from_right io f sib_addr sib m) >> pure none
          | none ↦ on_pool (merge_nodes io f) >>= λ down. pure (some down)
        ]
    ]

  -- `while (tag_merge)`: the row `rid` goes from the node at `now`, with the child behind it. `handler`:
  -- the first row that goes is a copy. The fuel bounds the depth.
  unfoldable pub merge_up :
      ℕ → (handler : Bool) (now : ℤ) (node : ℕ) → Rid → M (Index X S) (Unit {0})
  merge_up zero handler now node rid = fault
  merge_up (suc fuel) handler now node rid = do
    page ← on_pool (tree_page node)
    n ← on_pool (count_rows node)
    i ← on_store (lower_bound_rr cmp page.row n rid)
    drop_copy handler node i
    on_pool (drop_child node n i)
    p_addr ← on_pool (load_word node node_parent)
    (if is_negative p_addr
        then on_pool (change_root io now node (n - 1))
        else if ltb (n - 1) min_rows
        then (do
          (f, parent_rows) ← family_of now node p_addr
          merged ← balance_inner f parent_rows
          elim merged [ none ↦ pure tt | some down ↦ merge_up fuel false p_addr f.p down ])
        else on_pool (release_node now))

  -- Under `//redistribute` of a leaf: the row that goes from the parent, if the leaf was merged.
  unfoldable pub balance_leaf : Family → ℕ → M (Index X S) (Option Rid)
  balance_leaf f parent_rows = do
    n ← on_pool (count_rows f.node)
    left ← on_pool (left_sibling io f)
    elim left [
      | some (sib_addr, sib, m) ↦ do
        row ← on_pool (leaf_from_left f.node n sib m)
        replace_row insert_handler delete_handler f (f.index - 1) row sib_addr
        pure none
      | none ↦ do
        right ← on_pool (right_sibling io f parent_rows)
        elim right [
          | some (sib_addr, sib, m) ↦ do
            row ← on_pool (leaf_from_right f.node n sib m)
            replace_row insert_handler delete_handler f f.index row sib_addr
            pure none
          | none ↦ on_pool (merge_leaves io f) >>= λ down. pure (some down)
        ]
    ]

  -- Row `i` goes from the leaf, of `n` rows.
  unfoldable pub remove_row : ℕ → ℤ → (node n i : ℕ) → M (Index X S) (Unit {0})
  remove_row fuel now node n i = do
    on_pool (drop_row node n i)
    p_addr ← on_pool (load_word node node_parent)
    (if is_negative p_addr
        then on_pool (release_node now)
        else if ltb (n - 1) min_rows
        then (do
          (f, parent_rows) ← family_of now node p_addr
          merged ← balance_leaf f parent_rows
          elim merged [ none ↦ pure tt | some down ↦ merge_up fuel true p_addr f.p down ])
        else on_pool (release_node now))

  -- The page of a leaf without the row stays pinned.
  unfoldable pub remove_below : ℕ → ℕ → Rid → ℤ → ℕ → M (Index X S) (Unit {0})
  remove_below depth zero rid now node = fault
  remove_below depth (suc fuel) rid now node = do
    page ← on_pool (tree_page node)
    n ← on_pool (count_rows node)
    i ← on_store (lower_bound_rr cmp page.row n rid)
    hit ← on_store (equals_at (cmp rid) page.row n i)
    (if page.leaf then (if hit then remove_row depth now node n i else pure tt) else (do
      (child, node') ← on_pool (step_down io now node (if hit then i + 1 else i))
      remove_below depth fuel rid child node'))

  unfoldable pub b_tree_delete : ℕ → Rid → M (Index X S) (Unit {0})
  b_tree_delete fuel rid = do
    now ← on_pool (root_addr io)
    node ← on_pool (get_node io now)
    remove_below fuel fuel rid now node
