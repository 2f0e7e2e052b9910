-- ===== src/BTree/Search.antt =====
-- `b_tree_search`. The comparison of a key with a row is the parameter `cmp`.
pub mod Shape
pub mod Steps
pub mod Outcomes
pub mod Descend
pub mod Finds
use ds_my_sql.Base.{ℕ, zero, suc, ◌+◌, ◌==◌, Bool, false, if◌then◌else◌, ℤ, pos, minus_one, eq_ℤ}
use ds_my_sql.Base.State.{M, pure, fault, ◌>>=◌, ◌>>◌}
use ds_my_sql.FileIo.{Stdio}
use ds_my_sql.BufferPool.{BufferPool}
use ds_my_sql.BTree.LowerBound.{lower_bound_pr}
use ds_my_sql.BTree.Pages.{
  TreePage, root_node, node_child, tree_page, load_word, release_node, get_node,
}
use ds_my_sql.BTree.Index.{Index, on_pool, on_store, count_rows}
use ds_my_sql.Rid.{Rid}

-- What the search answers if there is no record of the key.
abbrev pub not_found : Rid
not_found = record { block_addr = minus_one; idx = pos 0 }

-- `i != node->n && cmp(…, node->row_ptr[i]) == 0`
unfoldable pub equals_at : {X : Type 0} → (Rid → M X ℤ) → (ℕ → Rid) → (n i : ℕ) → M X Bool
equals_at cmp row n i = if i == n then pure false else do c ← cmp (row i); pure (eq_ℤ c (pos 0))

module _ {S Name : Type 0} (io : Stdio TreePage S Name) where
  -- `root_node` of the control block.
  unfoldable pub root_addr : M (BufferPool TreePage S) ℤ
  root_addr = do
    ctr ← get_node io (pos 0)
    now ← load_word ctr root_node
    release_node (pos 0)
    pure now

  -- From a node to its child `i`.
  unfoldable pub step_down : ℤ → ℕ → ℕ → M (BufferPool TreePage S) (ℤ × ℕ)
  step_down now node i = do
    child ← load_word node (node_child i)
    release_node now
    node' ← get_node io child
    pure (child, node')

module _ {K X S Name : Type 0} (io : Stdio TreePage S Name) (cmp : K → ℕ → Rid → M X ℤ) where
  -- From the node at `now` on, with its page `node`; the fuel bounds the depth.
  unfoldable pub descend : ℕ → K → ℕ → ℤ → ℕ → M (Index X S) Rid
  descend zero key size now node = fault
  descend (suc fuel) key size now node = do
    page ← on_pool (tree_page node)
    n ← on_pool (count_rows node)
    i ← on_store (lower_bound_pr cmp page.row n key size)
    hit ← on_store (equals_at (cmp key size) page.row n i)
    (if page.leaf
        then (do on_pool (release_node now); pure (if hit then page.row i else not_found))
        else (do
          (child, node') ← on_pool (step_down io now node (if hit then i + 1 else i))
          descend fuel key size child node'))

  unfoldable pub b_tree_search : ℕ → K → ℕ → M (Index X S) Rid
  b_tree_search fuel key size = do
    now ← on_pool (root_addr io)
    node ← on_pool (get_node io now)
    n ← on_pool (count_rows node)
    (if n == 0
        then (do on_pool (release_node now); pure not_found)
        else descend fuel key size now node)
