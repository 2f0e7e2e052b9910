-- ===== src/BTree/Index.antt =====
-- A tree and the store that its comparisons and handlers work on, and the access to both. There is
-- no result where a node has more rows than its arrays have room for.
use ds_my_sql.Base.{ℕ, ◌-◌, none, some, ◌==◌, ltb, if◌then◌else◌, ℤ, pos, negsuc, minus_one, eq_ℤ}
use ds_my_sql.Base.State.{M, pure, fault, ◌>>=◌, ◌>>◌}
use ds_my_sql.FileIo.{Stdio}
use ds_my_sql.BufferPool.{BufferPool, deref, assign}
use ds_my_sql.BTree.Pages.{
  TreePage, node_n, node_parent, node_child, tree_page, load_word, store_word, release_node,
  get_node, get_new_node,
}
use ds_my_sql.Rid.{Rid}

pub record Index (X S : Type 0) : Type 0 where
  pub pool : BufferPool TreePage S
  pub store : X

-- `2 * DEGREE - 1` and `DEGREE - 1`
abbrev pub max_rows : ℕ
max_rows = 5

abbrev pub min_rows : ℕ
min_rows = 2

-- The array `child` of a page, read and written.
abbrev pub children : TreePage → ℕ → ℤ
children page j = page.word (node_child j)

abbrev pub with_children : (ℕ → ℤ) → TreePage → TreePage
with_children f page = record page { word = λ j. if ltb j 3 then page.word j else f (j - 3) }

abbrev pub with_word : ℕ → ℤ → TreePage → TreePage
with_word i v page = record page { word = λ j. if j == i then v else page.word j }

abbrev pub with_n : ℕ → TreePage → TreePage
with_n n page = with_word node_n (pos n) page

abbrev pub with_rows : (ℕ → Rid) → TreePage → TreePage
with_rows f page = record page { row = f }

module _ {X S : Type 0} where
  unfoldable pub on_pool : {A : Type 0} → M (BufferPool TreePage S) A → M (Index X S) A
  on_pool m index = elim (m index.pool) [
    | none ↦ none
    | some (a, pool) ↦ some (a, record index { pool = pool })
  ]

  unfoldable pub on_store : {A : Type 0} → M X A → M (Index X S) A
  on_store m index = elim (m index.store) [
    | none ↦ none
    | some (a, store) ↦ some (a, record index { store = store })
  ]

module _ {S : Type 0} where
  unfoldable pub update : ℕ → (TreePage → TreePage) → M (BufferPool TreePage S) (Unit {0})
  update k f pool = elim (deref pool k) [ none ↦ none | some p ↦ some (tt, assign pool k (f p)) ]

  -- The number of rows of a node.
  unfoldable pub count_rows : ℕ → M (BufferPool TreePage S) ℕ
  count_rows k = do
    n ← load_word k node_n
    (elim n [ pos n ↦ if ltb max_rows n then fault else pure n | negsuc n ↦ fault ])

  unfoldable pub row_at : ℕ → ℕ → M (BufferPool TreePage S) Rid
  row_at k i = do page ← tree_page k; (if ltb i max_rows then pure (page.row i) else fault)

module _ {S Name : Type 0} (io : Stdio TreePage S Name) where
  -- A free node, or else the end of the file.
  unfoldable pub new_node_addr : M (BufferPool TreePage S) ℤ
  new_node_addr = do
    addr ← get_new_node io
    (λ pool. some (if eq_ℤ addr minus_one then pos pool.file.length else addr, pool))

  -- The `parent` of the node at an address.
  unfoldable pub set_parent : ℤ → ℤ → M (BufferPool TreePage S) (Unit {0})
  set_parent addr parent = do
    node ← get_node io addr
    store_word node node_parent parent
    release_node addr
