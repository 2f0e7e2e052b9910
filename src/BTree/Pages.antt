-- ===== src/BTree/Pages.antt =====
-- The pages of a tree (include/b_tree.h), its control block and its free nodes.
-- A page has 9 words of type `off_t`, then five row ids, then `leaf`. The control block has
-- `root_node`, `free_node_head`, `free_node_tail` and `free_node_num` in the first four words; a node
-- has `n`, `next`, `parent` and the six words of `child`. There is no result where C follows a null
-- page or indexes past an array.
use ds_my_sql.Base.{
  ℕ, ◌+◌, ◌-◌, Bool, true, none, some, List, ◌==◌, ltb, leb, ◌&&◌, if◌then◌else◌, ℤ, pos, minus_one,
  eq_ℤ, get_elem?, set, Option,
}
use ds_my_sql.Base.State.{M, pure, ◌>>=◌, ◌>>◌}
use ds_my_sql.FileIo.{Stdio, page_size}
use ds_my_sql.BufferPool.{
  BufferPool, first_at, deref, assign, release, get_page, init_buffer_pool, close_buffer_pool,
}
use ds_my_sql.HashMap.Words.{inc, dec}
use ds_my_sql.Rid.{Rid}

pub record TreePage : Type 0 where
  pub word : ℕ → ℤ
  pub row : ℕ → Rid
  pub leaf : Bool

abbrev pub root_node : ℕ
root_node = 0

abbrev pub free_node_head : ℕ
free_node_head = 1

abbrev pub free_node_tail : ℕ
free_node_tail = 2

abbrev pub free_node_num : ℕ
free_node_num = 3

abbrev pub node_n : ℕ
node_n = 0

abbrev pub node_next : ℕ
node_next = 1

abbrev pub node_parent : ℕ
node_parent = 2

-- The word of `child[i]`.
abbrev pub node_child : ℕ → ℕ
node_child i = 3 + i

module _ {S : Type 0} where
  unfoldable pub tree_page : ℕ → M (BufferPool TreePage S) TreePage
  tree_page k pool = elim (deref pool k) [ none ↦ none | some p ↦ some (p, pool) ]

  unfoldable pub load_word : ℕ → ℕ → M (BufferPool TreePage S) ℤ
  load_word k i pool =
      if ltb i 9 then elim (deref pool k) [ none ↦ none | some p ↦ some (p.word i, pool) ] else none

  unfoldable pub store_word : ℕ → ℕ → ℤ → M (BufferPool TreePage S) (Unit {0})
  store_word k i v pool =
      if ltb i 9
      then elim (deref pool k) [
        | none ↦ none
        | some p ↦
            some (tt, assign pool k (record p { word = λ j. if j == i then v else p.word j }))
      ]
      else none

  unfoldable pub store_leaf : ℕ → Bool → M (BufferPool TreePage S) (Unit {0})
  store_leaf k b pool = elim (deref pool k) [
    | none ↦ none
    | some p ↦ some (tt, assign pool k (record p { leaf = b }))
  ]

  unfoldable pub release_node : ℤ → M (BufferPool TreePage S) (Unit {0})
  release_node addr pool = some (tt, release pool addr)

  -- The node leaves the file: its frame is emptied, and the file is a page shorter.
  unfoldable pub drop_node : ℤ → BufferPool TreePage S → BufferPool TreePage S
  drop_node addr pool = record {
    file = record pool.file { length = pool.file.length - page_size };
    frames = elim (first_at addr 0 pool.frames) [
      | none ↦ pool.frames
      | some j ↦ elim (get_elem? pool.frames j) [
        | none ↦ pool.frames
        | some f ↦ set pool.frames j (record { page = f.page; addr = minus_one; cnt = 1; ref = 0 })
      ]
    ];
  }

module _ {S Name : Type 0} (io : Stdio TreePage S Name) where
  unfoldable pub get_node : ℤ → M (BufferPool TreePage S) ℕ
  get_node addr pool =
      let (pool', page) = get_page io pool addr in
      elim page [ none ↦ none | some k ↦ some (k, pool') ]

  -- The pages of a new tree.
  unfoldable pub init_tree : M (BufferPool TreePage S) (Unit {0})
  init_tree = do
    ctr ← get_node (pos 0)
    node ← get_node (pos page_size)
    store_word ctr root_node (pos page_size)
    store_word ctr free_node_head minus_one
    store_word ctr free_node_tail minus_one
    store_word ctr free_node_num (pos 0)
    store_word node node_n (pos 0)
    store_word node node_next minus_one
    store_word node node_parent minus_one
    store_leaf node true
    release_node (pos 0)
    release_node (pos page_size)

  unfoldable pub b_tree_init : List TreePage → Name → Option (BufferPool TreePage S)
  b_tree_init garbage name =
      let (result, opened) = init_buffer_pool io garbage name in
      elim opened [
        | none ↦ none
        | some pool ↦
            if pool.file.length == 0
            then elim (init_tree pool) [ none ↦ none | some (u, pool') ↦ some pool' ]
            else some pool
      ]

  unfoldable pub b_tree_close : BufferPool TreePage S → S
  b_tree_close pool = close_buffer_pool io pool

  unfoldable pub take_free : ℕ → M (BufferPool TreePage S) ℤ
  take_free ctr = do
    ans ← load_word ctr free_node_head
    node ← get_node ans
    after ← load_word node node_next
    store_word ctr free_node_head after
    store_word node node_next minus_one
    release_node ans
    num ← load_word ctr free_node_num
    store_word ctr free_node_num (dec num)
    (if eq_ℤ (dec num) (pos 0) then store_word ctr free_node_tail minus_one else pure tt)
    pure ans

  unfoldable pub get_new_node : M (BufferPool TreePage S) ℤ
  get_new_node = do
    ctr ← get_node (pos 0)
    num ← load_word ctr free_node_num
    ans ← (if eq_ℤ num (pos 0) then pure minus_one else take_free ctr)
    release_node (pos 0)
    pure ans

  -- The node goes to the end of the free nodes.
  unfoldable pub append_free : ℤ → M (BufferPool TreePage S) (Unit {0})
  append_free addr = do
    ctr ← get_node (pos 0)
    num ← load_word ctr free_node_num
    (if eq_ℤ num (pos 0)
        then (do
          store_word ctr free_node_head addr
          store_word ctr free_node_tail addr
          store_word ctr free_node_num (pos 1))
        else (do
          store_word ctr free_node_num (inc num)
          tail ← load_word ctr free_node_tail
          node ← get_node tail
          store_word node node_next addr
          tail' ← load_word ctr free_node_tail
          release_node tail'
          store_word ctr free_node_tail addr))
    release_node (pos 0)
    node ← get_node addr
    store_word node node_next minus_one
    release_node addr

  unfoldable pub release_new_node : ℤ → M (BufferPool TreePage S) (Unit {0})
  release_new_node addr = do
    release_node addr
    (λ pool.
        if eq_ℤ addr (pos (pool.file.length - page_size)) && leb page_size pool.file.length
        then some (tt, drop_node addr pool)
        else append_free addr pool)
