-- ===== src/Tests/Trees.antt =====
-- Runs of the tree: a new tree with its free nodes, and a search in a tree of three nodes.
use ds_my_sql.Base.{
  zero, suc, ◌-◌, ◌++◌, is_negative, ℕ, ◌+◌, ◌≡◌, Bool, true, false, Option, none, some, List, [],
  ◌∷◌, ◌==◌, ltb, if◌then◌else◌, ℤ, pos, negsuc, minus_one, refl, replicate, get_or,
}
use ds_my_sql.Base.State.{M, pure, ◌>>=◌, ◌>>◌}
use ds_my_sql.FileIo.{page_size, Stdio, open_file, read_page, write_page}
use ds_my_sql.BufferPool.{
  num_valid_pool, count_unpinned, touch, hit_loop, first_at, victim_loop, deref, assign, release,
  clear_frames, init_buffer_pool, evict, choose, fill, miss, get_page,
}
use ds_my_sql.BTree.LowerBound.{search_loop, lower_bound_pr, lower_bound_rr}
use ds_my_sql.BTree.Pages.{
  TreePage, tree_page, load_word, store_word, store_leaf, release_node, drop_node, get_node,
  init_tree, b_tree_init, take_free, get_new_node, append_free, release_new_node,
}
use ds_my_sql.BTree.Arrays.{shift_right, shift_left, copy_range, weave, insert_at, split_at}
use ds_my_sql.BTree.Index.{
  Index, on_pool, on_store, update, count_rows, row_at, new_node_addr, set_parent,
}
use ds_my_sql.BTree.Search.{not_found, equals_at, root_addr, step_down, descend, b_tree_search}
use ds_my_sql.BTree.Insert.{
  split_rows, split_leaf, adopt, split_parent, add_child, fill_root, add_row, row_up, split_up,
  insert_row, insert_below, b_tree_insert,
}
use ds_my_sql.BTree.Remove.Leaf.{
  index_of, release_family, drop_row, leaf_from_left, leaf_from_right, join_leaves, put_row, spare,
  left_sibling, right_sibling, merge_leaves, replace_row,
}
use ds_my_sql.BTree.Remove.Inner.{
  drop_child, take_last, take_first, set_parents, inner_from_left, inner_from_right, join_nodes,
  merge_nodes, change_root,
}
use ds_my_sql.BTree.Remove.Descent.{
  family_of, drop_copy, balance_inner, merge_up, balance_leaf, remove_row, remove_below,
  b_tree_delete,
}
use ds_my_sql.HashMap.Words.{rounds}
use ds_my_sql.Rid.{Rid}

record TreeFile : Type 0 where
  size : ℕ
  page : ℕ → Option TreePage

abbrev row_of : ℕ → Rid
row_of i = record { block_addr = pos i; idx = pos 0 }

abbrev words : List ℤ → List Rid → Bool → TreePage
words ws rs leaf = record {
  word = λ i. get_or ws i (pos 0);
  row = λ i. get_or rs i not_found;
  leaf = leaf;
}

-- The root, at 128, has the row 30; its children have the rows 10 and 20, and 30 and 40.
abbrev three_nodes : ℕ → Option TreePage
three_nodes a =
    if a == 0
    then some (words (pos 128 ∷ minus_one ∷ minus_one ∷ pos 0 ∷ []) [] true)
    else if a == 128
    then some
        (words (pos 1 ∷ minus_one ∷ minus_one ∷ pos 256 ∷ pos 384 ∷ []) (row_of 30 ∷ []) false)
    else if a == 256
    then some (words (pos 2 ∷ minus_one ∷ pos 128 ∷ []) (row_of 10 ∷ row_of 20 ∷ []) true)
    else some (words (pos 2 ∷ minus_one ∷ pos 128 ∷ []) (row_of 30 ∷ row_of 40 ∷ []) true)

-- The file 0 is new, the others have the three nodes.
abbrev tree_io : Stdio TreePage TreeFile ℕ
tree_io = record {
  open_existing = λ name. some (
      if name == 0
      then record { size = 0; page = λ a. none }
      else record { size = 512; page = three_nodes });
  create = λ name. none;
  seek_end = λ s. some s;
  tell = λ s. some s.size;
  read_at = λ s a. s.page a;
  write_at = λ s a p. some (record {
    size = if a == s.size then s.size + page_size else s.size;
    page = λ b. if b == a then some p else s.page b;
  });
}

abbrev garbage_pages : List TreePage
garbage_pages = replicate 8 (words [] [] false)

-- The store counts the copies of rows that there are.
abbrev by_addr : ℕ → ℕ → Rid → M ℕ ℤ
by_addr key size rid = pure (elim rid.block_addr [
  | pos a ↦ if ltb a key then pos 1 else if a == key then pos 0 else minus_one
  | negsuc a ↦ pos 1
])

abbrev by_row : Rid → Rid → M ℕ ℤ
by_row a b = by_addr (rounds a.block_addr) 1 b

abbrev copy_row : Rid → M ℕ Rid
copy_row rid copies = some (record { block_addr = rid.block_addr; idx = pos 1 }, copies + 1)

abbrev free_row : Rid → M ℕ (Unit {0})
free_row rid copies = some (tt, copies - 1)

abbrev Tree : Type 0
Tree = Index ℕ TreeFile

abbrev run_on : {A : Type 0} → ℕ → M Tree A → Option A
run_on name m = elim (b_tree_init tree_io garbage_pages name) [
  | none ↦ none
  | some t ↦ elim (m (record { pool = t; store = 0 })) [ none ↦ none | some (a, t') ↦ some a ]
]

abbrev find_row : ℕ → M Tree Rid
find_row key = b_tree_search tree_io by_addr 9 key 1

abbrev searches : M Tree (Rid × Rid × Rid)
searches = do a ← find_row 30; b ← find_row 20; c ← find_row 25; pure (a, b, c)

-- A new tree has no free node. The page of a node that is released at the end of the file leaves
-- the file; the others come back in the order in which they were released.
abbrev free_nodes : M Tree (ℤ × ℤ × ℤ × ℤ × Rid)
free_nodes = do
  none_free ← on_pool (get_new_node tree_io)
  k ← on_pool (get_node tree_io (pos 256))
  k' ← on_pool (get_node tree_io (pos 384))
  k'' ← on_pool (get_node tree_io (pos 512))
  on_pool (release_new_node tree_io (pos 512))
  on_pool (release_new_node tree_io (pos 256))
  on_pool (release_new_node tree_io (pos 128))
  a ← on_pool (get_new_node tree_io)
  b ← on_pool (get_new_node tree_io)
  c ← on_pool (get_new_node tree_io)
  r ← find_row 30
  pure (none_free, a, b, c, r)

abbrev insert_all : List ℕ → M Tree (Unit {0})
insert_all [] = pure tt
insert_all (k ∷ ks) = do r ← b_tree_insert tree_io by_row copy_row 9 (row_of k); insert_all ks

abbrev delete_all : List ℕ → M Tree (Unit {0})
delete_all [] = pure tt
delete_all (k ∷ ks) = do b_tree_delete tree_io by_row copy_row free_row 9 (row_of k); delete_all ks

-- The keys below `n` that are found, the frames that are not pinned, and the copies.
abbrev found_below : ℕ → M Tree (List ℕ)
found_below zero = pure []
found_below (suc n) = do
  r ← find_row n
  ks ← found_below n
  pure (if is_negative r.block_addr then ks else n ∷ ks)

abbrev summary : ℕ → M Tree (List ℕ × ℕ × ℕ × ℕ)
summary n = do
  ks ← found_below n
  (λ t. some ((ks, num_valid_pool t.pool, t.store, t.pool.file.length), t))

abbrev up_to : ℕ → List ℕ
up_to zero = []
up_to (suc n) = n ∷ up_to n

abbrev grown : M Tree (List ℕ × ℕ × ℕ × ℕ)
grown = insert_all (up_to 20 ++ (25 ∷ 22 ∷ 24 ∷ 23 ∷ 21 ∷ 30 ∷ [])) >> summary 32

abbrev shrunk : M Tree (List ℕ × ℕ × ℕ × ℕ)
shrunk =
    insert_all (up_to 20)
    >> (delete_all (3 ∷ 17 ∷ 8 ∷ 9 ∷ 0 ∷ 1 ∷ 2 ∷ 11 ∷ 12 ∷ 10 ∷ 19 ∷ 18 ∷ 5 ∷ 4 ∷ []) >> summary 21)

abbrev emptied : M Tree (List ℕ × ℕ × ℕ × ℕ)
emptied = insert_all (up_to 30) >> (delete_all (up_to 30) >> summary 31)

unfoldable pub tree_code : Unit {0}
unfolding open_file read_page write_page touch hit_loop first_at victim_loop deref assign release
    clear_frames init_buffer_pool evict choose fill miss get_page lower_bound_pr tree_page load_word
    store_word store_leaf release_node drop_node get_node init_tree b_tree_init take_free
    get_new_node append_free release_new_node descend b_tree_search split_rows split_leaf adopt
    split_parent add_child fill_root add_row row_up split_up insert_row insert_below b_tree_insert
    index_of release_family drop_row leaf_from_left leaf_from_right join_leaves put_row spare
    left_sibling right_sibling merge_leaves replace_row drop_child take_last take_first set_parents
    inner_from_left inner_from_right join_nodes merge_nodes change_root family_of drop_copy
    balance_inner merge_up balance_leaf remove_row remove_below b_tree_delete shift_right shift_left
    copy_range weave insert_at split_at on_pool on_store update count_rows row_at new_node_addr
    set_parent equals_at root_addr step_down search_loop lower_bound_rr num_valid_pool
    count_unpinned
tree_code = tt

searches_test : run_on 1 searches ≡ some (row_of 30, row_of 20, not_found)
unfolding tree_code
searches_test = refl

free_nodes_test : run_on 0 free_nodes ≡ some (minus_one, pos 256, pos 128, minus_one, not_found)
unfolding tree_code
free_nodes_test = refl

-- Insertions in any order split leaves, inner nodes and the root.
grown_test : run_on 0 grown ≡ some (30 ∷ 25 ∷ 24 ∷ 23 ∷ 22 ∷ 21 ∷ up_to 20, 8, 6, 1408)
unfolding tree_code
grown_test = refl

-- Deletions borrow from both sides, merge, and drop the root.
shrunk_test : run_on 0 shrunk ≡ some (16 ∷ 15 ∷ 14 ∷ 13 ∷ 7 ∷ 6 ∷ [], 8, 2, 768)
unfolding tree_code
shrunk_test = refl

-- A tree that is emptied has no copy left, but keeps pages that the file had.
emptied_test : run_on 0 emptied ≡ some ([], 8, 0, 1664)
unfolding tree_code
emptied_test = refl
