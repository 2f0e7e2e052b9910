-- ===== src/BTree/Remove.antt =====
-- `b_tree_delete`, with the comparison of rows and the two handlers of copied rows for parameters.
pub mod Leaf
pub mod Inner
pub mod Descent
