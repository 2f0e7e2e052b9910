-- ===== src/Store/Get.antt =====
-- `myjql_get` on a store whose tree has the records: the tree, the two tables and the pool together.
use ds_my_sql.Base.{
  ℕ, suc, ◌≡◌, ◌<◌, ◌⊎◌, inl, inr, refl, true, false, some, List, [], length, take, is_negative, ℤ,
  pos, minus_one,
}
use ds_my_sql.FileIo.{Stdio, Reliable}
use ds_my_sql.BufferPool.{BufferPool}
use ds_my_sql.BufferPool.View.{view, IsValid, SamePages}
use ds_my_sql.BufferPool.Idle.{IsIdle}
use ds_my_sql.BTree.Pages.{TreePage, root_node}
use ds_my_sql.BTree.Search.Shape.{is_equal, Tree, InTree, Guides}
use ds_my_sql.BTree.Search.Finds.{b_tree_search-Ends}
use ds_my_sql.Rid.{Rid}
use ds_my_sql.Str.{Table}
use ds_my_sql.Str.Chain.{Laws}
use ds_my_sql.Str.Order.{order}
use ds_my_sql.Store.{Records, Tables, rid_ptr_row_cmp, find_record, myjql_get}
use ds_my_sql.Store.Keys.{RecordLaws, IsStore, KeepsAll}
use ds_my_sql.Store.Values.{HasValue, Kept, KeepsAll-trans, HasValue-KeepsAll, value_of-Kept}

module _ {R T : Type 0} (records : Records R) (rec_laws : RecordLaws records) (strings : Table T)
    (laws : Laws strings) where
  module _ {S Name : Type 0} (io : Stdio TreePage S Name) where
    module _ (r : Reliable io) (fuel max_size : ℕ) (key : List ℕ) (text value : Rid → List ℕ)
        (pool : BufferPool TreePage S) (store : Tables R T) where
      abbrev pub Rows : (d a : ℕ) → Type 0
      Rows d a = Tree (view io pool) pool.file.length d a

      abbrev pub Row : (d a : ℕ) → Rows d a → Rid → Type 0
      Row d a t rid = InTree (view io pool) pool.file.length d a t rid

      -- A row with its value, of fewer chunks than there is fuel.
      abbrev pub Readable : Rid → Type 0
      Readable rid =
          (is_negative rid.block_addr ≡ false)
          × ((h : HasValue records rec_laws strings laws store rid (value rid)) × (length
                  h.value.tail
                < fuel))

      -- Either the value of a row with the key; or there is no such row.
      abbrev pub Gets : (d a : ℕ) → Rows d a → ℤ × List ℕ → Type 0
      Gets d a t out =
          ((rid : Rid) × Row d a t rid
            × (is_equal (order key (text rid)) ≡ true)
            × (out ≡ (pos (length (value rid)), take max_size (value rid))))
          ⊎ ((out ≡ (minus_one, []))
              × ((rid : Rid) → Row d a t rid → is_equal (order key (text rid)) ≡ false))

      -- `myjql_get`, on a stream without device errors, from a valid and idle pool whose page 0 names
      -- the root of a tree that the comparisons of the key guide through, from valid tables in which
      -- each row of a leaf has a value, and with fuel above the depth of the tree and the chunks of
      -- each value: it answers the length of the value and its first `max_size` characters, of a row
      -- whose key compares equal; or, only if there is no such row, -1 and no characters.
      -- The pool stands for the same pages, and the tables lost nothing.
      pub myjql_get-Gets :
          (d a : ℕ) (ctr : TreePage) (t : Rows d a)
          → d < fuel
          → IsValid io pool
          → IsIdle (suc (suc d)) pool
          → 0 < pool.file.length
          → view io pool 0 ≡ some ctr
          → ctr.word root_node ≡ pos a
          → Guides
              (view io pool)
              pool.file.length
              (rid_ptr_row_cmp records strings fuel key (length key))
              (λ rid. order key (text rid))
              (Kept records rec_laws strings laws store)
              d
              a
              t
          → IsStore records rec_laws strings laws store
          → ((rid : Rid) → Row d a t rid → Readable rid)
          → (out : ℤ × List ℕ) × (pool' : BufferPool TreePage S) × (store' : Tables R T)
            × (myjql_get records strings fuel io key
                  (length key)
                  max_size
                  (record { pool = pool; store = store })
                ≡ some (out, record { pool = pool'; store = store' }))
            × SamePages io pool pool'
            × Kept records rec_laws strings laws store store'
            × Gets d a t out
      unfolding myjql_get find_record
      myjql_get-Gets d a ctr t lt valid idle has_page ctr_page root guides v readable =
          let same : KeepsAll records rec_laws strings laws store store = record {
            keeps_records = λ r re h. h;
            keeps_strings = λ r c h. h;
          } in
          let (rid, pool', s₁, run, pages, (v₁, kept₁), outcome) =
            b_tree_search-Ends io r (rid_ptr_row_cmp records strings fuel) key (length key)
              (λ rid. order key (text rid)) (Kept records rec_laws strings laws store) pool d fuel a
              ctr store t lt valid idle has_page ctr_page root guides (v, same) in
          elim outcome [
            | inl (there, equal) ↦
                let (nonneg, (h, small)) = readable rid there in
                let (h₁, same_tail) =
                  HasValue-KeepsAll records rec_laws strings laws store s₁ rid (value rid) kept₁
                    h in
                let (s', read, (v', kept')) =
                  value_of-Kept records rec_laws strings laws io fuel max_size pool' s₁ rid
                    (value rid) v₁ h₁ (rw same_tail small) in
                (
                  (pos (length (value rid)), take max_size (value rid)),
                  pool',
                  s',
                  rw run (rw nonneg read),
                  pages,
                  (v', KeepsAll-trans records rec_laws strings laws store s₁ s' kept₁ kept'),
                  inl (rid, there, equal, refl),
                )
            | inr (nothing, absent) ↦ (
              (minus_one, []),
              pool',
              s₁,
              rw run (rw nothing refl),
              pages,
              (v₁, kept₁),
              inr (refl, absent),
            )
          ]
