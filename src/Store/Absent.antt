-- ===== src/Store/Absent.antt =====
-- `myjql_del` of a key that the store does not have.
use ds_my_sql.Base.{ℕ, arith, suc, ◌≡◌, ◌<◌, inl, inr, refl, false, some, List, length, pos}
use ds_my_sql.FileIo.{Stdio, Reliable}
use ds_my_sql.BufferPool.{BufferPool}
use ds_my_sql.BufferPool.View.{view, IsValid, SamePages}
use ds_my_sql.BufferPool.Idle.{IsIdle}
use ds_my_sql.BTree.Pages.{TreePage, root_node}
use ds_my_sql.BTree.Search.Shape.{is_equal, Tree, InTree, Guides}
use ds_my_sql.BTree.Search.Finds.{b_tree_search-Ends}
use ds_my_sql.Rid.{Rid}
use ds_my_sql.Str.{Table}
use ds_my_sql.Str.Chain.{Laws}
use ds_my_sql.Str.Order.{order}
use ds_my_sql.Store.{Records, Tables, rid_ptr_row_cmp, find_record, myjql_del}
use ds_my_sql.Store.Keys.{RecordLaws, IsStore, KeepsAll}
use ds_my_sql.Store.Values.{Kept}

module _ {R T : Type 0} (records : Records R) (rec_laws : RecordLaws records) (strings : Table T)
    (laws : Laws strings) where
  module _ {S Name : Type 0} (io : Stdio TreePage S Name) (r : Reliable io) where
    -- `myjql_del`, on a stream without device errors, from a valid and idle pool whose page 0 names
    -- the root of a tree that the comparisons of the key guide through, from valid tables and with
    -- fuel above the depth of the tree: if no row of a leaf has a key that compares equal, it
    -- succeeds, the pool stands for the same pages, and the tables lost nothing.
    pub myjql_del-absent :
        (fuel : ℕ) (key : List ℕ) (text : Rid → List ℕ) (pool : BufferPool TreePage S)
        (store : Tables R T) (d a : ℕ) (ctr : TreePage)
        (t : Tree (view io pool) pool.file.length d a)
        → d < fuel
        → IsValid io pool
        → IsIdle (suc (suc d)) pool
        → 0 < pool.file.length
        → view io pool 0 ≡ some ctr
        → ctr.word root_node ≡ pos a
        → Guides
            (view io pool)
            pool.file.length
            (rid_ptr_row_cmp records strings fuel key (length key))
            (λ rid. order key (text rid))
            (Kept records rec_laws strings laws store)
            d
            a
            t
        → IsStore records rec_laws strings laws store
        → ((rid : Rid)
            → InTree (view io pool) pool.file.length d a t rid
            → is_equal (order key (text rid)) ≡ false)
        → (pool' : BufferPool TreePage S) × (store' : Tables R T) × (myjql_del records strings fuel
              io key
              (length key)
              (record { pool = pool; store = store })
            ≡ some (tt, record { pool = pool'; store = store' }))
          × SamePages io pool pool'
          × Kept records rec_laws strings laws store store'
    unfolding myjql_del find_record
    myjql_del-absent fuel key text pool store d a ctr t lt valid idle has_page ctr_page root guides
          v absent =
        let same : KeepsAll records rec_laws strings laws store store = record {
          keeps_records = λ r re h. h;
          keeps_strings = λ r c h. h;
        } in
        let (rid, pool', store', run, pages, kept, outcome) =
          b_tree_search-Ends io r (rid_ptr_row_cmp records strings fuel) key (length key)
            (λ rid. order key (text rid)) (Kept records rec_laws strings laws store) pool d fuel a
            ctr store t lt valid idle has_page ctr_page root guides (v, same) in
        elim outcome [
          | inl (there, equal) ↦
              let other = absent rid there in absurd (ground (arith, equal, other))
          | inr (nothing, _) ↦ (pool', store', rw run (rw nothing refl), pages, kept)
        ]
