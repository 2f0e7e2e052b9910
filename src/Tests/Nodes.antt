-- ===== src/Tests/Nodes.antt =====
-- The arrays of a node, the rounds of its binary search, and the bytes of what its rows stand for.
use ds_my_sql.Base.{ℕ, ◌+◌, ◌*◌, ◌≡◌, arith, some, [], ◌∷◌, ltb, if◌then◌else◌, ℤ, pos, refl}
use ds_my_sql.Base.State.{M}
use ds_my_sql.Rid.{no_rid}
use ds_my_sql.Str.{Chunk}
use ds_my_sql.BTree.LowerBound.{search_loop}
use ds_my_sql.BTree.LowerBound.Rounds.{search_loop-ends}
use ds_my_sql.Store.{Record}

abbrev tens : ℕ → ℕ
tens j = 10 * j

-- A comparison that counts its runs.
abbrev count : ℕ → M ℕ ℤ
count row made = some (if ltb row 35 then pos 1 else pos 0, made + 1)

search_loop-ends_example : search_loop count tens 7 0 7 7 0 ≡ search_loop count tens 3 0 7 7 0
search_loop-ends_example = search_loop-ends count tens 3 7 0 7 7 0 (omega arith) (omega arith)

-- The comparisons of a search among seven rows.
comparisons_test : search_loop count tens 3 0 7 7 0 ≡ some (4, 3)
unfolding search_loop
comparisons_test = refl

abbrev some_record : Record
some_record = record { key = record { block_addr = pos 4096; idx = pos 7 }; value = no_rid }

abbrev some_chunk : Chunk
some_chunk = record { rid = no_rid; size = 2; text = 200 ∷ 10 ∷ [] }
