-- ===== src/Block/Bytes.antt =====
-- Loads after stores, and what the copy loops of block.c leave in memory.
use ds_my_sql.Base.{
  ℕ, zero, suc, ◌+◌, ◌-◌, ◌^◌, ◌≤◌, ◌<◌, ◌≡◌, ◌⊎◌, arith, ◌==◌, ltb, leb, ◌&&◌, if◌then◌else◌, ap,
}
use ds_my_sql.Block.{load32, store32, copy_item, shift_up}

pub store32_other : (m : ℕ → ℕ) (p v q : ℕ) → (q < p) ⊎ (p + 4 ≤ q) → store32 m p v q ≡ m q
unfolding store32
store32_other m p v q h = ground arith

pub load32_congr :
    (m m' : ℕ → ℕ) (p : ℕ) → ((q : ℕ) → p ≤ q → q < p + 4 → m q ≡ m' q) → load32 m p ≡ load32 m' p
unfolding load32
load32_congr m m' p h = ground (arith, h p, h (p + 1), h (p + 2), h (p + 3))

pub load32-store32_self : (m : ℕ → ℕ) (p v : ℕ) → v < 2 ^ 32 → load32 (store32 m p v) p ≡ v
unfolding load32 store32
load32-store32_self m p v h = ground arith

congr : (f : ℕ → ℕ) (a b : ℕ) → a ≡ b → f a ≡ f b
congr f a b e = ap f e

-- `copy_item` writes the item to the bytes from `dst + j` on, and nothing else.
pub copy_item_lem :
    (dst : ℕ) (item : ℕ → ℕ) (n j : ℕ) (m : ℕ → ℕ) (q : ℕ)
    → copy_item dst item n j m q
      ≡ (if leb (dst + j) q && ltb q (dst + j + n) then item (q - dst) else m q)
unfolding copy_item
copy_item_lem dst item zero j m q = ground arith
copy_item_lem dst item (suc n) j m q = ground (
  arith,
  copy_item_lem dst item n (j + 1) (λ q'. if q' == dst + j then item j else m q') q,
  congr item (q - dst) j,
)

-- `shift_up` moves `n` bytes from `ptrb` on up by `sz`, and keeps the bytes elsewhere.
pub shift_up_lem :
    (ptrb sz n : ℕ) (m : ℕ → ℕ) (q : ℕ)
    → shift_up ptrb sz n m q
      ≡ (if leb (ptrb + sz) q && ltb q (ptrb + sz + n) then m (q - sz) else m q)
unfolding shift_up
shift_up_lem ptrb sz zero m q = ground arith
shift_up_lem ptrb sz (suc n) m q =
    ground (arith, shift_up_lem ptrb sz n (λ q. if q == ptrb + n + sz then m (ptrb + n) else m q) q)
