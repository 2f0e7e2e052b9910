-- ===== src/Str/Chain.antt =====
-- What the reads of str.c rely on of their table, and when a string stands in it.
use ds_my_sql.Base.{ℕ, ◌≡◌, ◌<◌, false, some, List, [], ◌∷◌, ◌++◌, length, is_negative}
use ds_my_sql.Rid.{Rid, no_rid}
use ds_my_sql.Str.{Chunk, Table}

-- The law of a table: in a valid table, a chunk that it holds is read under its id, and the table
-- that the call leaves is valid and holds the same chunks. Store/Disk/Reads.antt has the table of
-- table.c with chunks for its items as an instance.
pub record Laws {T : Type 0} (table : Table T) : Type 1 where
  pub IsValid : T → Type 0
  pub Holds : T → Rid → Chunk → Type 0
  pub read_holds :
      (t : T) (r : Rid) (c : Chunk)
      → IsValid t
      → Holds t r c
      → (t' : T) × (table.read r t ≡ some (c, t'))
        × IsValid t'
        × ((r' : Rid) (c' : Chunk) → Holds t r' c' → Holds t' r' c')

abbrev pub chunk : Rid → List ℕ → Chunk
chunk r s = record { rid = r; size = length s; text = s }

module _ {T : Type 0} {table : Table T} (laws : Laws table) where
  open laws use {IsValid, Holds}

  -- The texts stand in a chain of chunks from `r` on; only a lone text may be empty.
  abbrev pub Chain : T → Rid → List ℕ → List (List ℕ) → Type 0
  Chain t r s [] = Holds t r (chunk no_rid s)
  Chain t r s (s' ∷ ss) =
      (r' : Rid) × Holds t r (chunk r' s)
      × (is_negative r'.block_addr ≡ false)
      × (0 < length s')
      × Chain t r' s' ss

  abbrev pub Keeps : T → T → Type 0
  Keeps t t' = (r : Rid) (c : Chunk) → Holds t r c → Holds t' r c

  pub Chain-Keeps :
      (t t' : T) (r : Rid) (s : List ℕ) (ss : List (List ℕ))
      → Keeps t t'
      → Chain t r s ss
      → Chain t' r s ss
  Chain-Keeps t t' r s [] keep h = keep r _ h
  Chain-Keeps t t' r s (s' ∷ ss) keep (r', h, n, p, rest) =
      (r', keep r _ h, n, p, Chain-Keeps t t' r' s' ss keep rest)

abbrev pub concat : List ℕ → List (List ℕ) → List ℕ
concat s [] = s
concat s (s' ∷ ss) = s ++ concat s' ss
