-- ===== src/Store/Bytes/Laws.antt =====
-- The bytes of records and chunks are read back as what they were made of.
use ds_my_sql.Base.{
  ℕ, ◌+◌, ◌/◌, ◌^◌, ◌≡◌, ◌<◌, ◌∙◌, ap, refl, sym, arith, List, [], ◌++◌, ℤ, pos, negsuc, take, drop,
  length,
}
use mathlib.Core.List.{append-nil}
use ds_my_sql.Rid.{Rid}
use ds_my_sql.Str.{Chunk}
use ds_my_sql.Store.{Record}
use ds_my_sql.Store.Bytes.{
  bits_of, signed, to_bytes, of_bytes, off_mod, short_mod, rid_bytes, bytes_rid, record_bytes,
  bytes_record, chunk_bytes, bytes_chunk,
}

-- The integers that a word of `m` values holds.
abbrev pub InWord : ℕ → ℤ → Type 0
InWord m (pos n) = n < m / 2
InWord m (negsuc n) = n < m / 2

pub record FitsRid (rid : Rid) : Type 0 where
  pub addr : InWord off_mod rid.block_addr
  pub idx : InWord short_mod rid.idx

signed-bits_of : (z : ℤ) → InWord off_mod z → signed off_mod (bits_of off_mod z) ≡ z
signed-bits_of (pos n) h = ground arith
signed-bits_of (negsuc n) h = ground arith

signed-bits_of_short : (z : ℤ) → InWord short_mod z → signed short_mod (bits_of short_mod z) ≡ z
signed-bits_of_short (pos n) h = ground arith
signed-bits_of_short (negsuc n) h = ground arith

bits_of-lt : (z : ℤ) → bits_of off_mod z < 2 ^ 64
bits_of-lt (pos n) = omega arith
bits_of-lt (negsuc n) = omega arith

bits_of_short-lt : (z : ℤ) → bits_of short_mod z < 2 ^ 16
bits_of_short-lt (pos n) = omega arith
bits_of_short-lt (negsuc n) = omega arith

of_bytes-to_bytes_word : (n : ℕ) → n < 2 ^ 64 → of_bytes (to_bytes 8 n) ≡ n
unfolding of_bytes to_bytes
of_bytes-to_bytes_word n h = omega arith

of_bytes-to_bytes_short : (n : ℕ) → n < 2 ^ 16 → of_bytes (to_bytes 2 n) ≡ n
unfolding of_bytes to_bytes
of_bytes-to_bytes_short n h = omega arith

-- A row id is read back from its bytes, whatever follows them.
bytes_rid-rid_bytes :
    (rid : Rid) (bs : List ℕ) → FitsRid rid → bytes_rid (rid_bytes rid ++ bs) ≡ rid
unfolding bytes_rid rid_bytes to_bytes
bytes_rid-rid_bytes rid bs h =
    let addr : signed off_mod (of_bytes (to_bytes 8 (bits_of off_mod rid.block_addr)))
        ≡ rid.block_addr =
      ap (λ n. signed off_mod n)
        (of_bytes-to_bytes_word (bits_of off_mod rid.block_addr) (bits_of-lt rid.block_addr))
      ∙ signed-bits_of rid.block_addr h.addr in
    let idx : signed short_mod (of_bytes (to_bytes 2 (bits_of short_mod rid.idx))) ≡ rid.idx =
      ap (λ n. signed short_mod n)
        (of_bytes-to_bytes_short (bits_of short_mod rid.idx) (bits_of_short-lt rid.idx))
      ∙ signed-bits_of_short rid.idx h.idx in
    ap
      (λ z. record {
        block_addr = z;
        idx = signed short_mod (of_bytes (to_bytes 2 (bits_of short_mod rid.idx)));
      })
      addr
    ∙ ap (λ z. record { block_addr = rid.block_addr; idx = z }) idx

drop-rid_bytes : (rid : Rid) (bs : List ℕ) → drop 10 (rid_bytes rid ++ bs) ≡ bs
unfolding rid_bytes to_bytes
drop-rid_bytes rid bs = refl

record_length : (re : Record) → length (rid_bytes re.key ++ rid_bytes re.value) ≡ 20
unfolding rid_bytes to_bytes
record_length re = refl

size_read :
    (n : ℕ) (text : List ℕ) → of_bytes (take 2 (to_bytes 2 n ++ text)) ≡ of_bytes (to_bytes 2 n)
unfolding to_bytes
size_read n text = refl

text_read :
    (chunk : Chunk)
    → drop 12 (rid_bytes chunk.rid ++ (to_bytes 2 chunk.size ++ chunk.text)) ≡ chunk.text
unfolding rid_bytes to_bytes
text_read chunk = refl

chunk_length :
    (chunk : Chunk)
    → length (rid_bytes chunk.rid ++ (to_bytes 2 chunk.size ++ chunk.text)) ≡ length chunk.text + 12
unfolding rid_bytes to_bytes
chunk_length chunk = omega arith

-- A record whose row ids fit in their bytes is read back from its 20 bytes.
pub bytes_record-record_bytes :
    (re : Record)
    → FitsRid re.key
    → FitsRid re.value
    → (bytes_record (record_bytes re) ≡ re) × (length (record_bytes re) ≡ 20)
unfolding bytes_record record_bytes
bytes_record-record_bytes re k v = (
  ap (λ r. record { key = r; value = bytes_rid (drop 10 (rid_bytes re.key ++ rid_bytes re.value)) })
        (bytes_rid-rid_bytes re.key (rid_bytes re.value) k)
      ∙ ap (λ r. record { key = re.key; value = r })
          (ap (λ bs. bytes_rid bs)
              (drop-rid_bytes re.key (rid_bytes re.value) ∙ sym (append-nil (rid_bytes re.value)))
            ∙ bytes_rid-rid_bytes re.value [] v),
  record_length re,
)

-- A chunk whose id and size fit in their bytes, the size as a `short`, is read back from its bytes,
-- which are 12 more than the characters of its text.
pub bytes_chunk-chunk_bytes :
    (chunk : Chunk)
    → FitsRid chunk.rid
    → chunk.size < 2 ^ 15
    → (bytes_chunk (chunk_bytes chunk) ≡ chunk)
      × (length (chunk_bytes chunk) ≡ length chunk.text + 12)
unfolding bytes_chunk chunk_bytes
bytes_chunk-chunk_bytes chunk h small =
    let rest = to_bytes 2 chunk.size ++ chunk.text in
    let size : of_bytes (take 2 (drop 10 (rid_bytes chunk.rid ++ rest))) ≡ chunk.size =
      ap (λ bs. of_bytes (take 2 bs)) (drop-rid_bytes chunk.rid rest)
      ∙ size_read chunk.size chunk.text
      ∙ of_bytes-to_bytes_short chunk.size (omega arith) in
    (
      ap
            (λ r. record {
              rid = r;
              size = of_bytes (take 2 (drop 10 (rid_bytes chunk.rid ++ rest)));
              text = drop 12 (rid_bytes chunk.rid ++ rest);
            })
            (bytes_rid-rid_bytes chunk.rid rest h)
          ∙ ap
              (λ n. record {
                rid = chunk.rid;
                size = n;
                text = drop 12 (rid_bytes chunk.rid ++ rest);
              })
              size
          ∙ ap (λ t. record { rid = chunk.rid; size = chunk.size; text = t }) (text_read chunk),
      chunk_length chunk,
    )
