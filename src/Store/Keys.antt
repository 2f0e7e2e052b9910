-- ===== src/Store/Keys.antt =====
-- What the callbacks of src/myjql.c do to the tables: the two comparisons.
use ds_my_sql.Base.{ℕ, ◌+◌, ◌≡◌, ◌∙◌, ◌<◌, ap, refl, arith, some, List, take, length}
use ds_my_sql.Base.State.{M, ◌>>=◌, bind_some}
use ds_my_sql.Rid.{Rid}
use ds_my_sql.Str.{Table, read_string, load_string, compare_string_record}
use ds_my_sql.Str.Chain.{Laws, Chain, Keeps, Chain-Keeps, concat}
use ds_my_sql.Str.Load.{load_string-Chain}
use ds_my_sql.Str.Order.{order, compare_string_record-order}
use ds_my_sql.Store.{Record, Records, Tables, on_rec, on_str, rid_row_row_cmp, rid_ptr_row_cmp}
use ds_my_sql.Store.Compare.{compare_chars-order}

-- The law of a table of records: in a valid table, a record that it holds is read under its id, and
-- the table that the call leaves is valid and holds the same records. Store/Disk/Reads.antt has the
-- table of table.c with records for its items as an instance.
pub record RecordLaws {R : Type 0} (records : Records R) : Type 1 where
  pub IsValid : R → Type 0
  pub Holds : R → Rid → Record → Type 0
  pub read_holds :
      (t : R) (r : Rid) (re : Record)
      → IsValid t
      → Holds t r re
      → (t' : R) × (records.read r t ≡ some (re, t'))
        × IsValid t'
        × ((r' : Rid) (re' : Record) → Holds t r' re' → Holds t' r' re')

module _ {R T : Type 0} (records : Records R) (rec_laws : RecordLaws records) (strings : Table T)
    (laws : Laws strings) where
  pub record IsStore (store : Tables R T) : Type 0 where
    pub records_valid : RecordLaws.IsValid rec_laws store.tbl_rec
    pub strings_valid : Laws.IsValid laws store.tbl_str

  -- The string that stands in the table from `r` on is `x`.
  pub record Text (t : T) (r : Rid) (x : List ℕ) : Type 0 where
    pub head : List ℕ
    pub tail : List (List ℕ)
    pub chain : Chain laws t r head tail
    pub text : concat head tail ≡ x

  -- The record at `rid` has the key `x`.
  pub record HasKey (store : Tables R T) (rid : Rid) (x : List ℕ) : Type 0 where
    pub re : Record
    pub held : RecordLaws.Holds rec_laws store.tbl_rec rid re
    pub key : Text store.tbl_str re.key x

  Text-Keeps : (t t' : T) (r : Rid) (x : List ℕ) → Keeps laws t t' → Text t r x → Text t' r x
  Text-Keeps t t' r x keep h = record {
    head = h.head;
    tail = h.tail;
    chain = Chain-Keeps laws t t' r h.head h.tail keep h.chain;
    text = h.text;
  }

  -- Every record is still there, with its key.
  pub record KeepsAll (store store' : Tables R T) : Type 0 where
    pub keeps_records :
        (r : Rid) (re : Record)
        → RecordLaws.Holds rec_laws store.tbl_rec r re
        → RecordLaws.Holds rec_laws store'.tbl_rec r re
    pub keeps_strings : Keeps laws store.tbl_str store'.tbl_str

  pub HasKey-KeepsAll :
      (store store' : Tables R T) (rid : Rid) (x : List ℕ)
      → KeepsAll store store'
      → HasKey store rid x
      → HasKey store' rid x
  HasKey-KeepsAll store store' rid x keep h = record {
    re = h.re;
    held = keep.keeps_records rid h.re h.held;
    key = Text-Keeps store.tbl_str store'.tbl_str h.re.key x keep.keeps_strings h.key;
  }

  -- A run on the two tables that answers `a`, and leaves valid tables that lost nothing.
  abbrev pub Answers : {A : Type 0} → M (Tables R T) A → Tables R T → A → Type 0
  Answers m store a =
      (store' : Tables R T) × (m store ≡ some (a, store')) × IsStore store' × KeepsAll store store'

  pub run_rec :
      {A : Type 0} (m : M R A) (store : Tables R T) (a : A) (t : R)
      → m store.tbl_rec ≡ some (a, t)
      → on_rec m store ≡ some (a, record store { tbl_rec = t })
  unfolding on_rec
  run_rec m store a t e = rw (e, on_rec) refl

  pub run_str :
      {A : Type 0} (m : M T A) (store : Tables R T) (a : A) (t : T)
      → m store.tbl_str ≡ some (a, t)
      → on_str m store ≡ some (a, record store { tbl_str = t })
  unfolding on_str
  run_str m store a t e = rw (e, on_str) refl

  -- The tables after a run on each, which lost nothing.
  pub step :
      (store : Tables R T) (t : R) (t' : T)
      → RecordLaws.IsValid rec_laws t
      → Laws.IsValid laws t'
      → ((r : Rid) (re : Record)
          → RecordLaws.Holds rec_laws store.tbl_rec r re
          → RecordLaws.Holds rec_laws t r re)
      → Keeps laws store.tbl_str t'
      → let store' : Tables R T = record { tbl_rec = t; tbl_str = t' } in
        IsStore store' × KeepsAll store store'
  step store t t' v v' keep keep' = (
    record { records_valid = v; strings_valid = v' },
    record { keeps_records = keep; keeps_strings = keep' },
  )

  -- Comparing a key in memory with the key of a record answers the order of the two texts, and leaves
  -- valid tables that lost nothing.
  pub rid_ptr_row_cmp-order :
      (fuel : ℕ) (store : Tables R T) (p : List ℕ) (b : Rid) (x : List ℕ)
      → IsStore store
      → HasKey store b x
      → Answers (rid_ptr_row_cmp records strings fuel p (length p) b) store (order p x)
  unfolding rid_ptr_row_cmp
  rid_ptr_row_cmp-order fuel store p b x v h =
      let (t₁, e₁, v₁, keep₁) = rec_laws.read_holds store.tbl_rec b h.re v.records_valid h.held in
      let (out, t', e, v', keep') =
        load_string-Chain strings laws (length p + 2) store.tbl_str h.re.key h.key.head h.key.tail
          v.strings_valid h.key.chain in
      let (sre, t₂, e₂, e₃) =
        bind_some (read_string strings h.re.key) (load_string strings (length p + 2)) store.tbl_str
          _ e in
      let all = concat h.key.head h.key.tail in
      let same =
        compare_chars-order p all (length p + 2) (omega arith) ∙ ap (λ y. order p y) h.key.text in
      let s₁ : Tables R T = record { tbl_rec = t₁; tbl_str = store.tbl_str } in
      let s₂ : Tables R T = record { tbl_rec = t₁; tbl_str = t₂ } in
      let s' : Tables R T = record { tbl_rec = t₁; tbl_str = t' } in
      let (valid, kept) = step store t₁ t' v₁ v' keep₁ keep' in
      (
        s',
        rw (run_rec (records.read b) store h.re t₁ e₁) (
            rw (run_str (read_string strings h.re.key) s₁ sre t₂ e₂) (
              rw
                (run_str (load_string strings (length p + 2) sre) s₂ (take (length p + 2) all, out)
                  t' e₃)
                (ap (λ z. some (z, s')) same))),
        valid,
        kept,
      )

  -- Comparing the keys of two records answers the order of the texts, with fuel above the length of
  -- the first one, and leaves valid tables that lost nothing.
  pub rid_row_row_cmp-order :
      (fuel : ℕ) (store : Tables R T) (a b : Rid) (x y : List ℕ)
      → length x < fuel
      → IsStore store
      → HasKey store a x
      → HasKey store b y
      → Answers (rid_row_row_cmp records strings fuel a b) store (order x y)
  unfolding rid_row_row_cmp
  rid_row_row_cmp-order fuel store a b x y lt v h k =
      let (t₁, e₁, v₁, keep₁) = rec_laws.read_holds store.tbl_rec a h.re v.records_valid h.held in
      let (t₂, e₂, v₂, keep₂) = rec_laws.read_holds t₁ b k.re v₁ (keep₁ b k.re k.held) in
      let (u, e, w, keep) =
        compare_string_record-order strings laws fuel store.tbl_str h.re.key k.re.key h.key.head
          k.key.head h.key.tail k.key.tail (rw h.key.text lt) v.strings_valid h.key.chain
          k.key.chain in
      let (sre, u₁, r₁, e') =
        bind_some (read_string strings h.re.key)
          (λ c. read_string strings k.re.key >>= λ d. compare_string_record strings fuel c d)
          store.tbl_str _ e in
      let (sre', u₂, r₂, r₃) =
        bind_some (read_string strings k.re.key) (λ d. compare_string_record strings fuel sre d) u₁
          _ e' in
      let same =
        ap (λ z. order z (concat k.key.head k.key.tail)) h.key.text
        ∙ ap (λ z. order x z) k.key.text in
      let s₁ : Tables R T = record { tbl_rec = t₁; tbl_str = store.tbl_str } in
      let s₂ : Tables R T = record { tbl_rec = t₂; tbl_str = store.tbl_str } in
      let s₃ : Tables R T = record { tbl_rec = t₂; tbl_str = u₁ } in
      let s₄ : Tables R T = record { tbl_rec = t₂; tbl_str = u₂ } in
      let s' : Tables R T = record { tbl_rec = t₂; tbl_str = u } in
      let (valid, kept) = step store t₂ u v₂ w (λ r re q. keep₂ r re (keep₁ r re q)) keep in
      (
        s',
        rw (run_rec (records.read a) store h.re t₁ e₁) (
            rw (run_rec (records.read b) s₁ k.re t₂ e₂) (
              rw (run_str (read_string strings h.re.key) s₂ sre u₁ r₁) (
                rw (run_str (read_string strings k.re.key) s₃ sre' u₂ r₂) (
                  rw (run_str (compare_string_record strings fuel sre sre') s₄ _ u r₃)
                    (ap (λ z. some (z, s')) same))))),
        valid,
        kept,
      )
