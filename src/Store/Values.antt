-- ===== src/Store/Values.antt =====
-- The values of records, and what the reads and comparisons of src/myjql.c keep.
use ds_my_sql.Base.{ℕ, ◌≡◌, ◌<◌, ap, refl, some, List, length, take, ℤ, pos}
use ds_my_sql.Base.State.{M, ◌>>=◌, bind_some}
use ds_my_sql.FileIo.{Stdio}
use ds_my_sql.BufferPool.{BufferPool}
use ds_my_sql.BTree.Pages.{TreePage}
use ds_my_sql.BTree.Index.{Index, on_store}
use ds_my_sql.BTree.LowerBound.{Computes}
use ds_my_sql.BTree.Search.Steps.{run_store}
use ds_my_sql.Rid.{Rid}
use ds_my_sql.Str.{Table, read_string, load_string, get_string_size}
use ds_my_sql.Str.Chain.{Laws, Chain-Keeps, concat}
use ds_my_sql.Str.Cursor.{load_string-Cursor}
use ds_my_sql.Str.Order.{order, get_string_size-length}
use ds_my_sql.Store.{Record, Records, Tables, on_rec, on_str, rid_ptr_row_cmp}
use ds_my_sql.Store.Keys.{
  RecordLaws, IsStore, Text, HasKey, HasKey-KeepsAll, KeepsAll, run_rec, run_str, step,
  rid_ptr_row_cmp-order,
}

module _ {R T : Type 0} (records : Records R) (rec_laws : RecordLaws records) (strings : Table T)
    (laws : Laws strings) where
  -- The record at `rid` has the value `y`.
  pub record HasValue (store : Tables R T) (rid : Rid) (y : List ℕ) : Type 0 where
    pub re : Record
    pub held : RecordLaws.Holds rec_laws store.tbl_rec rid re
    pub value : Text records rec_laws strings laws store.tbl_str re.value y

  -- Valid tables that lost nothing of those of `store`.
  abbrev pub Kept : Tables R T → Tables R T → Type 0
  Kept store store' =
      IsStore records rec_laws strings laws store'
      × KeepsAll records rec_laws strings laws store store'

  pub KeepsAll-trans :
      (s s' s'' : Tables R T)
      → KeepsAll records rec_laws strings laws s s'
      → KeepsAll records rec_laws strings laws s' s''
      → KeepsAll records rec_laws strings laws s s''
  KeepsAll-trans s s' s'' k k' = record {
    keeps_records = λ r re h. k'.keeps_records r re (k.keeps_records r re h);
    keeps_strings = λ r c h. k'.keeps_strings r c (k.keeps_strings r c h);
  }

  pub HasValue-KeepsAll :
      (s s' : Tables R T) (rid : Rid) (y : List ℕ)
      → KeepsAll records rec_laws strings laws s s'
      → (h : HasValue s rid y) → (h' : HasValue s' rid y) × (h'.value.tail ≡ h.value.tail)
  HasValue-KeepsAll s s' rid y keep h = (
    record {
      re = h.re;
      held = keep.keeps_records rid h.re h.held;
      value = record {
        head = h.value.head;
        tail = h.value.tail;
        chain =
            Chain-Keeps laws s.tbl_str s'.tbl_str h.re.value h.value.head h.value.tail
              keep.keeps_strings h.value.chain;
        text = h.value.text;
      };
    },
    refl,
  )

  -- The comparisons of a key with rows whose keys are known.
  pub rid_ptr_row_cmp-Computes :
      (fuel : ℕ) (store : Tables R T) (key : List ℕ) (text : Rid → List ℕ) (row : ℕ → Rid) (n : ℕ)
      → ((i : ℕ) → i < n → HasKey records rec_laws strings laws store (row i) (text (row i)))
      → Computes
          (rid_ptr_row_cmp records strings fuel key (length key))
          (λ rid. order key (text rid))
          (Kept store)
          row
          n
  rid_ptr_row_cmp-Computes fuel store key text row n keys i s lt (v, keep) =
      let (s', run, v', keep') =
        rid_ptr_row_cmp-order records rec_laws strings laws fuel s key (row i) (text (row i)) v (
          HasKey-KeepsAll records rec_laws strings laws store s (row i) (text (row i)) keep
            (keys i lt)) in
      (s', run, (v', KeepsAll-trans store s s' keep keep'))

  module _ {S Name : Type 0} (io : Stdio TreePage S Name) where
    -- The reads of a value, behind the search.
    abbrev pub value_of : ℕ → ℕ → Rid → M (Index (Tables R T) S) (ℤ × List ℕ)
    value_of fuel max_size rid = do
      re ← on_store (on_rec (records.read rid))
      sre ← on_store (on_str (read_string strings re.value))
      (ans, sre') ← on_store (on_str (get_string_size strings fuel sre re.value))
      (s, sre'') ← on_store (on_str (load_string strings max_size sre'))
      (λ index. some ((pos ans, s), index))

    pub value_of-Kept :
        (fuel max_size : ℕ) (pool : BufferPool TreePage S) (store : Tables R T) (rid : Rid)
        (y : List ℕ)
        → IsStore records rec_laws strings laws store
        → (h : HasValue store rid y) → length h.value.tail < fuel
        → (s' : Tables R T) × (value_of fuel max_size rid (record { pool = pool; store = store })
            ≡ some ((pos (length y), take max_size y), record { pool = pool; store = s' }))
          × Kept store s'
    value_of-Kept fuel max_size pool store rid y v h lt =
        let (t₁, e₁, v₁, keep₁) =
          rec_laws.read_holds store.tbl_rec rid h.re v.records_valid h.held in
        let all = concat h.value.head h.value.tail in
        let n = length all in
        let (out, u₂, e₂, cursor, w₂, kept₂) =
          get_string_size-length strings laws fuel store.tbl_str h.re.value h.value.head
            h.value.tail lt v.strings_valid h.value.chain in
        let (sre, u₁, r₁, e₂') =
          bind_some (read_string strings h.re.value)
            (λ a. get_string_size strings fuel a h.re.value) store.tbl_str _ e₂ in
        let (out', u₃, e₃, w₃, kept₃) =
          load_string-Cursor strings laws max_size u₂ out all w₂ cursor in
        let s₁ : Tables R T = record { tbl_rec = t₁; tbl_str = store.tbl_str } in
        let s₂ : Tables R T = record { tbl_rec = t₁; tbl_str = u₁ } in
        let s₃ : Tables R T = record { tbl_rec = t₁; tbl_str = u₂ } in
        let s' : Tables R T = record { tbl_rec = t₁; tbl_str = u₃ } in
        (
          s',
          rw
              (run_store (on_rec (records.read rid)) pool store h.re s₁
                (run_rec records rec_laws strings laws (records.read rid) store h.re t₁ e₁))
              (rw
                (run_store (on_str (read_string strings h.re.value)) pool s₁ sre s₂ (
                  run_str records rec_laws strings laws (read_string strings h.re.value) s₁ sre u₁
                    r₁))
                (rw
                  (run_store (on_str (get_string_size strings fuel sre h.re.value)) pool s₂ (n, out)
                    s₃
                    (run_str records rec_laws strings laws
                      (get_string_size strings fuel sre h.re.value) s₂ (n, out) u₂ e₂'))
                  (rw
                    (run_store (on_str (load_string strings max_size out)) pool s₃
                      (take max_size all, out') s'
                      (run_str records rec_laws strings laws (load_string strings max_size out) s₃
                        (take max_size all, out') u₃ e₃))
                    (ap
                      (λ l.
                        some
                          ((pos (length l), take max_size l), record { pool = pool; store = s' }))
                      h.value.text)))),
          step records rec_laws strings laws store t₁ u₃ v₁ w₃ keep₁
              (λ r c q. kept₃ r c (kept₂ r c q)),
        )
