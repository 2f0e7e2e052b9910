-- ===== src/Store/Disk/Reads.antt =====
-- The tables of src/table.c, with chunks and with records for their items, as tables that str.c and
-- myjql.c read.
use ds_my_sql.Base.{ℕ, ◌≡◌, ap, some, List}
use ds_my_sql.FileIo.{Stdio, Reliable}
use ds_my_sql.Block.{Block}
use ds_my_sql.HashMap.Words.{Words}
use ds_my_sql.Rid.{Rid}
use ds_my_sql.Table.{Table}
use ds_my_sql.Table.Reads.{IsValid, Item, table_read-Item}
use ds_my_sql.Str.Chain.{Laws}
use ds_my_sql.Store.Bytes.{bytes_record, bytes_chunk}
use ds_my_sql.Store.Keys.{RecordLaws}
use ds_my_sql.Store.Disk.{disk_records, disk_strings}

module _ {D F Name : Type 0} (io : Stdio Block D Name) (fsm_io : Stdio Words F Name)
    (fuel : ℕ) where
  -- The item at `rid` is the bytes of a value that `decode` reads as `x`.
  pub record Stored {A : Type 0} (decode : List ℕ → A) (table : Table D F) (rid : Rid) (x : A)
      : Type 0 where
    pub bytes : List ℕ
    pub item : Item io table rid bytes
    pub decoded : decode bytes ≡ x

  pub Stored-read :
      {A : Type 0} (decode : List ℕ → A) (table table' : Table D F)
      → ((rid : Rid) (bytes : List ℕ) → Item io table rid bytes → Item io table' rid bytes)
      → (rid : Rid) (x : A) → Stored decode table rid x
      → Stored decode table' rid x
  Stored-read decode table table' keep rid x h = record {
    bytes = h.bytes;
    item = keep rid h.bytes h.item;
    decoded = h.decoded;
  }

  -- What the law of chunks asks for holds of the table of table.c.
  unfoldable pub disk_strings-Laws : Reliable io → Laws (disk_strings io fsm_io fuel)
  unfolding disk_strings
  disk_strings-Laws r = record {
    IsValid = IsValid io;
    Holds = Stored bytes_chunk;
    read_holds = λ t rid c v h.
        let (t', run, v', keep) = table_read-Item io fsm_io r t rid h.bytes v h.item in
        (t', rw run (ap (λ z. some (z, t')) h.decoded), v', Stored-read bytes_chunk t t' keep);
  }

  unfoldable pub disk_records-RecordLaws : Reliable io → RecordLaws (disk_records io fsm_io fuel)
  unfolding disk_records
  disk_records-RecordLaws r = record {
    IsValid = IsValid io;
    Holds = Stored bytes_record;
    read_holds = λ t rid re v h.
        let (t', run, v', keep) = table_read-Item io fsm_io r t rid h.bytes v h.item in
        (t', rw run (ap (λ z. some (z, t')) h.decoded), v', Stored-read bytes_record t t' keep);
  }
