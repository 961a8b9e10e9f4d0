-- ===== src/Catalog/Excise.antt =====
-- crates/rocklake-catalog/src/excise.rs: the physical deletion of rows that no snapshot from a floor
-- on can see. The clock is an argument, and so is the set of keys whose delete fails in the store;
-- the codec of the audit entries is a parameter, as those of the rows.
pub mod Removes
pub mod Expired
pub mod Thinned
pub mod Readers
use slateduck.Prelude.{
  ℕ, ◌+◌, ◌%◌, ◌^◌, Bool, true, false, ◌&&◌, ◌||◌, Option, none, some, List, [], ◌∷◌, ◌++◌, ltb,
  leb, ◌==◌, if◌then◌else◌, length, map,
}
use slateduck.Prelude.Bytes.{Bytes}
use slateduck.Core.Result.{
  Result, ok, err, map_err, CatalogResult, CatalogError, value, excision_unsafe, ◌>>=◌,
}
use slateduck.Core.BigEndian.{encode_u64, encode_u32}
use slateduck.Core.Values.{Message, decode_value, encode_value, encode_counter, decode_counter}
use slateduck.Core.Tags.{
  tag_schema, tag_table, tag_column, tag_snapshot, tag_data_file, tag_inlined_rows,
  inlined_subtype_insert, inlined_subtype_delete, tag_system, system_excised_prefix,
  counter_next_excision_seq,
}
use slateduck.Core.Rows.{
  Codecs, SchemaRow, TableRow, ColumnRow, InlinedInsertRow, InlinedDeleteRow, SnapshotRow,
  DataFileRow,
}
use slateduck.Core.Keys.Prefixes.{prefix_for_tag}
use slateduck.Core.Keys.System.{key_counter}
use slateduck.Catalog.Kv.{Kv, Pair}
use slateduck.Catalog.Reader.{scan_rows}
use slateduck.Catalog.Gc.{read_retain_from}

pub record ExcisePlan : Type 0 where
  pub before_snapshot : ℕ
  pub version_rows_eligible : ℕ
  pub inlined_inserts_eligible : ℕ
  pub inlined_deletes_eligible : ℕ
  pub data_files_eligible : List Bytes
  pub is_safe : Bool

pub record ExciseResult : Type 0 where
  pub keys_deleted : ℕ
  pub keys_failed : ℕ
  pub audit_entry_id : ℕ

pub record ExciseAuditEntry : Type 0 where
  pub timestamp_millis : ℕ
  pub before_snapshot : ℕ
  pub keys_deleted : ℕ
  pub keys_failed : ℕ
  pub operator : Bytes

unfoldable pub ended_by : ℕ → Option ℕ → Bool
ended_by before_snapshot none = false
ended_by before_snapshot (some end) = leb end before_snapshot

abbrev or_zero : Option ℕ → ℕ
or_zero none = 0
or_zero (some n) = n

-- The scan loop of each helper: the keys, with their rows, of those that are eligible.
unfoldable pub eligible :
    {R : Type 0} → Message R → (R → Bool) → List Pair → CatalogResult (List (Bytes × R))
eligible m test [] = ok []
eligible m test ((k, v) ∷ rest) = map_err value (decode_value m v) >>= λ row.
    eligible m test rest >>= λ later. ok (if test row then (k, row) ∷ later else later)

unfoldable pub excise_audit_prefix : Bytes
excise_audit_prefix = tag_system ∷ system_excised_prefix

unfoldable pub excise_audit_key_with_seq : ℕ → ℕ → Bytes
excise_audit_key_with_seq timestamp_millis seq =
    tag_system
    ∷ (system_excised_prefix ++ (b':' ∷ (encode_u64 timestamp_millis ++ (b':' ∷ encode_u32 seq))))

abbrev pub inlined_insert_prefix : Bytes
inlined_insert_prefix = tag_inlined_rows ∷ inlined_subtype_insert ∷ []

abbrev pub inlined_delete_prefix : Bytes
inlined_delete_prefix = tag_inlined_rows ∷ inlined_subtype_delete ∷ []

-- `Err` of a delete is counted and passed over.
pub record Deleted : Type 0 where
  pub deleted : ℕ
  pub failed : ℕ

abbrev add : Deleted → Deleted → Deleted
add a b = record { deleted = a.deleted + b.deleted; failed = a.failed + b.failed }

-- The tests of the rows.
module _ (before_snapshot : ℕ) where
  abbrev pub old_schema : SchemaRow → Bool
  old_schema row = ended_by before_snapshot row.end_snapshot

  abbrev pub old_table : TableRow → Bool
  old_table row = ended_by before_snapshot row.end_snapshot

  abbrev pub old_column : ColumnRow → Bool
  old_column row = ended_by before_snapshot row.end_snapshot

  abbrev pub old_insert : InlinedInsertRow → Bool
  old_insert row = ended_by before_snapshot row.end_snapshot

  abbrev pub old_delete : InlinedDeleteRow → Bool
  old_delete row = ltb row.begin_snapshot before_snapshot

  abbrev pub old_snapshot : SnapshotRow → Bool
  old_snapshot row = ltb row.snapshot_id before_snapshot

  abbrev pub old_file : DataFileRow → Bool
  old_file row = ltb (or_zero row.begin_snapshot) before_snapshot

module _ (kv : Kv) where
  open kv use {Db, get, put, delete, scan_prefix}

  -- A step on the store, which keeps what it wrote before an error.
  abbrev pub Effect : Type 0 → Type 0
  Effect A = Db → CatalogResult A × Db

  unfoldable pub then_do :
      {A B : Type 0} → CatalogResult A × Db → (A → Effect B) → CatalogResult B × Db
  then_do (err e, db) next = (err e, db)
  then_do (ok a, db) next = next a db

  unfoldable pub count_eligible :
      {R : Type 0} → Message R → (R → Bool) → Bytes → Db → CatalogResult ℕ
  unfolding eligible
  count_eligible m test prefix db =
      eligible m test (scan_prefix db prefix) >>= λ rows. ok (length rows)

  unfoldable pub delete_keys : {R : Type 0} → (Bytes → Bool) → List (Bytes × R) → Db → Deleted × Db
  delete_keys fails [] db = (record { deleted = 0; failed = 0 }, db)
  delete_keys fails ((key, row) ∷ rest) db =
      let later = delete_keys fails rest (if fails key then db else delete db key) in
      (
        add
            (if fails key
              then record { deleted = 0; failed = 1 }
              else record { deleted = 1; failed = 0 })
            later.0,
        later.1,
      )

  -- A value that does not decode is an error before anything is deleted.
  unfoldable pub delete_found :
      {R : Type 0}
      → (Bytes → Bool)
      → Db
      → CatalogResult (List (Bytes × R))
      → CatalogResult Deleted × Db
  unfolding delete_keys
  delete_found fails db (err e) = (err e, db)
  delete_found fails db (ok rows) = let done = delete_keys fails rows db in (ok done.0, done.1)

  unfoldable pub delete_eligible :
      {R : Type 0} → (Bytes → Bool) → Message R → (R → Bool) → Bytes → Effect Deleted
  unfolding eligible delete_found
  delete_eligible fails m test prefix db =
      delete_found fails db (eligible m test (scan_prefix db prefix))

  module _ (codecs : Codecs) where
    unfoldable pub count_excisable_schemas : Db → ℕ → CatalogResult ℕ
    unfolding count_eligible
    count_excisable_schemas db before_snapshot =
        count_eligible codecs.schema (old_schema before_snapshot) (prefix_for_tag tag_schema) db

    unfoldable pub count_excisable_tables : Db → ℕ → CatalogResult ℕ
    unfolding count_eligible
    count_excisable_tables db before_snapshot =
        count_eligible codecs.table (old_table before_snapshot) (prefix_for_tag tag_table) db

    unfoldable pub count_excisable_columns : Db → ℕ → CatalogResult ℕ
    unfolding count_eligible
    count_excisable_columns db before_snapshot =
        count_eligible codecs.column (old_column before_snapshot) (prefix_for_tag tag_column) db

    unfoldable pub count_excisable_inlined_inserts : Db → ℕ → CatalogResult ℕ
    unfolding count_eligible
    count_excisable_inlined_inserts db before_snapshot =
        count_eligible codecs.inlined_insert (old_insert before_snapshot) inlined_insert_prefix db

    unfoldable pub count_excisable_inlined_deletes : Db → ℕ → CatalogResult ℕ
    unfolding count_eligible
    count_excisable_inlined_deletes db before_snapshot =
        count_eligible codecs.inlined_delete (old_delete before_snapshot) inlined_delete_prefix db

    unfoldable pub find_excisable_data_files : Db → ℕ → CatalogResult (List Bytes)
    unfolding eligible
    find_excisable_data_files db before_snapshot =
        eligible codecs.data_file (old_file before_snapshot)
          (scan_prefix db (prefix_for_tag tag_data_file))
        >>= λ rows. ok (map (λ entry. entry.1.path) rows)

    unfoldable pub excise_plan : Db → ℕ → CatalogResult ExcisePlan
    unfolding count_excisable_schemas count_excisable_tables count_excisable_columns
        count_excisable_inlined_inserts count_excisable_inlined_deletes find_excisable_data_files
    excise_plan db before_snapshot = do
      retain_from ← read_retain_from kv db
      schemas ← count_excisable_schemas db before_snapshot
      tables ← count_excisable_tables db before_snapshot
      columns ← count_excisable_columns db before_snapshot
      inserts ← count_excisable_inlined_inserts db before_snapshot
      deletes ← count_excisable_inlined_deletes db before_snapshot
      files ← find_excisable_data_files db before_snapshot
      ok (record {
        before_snapshot = before_snapshot;
        version_rows_eligible = schemas + tables + columns;
        inlined_inserts_eligible = inserts;
        inlined_deletes_eligible = deletes;
        data_files_eligible = files;
        is_safe = ltb 0 retain_from && leb before_snapshot retain_from;
      })

    -- The deletes that fail are those of the keys that the test selects.
    module _ (fails : Bytes → Bool) where
      unfoldable pub delete_excisable_schemas : ℕ → Effect Deleted
      unfolding delete_eligible
      delete_excisable_schemas before_snapshot =
          delete_eligible fails codecs.schema (old_schema before_snapshot)
            (prefix_for_tag tag_schema)

      unfoldable pub delete_excisable_tables : ℕ → Effect Deleted
      unfolding delete_eligible
      delete_excisable_tables before_snapshot =
          delete_eligible fails codecs.table (old_table before_snapshot) (prefix_for_tag tag_table)

      unfoldable pub delete_excisable_columns : ℕ → Effect Deleted
      unfolding delete_eligible
      delete_excisable_columns before_snapshot =
          delete_eligible fails codecs.column (old_column before_snapshot)
            (prefix_for_tag tag_column)

      unfoldable pub delete_excisable_inlined_inserts : ℕ → Effect Deleted
      unfolding delete_eligible
      delete_excisable_inlined_inserts before_snapshot =
          delete_eligible fails codecs.inlined_insert (old_insert before_snapshot)
            inlined_insert_prefix

      unfoldable pub delete_excisable_inlined_deletes : ℕ → Effect Deleted
      unfolding delete_eligible
      delete_excisable_inlined_deletes before_snapshot =
          delete_eligible fails codecs.inlined_delete (old_delete before_snapshot)
            inlined_delete_prefix

      unfoldable pub delete_old_snapshots : ℕ → Effect Deleted
      unfolding delete_eligible
      delete_old_snapshots before_snapshot =
          delete_eligible fails codecs.snapshot (old_snapshot before_snapshot)
            (prefix_for_tag tag_snapshot)

    -- The sequence number of the audit entry, a `u32` whose successor wraps (a debug build panics).
    unfoldable pub next_seq : Option Bytes → CatalogResult ℕ
    next_seq none = ok 0
    next_seq (some v) = map_err value (decode_counter v) >>= λ n. ok (n % 2 ^ 32)

    module _ (audit : Message ExciseAuditEntry) where
      unfoldable pub with_seq : ℕ → ℕ → ℕ → ℕ → Bytes → Db → CatalogResult ℕ → CatalogResult ℕ × Db
      with_seq now_ms before_snapshot keys_deleted keys_failed operator db (err e) = (err e, db)
      with_seq now_ms before_snapshot keys_deleted keys_failed operator db (ok seq) = (
        ok now_ms,
        put (put db (key_counter counter_next_excision_seq) (encode_counter ((seq + 1) % 2 ^ 32)))
            (excise_audit_key_with_seq now_ms seq)
            (encode_value audit (record {
              timestamp_millis = now_ms;
              before_snapshot = before_snapshot;
              keys_deleted = keys_deleted;
              keys_failed = keys_failed;
              operator = operator;
            })),
      )

      unfoldable pub record_audit_entry : ℕ → ℕ → ℕ → ℕ → Bytes → Effect ℕ
      unfolding next_seq excise_audit_key_with_seq with_seq
      record_audit_entry now_ms before_snapshot keys_deleted keys_failed operator db =
          with_seq now_ms before_snapshot keys_deleted keys_failed operator db
            (next_seq (get db (key_counter counter_next_excision_seq)))

      -- The deletes, in order, and the audit entry.
      unfoldable pub excise_all : (Bytes → Bool) → ℕ → ℕ → Bytes → Effect ExciseResult
      excise_all fails now_ms before_snapshot operator db =
          then_do (delete_excisable_schemas fails before_snapshot db) λ schemas db1.
            then_do (delete_excisable_tables fails before_snapshot db1) λ tables db2.
              then_do (delete_excisable_columns fails before_snapshot db2) λ columns db3.
                then_do (delete_excisable_inlined_inserts fails before_snapshot db3) λ inserts db4.
                  then_do (delete_excisable_inlined_deletes fails before_snapshot db4)
                    λ deletes db5.
                      then_do (delete_old_snapshots fails before_snapshot db5) λ snapshots db6.
                        let sum =
                          add (add (add (add (add schemas tables) columns) inserts) deletes)
                            snapshots in
                        then_do
                          (record_audit_entry now_ms before_snapshot sum.deleted sum.failed operator
                            db6)
                          λ id db7. (
                            ok (record {
                              keys_deleted = sum.deleted;
                              keys_failed = sum.failed;
                              audit_entry_id = id;
                            }),
                            db7,
                          )

      -- Refused where `retain-from` is unset or below the floor of the excision.
      unfoldable pub unless_unsafe :
          (Bytes → Bool) → ℕ → ℕ → Bytes → Db → CatalogResult ℕ → CatalogResult ExciseResult × Db
      unless_unsafe fails now_ms before_snapshot operator db (err e) = (err e, db)
      unless_unsafe fails now_ms before_snapshot operator db (ok retain_from) =
          if (retain_from == 0) || ltb retain_from before_snapshot
          then (err (excision_unsafe retain_from before_snapshot), db)
          else excise_all fails now_ms before_snapshot operator db

      unfoldable pub excise_apply : (Bytes → Bool) → ℕ → ℕ → Bytes → Effect ExciseResult
      unfolding excise_all unless_unsafe
      excise_apply fails now_ms before_snapshot operator db =
          unless_unsafe fails now_ms before_snapshot operator db (read_retain_from kv db)

      unfoldable pub read_audit_entries : Db → CatalogResult (List ExciseAuditEntry)
      unfolding excise_audit_prefix
      read_audit_entries db = scan_rows audit (λ entry. true) (scan_prefix db excise_audit_prefix)
