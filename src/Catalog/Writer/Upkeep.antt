-- ===== src/Catalog/Writer/Upkeep.antt =====
-- crates/rocklake-catalog/src/writer/mod.rs: the rename of a column, metadata entries, the files that
-- wait for their deletion, and the update of a table's statistics. The clock is an argument.
use slateduck.Prelude.{
  ℕ, zero, suc, ◌+◌, ◌-◌, ◌^◌, Bool, true, false, ◌&&◌, ◌||◌, Option, none, some, List, [], ◌∷◌,
  ltb, leb, ◌==◌, length, if◌then◌else◌,
}
use slateduck.Prelude.Bytes.{Bytes}
use slateduck.Core.Result.{ok, err, CatalogResult, not_found, invalid_input}
use slateduck.Core.Tags.{tag_column, codes}
use slateduck.Core.Values.{Message, encode_value, decode_value}
use slateduck.Core.Rows.{
  Codecs, ColumnRow, FilesScheduledForDeletionRow, TableStatsRow, MetadataRow,
}
use slateduck.Core.Keys.Rows.{key_files_scheduled_for_deletion, key_table_stats}
use slateduck.Core.Keys.System.{MetadataScope, key_metadata}
use slateduck.Core.Keys.Prefixes.{prefix_for_tag, prefix_columns_for_table}
use slateduck.Catalog.Kv.{Kv}
use slateduck.Catalog.Reader.{find_row}
use slateduck.Catalog.Writer.DropTable.{is_none}
use slateduck.Catalog.Writer.Step.{Step, ◌>>=◌, pure, lift, peek, put_row}

-- `splitn`, with the number of cuts that are left: the first part, and those behind it.
unfoldable pub splitn : ℕ → Bytes → Bytes × List Bytes
splitn zero s = (s, [])
splitn (suc cuts) [] = ([], [])
splitn (suc cuts) (c ∷ s) = elim (c == 46) [
  | true ↦ let rest = splitn cuts s in ([], rest.0 ∷ rest.1)
  | false ↦ let rest = splitn (suc cuts) s in (c ∷ rest.0, rest.1)
]

unfoldable pub is_empty : Bytes → Bool
is_empty [] = true
is_empty (c ∷ s) = false

unfoldable pub any_empty : List Bytes → Bool
unfolding is_empty
any_empty [] = false
any_empty (p ∷ ps) = is_empty p || any_empty ps

unfoldable pub has_dot : Bytes → Bool
has_dot [] = false
has_dot (c ∷ s) = (c == 46) || has_dot s

unfoldable pub validate_app_metadata_key : Bytes → CatalogResult (Unit {0})
unfolding splitn is_empty any_empty has_dot
validate_app_metadata_key key =
    let (first, later) = splitn 3 key in
    if is_empty key
    then err (invalid_input "metadata key must not be empty" [])
    else if has_dot key && (ltb (length (first ∷ later)) 3 || any_empty (first ∷ later))
    then err (
        invalid_input
          "application metadata key must follow {app}.{instance}.{key} convention (at least 3 non-empty dot-separated parts); got"
          key)
    else ok tt

abbrev pub scope_str : MetadataScope → Bytes
scope_str MetadataScope.global = codes "global"
scope_str MetadataScope.schema = codes "schema"
scope_str MetadataScope.table = codes "table"

module _ (metadata : Message MetadataRow) where
  unfoldable pub set_metadata : MetadataScope → ℕ → Bytes → Bytes → Step (Unit {0})
  unfolding validate_app_metadata_key
  set_metadata scope scope_id key value = do
    valid ← lift (validate_app_metadata_key key)
    let row : MetadataRow = record {
      key = key;
      value = value;
      scope = some (scope_str scope);
      scope_id = some scope_id;
    }
    put_row (key_metadata scope scope_id key) (encode_value metadata row)

module _ (codecs : Codecs) (kv : Kv) where
  open kv use {Db, get, put, delete, scan_prefix}

  table_id_of : CatalogResult (Option (Bytes × ColumnRow)) → CatalogResult (Option ℕ)
  table_id_of (ok none) = ok none
  table_id_of (ok (some (k, row))) = ok (some row.table_id)
  table_id_of (err e) = err e

  unfoldable pub find_column_table_id : Db → ℕ → CatalogResult (Option ℕ)
  unfolding table_id_of find_row
  find_column_table_id db column_id = table_id_of (
      find_row codecs.column (λ row. (row.column_id == column_id) && is_none row.end_snapshot)
        (scan_prefix db (prefix_for_tag tag_column)))

  -- The live row is retired and returned; `insert_renamed_column` puts it back under its new name.
  found_column : ℕ → CatalogResult (Option (Bytes × ColumnRow)) → CatalogResult (Bytes × ColumnRow)
  found_column column_id (ok none) = err (not_found "column" column_id)
  found_column column_id (ok (some found)) = ok found
  found_column column_id (err e) = err e

  unfoldable pub rename_column : Db → ℕ → ℕ → Step ColumnRow
  unfolding find_row found_column
  rename_column db table_id column_id = do
    snapshot_id ← peek
    old ← lift (
        found_column column_id (
          find_row codecs.column (λ row. (row.column_id == column_id) && is_none row.end_snapshot)
            (scan_prefix db (prefix_columns_for_table table_id))))
    staged ←
        put_row old.0
          (encode_value codecs.column (record (old.1) { end_snapshot = some snapshot_id }))
    pure old.1

  unfoldable pub schedule_file_deletion : Db → ℕ → ℕ → Bytes → Bytes → Db
  unfolding is_empty
  schedule_file_deletion db schedule_start data_file_id path file_type =
      let row : FilesScheduledForDeletionRow = record {
        data_file_id = data_file_id;
        schedule_start = schedule_start;
        path = path;
        file_type = if is_empty file_type then none else some file_type;
        path_is_relative = none;
      } in
      put db (key_files_scheduled_for_deletion schedule_start data_file_id)
        (encode_value codecs.files_scheduled_for_deletion row)

  unfoldable pub remove_scheduled_deletion : Db → ℕ → ℕ → Db
  remove_scheduled_deletion db schedule_start data_file_id =
      delete db (key_files_scheduled_for_deletion schedule_start data_file_id)

  no_stats : ℕ → TableStatsRow
  no_stats table_id = record {
    table_id = table_id;
    record_count = 0;
    internal_file_count = 0;
    file_size_bytes = 0;
    next_row_id = none;
  }

  -- What is missing or does not decode counts as no rows.
  unfoldable pub stats_or_none : Db → ℕ → TableStatsRow
  unfolding no_stats
  stats_or_none db table_id = elim (get db (key_table_stats table_id)) [
    | none ↦ no_stats table_id
    | some stored ↦ elim (decode_value codecs.table_stats stored) [
      | ok row ↦ row
      | err e ↦ no_stats table_id
    ]
  ]

  -- The delta is the bit pattern of an `i64`; the count stays between 0 and the greatest `u64`.
  unfoldable pub new_count : ℕ → ℕ → ℕ
  new_count count delta =
      if leb (2 ^ 63) delta
      then count - (2 ^ 64 - delta)
      else if ltb (count + delta) (2 ^ 64)
      then count + delta
      else 2 ^ 64 - 1

  unfoldable pub apply_table_stats_delta : Db → ℕ → ℕ → Db
  unfolding stats_or_none new_count
  apply_table_stats_delta db table_id row_count_delta =
      let existing = stats_or_none db table_id in
      let updated : TableStatsRow = record {
        table_id = table_id;
        record_count = new_count existing.record_count row_count_delta;
        internal_file_count = existing.internal_file_count;
        file_size_bytes = existing.file_size_bytes;
        next_row_id = existing.next_row_id;
      } in
      put db (key_table_stats table_id) (encode_value codecs.table_stats updated)
