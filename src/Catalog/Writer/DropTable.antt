-- ===== src/Catalog/Writer/DropTable.antt =====
-- crates/rocklake-catalog/src/writer/mod.rs: `drop_table`, which also retires what belongs to the table.
use slateduck.Prelude.{
  ℕ, Bool, true, false, ◌&&◌, ◌||◌, Option, none, some, List, [], ◌∷◌, map, ◌==◌, if◌then◌else◌,
}
use slateduck.Prelude.Bytes.{Bytes}
use slateduck.Core.Result.{ok, err, map_err, CatalogResult, value, not_found}
use slateduck.Core.Tags.{
  tag_data_file, tag_partition_info, tag_tag, tag_column_tag, tag_sort_info, tag_delete_file,
}
use slateduck.Core.Values.{Message, encode_value, decode_value}
use slateduck.Core.Rows.{Codecs, DataFileRow, DeleteFileRow}
use slateduck.Core.Keys.Rows.{key_table, key_data_file_by_snapshot}
use slateduck.Core.Keys.Prefixes.{
  prefix_for_tag, prefix_columns_for_table, prefix_inlined_inserts_for_table,
}
use slateduck.Catalog.Kv.{Kv, Pair}
use slateduck.Catalog.Writer.Step.{
  Step, ◌>>=◌, pure, lift, peek, put_row, schema_mutation, existing,
}

abbrev pub is_none : Option ℕ → Bool
is_none none = true
is_none (some n) = false

abbrev unwrap_or_zero : Option ℕ → ℕ
unwrap_or_zero none = 0
unwrap_or_zero (some n) = n

-- `HashSet::contains`.
unfoldable pub contains : ℕ → List ℕ → Bool
contains n [] = false
contains n (m ∷ ms) = (m == n) || contains n ms

module _ {R : Type 0} (m : Message R) (selected : R → Bool) where
  -- The pairs of a scan that are to retire. A value that does not decode ends the operation.
  unfoldable pub to_retire : List Pair → CatalogResult (List (Bytes × R))
  to_retire [] = ok []
  to_retire ((k, v) ∷ rest) = elim (map_err value (decode_value m v)) [
    | err e ↦ err e
    | ok row ↦ elim (to_retire rest) [
      | err e ↦ err e
      | ok later ↦ ok (if selected row then (k, row) ∷ later else later)
    ]
  ]

  -- Each gets its end and is staged under its key.
  unfoldable pub stage_retired : (R → R) → List (Bytes × R) → Step (Unit {0})
  stage_retired ended [] = pure tt
  stage_retired ended ((k, row) ∷ rest) = do
    staged ← put_row k (encode_value m (ended row))
    stage_retired ended rest

  unfoldable pub retire : (R → R) → List Pair → Step (Unit {0})
  unfolding to_retire stage_retired
  retire ended pairs = do rows ← lift (to_retire pairs); stage_retired ended rows

module _ (codecs : Codecs) (kv : Kv) where
  open kv use {Db, scan_prefix}

  -- A data file is staged under its key and in the index by snapshot, which `list_data_files` reads.
  stage_files : ℕ → ℕ → List (Bytes × DataFileRow) → Step (Unit {0})
  stage_files table_id snapshot_id [] = pure tt
  stage_files table_id snapshot_id ((k, row) ∷ rest) = do
    let encoded = encode_value codecs.data_file (record row { end_snapshot = some snapshot_id })
    staged ← put_row k encoded
    indexed ←
        put_row
          (key_data_file_by_snapshot table_id (unwrap_or_zero row.begin_snapshot) row.data_file_id)
          encoded
    stage_files table_id snapshot_id rest

  retire_columns : Db → ℕ → ℕ → Step (Unit {0})
  unfolding retire
  retire_columns db table_id snapshot_id =
      retire codecs.column (λ row. is_none row.end_snapshot)
        (λ row. record row { end_snapshot = some snapshot_id })
        (scan_prefix db (prefix_columns_for_table table_id))

  file_ids : List (Bytes × DataFileRow) → List ℕ
  file_ids rows = map (λ e. e.1.data_file_id) rows

  retire_data_files : Db → ℕ → ℕ → Step (List ℕ)
  unfolding to_retire stage_files file_ids
  retire_data_files db table_id snapshot_id = do
    rows ← lift (
        to_retire codecs.data_file (λ row. (row.table_id == table_id) && is_none row.end_snapshot)
          (scan_prefix db (prefix_for_tag tag_data_file)))
    staged ← stage_files table_id snapshot_id rows
    pure (file_ids rows)

  retire_partition_info : Db → ℕ → ℕ → Step (Unit {0})
  unfolding retire
  retire_partition_info db table_id snapshot_id =
      retire codecs.partition_info (λ row. (row.table_id == table_id) && is_none row.end_snapshot)
        (λ row. record row { end_snapshot = some snapshot_id })
        (scan_prefix db (prefix_for_tag tag_partition_info))

  retire_tags : Db → ℕ → ℕ → Step (Unit {0})
  unfolding retire
  retire_tags db table_id snapshot_id =
      retire codecs.tag (λ row. (row.object_id == table_id) && is_none row.end_snapshot)
        (λ row. record row { end_snapshot = some snapshot_id })
        (scan_prefix db (prefix_for_tag tag_tag))

  retire_column_tags : Db → ℕ → ℕ → Step (Unit {0})
  unfolding retire
  retire_column_tags db table_id snapshot_id =
      retire codecs.column_tag (λ row. (row.table_id == table_id) && is_none row.end_snapshot)
        (λ row. record row { end_snapshot = some snapshot_id })
        (scan_prefix db (prefix_for_tag tag_column_tag))

  retire_sort_info : Db → ℕ → ℕ → Step (Unit {0})
  unfolding retire
  retire_sort_info db table_id snapshot_id =
      retire codecs.sort_info (λ row. (row.table_id == table_id) && is_none row.end_snapshot)
        (λ row. record row { end_snapshot = some snapshot_id })
        (scan_prefix db (prefix_for_tag tag_sort_info))

  -- A delete file says whose it is, or its data file does.
  belongs : ℕ → List ℕ → DeleteFileRow → Bool
  belongs table_id retired_data_file_ids row = elim row.table_id [
    | some tid ↦ tid == table_id
    | none ↦ contains row.data_file_id retired_data_file_ids
  ]

  retire_delete_files : Db → ℕ → ℕ → List ℕ → Step (Unit {0})
  unfolding retire belongs
  retire_delete_files db table_id snapshot_id retired_data_file_ids =
      retire codecs.delete_file
        (λ row. is_none row.end_snapshot && belongs table_id retired_data_file_ids row)
        (λ row. record row { end_snapshot = some snapshot_id })
        (scan_prefix db (prefix_for_tag tag_delete_file))

  retire_inlined_inserts : Db → ℕ → ℕ → Step (Unit {0})
  unfolding retire
  retire_inlined_inserts db table_id snapshot_id =
      retire codecs.inlined_insert (λ row. is_none row.end_snapshot)
        (λ row. record row { end_snapshot = some snapshot_id })
        (scan_prefix db (prefix_inlined_inserts_for_table table_id))

  unfoldable pub drop_table : Db → ℕ → ℕ → ℕ → Step (Unit {0})
  unfolding retire_columns retire_data_files retire_partition_info retire_tags retire_column_tags
      retire_sort_info retire_delete_files retire_inlined_inserts
  drop_table db schema_id table_id begin_snapshot = do
    snapshot_id ← peek
    row ← lift (
        existing kv codecs.table db (key_table schema_id table_id begin_snapshot)
          (not_found "table" table_id))
    staged ←
        put_row (key_table schema_id table_id begin_snapshot)
          (encode_value codecs.table (record row { end_snapshot = some snapshot_id }))
    columns ← retire_columns db table_id snapshot_id
    retired_data_file_ids ← retire_data_files db table_id snapshot_id
    partitions ← retire_partition_info db table_id snapshot_id
    tags ← retire_tags db table_id snapshot_id
    column_tags ← retire_column_tags db table_id snapshot_id
    sorts ← retire_sort_info db table_id snapshot_id
    deletes ← retire_delete_files db table_id snapshot_id retired_data_file_ids
    inserts ← retire_inlined_inserts db table_id snapshot_id
    schema_mutation
