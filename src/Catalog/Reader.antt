-- ===== src/Catalog/Reader.antt =====
-- crates/rocklake-catalog/src/reader.rs: what a reader that is bound to a snapshot lists, and the
-- searches of crates/rocklake-catalog/src/writer/mod.rs. The database is an argument.
pub mod Scan
pub mod Listing
pub mod Order
pub mod Files
pub mod Statistics
pub mod Pruned
pub mod Objects
pub mod Diff
pub mod Replay
use slateduck.Prelude.{
  ℕ, Bool, true, false, not, ◌&&◌, Option, none, some, List, [], ◌∷◌, ltb, leb, ◌==◌, if◌then◌else◌,
}
use slateduck.Prelude.Bytes.{Bytes, bytes_lt}
use slateduck.Core.Result.{
  Result, ok, err, map_err, ok_or, CatalogResult, CatalogError, value, not_found, ◌>>=◌,
}
use slateduck.Core.Tags.{
  tag_schema, tag_snapshot_changes, tag_delete_file, tag_table_stats, tag_table, tag_column,
}
use slateduck.Core.Values.{Message, decode_value, decode_counter, encode_value}
use slateduck.Core.Rows.{
  Codecs, SchemaRow, TableRow, ColumnRow, DataFileRow, DeleteFileRow, SnapshotRow,
  SnapshotChangesRow, TableStatsRow,
}
use slateduck.Core.Mvcc.{is_visible}
use slateduck.Core.Keys.Rows.{key_snapshot, key_table_stats}
use slateduck.Core.Keys.System.{key_table_by_id}
use slateduck.Core.Keys.Prefixes.{
  prefix_for_tag, prefix_tables_for_schema, prefix_data_files_by_snapshot_for_table,
  prefix_data_files_by_snapshot_upper, prefix_columns_for_table,
}
use slateduck.Catalog.Kv.{Kv, Pair}

-- The rows of a scan that pass a test. A value that does not decode is an error.
module _ {R : Type 0} (m : Message R) where
  unfoldable pub keep_row : (R → Bool) → R → CatalogResult (List R) → CatalogResult (List R)
  keep_row test row (err e) = err e
  keep_row test row (ok rows) = ok (if test row then row ∷ rows else rows)

  unfoldable pub scan_rows : (R → Bool) → List Pair → CatalogResult (List R)
  unfolding keep_row
  scan_rows test [] = ok []
  scan_rows test ((k, v) ∷ rest) = do
    row ← map_err value (decode_value m v)
    keep_row test row (scan_rows test rest)

  -- The first row that passes, with its key: the values after it are not decoded.
  unfoldable pub find_row : (R → Bool) → List Pair → CatalogResult (Option (Bytes × R))
  find_row test [] = ok none
  find_row test ((k, v) ∷ rest) = do
    row ← map_err value (decode_value m v)
    let later = find_row test rest
    if test row then ok (some (k, row)) else later

abbrev optional : {A : Type 0} → Option (CatalogResult A) → CatalogResult (Option A)
optional none = ok none
optional (some (ok a)) = ok (some a)
optional (some (err e)) = err e

abbrev read_as : {A : Type 0} → (Bytes → CatalogResult A) → Option Bytes → Option (CatalogResult A)
read_as f none = none
read_as f (some v) = some (f v)

unfoldable pub ended_by : Option ℕ → ℕ → Bool
ended_by none snap = false
ended_by (some end) snap = leb end snap

-- `kv.key < upper`, where there is an upper bound.
unfoldable pub below : Bytes → Option Bytes → Bool
below k none = true
below k (some upper) = bytes_lt k upper

abbrev or_else : Option ℕ → ℕ → ℕ
or_else none n = n
or_else (some m) n = m

-- `sort_by_key`, which keeps the order of equal keys.
unfoldable pub insert_by : {R : Type 0} → (R → ℕ) → R → List R → List R
insert_by f r [] = r ∷ []
insert_by f r (s ∷ rows) = if leb (f r) (f s) then r ∷ s ∷ rows else s ∷ insert_by f r rows

unfoldable pub sort_by_key : {R : Type 0} → (R → ℕ) → List R → List R
unfolding insert_by
sort_by_key f [] = []
sort_by_key f (r ∷ rows) = insert_by f r (sort_by_key f rows)

module _ (codecs : Codecs) where
  -- The loop of `list_data_files`, which stops at the upper bound.
  unfoldable pub files_loop : Option Bytes → ℕ → List Pair → CatalogResult (List DataFileRow)
  unfolding ended_by keep_row below
  files_loop upper snap [] = ok []
  files_loop upper snap ((k, v) ∷ rest) =
      let later = files_loop upper snap rest in
      if not (below k upper) then ok [] else do
        row ← map_err value (decode_value codecs.data_file v)
        keep_row codecs.data_file (λ r. not (ended_by r.end_snapshot snap)) row later

  unfoldable pub file_key : DataFileRow → ℕ
  file_key f = or_else f.file_order f.data_file_id

  -- The test of `list_delete_files`.
  unfoldable pub lists_delete_file : ℕ → ℕ → DeleteFileRow → Bool
  unfolding ended_by
  lists_delete_file table_id snap row =
      elim row.table_id [ none ↦ true | some tid ↦ tid == table_id ]
      && (not (ltb snap (or_else row.begin_snapshot row.snapshot_id))
          && not (ended_by row.end_snapshot snap))

  module _ (kv : Kv) where
    open kv use {Db, get, scan_prefix}

    unfoldable pub get_snapshot : Db → ℕ → CatalogResult (Option SnapshotRow)
    get_snapshot db snap =
        optional (
          read_as (λ v. map_err value (decode_value codecs.snapshot v))
            (get db (key_snapshot snap)))

    unfoldable pub list_all_snapshot_changes : Db → CatalogResult (List SnapshotChangesRow)
    unfolding scan_rows
    list_all_snapshot_changes db =
        scan_rows codecs.snapshot_changes (λ row. true)
          (scan_prefix db (prefix_for_tag tag_snapshot_changes))

    unfoldable pub list_schemas : Db → ℕ → CatalogResult (List SchemaRow)
    list_schemas db snap =
        scan_rows codecs.schema (λ row. is_visible row.begin_snapshot row.end_snapshot snap)
          (scan_prefix db (prefix_for_tag tag_schema))

    unfoldable pub list_tables : Db → ℕ → ℕ → CatalogResult (List TableRow)
    list_tables db snap schema_id =
        scan_rows codecs.table (λ row. is_visible row.begin_snapshot row.end_snapshot snap)
          (scan_prefix db (prefix_tables_for_schema schema_id))

    unfoldable pub list_data_files : Db → ℕ → ℕ → CatalogResult (List DataFileRow)
    unfolding file_key
    list_data_files db snap table_id = do
      files ←
          files_loop (prefix_data_files_by_snapshot_upper table_id snap) snap
            (scan_prefix db (prefix_data_files_by_snapshot_for_table table_id))
      ok (sort_by_key file_key files)

    unfoldable pub list_delete_files : Db → ℕ → ℕ → CatalogResult (List DeleteFileRow)
    list_delete_files db snap table_id =
        scan_rows codecs.delete_file (lists_delete_file table_id snap)
          (scan_prefix db (prefix_for_tag tag_delete_file))

    unfoldable pub get_table_stats : Db → ℕ → CatalogResult (Option TableStatsRow)
    get_table_stats db table_id = optional (
        read_as (λ v. map_err value (decode_value codecs.table_stats v))
          (get db (key_table_stats table_id)))

    unfoldable pub list_all_table_stats : Db → CatalogResult (List TableStatsRow)
    unfolding scan_rows
    list_all_table_stats db =
        scan_rows codecs.table_stats (λ row. true) (scan_prefix db (prefix_for_tag tag_table_stats))

    schema_of : CatalogResult (Option (Bytes × TableRow)) → CatalogResult (Option ℕ)
    schema_of (ok none) = ok none
    schema_of (ok (some (k, row))) = ok (some row.schema_id)
    schema_of (err e) = err e

    -- The index first; a catalog without it is searched for a live row.
    unfoldable pub find_table_schema_id : Db → ℕ → CatalogResult (Option ℕ)
    unfolding schema_of find_row
    find_table_schema_id db table_id = elim (get db (key_table_by_id table_id)) [
      | some v ↦ optional (some (map_err value (decode_counter v)))
      | none ↦ schema_of (
          find_row codecs.table (λ row. (row.table_id == table_id) && not (ended row.end_snapshot))
            (scan_prefix db (prefix_for_tag tag_table)))
    ]
      where
        ended : Option ℕ → Bool
        ended none = false
        ended (some e) = true
