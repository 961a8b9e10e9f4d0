-- ===== src/Catalog/Reader/Diff.antt =====
-- `snapshot_diff` of reader.rs: what begins, and what ends, after one snapshot and up to another.
use slateduck.Prelude.{
  ℕ, ◌≡◌, refl, Bool, false, ◌&&◌, Option, none, some, List, [], ◌∷◌, ltb, leb, if◌then◌else◌,
}
use slateduck.Core.Result.{ok, map_err, CatalogResult, value, ◌>>=◌, >>=-eq-ok, ok_injective}
use slateduck.Core.Tags.{tag_schema, tag_table, tag_column, tag_data_file}
use slateduck.Core.Values.{Message, decode_value}
use slateduck.Core.Rows.{Codecs, SchemaRow, TableRow, ColumnRow, DataFileRow}
use slateduck.Core.Keys.Prefixes.{prefix_for_tag}
use slateduck.Catalog.Kv.{Kv, Pair}
use slateduck.Catalog.Reader.{scan_rows, keep_row}

pub record SnapshotDiff : Type 0 where
  pub from_snapshot : ℕ
  pub to_snapshot : ℕ
  pub added_schemas : List SchemaRow
  pub retired_schemas : List SchemaRow
  pub added_tables : List TableRow
  pub retired_tables : List TableRow
  pub added_columns : List ColumnRow
  pub retired_columns : List ColumnRow
  pub added_data_files : List DataFileRow
  pub retired_data_files : List DataFileRow

unfoldable pub is_between : ℕ → ℕ → ℕ → Bool
is_between from to n = ltb from n && leb n to

unfoldable pub ends_between : ℕ → ℕ → Option ℕ → Bool
unfolding is_between
ends_between from to none = false
ends_between from to (some end) = is_between from to end

abbrev or_zero : Option ℕ → ℕ
or_zero none = 0
or_zero (some n) = n

-- The loop over one kind of rows, with its two lists.
module _ {R : Type 0} (m : Message R) (added retired : R → Bool) where
  unfoldable pub diff_loop : List Pair → CatalogResult (List R × List R)
  diff_loop [] = ok ([], [])
  diff_loop ((k, v) ∷ rest) = map_err value (decode_value m v) >>= λ row. diff_loop rest >>= λ p.
      ok ((if added row then row ∷ p.0 else p.0), (if retired row then row ∷ p.1 else p.1))

module _ (codecs : Codecs) (kv : Kv) where
  open kv use {Db, scan_prefix}

  unfoldable pub diff_schemas : Db → ℕ → ℕ → CatalogResult (List SchemaRow × List SchemaRow)
  unfolding diff_loop is_between ends_between
  diff_schemas db from to =
      diff_loop codecs.schema (λ row. is_between from to row.begin_snapshot)
        (λ row. ends_between from to row.end_snapshot) (scan_prefix db (prefix_for_tag tag_schema))

  unfoldable pub diff_tables : Db → ℕ → ℕ → CatalogResult (List TableRow × List TableRow)
  unfolding diff_loop is_between ends_between
  diff_tables db from to =
      diff_loop codecs.table (λ row. is_between from to row.begin_snapshot)
        (λ row. ends_between from to row.end_snapshot) (scan_prefix db (prefix_for_tag tag_table))

  unfoldable pub diff_columns : Db → ℕ → ℕ → CatalogResult (List ColumnRow × List ColumnRow)
  unfolding diff_loop is_between ends_between
  diff_columns db from to =
      diff_loop codecs.column (λ row. is_between from to row.begin_snapshot)
        (λ row. ends_between from to row.end_snapshot) (scan_prefix db (prefix_for_tag tag_column))

  unfoldable pub diff_data_files : Db → ℕ → ℕ → CatalogResult (List DataFileRow × List DataFileRow)
  unfolding diff_loop is_between ends_between
  diff_data_files db from to =
      diff_loop codecs.data_file (λ row. is_between from to (or_zero row.begin_snapshot))
        (λ row. ends_between from to row.end_snapshot)
        (scan_prefix db (prefix_for_tag tag_data_file))

  unfoldable pub snapshot_diff : Db → ℕ → ℕ → CatalogResult SnapshotDiff
  unfolding diff_schemas diff_tables diff_columns diff_data_files
  snapshot_diff db from to = do
    schemas ← diff_schemas db from to
    tables ← diff_tables db from to
    columns ← diff_columns db from to
    files ← diff_data_files db from to
    ok (record {
      from_snapshot = from;
      to_snapshot = to;
      added_schemas = schemas.0;
      retired_schemas = schemas.1;
      added_tables = tables.0;
      retired_tables = tables.1;
      added_columns = columns.0;
      retired_columns = columns.1;
      added_data_files = files.0;
      retired_data_files = files.1;
    })

module _ {R : Type 0} (m : Message R) (added retired : R → Bool) where
  -- Each list of the loop is that of a scan of its own.
  pub diff_loop-scan_rows :
      (l : List Pair) (p : List R × List R)
      → diff_loop m added retired l ≡ ok p
      → (scan_rows m added l ≡ ok p.0) × (scan_rows m retired l ≡ ok p.1)
  unfolding diff_loop scan_rows keep_row
  diff_loop-scan_rows [] p h = rw (← ok_injective h) (refl, refl)
  diff_loop-scan_rows ((k, v) ∷ l) p h =
      let (row, d, h1) = >>=-eq-ok (map_err value (decode_value m v)) _ h in
      let (q, e, h2) = >>=-eq-ok (diff_loop m added retired l) _ h1 in
      let (a, b) = diff_loop-scan_rows l q e in
      rw (← ok_injective h2) (rw (d, a) refl, rw (d, b) refl)
