-- ===== src/Catalog/Reader/Statistics.antt =====
-- `prune_files` and `list_file_column_stats` of reader.rs: the data files that the statistics of a
-- column let a query leave out. The standard library's `f64` is a parameter, as in `Core.Types`.
use Prim.Native.Nat.{Ordering, gt}
use slateduck.Prelude.{
  ℕ, Bool, true, false, not, Option, none, some, List, [], ◌∷◌, ◌==◌, if◌then◌else◌,
}
use slateduck.Prelude.Bytes.{Bytes}
use slateduck.Core.Result.{ok, map_err, CatalogResult, value, type_compare, ◌>>=◌}
use slateduck.Core.BigEndian.{u64_fields}
use slateduck.Core.Tags.{tag_file_column_stats}
use slateduck.Core.Values.{decode_value}
use slateduck.Core.Rows.{Codecs, FileColumnStatsRow, DataFileRow}
use slateduck.Core.Text.{Text, chars}
use slateduck.Core.Types.{DuckLakeType, PruneResult, prune, keep}
use slateduck.Core.Types.Compare.{Floats, Compared, type_aware_compare, prune_file}
use slateduck.Catalog.Kv.{Kv, Pair}
use slateduck.Catalog.Reader.{scan_rows, list_data_files}

unfoldable pub prefix_column_stats : ℕ → ℕ → Bytes
prefix_column_stats table_id column_id =
    tag_file_column_stats ∷ u64_fields (table_id ∷ column_id ∷ [])

abbrev pub text_of : Option Bytes → Option Text
text_of none = none
text_of (some s) = some (chars s)

abbrev pub add_kept : PruneResult → ℕ → List ℕ → List ℕ
add_kept keep id ids = id ∷ ids
add_kept prune id ids = ids

-- The map that `collect` makes: of two files with one id the later one counts.
unfoldable pub partial_max_of : List DataFileRow → ℕ → Option Bytes
partial_max_of [] id = none
partial_max_of (f ∷ files) id = elim (partial_max_of files id) [
  | some m ↦ some m
  | none ↦ if f.data_file_id == id then f.partial_max else none
]

-- `vec.retain`.
unfoldable pub retain : (ℕ → Bool) → List ℕ → List ℕ
retain test [] = []
retain test (id ∷ ids) = let rest = retain test ids in if test id then id ∷ rest else rest

module _ (codecs : Codecs) {F : Type 0} (floats : Floats F) where
  -- The loop over the statistics of the column.
  unfoldable pub kept_loop : Text → DuckLakeType → List Pair → CatalogResult (List ℕ)
  kept_loop predicate_value col_type [] = ok []
  kept_loop predicate_value col_type ((k, v) ∷ rest) =
      map_err value (decode_value codecs.file_column_stats v) >>= λ row.
      map_err type_compare (
        prune_file floats predicate_value (text_of row.min_value) (text_of row.max_value)
          row.contains_nan col_type)
      >>= λ result. kept_loop predicate_value col_type rest >>= λ ids.
          ok (add_kept result row.data_file_id ids)

  is_above : Compared Ordering → Bool
  is_above (ok gt) = true
  is_above _ = false

  unfoldable pub survives : Text → DuckLakeType → Option Bytes → Bool
  unfolding is_above
  survives predicate_value col_type none = true
  survives predicate_value col_type (some partial_max) =
      not (is_above (type_aware_compare floats predicate_value (chars partial_max) col_type))

  module _ (kv : Kv) where
    open kv use {Db, scan_prefix}

    unfoldable pub list_file_column_stats : Db → ℕ → ℕ → CatalogResult (List FileColumnStatsRow)
    list_file_column_stats db table_id column_id =
        scan_rows codecs.file_column_stats (λ row. true)
          (scan_prefix db (prefix_column_stats table_id column_id))

    -- The shortcut by `partial_max`, where any file was kept.
    unfoldable pub without_partial :
        Db → ℕ → ℕ → Text → DuckLakeType → List ℕ → CatalogResult (List ℕ)
    unfolding survives retain
    without_partial db snap table_id predicate_value col_type [] = ok []
    without_partial db snap table_id predicate_value col_type (id ∷ ids) =
        list_data_files codecs kv db snap table_id >>= λ files.
        ok (retain (λ i. survives predicate_value col_type (partial_max_of files i)) (id ∷ ids))

    unfoldable pub prune_files : Db → ℕ → ℕ → ℕ → Text → DuckLakeType → CatalogResult (List ℕ)
    unfolding kept_loop without_partial
    prune_files db snap table_id column_id predicate_value col_type =
        kept_loop predicate_value col_type (scan_prefix db (prefix_column_stats table_id column_id))
        >>= λ ids. without_partial db snap table_id predicate_value col_type ids
