-- ===== src/Catalog/Reader/Objects.antt =====
-- The listings of reader.rs by one prefix: inlined rows, views, macros, tags and the rest.
use slateduck.Prelude.{ℕ, true, List, Option, none, some}
use slateduck.Core.Result.{CatalogResult, ok, map_err, value, ◌>>=◌}
use slateduck.Core.Values.{Message, decode_value}
use slateduck.Core.Keys.System.{MetadataScope, key_metadata}
use slateduck.Prelude.Bytes.{Bytes}
use slateduck.Core.Tags.{
  tag_view, tag_macro, tag_files_scheduled_for_deletion, tag_tag, tag_column_tag, tag_sort_info,
  tag_schema_versions,
}
use slateduck.Core.Rows.{
  Codecs, InlinedInsertRow, InlinedDeleteRow, ViewRow, MacroRow, MacroImplRow, MacroParametersRow,
  TagRow, ColumnTagRow, FilesScheduledForDeletionRow, SortInfoRow, SchemaVersionsRow, MetadataRow,
}
use slateduck.Core.Mvcc.{is_visible, is_inlined_insert_visible, is_inlined_delete_visible}
use slateduck.Core.Keys.Prefixes.{
  prefix_for_tag, prefix_inlined_inserts_for_table, prefix_inlined_deletes_for_table,
  prefix_views_for_schema, prefix_macros_for_schema, prefix_macro_impls, prefix_macro_params,
  prefix_tags_for_object, prefix_column_tags,
}
use slateduck.Catalog.Kv.{Kv}
use slateduck.Catalog.Reader.{scan_rows}

module _ (codecs : Codecs) (kv : Kv) where
  open kv use {Db, scan_prefix}

  unfoldable pub list_inlined_inserts : Db → ℕ → ℕ → CatalogResult (List InlinedInsertRow)
  list_inlined_inserts db snap table_id =
      scan_rows codecs.inlined_insert
        (λ row. is_inlined_insert_visible row.begin_snapshot row.end_snapshot snap)
        (scan_prefix db (prefix_inlined_inserts_for_table table_id))

  unfoldable pub list_inlined_deletes : Db → ℕ → ℕ → CatalogResult (List InlinedDeleteRow)
  list_inlined_deletes db snap table_id =
      scan_rows codecs.inlined_delete (λ row. is_inlined_delete_visible row.begin_snapshot snap)
        (scan_prefix db (prefix_inlined_deletes_for_table table_id))

  unfoldable pub list_views : Db → ℕ → ℕ → CatalogResult (List ViewRow)
  list_views db snap schema_id =
      scan_rows codecs.view (λ row. is_visible row.begin_snapshot row.end_snapshot snap)
        (scan_prefix db (prefix_views_for_schema schema_id))

  unfoldable pub list_all_views : Db → ℕ → CatalogResult (List ViewRow)
  list_all_views db snap =
      scan_rows codecs.view (λ row. is_visible row.begin_snapshot row.end_snapshot snap)
        (scan_prefix db (prefix_for_tag tag_view))

  unfoldable pub list_macros : Db → ℕ → ℕ → CatalogResult (List MacroRow)
  list_macros db snap schema_id =
      scan_rows codecs.macro (λ row. is_visible row.begin_snapshot row.end_snapshot snap)
        (scan_prefix db (prefix_macros_for_schema schema_id))

  unfoldable pub list_all_macros : Db → ℕ → CatalogResult (List MacroRow)
  list_all_macros db snap =
      scan_rows codecs.macro (λ row. is_visible row.begin_snapshot row.end_snapshot snap)
        (scan_prefix db (prefix_for_tag tag_macro))

  unfoldable pub list_macro_impls : Db → ℕ → CatalogResult (List MacroImplRow)
  list_macro_impls db macro_id =
      scan_rows codecs.macro_impl (λ row. true) (scan_prefix db (prefix_macro_impls macro_id))

  unfoldable pub list_macro_parameters : Db → ℕ → ℕ → CatalogResult (List MacroParametersRow)
  list_macro_parameters db macro_id impl_id =
      scan_rows codecs.macro_parameters (λ row. true)
        (scan_prefix db (prefix_macro_params macro_id impl_id))

  unfoldable pub list_tags : Db → ℕ → ℕ → CatalogResult (List TagRow)
  list_tags db snap object_id =
      scan_rows codecs.tag (λ row. is_visible row.begin_snapshot row.end_snapshot snap)
        (scan_prefix db (prefix_tags_for_object object_id))

  unfoldable pub list_column_tags : Db → ℕ → ℕ → ℕ → CatalogResult (List ColumnTagRow)
  list_column_tags db snap table_id column_id =
      scan_rows codecs.column_tag (λ row. is_visible row.begin_snapshot row.end_snapshot snap)
        (scan_prefix db (prefix_column_tags table_id column_id))

  unfoldable pub list_files_scheduled_for_deletion :
      Db → CatalogResult (List FilesScheduledForDeletionRow)
  list_files_scheduled_for_deletion db =
      scan_rows codecs.files_scheduled_for_deletion (λ row. true)
        (scan_prefix db (prefix_for_tag tag_files_scheduled_for_deletion))

  unfoldable pub list_all_tags : Db → ℕ → CatalogResult (List TagRow)
  list_all_tags db snap =
      scan_rows codecs.tag (λ row. is_visible row.begin_snapshot row.end_snapshot snap)
        (scan_prefix db (prefix_for_tag tag_tag))

  unfoldable pub list_all_column_tags : Db → ℕ → CatalogResult (List ColumnTagRow)
  list_all_column_tags db snap =
      scan_rows codecs.column_tag (λ row. is_visible row.begin_snapshot row.end_snapshot snap)
        (scan_prefix db (prefix_for_tag tag_column_tag))

  unfoldable pub list_all_sort_info : Db → ℕ → CatalogResult (List SortInfoRow)
  list_all_sort_info db snap =
      scan_rows codecs.sort_info (λ row. is_visible row.begin_snapshot row.end_snapshot snap)
        (scan_prefix db (prefix_for_tag tag_sort_info))

  unfoldable pub list_all_schema_versions : Db → CatalogResult (List SchemaVersionsRow)
  list_all_schema_versions db =
      scan_rows codecs.schema_versions (λ row. true)
        (scan_prefix db (prefix_for_tag tag_schema_versions))

module _ (metadata : Message MetadataRow) (kv : Kv) where
  open kv use {Db, get}

  unfoldable pub read_metadata : Option Bytes → CatalogResult (Option MetadataRow)
  read_metadata none = ok none
  read_metadata (some stored) =
      map_err value (decode_value metadata stored) >>= λ row. ok (some row)

  unfoldable pub get_metadata : Db → MetadataScope → ℕ → Bytes → CatalogResult (Option MetadataRow)
  unfolding read_metadata
  get_metadata db scope scope_id key = read_metadata (get db (key_metadata scope scope_id key))
