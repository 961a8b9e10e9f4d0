-- ===== src/Core/Keys/Rows.antt =====
-- Keys of the catalog tables: crates/rocklake-core/src/keys.rs, lines 149 to 491.
use slateduck.Prelude.{ℕ, [], ◌∷◌}
use slateduck.Prelude.Bytes.{Bytes}
use slateduck.Core.BigEndian.{u64_fields}
use slateduck.Core.Tags.{
  inlined_subtype_delete, inlined_subtype_insert, tag_column, tag_column_mapping, tag_column_tag,
  tag_data_file, tag_data_file_by_snapshot, tag_delete_file, tag_file_column_stats,
  tag_file_partition_value, tag_file_variant_stats, tag_files_scheduled_for_deletion,
  tag_inlined_data_tables, tag_inlined_rows, tag_macro, tag_macro_impl, tag_macro_parameters,
  tag_name_mapping, tag_partition_column, tag_partition_info, tag_schema, tag_schema_versions,
  tag_snapshot, tag_snapshot_changes, tag_sort_expression, tag_sort_info, tag_table,
  tag_table_column_stats, tag_table_stats, tag_tag, tag_view,
}

unfoldable pub key_snapshot : ℕ → Bytes
key_snapshot snapshot_id = tag_snapshot ∷ u64_fields (snapshot_id ∷ [])

unfoldable pub key_snapshot_changes : ℕ → Bytes
key_snapshot_changes snapshot_id = tag_snapshot_changes ∷ u64_fields (snapshot_id ∷ [])

unfoldable pub key_schema : ℕ → Bytes
key_schema schema_id = tag_schema ∷ u64_fields (schema_id ∷ [])

unfoldable pub key_table : ℕ → ℕ → ℕ → Bytes
key_table schema_id table_id begin_snapshot =
    tag_table ∷ u64_fields (schema_id ∷ table_id ∷ begin_snapshot ∷ [])

unfoldable pub key_column : ℕ → ℕ → ℕ → Bytes
key_column table_id column_id begin_snapshot =
    tag_column ∷ u64_fields (table_id ∷ column_id ∷ begin_snapshot ∷ [])

unfoldable pub key_view : ℕ → ℕ → ℕ → Bytes
key_view schema_id view_id begin_snapshot =
    tag_view ∷ u64_fields (schema_id ∷ view_id ∷ begin_snapshot ∷ [])

unfoldable pub key_macro : ℕ → ℕ → ℕ → Bytes
key_macro schema_id macro_id begin_snapshot =
    tag_macro ∷ u64_fields (schema_id ∷ macro_id ∷ begin_snapshot ∷ [])

unfoldable pub key_macro_impl : ℕ → ℕ → Bytes
key_macro_impl macro_id impl_id = tag_macro_impl ∷ u64_fields (macro_id ∷ impl_id ∷ [])

unfoldable pub key_macro_parameters : ℕ → ℕ → ℕ → Bytes
key_macro_parameters macro_id impl_id column_id =
    tag_macro_parameters ∷ u64_fields (macro_id ∷ impl_id ∷ column_id ∷ [])

unfoldable pub key_data_file : ℕ → ℕ → Bytes
key_data_file table_id data_file_id = tag_data_file ∷ u64_fields (table_id ∷ data_file_id ∷ [])

unfoldable pub key_data_file_by_snapshot : ℕ → ℕ → ℕ → Bytes
key_data_file_by_snapshot table_id snapshot_id file_id =
    tag_data_file_by_snapshot ∷ u64_fields (table_id ∷ snapshot_id ∷ file_id ∷ [])

unfoldable pub key_delete_file : ℕ → ℕ → Bytes
key_delete_file data_file_id delete_file_id =
    tag_delete_file ∷ u64_fields (data_file_id ∷ delete_file_id ∷ [])

unfoldable pub key_files_scheduled_for_deletion : ℕ → ℕ → Bytes
key_files_scheduled_for_deletion schedule_start data_file_id =
    tag_files_scheduled_for_deletion ∷ u64_fields (schedule_start ∷ data_file_id ∷ [])

unfoldable pub key_inlined_data_tables : ℕ → ℕ → Bytes
key_inlined_data_tables table_id schema_version =
    tag_inlined_data_tables ∷ u64_fields (table_id ∷ schema_version ∷ [])

unfoldable pub key_column_mapping : ℕ → ℕ → Bytes
key_column_mapping table_id mapping_id =
    tag_column_mapping ∷ u64_fields (table_id ∷ mapping_id ∷ [])

unfoldable pub key_name_mapping : ℕ → ℕ → ℕ → Bytes
key_name_mapping mapping_id column_id source_name_hash =
    tag_name_mapping ∷ u64_fields (mapping_id ∷ column_id ∷ source_name_hash ∷ [])

unfoldable pub key_table_stats : ℕ → Bytes
key_table_stats table_id = tag_table_stats ∷ u64_fields (table_id ∷ [])

unfoldable pub key_table_column_stats : ℕ → ℕ → Bytes
key_table_column_stats table_id column_id =
    tag_table_column_stats ∷ u64_fields (table_id ∷ column_id ∷ [])

unfoldable pub key_file_column_stats : ℕ → ℕ → ℕ → Bytes
key_file_column_stats table_id column_id data_file_id =
    tag_file_column_stats ∷ u64_fields (table_id ∷ column_id ∷ data_file_id ∷ [])

unfoldable pub key_file_variant_stats : ℕ → ℕ → ℕ → ℕ → Bytes
key_file_variant_stats table_id column_id variant_path_hash data_file_id =
    tag_file_variant_stats
    ∷ u64_fields (table_id ∷ column_id ∷ variant_path_hash ∷ data_file_id ∷ [])

unfoldable pub key_partition_info : ℕ → ℕ → ℕ → Bytes
key_partition_info table_id partition_id begin_snapshot =
    tag_partition_info ∷ u64_fields (table_id ∷ partition_id ∷ begin_snapshot ∷ [])

unfoldable pub key_partition_column : ℕ → ℕ → Bytes
key_partition_column partition_id partition_key_index =
    tag_partition_column ∷ u64_fields (partition_id ∷ partition_key_index ∷ [])

unfoldable pub key_file_partition_value : ℕ → ℕ → ℕ → Bytes
key_file_partition_value table_id partition_key_index data_file_id =
    tag_file_partition_value ∷ u64_fields (table_id ∷ partition_key_index ∷ data_file_id ∷ [])

unfoldable pub key_sort_info : ℕ → ℕ → ℕ → Bytes
key_sort_info table_id sort_id begin_snapshot =
    tag_sort_info ∷ u64_fields (table_id ∷ sort_id ∷ begin_snapshot ∷ [])

unfoldable pub key_sort_expression : ℕ → ℕ → Bytes
key_sort_expression sort_id sort_key_index =
    tag_sort_expression ∷ u64_fields (sort_id ∷ sort_key_index ∷ [])

unfoldable pub key_tag : ℕ → ℕ → ℕ → Bytes
key_tag object_id tag_key_hash begin_snapshot =
    tag_tag ∷ u64_fields (object_id ∷ tag_key_hash ∷ begin_snapshot ∷ [])

unfoldable pub key_column_tag : ℕ → ℕ → ℕ → ℕ → Bytes
key_column_tag table_id column_id tag_key_hash begin_snapshot =
    tag_column_tag ∷ u64_fields (table_id ∷ column_id ∷ tag_key_hash ∷ begin_snapshot ∷ [])

unfoldable pub key_schema_versions : ℕ → ℕ → Bytes
key_schema_versions table_id begin_snapshot =
    tag_schema_versions ∷ u64_fields (table_id ∷ begin_snapshot ∷ [])

unfoldable pub key_inlined_insert : ℕ → ℕ → ℕ → Bytes
key_inlined_insert table_id schema_version row_id =
    tag_inlined_rows ∷ inlined_subtype_insert ∷ u64_fields (table_id ∷ schema_version ∷ row_id ∷ [])

unfoldable pub key_inlined_delete : ℕ → ℕ → ℕ → Bytes
key_inlined_delete table_id data_file_id row_id =
    tag_inlined_rows ∷ inlined_subtype_delete ∷ u64_fields (table_id ∷ data_file_id ∷ row_id ∷ [])
