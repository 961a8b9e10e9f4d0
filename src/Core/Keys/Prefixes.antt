-- ===== src/Core/Keys/Prefixes.antt =====
-- Scan prefixes: crates/rocklake-core/src/keys.rs, lines 271 to 802.
use slateduck.Prelude.{ℕ, [], ◌∷◌, ◌+◌, ◌^◌, Option, none, some, ltb, if◌then◌else◌}
use slateduck.Prelude.Bytes.{Bytes}
use slateduck.Core.BigEndian.{u64_fields}
use slateduck.Core.Tags.{
  tag_metadata, tag_snapshot_lease, inlined_subtype_delete, inlined_subtype_insert, tag_column,
  tag_column_tag, tag_data_file, tag_data_file_by_snapshot, tag_inlined_rows, tag_macro,
  tag_macro_impl, tag_macro_parameters, tag_secondary_index, tag_table, tag_tag, tag_view,
}

unfoldable pub prefix_data_files_by_snapshot_for_table : ℕ → Bytes
prefix_data_files_by_snapshot_for_table table_id =
    tag_data_file_by_snapshot ∷ u64_fields (table_id ∷ [])

unfoldable pub prefix_data_files_for_table : ℕ → Bytes
prefix_data_files_for_table table_id = tag_data_file ∷ u64_fields (table_id ∷ [])

unfoldable pub prefix_columns_for_table : ℕ → Bytes
prefix_columns_for_table table_id = tag_column ∷ u64_fields (table_id ∷ [])

unfoldable pub prefix_tables_for_schema : ℕ → Bytes
prefix_tables_for_schema schema_id = tag_table ∷ u64_fields (schema_id ∷ [])

unfoldable pub prefix_tables_for_schema_table : ℕ → ℕ → Bytes
prefix_tables_for_schema_table schema_id table_id =
    tag_table ∷ u64_fields (schema_id ∷ table_id ∷ [])

unfoldable pub prefix_inlined_inserts_for_table : ℕ → Bytes
prefix_inlined_inserts_for_table table_id =
    tag_inlined_rows ∷ inlined_subtype_insert ∷ u64_fields (table_id ∷ [])

unfoldable pub prefix_inlined_deletes_for_table : ℕ → Bytes
prefix_inlined_deletes_for_table table_id =
    tag_inlined_rows ∷ inlined_subtype_delete ∷ u64_fields (table_id ∷ [])

unfoldable pub prefix_views_for_schema : ℕ → Bytes
prefix_views_for_schema schema_id = tag_view ∷ u64_fields (schema_id ∷ [])

unfoldable pub prefix_macros_for_schema : ℕ → Bytes
prefix_macros_for_schema schema_id = tag_macro ∷ u64_fields (schema_id ∷ [])

unfoldable pub prefix_macro_impls : ℕ → Bytes
prefix_macro_impls macro_id = tag_macro_impl ∷ u64_fields (macro_id ∷ [])

unfoldable pub prefix_macro_params : ℕ → ℕ → Bytes
prefix_macro_params macro_id impl_id = tag_macro_parameters ∷ u64_fields (macro_id ∷ impl_id ∷ [])

unfoldable pub prefix_tags_for_object : ℕ → Bytes
prefix_tags_for_object object_id = tag_tag ∷ u64_fields (object_id ∷ [])

unfoldable pub prefix_column_tags : ℕ → ℕ → Bytes
prefix_column_tags table_id column_id = tag_column_tag ∷ u64_fields (table_id ∷ column_id ∷ [])

unfoldable pub prefix_secondary_index : ℕ → ℕ → Bytes
prefix_secondary_index snapshot_id table_id =
    tag_secondary_index ∷ u64_fields (snapshot_id ∷ table_id ∷ [])

-- `None` at the largest snapshot id: there is nothing above it.
unfoldable pub prefix_data_files_by_snapshot_upper : ℕ → ℕ → Option Bytes
prefix_data_files_by_snapshot_upper table_id snapshot_id =
    if ltb (snapshot_id + 1) (2 ^ 64)
    then some (tag_data_file_by_snapshot ∷ u64_fields (table_id ∷ (snapshot_id + 1) ∷ []))
    else none

unfoldable pub prefix_for_tag : ℕ → Bytes
prefix_for_tag tag = tag ∷ []

unfoldable pub prefix_all_metadata : Bytes
prefix_all_metadata = tag_metadata ∷ []

unfoldable pub prefix_snapshot_leases : Bytes
prefix_snapshot_leases = tag_snapshot_lease ∷ []
