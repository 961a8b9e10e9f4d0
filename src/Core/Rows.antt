-- ===== src/Core/Rows.antt =====
-- crates/rocklake-core/src/rows.rs: the rows of the catalog tables. A text is the list of its UTF-8
-- bytes; an `i64` is its bit pattern.
use slateduck.Prelude.{ℕ, Bool, Option}
use slateduck.Prelude.Bytes.{Bytes}
use slateduck.Core.Values.{Message}

pub record SnapshotRow : Type 0 where
  pub snapshot_id : ℕ
  pub schema_version : ℕ
  pub snapshot_time : Bytes
  pub author : Option Bytes
  pub message : Option Bytes
  pub next_catalog_id : Option ℕ
  pub next_file_id : Option ℕ

pub record SnapshotChangesRow : Type 0 where
  pub snapshot_id : ℕ
  pub change_type : Bytes
  pub change_info : Option Bytes
  pub schema_id : Option ℕ
  pub table_id : Option ℕ
  pub author : Option Bytes
  pub commit_message : Option Bytes
  pub commit_extra_info : Option Bytes
  pub changes_made : Option Bytes

pub record MetadataRow : Type 0 where
  pub key : Bytes
  pub value : Bytes
  pub scope : Option Bytes
  pub scope_id : Option ℕ

pub record SchemaRow : Type 0 where
  pub schema_id : ℕ
  pub schema_name : Bytes
  pub begin_snapshot : ℕ
  pub end_snapshot : Option ℕ
  pub schema_uuid : Option Bytes
  pub path : Option Bytes
  pub path_is_relative : Option Bool

pub record TableRow : Type 0 where
  pub table_id : ℕ
  pub schema_id : ℕ
  pub table_name : Bytes
  pub begin_snapshot : ℕ
  pub end_snapshot : Option ℕ
  pub path : Option Bytes
  pub table_uuid : Option Bytes
  pub path_is_relative : Option Bool

pub record ColumnRow : Type 0 where
  pub column_id : ℕ
  pub table_id : ℕ
  pub column_name : Bytes
  pub data_type : Bytes
  pub column_index : ℕ
  pub begin_snapshot : ℕ
  pub end_snapshot : Option ℕ
  pub default_value : Option Bytes
  pub is_nullable : Bool
  pub initial_default : Option Bytes
  pub default_value_type : Option Bytes
  pub default_value_dialect : Option Bytes
  pub parent_column : Option ℕ

pub record ViewRow : Type 0 where
  pub view_id : ℕ
  pub schema_id : ℕ
  pub view_name : Bytes
  pub sql : Bytes
  pub begin_snapshot : ℕ
  pub end_snapshot : Option ℕ
  pub view_uuid : Option Bytes
  pub dialect : Option Bytes
  pub column_aliases : Option Bytes

pub record MacroRow : Type 0 where
  pub macro_id : ℕ
  pub schema_id : ℕ
  pub macro_name : Bytes
  pub macro_type : Bytes
  pub begin_snapshot : ℕ
  pub end_snapshot : Option ℕ
  pub macro_uuid : Option Bytes

pub record MacroImplRow : Type 0 where
  pub impl_id : ℕ
  pub macro_id : ℕ
  pub sql : Bytes
  pub dialect : Option Bytes
  pub impl_type : Option Bytes

pub record MacroParametersRow : Type 0 where
  pub macro_id : ℕ
  pub impl_id : ℕ
  pub column_id : ℕ
  pub parameter_name : Bytes
  pub parameter_type : Bytes
  pub default_value : Option Bytes
  pub default_value_type : Option Bytes

pub record DataFileRow : Type 0 where
  pub data_file_id : ℕ
  pub table_id : ℕ
  pub path : Bytes
  pub file_format : Bytes
  pub record_count : ℕ
  pub file_size_bytes : ℕ
  pub footer_size : Option ℕ
  pub encryption_key : Option Bytes
  pub begin_snapshot : Option ℕ
  pub end_snapshot : Option ℕ
  pub file_order : Option ℕ
  pub path_is_relative : Option Bool
  pub row_id_start : Option ℕ
  pub partition_id : Option ℕ
  pub mapping_id : Option ℕ
  pub partial_max : Option Bytes

pub record DeleteFileRow : Type 0 where
  pub delete_file_id : ℕ
  pub data_file_id : ℕ
  pub path : Bytes
  pub delete_count : ℕ
  pub file_size_bytes : ℕ
  pub snapshot_id : ℕ
  pub table_id : Option ℕ
  pub begin_snapshot : Option ℕ
  pub end_snapshot : Option ℕ
  pub path_is_relative : Option Bool
  pub format : Option Bytes
  pub footer_size : Option ℕ
  pub partial_max : Option Bytes

pub record SnapshotLeaseRow : Type 0 where
  pub consumer_id : Bytes
  pub min_snapshot_id : ℕ
  pub expires_at_unix_ms : ℕ

pub record FileColumnStatsRow : Type 0 where
  pub table_id : ℕ
  pub column_id : ℕ
  pub data_file_id : ℕ
  pub contains_null : Bool
  pub min_value : Option Bytes
  pub max_value : Option Bytes
  pub contains_nan : Bool
  pub column_size_bytes : Option ℕ
  pub value_count : Option ℕ
  pub null_count : Option ℕ
  pub extra_stats : Option Bytes

pub record TableStatsRow : Type 0 where
  pub table_id : ℕ
  pub record_count : ℕ
  pub internal_file_count : ℕ
  pub file_size_bytes : ℕ
  pub next_row_id : Option ℕ

pub record InlinedInsertRow : Type 0 where
  pub table_id : ℕ
  pub schema_version : ℕ
  pub row_id : ℕ
  pub payload : Bytes
  pub begin_snapshot : ℕ
  pub end_snapshot : Option ℕ

pub record InlinedDeleteRow : Type 0 where
  pub table_id : ℕ
  pub data_file_id : ℕ
  pub row_id : ℕ
  pub begin_snapshot : ℕ

pub record ExtensionSchemaRow : Type 0 where
  pub extension_id : ℕ
  pub table_name : Bytes
  pub row_id : ℕ
  pub data_json : Bytes

pub record FilesScheduledForDeletionRow : Type 0 where
  pub data_file_id : ℕ
  pub schedule_start : ℕ
  pub path : Bytes
  pub file_type : Option Bytes
  pub path_is_relative : Option Bool

pub record InlinedDataTablesRow : Type 0 where
  pub table_id : ℕ
  pub schema_version : ℕ
  pub sql : Bytes

pub record PartitionInfoRow : Type 0 where
  pub partition_id : ℕ
  pub table_id : ℕ
  pub begin_snapshot : ℕ
  pub end_snapshot : Option ℕ

pub record SortInfoRow : Type 0 where
  pub sort_id : ℕ
  pub table_id : ℕ
  pub begin_snapshot : ℕ
  pub end_snapshot : Option ℕ

pub record TagRow : Type 0 where
  pub object_id : ℕ
  pub tag_key : Bytes
  pub tag_value : Bytes
  pub begin_snapshot : ℕ
  pub end_snapshot : Option ℕ

pub record ColumnTagRow : Type 0 where
  pub table_id : ℕ
  pub column_id : ℕ
  pub tag_key : Bytes
  pub tag_value : Bytes
  pub begin_snapshot : ℕ
  pub end_snapshot : Option ℕ

pub record SchemaVersionsRow : Type 0 where
  pub table_id : ℕ
  pub begin_snapshot : ℕ
  pub schema_version : ℕ

-- The codecs that prost derives, one for each row type.
pub record Codecs : Type 0 where
  pub snapshot : Message SnapshotRow
  pub snapshot_changes : Message SnapshotChangesRow
  pub schema : Message SchemaRow
  pub table : Message TableRow
  pub column : Message ColumnRow
  pub view : Message ViewRow
  pub macro : Message MacroRow
  pub macro_impl : Message MacroImplRow
  pub macro_parameters : Message MacroParametersRow
  pub data_file : Message DataFileRow
  pub delete_file : Message DeleteFileRow
  pub snapshot_lease : Message SnapshotLeaseRow
  pub file_column_stats : Message FileColumnStatsRow
  pub table_stats : Message TableStatsRow
  pub inlined_insert : Message InlinedInsertRow
  pub inlined_delete : Message InlinedDeleteRow
  pub extension_schema : Message ExtensionSchemaRow
  pub files_scheduled_for_deletion : Message FilesScheduledForDeletionRow
  pub inlined_data_tables : Message InlinedDataTablesRow
  pub partition_info : Message PartitionInfoRow
  pub sort_info : Message SortInfoRow
  pub tag : Message TagRow
  pub column_tag : Message ColumnTagRow
  pub schema_versions : Message SchemaVersionsRow
