-- ===== src/Catalog/Writer/Objects.antt =====
-- crates/rocklake-catalog/src/writer/mod.rs: schemas, tables and columns. The uuid is an argument.
use slateduck.Prelude.{ℕ, Bool, true, Option, none, some}
use slateduck.Prelude.Bytes.{Bytes}
use slateduck.Core.Result.{not_found}
use slateduck.Core.Values.{encode_value, encode_counter}
use slateduck.Core.Rows.{Codecs, SchemaRow, TableRow, ColumnRow}
use slateduck.Core.Keys.Rows.{key_schema, key_table, key_column}
use slateduck.Core.Keys.System.{key_table_by_id}
use slateduck.Core.Counters.{alloc_catalog_id}
use slateduck.Catalog.Kv.{Kv}
use slateduck.Catalog.Writer.Step.{
  Step, ◌>>=◌, pure, lift, alloc, peek, put_row, schema_mutation, existing,
}

module _ (codecs : Codecs) where
  unfoldable pub create_schema : Bytes → Bytes → Step ℕ
  create_schema uuid schema_name = do
    schema_id ← alloc alloc_catalog_id
    snapshot_id ← peek
    let row : SchemaRow = record {
      schema_id = schema_id;
      schema_name = schema_name;
      begin_snapshot = snapshot_id;
      end_snapshot = none;
      schema_uuid = some uuid;
      path = none;
      path_is_relative = some true;
    }
    staged ← put_row (key_schema schema_id) (encode_value codecs.schema row)
    marked ← schema_mutation
    pure schema_id

  unfoldable pub create_table : Bytes → ℕ → Bytes → Option Bytes → Step ℕ
  create_table uuid schema_id table_name data_path = do
    table_id ← alloc alloc_catalog_id
    snapshot_id ← peek
    let row : TableRow = record {
      table_id = table_id;
      schema_id = schema_id;
      table_name = table_name;
      begin_snapshot = snapshot_id;
      end_snapshot = none;
      path = data_path;
      table_uuid = some uuid;
      path_is_relative = some true;
    }
    staged ← put_row (key_table schema_id table_id snapshot_id) (encode_value codecs.table row)
    indexed ← put_row (key_table_by_id table_id) (encode_counter schema_id)
    marked ← schema_mutation
    pure table_id

  unfoldable pub add_column_with_opts :
      ℕ
      → Bytes
      → Bytes
      → ℕ
      → Bool
      → Option Bytes
      → Option Bytes
      → Option Bytes
      → Option Bytes
      → Option ℕ
      → Step ℕ
  add_column_with_opts table_id column_name data_type column_index is_nullable default_value
        initial_default default_value_type default_value_dialect parent_column =
      do
        column_id ← alloc alloc_catalog_id
        snapshot_id ← peek
        let row : ColumnRow = record {
          column_id = column_id;
          table_id = table_id;
          column_name = column_name;
          data_type = data_type;
          column_index = column_index;
          begin_snapshot = snapshot_id;
          end_snapshot = none;
          default_value = default_value;
          is_nullable = is_nullable;
          initial_default = initial_default;
          default_value_type = default_value_type;
          default_value_dialect = default_value_dialect;
          parent_column = parent_column;
        }
        staged ←
            put_row (key_column table_id column_id snapshot_id) (encode_value codecs.column row)
        marked ← schema_mutation
        pure column_id

  unfoldable pub add_column : ℕ → Bytes → Bytes → ℕ → Bool → Option Bytes → Step ℕ
  unfolding add_column_with_opts
  add_column table_id column_name data_type column_index is_nullable default_value =
      add_column_with_opts table_id column_name data_type column_index is_nullable default_value
        none none none none

  unfoldable pub insert_renamed_column : ColumnRow → Bytes → Step (Unit {0})
  insert_renamed_column row new_name = do
    snapshot_id ← peek
    let renamed : ColumnRow = record row {
      column_name = new_name;
      begin_snapshot = snapshot_id;
      end_snapshot = none;
    }
    staged ←
        put_row (key_column row.table_id row.column_id snapshot_id)
          (encode_value codecs.column renamed)
    schema_mutation

  module _ (kv : Kv) where
    open kv use {Db}

    unfoldable pub drop_schema : Db → ℕ → Step (Unit {0})
    drop_schema db schema_id = do
      snapshot_id ← peek
      row ←
          lift (existing kv codecs.schema db (key_schema schema_id) (not_found "schema" schema_id))
      staged ←
          put_row (key_schema schema_id)
            (encode_value codecs.schema (record row { end_snapshot = some snapshot_id }))
      schema_mutation

    unfoldable pub drop_column : Db → ℕ → ℕ → ℕ → Step (Unit {0})
    drop_column db table_id column_id begin_snapshot = do
      snapshot_id ← peek
      row ← lift (
          existing kv codecs.column db (key_column table_id column_id begin_snapshot)
            (not_found "column" column_id))
      staged ←
          put_row (key_column table_id column_id begin_snapshot)
            (encode_value codecs.column (record row { end_snapshot = some snapshot_id }))
      schema_mutation
