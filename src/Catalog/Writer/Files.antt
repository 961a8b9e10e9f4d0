-- ===== src/Catalog/Writer/Files.antt =====
-- crates/rocklake-catalog/src/writer/mod.rs: data files, delete files and inlined rows.
use slateduck.Prelude.{
  ℕ, ◌+◌, Bool, true, false, Option, none, some, List, [], ◌∷◌, length, ltb, if◌then◌else◌,
}
use slateduck.Prelude.Bytes.{Bytes, bytes_eq}
use slateduck.Core.Tags.{codes}
use slateduck.Core.Result.{ok, err, CatalogResult, not_found, value_too_large}
use slateduck.Core.Values.{encode_value, decode_value, max_inlined_value_size}
use slateduck.Core.Rows.{
  Codecs, DataFileRow, DeleteFileRow, InlinedInsertRow, InlinedDeleteRow, InlinedDataTablesRow,
  SchemaVersionsRow,
}
use slateduck.Core.Keys.Rows.{
  key_data_file, key_data_file_by_snapshot, key_delete_file, key_table_stats, key_inlined_insert,
  key_inlined_delete, key_inlined_data_tables, key_schema_versions,
}
use slateduck.Core.Counters.{alloc_file_id}
use slateduck.Catalog.Kv.{Kv, Pair}
use slateduck.Catalog.Writer.{CatalogWriter}
use slateduck.Catalog.Writer.Step.{Step, ◌>>=◌, pure, lift, alloc, peek, put_row, existing}

is_staged : Bytes → List Pair → Bool
is_staged k [] = false
is_staged k ((j, v) ∷ l) = if bytes_eq j k then true else is_staged k l

abbrev is_some : Option Bytes → Bool
is_some none = false
is_some (some v) = true

size_check : Bytes → CatalogResult (Unit {0})
size_check payload =
    if ltb max_inlined_value_size (length payload + 100)
    then err (value_too_large (length payload + 100))
    else ok tt

module _ (codecs : Codecs) where
  -- A row that does not decode counts as the default one.
  unfoldable pub next_row_id_of : Option Bytes → ℕ
  next_row_id_of none = 0
  next_row_id_of (some stored) = elim (decode_value codecs.table_stats stored) [
    | ok row ↦ elim row.next_row_id [ none ↦ 0 | some id ↦ id ]
    | err e ↦ 0
  ]

  unfoldable pub register_delete_file_with_metadata :
      ℕ → Bytes → ℕ → ℕ → Option ℕ → Option Bytes → Step ℕ
  register_delete_file_with_metadata data_file_id path delete_count file_size_bytes footer_size
        partial_max =
      do
        delete_file_id ← alloc alloc_file_id
        snapshot_id ← peek
        let row : DeleteFileRow = record {
          delete_file_id = delete_file_id;
          data_file_id = data_file_id;
          path = path;
          delete_count = delete_count;
          file_size_bytes = file_size_bytes;
          snapshot_id = snapshot_id;
          table_id = none;
          begin_snapshot = some snapshot_id;
          end_snapshot = none;
          path_is_relative = some false;
          format = some (codes "parquet");
          footer_size = footer_size;
          partial_max = partial_max;
        }
        staged ←
            put_row (key_delete_file data_file_id delete_file_id)
              (encode_value codecs.delete_file row)
        pure delete_file_id

  unfoldable pub register_delete_file : ℕ → Bytes → ℕ → ℕ → Step ℕ
  unfolding register_delete_file_with_metadata
  register_delete_file data_file_id path delete_count file_size_bytes =
      register_delete_file_with_metadata data_file_id path delete_count file_size_bytes none none

  unfoldable pub register_inlined_insert : ℕ → ℕ → ℕ → Bytes → Step (Unit {0})
  unfolding size_check
  register_inlined_insert table_id schema_version row_id payload = do
    checked ← lift (size_check payload)
    snapshot_id ← peek
    let row : InlinedInsertRow = record {
      table_id = table_id;
      schema_version = schema_version;
      row_id = row_id;
      payload = payload;
      begin_snapshot = snapshot_id;
      end_snapshot = none;
    }
    put_row (key_inlined_insert table_id schema_version row_id)
        (encode_value codecs.inlined_insert row)

  unfoldable pub register_inlined_delete : ℕ → ℕ → ℕ → Step (Unit {0})
  register_inlined_delete table_id data_file_id row_id = do
    snapshot_id ← peek
    let row : InlinedDeleteRow = record {
      table_id = table_id;
      data_file_id = data_file_id;
      row_id = row_id;
      begin_snapshot = snapshot_id;
    }
    put_row (key_inlined_delete table_id data_file_id row_id)
        (encode_value codecs.inlined_delete row)

  unfoldable pub register_inlined_data_table : ℕ → Bytes → ℕ → Step (Unit {0})
  register_inlined_data_table table_id table_name schema_version =
      let row : InlinedDataTablesRow = record {
        table_id = table_id;
        schema_version = schema_version;
        sql = table_name;
      } in
      put_row (key_inlined_data_tables table_id schema_version)
        (encode_value codecs.inlined_data_tables row)

  unfoldable pub register_schema_version : ℕ → ℕ → ℕ → Step (Unit {0})
  register_schema_version begin_snapshot schema_version table_id =
      let row : SchemaVersionsRow = record {
        table_id = table_id;
        begin_snapshot = begin_snapshot;
        schema_version = schema_version;
      } in
      put_row (key_schema_versions table_id begin_snapshot)
        (encode_value codecs.schema_versions row)

  module _ (kv : Kv) where
    open kv use {Db, get}

    unfoldable pub register_data_file_with_metadata :
        Db
        → ℕ
        → Bytes
        → Bytes
        → ℕ
        → ℕ
        → Option ℕ
        → Option Bytes
        → Option ℕ
        → Option ℕ
        → Option Bytes
        → Step ℕ
    unfolding next_row_id_of
    register_data_file_with_metadata db table_id path file_format record_count file_size_bytes
          footer_size encryption_key partition_id mapping_id partial_max =
        do
          data_file_id ← alloc alloc_file_id
          snapshot_id ← peek
          let row : DataFileRow = record {
            data_file_id = data_file_id;
            table_id = table_id;
            path = path;
            file_format = file_format;
            record_count = record_count;
            file_size_bytes = file_size_bytes;
            footer_size = footer_size;
            encryption_key = encryption_key;
            begin_snapshot = some snapshot_id;
            end_snapshot = none;
            file_order = some data_file_id;
            path_is_relative = some false;
            row_id_start = some (next_row_id_of (get db (key_table_stats table_id)));
            partition_id = partition_id;
            mapping_id = mapping_id;
            partial_max = partial_max;
          }
          staged ← put_row (key_data_file table_id data_file_id) (encode_value codecs.data_file row)
          indexed ←
              put_row (key_data_file_by_snapshot table_id snapshot_id data_file_id)
                (encode_value codecs.data_file row)
          pure data_file_id

    unfoldable pub register_data_file_partial :
        Db → ℕ → Bytes → Bytes → ℕ → ℕ → Option Bytes → Step ℕ
    unfolding register_data_file_with_metadata
    register_data_file_partial db table_id path file_format record_count file_size_bytes
          partial_max =
        register_data_file_with_metadata db table_id path file_format record_count file_size_bytes
          none none none none partial_max

    unfoldable pub register_data_file : Db → ℕ → Bytes → Bytes → ℕ → ℕ → Step ℕ
    unfolding register_data_file_with_metadata
    register_data_file db table_id path file_format record_count file_size_bytes =
        register_data_file_with_metadata db table_id path file_format record_count file_size_bytes
          none none none none none

    unfoldable pub inlined_insert_key_exists : CatalogWriter → Db → ℕ → ℕ → ℕ → Bool
    unfolding is_staged
    inlined_insert_key_exists w db table_id schema_version row_id =
        if is_staged (key_inlined_insert table_id schema_version row_id) w.staged
        then true
        else is_some (get db (key_inlined_insert table_id schema_version row_id))

    unfoldable pub mark_inlined_insert_deleted : Db → ℕ → ℕ → ℕ → Step (Unit {0})
    mark_inlined_insert_deleted db table_id schema_version row_id = do
      snapshot_id ← peek
      row ← lift (
          existing kv codecs.inlined_insert db (key_inlined_insert table_id schema_version row_id)
            (not_found "inlined row" row_id))
      put_row (key_inlined_insert table_id schema_version row_id)
          (encode_value codecs.inlined_insert (record row { end_snapshot = some snapshot_id }))
