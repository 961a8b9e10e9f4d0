-- ===== src/Tests/Listings.antt =====
-- What the readers list after a write session, at concrete inputs.
use slateduck.Prelude.{◌≤◌, ◌<◌, ◌≡◌, refl, ◌↔◌, true, false, none, some, [], ◌∷◌, IsIn, arith}
use slateduck.Prelude.Bytes.{bytes_eq}
use slateduck.Core.Keys.System.{key_system}
use slateduck.Core.Values.{decode_counter, encode_counter, decode_value_envelope}
use slateduck.Core.BigEndian.{be_bytes, from_be_bytes, encode_u64}
use slateduck.Catalog.Reader.{list_schemas}
use slateduck.Catalog.Kv.{lookup}
use slateduck.Catalog.Writer.{CatalogWriter, commit_if}
use slateduck.Catalog.Writer.Objects.{drop_schema}
use slateduck.Catalog.Lifecycle.Schemas.{drop_schema_listed}
use slateduck.Core.Result.{ok}
use slateduck.Core.Tags.{codes}
use slateduck.Core.Rows.{SchemaRow, DataFileRow}
use slateduck.Catalog.Kv.{put_all}
use slateduck.Catalog.Writer.{create_snapshot, check_epoch, drained, commit_result}
use slateduck.Core.BigEndian.{u64_fields}
use slateduck.Core.Values.{encode_value, decode_value, encode_raw_value}
use slateduck.Prelude.Bytes.{bytes_lt, starts_with}
use slateduck.Core.Keys.Rows.{
  key_schema, key_snapshot, key_data_file, key_data_file_by_snapshot, key_table_stats,
}
use slateduck.Core.Keys.System.{key_counter}
use slateduck.Core.Keys.Prefixes.{
  prefix_for_tag, prefix_data_files_by_snapshot_for_table, prefix_data_files_by_snapshot_upper,
}
use slateduck.Core.Mvcc.{is_visible}
use slateduck.Core.Counters.{alloc_catalog_id, alloc_snapshot_id, alloc_file_id}
use slateduck.Catalog.Reader.{scan_rows, keep_row}
use slateduck.Catalog.Writer.{
  stage, mark_schema_changed, commit_writes, snapshot_row, pending_changes, changes_write,
  counter_writes, empty_changes, complete_changes, keep_changes,
}
use slateduck.Tests.Memory.{mem_kv}
use slateduck.Tests.Messages.{codecs}
use slateduck.Tests.Data.{held, writer, schema, with_schema}
use slateduck.Core.Tags.{tag_schema}
use slateduck.Core.Mvcc.Visibility.{LivesAt}
use slateduck.Catalog.Writer.Files.{
  register_data_file, register_data_file_with_metadata, next_row_id_of,
}
use slateduck.Catalog.Reader.{
  list_data_files, files_loop, sort_by_key, insert_by, below, ended_by, file_key,
}
use slateduck.Catalog.Reader.Listing.{Under, list_schemas_iff}
use slateduck.Catalog.Reader.Files.{FileAt, list_data_files_iff}
use slateduck.Catalog.Reader.Order.{Ascends}
use slateduck.Catalog.Lifecycle.DataFiles.{register_data_file_listed}
use slateduck.Tests.Sessions.{holds_at, accepted, created_rows, creating, new_schema}

list_schemas_example : IsIn new_schema (new_schema ∷ []) ↔ (
    Under mem_kv codecs.schema
      (put_all mem_kv held (commit_writes codecs creating (codes "t") none none))
      (prefix_for_tag tag_schema)
      new_schema
    × LivesAt 5 none 6)
list_schemas_example = list_schemas_iff mem_kv codecs _ 6 (new_schema ∷ []) created_rows new_schema

abbrev dropping : CatalogWriter
dropping = (drop_schema codecs mem_kv with_schema 4 writer).1

abbrev ended_schema : SchemaRow
ended_schema = record schema { end_snapshot = some 5 }

schema_stands : mem_kv.get with_schema (key_schema 4) ≡ some (encode_value codecs.schema schema)
unfolding lookup key_schema bytes_eq u64_fields encode_u64 be_bytes
schema_stands = refl

holds_there :
    (w : CatalogWriter)
    → w.writer_epoch ≡ 1
    → w.writer_nonce ≡ codes "a"
    → check_epoch mem_kv w with_schema ≡ ok tt
unfolding check_epoch lookup bytes_eq key_system key_schema decode_counter decode_value_envelope
    encode_counter encode_u64 be_bytes from_be_bytes u64_fields
holds_there w e n = rw (e, n) refl

dropping_holds : check_epoch mem_kv dropping with_schema ≡ ok tt
unfolding drop_schema stage mark_schema_changed decode_value decode_value_envelope encode_value
    encode_raw_value lookup key_schema bytes_eq u64_fields encode_u64 be_bytes
dropping_holds = holds_there dropping refl refl

dropped_db :
    (create_snapshot mem_kv codecs dropping with_schema (codes "t") none none true).2
    ≡ put_all mem_kv with_schema (commit_writes codecs dropping (codes "t") none none)
unfolding create_snapshot commit_if
dropped_db = rw dropping_holds refl

dropped_rows :
    list_schemas codecs mem_kv
      (put_all mem_kv with_schema (commit_writes codecs dropping (codes "t") none none))
      4
    ≡ ok (ended_schema ∷ [])
unfolding list_schemas scan_rows keep_row drop_schema commit_writes drained snapshot_row
    pending_changes changes_write counter_writes empty_changes complete_changes keep_changes put_all
    stage mark_schema_changed alloc_catalog_id alloc_snapshot_id key_schema key_snapshot key_counter
    key_system u64_fields encode_u64 be_bytes from_be_bytes encode_value decode_value
    encode_raw_value decode_value_envelope bytes_eq bytes_lt starts_with prefix_for_tag is_visible
    lookup
dropped_rows = refl

drop_example : IsIn ended_schema (ended_schema ∷ []) ↔ ((2 ≤ 4) × (4 < 5))
unfolding commit_result drop_schema stage mark_schema_changed decode_value decode_value_envelope
    encode_value encode_raw_value lookup key_schema bytes_eq u64_fields encode_u64 be_bytes
drop_example =
    drop_schema_listed mem_kv codecs writer with_schema 4 schema (codes "t") none none true
      (commit_result (drained dropping) 5) 4 (ended_schema ∷ []) (omega arith) (omega arith)
      schema_stands (accepted dropping with_schema dropping_holds) (rw dropped_db dropped_rows)

abbrev registering : CatalogWriter
registering =
    (register_data_file codecs mem_kv held 7 (codes "p") (codes "parquet") 10 100 writer).1

abbrev new_file : DataFileRow
new_file = record {
  data_file_id = 3;
  table_id = 7;
  path = codes "p";
  file_format = codes "parquet";
  record_count = 10;
  file_size_bytes = 100;
  footer_size = none;
  encryption_key = none;
  begin_snapshot = some 5;
  end_snapshot = none;
  file_order = some 3;
  path_is_relative = some false;
  row_id_start = some 0;
  partition_id = none;
  mapping_id = none;
  partial_max = none;
}

registering_holds : check_epoch mem_kv registering held ≡ ok tt
unfolding register_data_file register_data_file_with_metadata stage alloc_file_id
registering_holds = holds_at registering refl refl

registered_db :
    (create_snapshot mem_kv codecs registering held (codes "t") none none true).2
    ≡ put_all mem_kv held (commit_writes codecs registering (codes "t") none none)
unfolding create_snapshot commit_if
registered_db = rw registering_holds refl

registered_rows :
    list_data_files codecs mem_kv
      (put_all mem_kv held (commit_writes codecs registering (codes "t") none none))
      5
      7
    ≡ ok (new_file ∷ [])
unfolding list_data_files files_loop sort_by_key insert_by below ended_by file_key keep_row
    register_data_file register_data_file_with_metadata next_row_id_of alloc_file_id key_data_file
    key_data_file_by_snapshot key_table_stats prefix_data_files_by_snapshot_for_table
    prefix_data_files_by_snapshot_upper commit_writes drained snapshot_row pending_changes
    changes_write counter_writes empty_changes complete_changes keep_changes put_all stage
    mark_schema_changed alloc_catalog_id alloc_snapshot_id key_schema key_snapshot key_counter
    key_system u64_fields encode_u64 be_bytes from_be_bytes encode_value decode_value
    encode_raw_value decode_value_envelope bytes_eq bytes_lt starts_with prefix_for_tag is_visible
    lookup
registered_rows = refl

list_data_files_example :
    ((r : DataFileRow)
      → IsIn r (new_file ∷ [])
        ↔ FileAt codecs mem_kv
            (put_all mem_kv held (commit_writes codecs registering (codes "t") none none))
            5
            7
            r)
    × Ascends (file_key codecs) (new_file ∷ [])
list_data_files_example = list_data_files_iff codecs mem_kv _ 5 7 (new_file ∷ []) registered_rows

register_example :
    (row : DataFileRow) × ((register_data_file codecs mem_kv held 7
        (codes "p")
        (codes "parquet")
        10
        100
        writer).0
      ≡ ok row.data_file_id)
    × (row.path ≡ codes "p")
    × IsIn row (new_file ∷ [])
register_example =
    register_data_file_listed mem_kv codecs writer held 7 (codes "p") (codes "parquet") 10 100
      (codes "t") none none true (commit_result (drained registering) 5) 5 (new_file ∷ [])
      (omega arith, (omega arith, (omega arith, tt))) (omega arith) (omega arith)
      (unfold register_data_file register_data_file_with_metadata stage alloc_file_id in
        accepted registering held registering_holds)
      (unfold commit_result in omega arith) (rw registered_db registered_rows)
