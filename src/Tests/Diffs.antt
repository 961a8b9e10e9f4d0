-- ===== src/Tests/Diffs.antt =====
-- The difference of two snapshots of a store whose schema was dropped in between.
use slateduck.Prelude.{◌≡◌, refl, ◌↔◌, ◌⊎◌, some, List, [], ◌∷◌, IsIn, arith}
use slateduck.Prelude.Bytes.{bytes_eq, bytes_lt, starts_with}
use slateduck.Core.Result.{ok}
use slateduck.Core.BigEndian.{be_bytes, encode_u64, u64_fields}
use slateduck.Core.Values.{
  encode_value, decode_value, encode_raw_value, decode_value_envelope, encode_counter,
}
use slateduck.Core.Keys.Rows.{key_schema}
use slateduck.Core.Keys.System.{key_system, key_counter}
use slateduck.Core.Keys.Prefixes.{prefix_for_tag}
use slateduck.Core.Mvcc.{is_visible}
use slateduck.Core.Rows.{SchemaRow}
use slateduck.Catalog.Kv.{Pair, lookup}
use slateduck.Catalog.Reader.{list_schemas, scan_rows, keep_row}
use slateduck.Catalog.Reader.Diff.{
  SnapshotDiff, snapshot_diff, diff_schemas, diff_tables, diff_columns, diff_data_files, diff_loop,
  is_between, ends_between,
}
use slateduck.Catalog.Reader.Replay.{snapshot_diff_replays}
use slateduck.Tests.Memory.{mem_kv}
use slateduck.Tests.Messages.{codecs}
use slateduck.Tests.Data.{held, schema}

abbrev ended : SchemaRow
ended = record schema { end_snapshot = some 5 }

abbrev begun : SchemaRow
begun = record schema { schema_id = 6; begin_snapshot = 4 }

abbrev store : List Pair
store =
    (key_schema 4, encode_value codecs.schema ended)
    ∷ (key_schema 6, encode_value codecs.schema begun)
    ∷ held

abbrev difference : SnapshotDiff
difference = record {
  from_snapshot = 3;
  to_snapshot = 6;
  added_schemas = begun ∷ [];
  retired_schemas = ended ∷ [];
  added_tables = [];
  retired_tables = [];
  added_columns = [];
  retired_columns = [];
  added_data_files = [];
  retired_data_files = [];
}

differs : snapshot_diff codecs mem_kv store 3 6 ≡ ok difference
unfolding snapshot_diff diff_schemas diff_tables diff_columns diff_data_files diff_loop is_between
    ends_between key_schema u64_fields encode_u64 be_bytes encode_value decode_value
    encode_raw_value decode_value_envelope bytes_eq bytes_lt starts_with prefix_for_tag lookup
    key_system key_counter encode_counter
differs = refl

listed_then : list_schemas codecs mem_kv store 3 ≡ ok (ended ∷ [])
unfolding list_schemas scan_rows keep_row is_visible key_schema u64_fields encode_u64 be_bytes
    encode_value decode_value encode_raw_value decode_value_envelope bytes_eq bytes_lt starts_with
    prefix_for_tag lookup key_system key_counter encode_counter
listed_then = refl

listed_later : list_schemas codecs mem_kv store 6 ≡ ok (begun ∷ [])
unfolding list_schemas scan_rows keep_row is_visible key_schema u64_fields encode_u64 be_bytes
    encode_value decode_value encode_raw_value decode_value_envelope bytes_eq bytes_lt starts_with
    prefix_for_tag lookup key_system key_counter encode_counter
listed_later = refl

diff_example :
    IsIn begun (begun ∷ [])
    ↔ ((IsIn begun (ended ∷ []) ⊎ IsIn begun (begun ∷ [])) × ¬ IsIn begun (ended ∷ []))
diff_example =
    snapshot_diff_replays codecs mem_kv store 3 6 difference (ended ∷ []) (begun ∷ []) (omega arith)
      differs listed_then listed_later begun tt
