-- ===== src/Tests/Data.antt =====
-- The states that the properties are applied to.
use slateduck.Prelude.{false, none, List, [], ◌∷◌}
use slateduck.Core.Tags.{codes, system_writer_epoch, system_writer_nonce}
use slateduck.Core.Values.{encode_counter, encode_value}
use slateduck.Core.Rows.{SchemaRow}
use slateduck.Core.Keys.System.{key_system}
use slateduck.Core.Keys.Rows.{key_schema}
use slateduck.Catalog.Kv.{Pair}
use slateduck.Catalog.Writer.{CatalogWriter}
use slateduck.Tests.Messages.{codecs}

-- A store that the writer "a" holds at epoch 1.
abbrev pub held : List Pair
held =
    (key_system system_writer_nonce, codes "a")
    ∷ (key_system system_writer_epoch, encode_counter 1)
    ∷ []

abbrev pub writer : CatalogWriter
writer = record {
  counters = record { next_snapshot_id = 5; next_catalog_id = 8; next_file_id = 3 };
  writer_epoch = 1;
  writer_nonce = codes "a";
  schema_changed = false;
  current_schema_version = 2;
  staged = [];
  pending_snapshot_changes = none;
}

abbrev pub schema : SchemaRow
schema = record {
  schema_id = 4;
  schema_name = codes "main";
  begin_snapshot = 2;
  end_snapshot = none;
  schema_uuid = none;
  path = none;
  path_is_relative = none;
}

abbrev pub with_schema : List Pair
with_schema = (key_schema 4, encode_value codecs.schema schema) ∷ held
