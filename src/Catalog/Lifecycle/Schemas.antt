-- ===== src/Catalog/Lifecycle/Schemas.antt =====
-- A schema from its creation to its drop, as the readers of every snapshot see it.
use slateduck.Prelude.{
  ℕ, ◌<◌, ◌≤◌, ◌≡◌, refl, ◌↔◌, Bool, true, Option, none, some, List, IsIn, arith,
}
use slateduck.Prelude.Bytes.{Bytes, bytes_eq, starts_with}
use slateduck.Core.Result.{ok}
use slateduck.Core.BigEndian.{IsU64}
use slateduck.Core.Tags.{tag_schema}
use slateduck.Core.Values.{encode_value}
use slateduck.Core.Values.RoundTrip.{decode_value-encode_value}
use slateduck.Core.Rows.{Codecs, SchemaRow}
use slateduck.Core.Keys.Rows.{key_schema, key_snapshot, key_snapshot_changes}
use slateduck.Core.Keys.System.{key_counter}
use slateduck.Core.Keys.Prefixes.{prefix_for_tag}
use slateduck.Core.Counters.{alloc_catalog_id}
use slateduck.Catalog.Kv.{Kv}
use slateduck.Catalog.Writer.{
  CatalogWriter, CommitResult, create_snapshot, stage, mark_schema_changed,
}
use slateduck.Catalog.Writer.Commit.{OwnKey}
use slateduck.Catalog.Writer.Objects.{create_schema, drop_schema}
use slateduck.Catalog.Reader.{list_schemas}
use slateduck.Catalog.Reader.Listing.{Under, list_schemas_iff}
use slateduck.Catalog.Lifecycle.{committed_last}

module _ (kv : Kv) (codecs : Codecs) where
  open kv use {Db, get}

  key_schema-OwnKey : (id snapshot_id : ℕ) → OwnKey kv codecs snapshot_id (key_schema id)
  unfolding key_schema key_snapshot key_snapshot_changes key_counter bytes_eq
  key_schema-OwnKey id snapshot_id = (refl, (refl, (refl, (refl, (refl, tt)))))

  stored_schema :
      (db : Db) (id : ℕ) (row : SchemaRow)
      → get db (key_schema id) ≡ some (encode_value codecs.schema row)
      → Under kv codecs.schema db (prefix_for_tag tag_schema) row
  stored_schema db id row h = record {
    key = key_schema id;
    value = encode_value codecs.schema row;
    selected = unfold prefix_for_tag key_schema starts_with in refl;
    holds = h;
    decodes = decode_value-encode_value codecs.schema row;
  }

  -- The row of a schema that the writer creates: it has the writer's next catalog id, begins at its
  -- next snapshot and has no end.
  abbrev pub created_row : CatalogWriter → Bytes → Bytes → SchemaRow
  created_row w uuid name = record {
    schema_id = w.counters.next_catalog_id;
    schema_name = name;
    begin_snapshot = w.counters.next_snapshot_id;
    end_snapshot = none;
    schema_uuid = some uuid;
    path = none;
    path_is_relative = some true;
  }

  -- With a file counter that is a u64, after a schema was created and the snapshot committed,
  -- `create_schema` returned the writer's next catalog id, the committed snapshot is the writer's
  -- next one, and the store has under the key of that id the row with the id, the uuid and the
  -- name that were given, which begins at that snapshot and has no end; a `list_schemas` that
  -- succeeds on the store after the commit has that row exactly if its reader is at the committed
  -- snapshot or a later one.
  pub create_schema_listed :
      (w : CatalogWriter) (db : Db) (uuid name time : Bytes) (author message : Option Bytes)
      (commits : Bool) (c : CommitResult) (snap : ℕ) (rows : List SchemaRow)
      → IsU64 w.counters.next_file_id
      → (create_snapshot kv codecs
          (create_schema codecs uuid name w).1
          db
          time
          author
          message
          commits).0
        ≡ ok c
      → list_schemas codecs kv
          (create_snapshot kv codecs
            (create_schema codecs uuid name w).1
            db
            time
            author
            message
            commits).2
          snap
        ≡ ok rows
      → ((create_schema codecs uuid name w).0 ≡ ok w.counters.next_catalog_id)
        × (c.snapshot_id ≡ w.counters.next_snapshot_id)
        × (get
              (create_snapshot kv codecs
                (create_schema codecs uuid name w).1
                db
                time
                author
                message
                commits).2
              (key_schema w.counters.next_catalog_id)
            ≡ some (encode_value codecs.schema (created_row w uuid name)))
        × (IsIn (created_row w uuid name) rows ↔ (c.snapshot_id ≤ snap))
  unfolding create_schema stage mark_schema_changed alloc_catalog_id
  create_schema_listed w db uuid name time author message commits c snap rows fits h listed =
      let row = created_row w uuid name in
      let (holds, id) =
        committed_last kv codecs (create_schema codecs uuid name w).1 db time author message commits
          c (key_schema w.counters.next_catalog_id) (encode_value codecs.schema row) w.staged
          (ground arith) fits h (key_schema-OwnKey _ _) refl in
      let iff = list_schemas_iff kv codecs _ snap rows listed row in
      (
        refl,
        id,
        holds,
        (λ i. rw id ((iff.0 i).1), λ le. iff.1 (stored_schema _ _ row holds, rw id at le)),
      )

  dropped :
      (w : CatalogWriter) (db : Db) (id : ℕ) (row : SchemaRow)
      → get db (key_schema id) ≡ some (encode_value codecs.schema row)
      → (drop_schema codecs kv db id w).1
        ≡ mark_schema_changed (
            stage w (key_schema id) (
              encode_value codecs.schema
                (record row { end_snapshot = some w.counters.next_snapshot_id })))
  unfolding drop_schema
  dropped w db id row h = rw (h, decode_value-encode_value codecs.schema row)

  -- With counters that are u64s, after a stored schema was dropped and the drop committed, a
  -- `list_schemas` that succeeds has its row, with the committed snapshot as its end, exactly if
  -- the reader is at the row's first snapshot or a later one, and before the committed one.
  pub drop_schema_listed :
      (w : CatalogWriter) (db : Db) (id : ℕ) (row : SchemaRow) (time : Bytes)
      (author message : Option Bytes) (commits : Bool) (c : CommitResult) (snap : ℕ)
      (rows : List SchemaRow)
      → IsU64 w.counters.next_catalog_id
      → IsU64 w.counters.next_file_id
      → get db (key_schema id) ≡ some (encode_value codecs.schema row)
      → (create_snapshot kv codecs
          (drop_schema codecs kv db id w).1
          db
          time
          author
          message
          commits).0
        ≡ ok c
      → list_schemas codecs kv
          (create_snapshot kv codecs
            (drop_schema codecs kv db id w).1
            db
            time
            author
            message
            commits).2
          snap
        ≡ ok rows
      → IsIn (record row { end_snapshot = some c.snapshot_id }) rows
        ↔ ((row.begin_snapshot ≤ snap) × (snap < c.snapshot_id))
  unfolding mark_schema_changed stage
  drop_schema_listed w db id row time author message commits c snap rows a b stored h listed =
      let ended : SchemaRow = record row { end_snapshot = some w.counters.next_snapshot_id } in
      let w' = mark_schema_changed (stage w (key_schema id) (encode_value codecs.schema ended)) in
      let step = dropped w db id row stored in
      let (holds, same) =
        committed_last kv codecs w' db time author message commits c (key_schema id)
          (encode_value codecs.schema ended) w.staged a b (rw step at h) (key_schema-OwnKey _ _)
          refl in
      let iff = list_schemas_iff kv codecs _ snap rows (rw step at listed) ended in
      let id_eq : c.snapshot_id ≡ w.counters.next_snapshot_id = same in
      rw id_eq (λ i. (iff.0 i).1, λ l. iff.1 (stored_schema _ _ ended holds, l))
