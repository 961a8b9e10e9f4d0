-- ===== src/Catalog/Lifecycle/Metadata.antt =====
-- A metadata entry that was set and committed, and the read of it: `set_metadata` of writer/mod.rs and
-- `get_metadata` of reader.rs.
use slateduck.Prelude.{ℕ, ◌≡◌, refl, Option, some, Bool}
use slateduck.Prelude.Bytes.{Bytes, bytes_eq}
use slateduck.Core.Result.{ok, err, CatalogResult}
use slateduck.Core.BigEndian.{IsU64}
use slateduck.Core.Values.{Message, encode_value}
use slateduck.Core.Values.RoundTrip.{decode_value-encode_value}
use slateduck.Core.Rows.{Codecs, MetadataRow}
use slateduck.Core.Keys.System.{MetadataScope, key_metadata, key_counter}
use slateduck.Core.Keys.Rows.{key_snapshot, key_snapshot_changes}
use slateduck.Catalog.Kv.{Kv}
use slateduck.Catalog.Writer.{CatalogWriter, CommitResult, create_snapshot, stage}
use slateduck.Catalog.Writer.Commit.{OwnKey}
use slateduck.Catalog.Writer.Step.{and_then, put_row}
use slateduck.Catalog.Writer.Upkeep.{set_metadata, scope_str, validate_app_metadata_key}
use slateduck.Catalog.Reader.Objects.{get_metadata, read_metadata}
use slateduck.Catalog.Lifecycle.{committed_last}

module _ (kv : Kv) (codecs : Codecs) (metadata : Message MetadataRow) where
  open kv use {Db, get}

  key_metadata-OwnKey :
      (scope : MetadataScope) (id : ℕ) (key : Bytes) (snapshot_id : ℕ)
      → OwnKey kv codecs snapshot_id (key_metadata scope id key)
  unfolding key_metadata key_snapshot key_snapshot_changes key_counter bytes_eq
  key_metadata-OwnKey scope id key snapshot_id = (refl, (refl, (refl, (refl, (refl, tt)))))

  set_row : MetadataScope → ℕ → Bytes → Bytes → MetadataRow
  set_row scope id key value = record {
    key = key;
    value = value;
    scope = some (scope_str scope);
    scope_id = some id;
  }

  staged_checked :
      (r : CatalogResult (Unit {0})) (k v : Bytes) (w : CatalogWriter)
      → (and_then r (λ u. put_row k v) w).0 ≡ ok tt
      → (and_then r (λ u. put_row k v) w).1 ≡ stage w k v
  staged_checked (ok u) k v w h = refl
  staged_checked (err e) k v w h = cc

  set_metadata_staged :
      (scope : MetadataScope) (id : ℕ) (key value : Bytes) (w : CatalogWriter)
      → (set_metadata metadata scope id key value w).0 ≡ ok tt
      → (set_metadata metadata scope id key value w).1
        ≡ stage w (key_metadata scope id key) (encode_value metadata (set_row scope id key value))
  unfolding set_metadata set_row
  set_metadata_staged scope id key value w h =
      staged_checked (validate_app_metadata_key key) _ _ w h

  stored_read :
      (db : Db) (scope : MetadataScope) (id : ℕ) (key : Bytes) (row : MetadataRow)
      → get db (key_metadata scope id key) ≡ some (encode_value metadata row)
      → get_metadata metadata kv db scope id key ≡ ok (some row)
  unfolding get_metadata read_metadata
  stored_read db scope id key row h = rw (h, decode_value-encode_value metadata row) refl

  -- With counters that are u64s, after a metadata entry that `set_metadata` accepted was
  -- committed, `get_metadata` of its scope, id and key succeeds on the store after the commit,
  -- with a row that has the key and the value that were given.
  pub set_metadata_read :
      (w : CatalogWriter) (db : Db) (scope : MetadataScope) (id : ℕ) (key value time : Bytes)
      (author message : Option Bytes) (commits : Bool) (c : CommitResult)
      → IsU64 w.counters.next_catalog_id
      → IsU64 w.counters.next_file_id
      → (set_metadata metadata scope id key value w).0 ≡ ok tt
      → (create_snapshot kv codecs
          (set_metadata metadata scope id key value w).1
          db
          time
          author
          message
          commits).0
        ≡ ok c
      → (row : MetadataRow) × (get_metadata metadata kv
            (create_snapshot kv codecs
              (set_metadata metadata scope id key value w).1
              db
              time
              author
              message
              commits).2
            scope
            id
            key
          ≡ ok (some row))
        × (row.key ≡ key)
        × (row.value ≡ value)
  unfolding set_row stage
  set_metadata_read w db scope id key value time author message commits c a b set h =
      let row = set_row scope id key value in
      let s = set_metadata_staged scope id key value w set in
      let (holds, _) =
        committed_last kv codecs (stage w (key_metadata scope id key) (encode_value metadata row))
          db time author message commits c (key_metadata scope id key) (encode_value metadata row)
          w.staged a b (rw s at h) (key_metadata-OwnKey _ _ _ _) refl in
      (row, rw s (stored_read _ scope id key row holds), refl, refl)
