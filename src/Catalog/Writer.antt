-- ===== src/Catalog/Writer.antt =====
-- crates/rocklake-catalog/src/writer: the writer's state, its fencing, and the commit of a snapshot.
pub mod Fence
pub mod Commit
pub mod Step
pub mod Objects
pub mod Views
pub mod Files
pub mod DropTable
pub mod RowIds
pub mod Upkeep
pub mod Changes
use slateduck.Prelude.{
  ℕ, ◌+◌, ◌%◌, ◌^◌, Bool, true, false, not, ◌||◌, Option, none, some, List, [], ◌∷◌, ◌++◌, ◌==◌,
  if◌then◌else◌,
}
use slateduck.Prelude.Bytes.{Bytes, bytes_eq}
use slateduck.Core.Result.{
  Result, ok, err, map_err, ok_or, CatalogResult, CatalogError, value, writer_epoch_mismatch,
  transaction_conflict, ◌>>=◌,
}
use slateduck.Core.Values.{encode_value, decode_counter}
use slateduck.Core.Tags.{
  system_writer_epoch, system_writer_nonce, counter_next_snapshot_id, counter_next_catalog_id,
  counter_next_file_id,
}
use slateduck.Core.Rows.{Codecs, SnapshotRow, SnapshotChangesRow}
use slateduck.Core.Keys.System.{key_system, key_counter}
use slateduck.Core.Keys.Rows.{key_snapshot, key_snapshot_changes}
use slateduck.Core.Counters.{
  CounterCache, increment, alloc_snapshot_id, encode_snapshot_counter, encode_catalog_counter,
  encode_file_counter,
}
use slateduck.Catalog.Kv.{Kv, Pair, put_all}

-- The writer without its handle on the store, which every operation takes as an argument.
pub record CatalogWriter : Type 0 where
  pub counters : CounterCache
  pub writer_epoch : ℕ
  pub writer_nonce : Bytes
  pub schema_changed : Bool
  pub current_schema_version : ℕ
  pub staged : List Pair
  pub pending_snapshot_changes : Option SnapshotChangesRow

unfoldable pub new : CounterCache → ℕ → Bytes → ℕ → CatalogWriter
new counters writer_epoch writer_nonce schema_version = record {
  counters = counters;
  writer_epoch = writer_epoch;
  writer_nonce = writer_nonce;
  schema_changed = false;
  current_schema_version = schema_version;
  staged = [];
  pending_snapshot_changes = none;
}

unfoldable pub stage : CatalogWriter → Bytes → Bytes → CatalogWriter
stage w k v = record w { staged = w.staged ++ (k, v) ∷ [] }

unfoldable pub mark_schema_changed : CatalogWriter → CatalogWriter
mark_schema_changed w = record w { schema_changed = true }

pub record CommitResult : Type 0 where
  pub snapshot_id : ℕ
  pub next_snapshot_id : ℕ
  pub next_catalog_id : ℕ
  pub next_file_id : ℕ
  pub schema_version : ℕ

-- The change row that a commit without one starts from.
unfoldable pub empty_changes : ℕ → SnapshotChangesRow
empty_changes snapshot_id = record {
  snapshot_id = snapshot_id;
  change_type = [];
  change_info = none;
  schema_id = none;
  table_id = none;
  author = none;
  commit_message = none;
  commit_extra_info = none;
  changes_made = none;
}

abbrev or_else : Option Bytes → Option Bytes → Option Bytes
or_else none b = b
or_else (some a) b = some a

abbrev is_some : Option Bytes → Bool
is_some none = false
is_some (some a) = true

-- `snapshot_id`, `author` and `commit_message` are filled in.
unfoldable pub complete_changes :
    Option SnapshotChangesRow → ℕ → Option Bytes → Option Bytes → SnapshotChangesRow
complete_changes none snapshot_id author message = record (empty_changes snapshot_id) {
  author = author;
  commit_message = message;
}
complete_changes (some row) snapshot_id author message = record row {
  snapshot_id = snapshot_id;
  author = or_else row.author author;
  commit_message = or_else row.commit_message message;
}

-- Only a row that says something is kept.
unfoldable pub keep_changes : SnapshotChangesRow → Option SnapshotChangesRow
keep_changes row =
    if is_some row.author
      || (is_some row.commit_message
          || (is_some row.changes_made || not (bytes_eq row.change_type [])))
    then some row
    else none

unfoldable pub pending_changes :
    Option SnapshotChangesRow → ℕ → Option Bytes → Option Bytes → Option SnapshotChangesRow
unfolding complete_changes empty_changes keep_changes
pending_changes pending snapshot_id author message =
    keep_changes (complete_changes pending snapshot_id author message)

-- The writer after `alloc_snapshot_id`, the schema version's step and the drain of what is pending.
unfoldable pub drained : CatalogWriter → CatalogWriter
unfolding alloc_snapshot_id
drained w = record w {
  counters = (alloc_snapshot_id w.counters).1;
  schema_changed = false;
  current_schema_version =
      if w.schema_changed then increment w.current_schema_version else w.current_schema_version;
  staged = [];
  pending_snapshot_changes = none;
}

unfoldable pub counter_writes : CounterCache → List Pair
counter_writes c =
    (key_counter counter_next_snapshot_id, encode_snapshot_counter c)
    ∷ (key_counter counter_next_catalog_id, encode_catalog_counter c)
    ∷ (key_counter counter_next_file_id, encode_file_counter c)
    ∷ []

module _ (codecs : Codecs) where
  unfoldable pub snapshot_row : CatalogWriter → ℕ → Bytes → SnapshotRow
  snapshot_row w snapshot_id snapshot_time = record {
    snapshot_id = snapshot_id;
    schema_version = w.current_schema_version;
    snapshot_time = snapshot_time;
    author = none;
    message = none;
    next_catalog_id = some w.counters.next_catalog_id;
    next_file_id = some w.counters.next_file_id;
  }

  unfoldable pub changes_write : ℕ → Option SnapshotChangesRow → List Pair
  changes_write snapshot_id none = []
  changes_write snapshot_id (some row) =
      (key_snapshot_changes snapshot_id, encode_value codecs.snapshot_changes row) ∷ []

  -- Everything that the transaction of `create_snapshot` puts, in order. `w` is the writer as it was
  -- called, and the row and the counters are those of the drained writer.
  unfoldable pub commit_writes : CatalogWriter → Bytes → Option Bytes → Option Bytes → List Pair
  unfolding drained snapshot_row pending_changes changes_write counter_writes
  commit_writes w snapshot_time author message =
      let snapshot_id = w.counters.next_snapshot_id in
      w.staged
      ++ ((
        key_snapshot snapshot_id,
        encode_value codecs.snapshot (snapshot_row (drained w) snapshot_id snapshot_time),
      )
          ∷ (changes_write snapshot_id
                (pending_changes w.pending_snapshot_changes snapshot_id author message)
              ++ counter_writes (drained w).counters))

-- What a commit reports: the counters and the schema version after it.
unfoldable pub commit_result : CatalogWriter → ℕ → CommitResult
commit_result w snapshot_id = record {
  snapshot_id = snapshot_id;
  next_snapshot_id = w.counters.next_snapshot_id;
  next_catalog_id = w.counters.next_catalog_id;
  next_file_id = w.counters.next_file_id;
  schema_version = w.current_schema_version;
}

module _ (kv : Kv) where
  open kv use {Db, get}

  -- The nonce is compared as bytes: a stored one that is no UTF-8 differs from any text.
  unfoldable pub check_epoch : CatalogWriter → Db → CatalogResult (Unit {0})
  check_epoch w tx = do
    stored ← ok_or (get tx (key_system system_writer_epoch)) writer_epoch_mismatch
    stored_epoch ← map_err value (decode_counter stored)
    same_epoch ← if stored_epoch == w.writer_epoch then ok tt else err writer_epoch_mismatch
    stored_nonce ← ok_or (get tx (key_system system_writer_nonce)) writer_epoch_mismatch
    if bytes_eq stored_nonce w.writer_nonce then ok tt else err writer_epoch_mismatch

  module _ (codecs : Codecs) where
    unfoldable pub commit_if :
        CatalogResult (Unit {0})
        → Bool
        → CatalogWriter
        → List Pair
        → Db
        → CatalogResult CommitResult × CatalogWriter × Db
    commit_if (err e) commits w writes db = (err e, drained w, db)
    commit_if (ok u) false w writes db = (err transaction_conflict, drained w, db)
    commit_if (ok u) true w writes db = (
      ok (commit_result (drained w) w.counters.next_snapshot_id),
      drained w,
      put_all kv db writes,
    )

    -- `commits` is SlateDB's answer to the commit. The writer is changed even where that fails.
    unfoldable pub create_snapshot :
        CatalogWriter
        → Db
        → Bytes
        → Option Bytes
        → Option Bytes
        → Bool
        → CatalogResult CommitResult × CatalogWriter × Db
    unfolding commit_if drained commit_result
    create_snapshot w db snapshot_time author message commits =
        commit_if (check_epoch w db) commits w (commit_writes codecs w snapshot_time author message)
          db
