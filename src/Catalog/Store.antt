-- ===== src/Catalog/Store.antt =====
-- crates/rocklake-catalog/src/store.rs: the store's claim of the writer epoch, its readers and its
-- write sessions. The open database is an argument; the nonce is the uuid's text.
pub mod Fencing
pub mod Sessions
use slateduck.Prelude.{ℕ, ◌+◌, ◌-◌, Option, none, some, List, [], ◌∷◌, ltb, ◌&&◌, if◌then◌else◌}
use slateduck.Prelude.Bytes.{Bytes}
use slateduck.Core.Result.{
  Result, ok, err, ok_or, CatalogResult, internal, snapshot_out_of_retention, ◌>>=◌,
}
use slateduck.Core.Values.{encode_counter, decode_value}
use slateduck.Core.Tags.{system_writer_epoch, system_writer_nonce, counter_next_snapshot_id}
use slateduck.Core.Rows.{Codecs, SnapshotRow}
use slateduck.Core.Keys.System.{key_system, key_counter}
use slateduck.Core.Keys.Rows.{key_snapshot}
use slateduck.Core.Counters.{CounterCache, sync_from, peek_snapshot_id}
use slateduck.Core.Counters as Counters
use slateduck.Catalog.Kv.{Kv}
use slateduck.Catalog.Lease.{checked_add}
use slateduck.Catalog.Gc.{counter_or_zero, read_retain_from}
use slateduck.Catalog.Writer.{CatalogWriter, CommitResult}
use slateduck.Catalog.Writer as Writer

pub record CatalogStore : Type 0 where
  pub counters : CounterCache
  pub writer_epoch : ℕ
  pub writer_nonce : Bytes
  pub schema_version : ℕ
  pub retain_from_cache : ℕ

-- A reader is bound to a snapshot; the database is an argument of its operations.
pub record CatalogReader : Type 0 where
  pub dl_snapshot_id : ℕ

module _ (kv : Kv) where
  open kv use {Db, get, put}

  unfoldable pub next_epoch : Db → CatalogResult ℕ
  next_epoch tx = do
    current_epoch ← counter_or_zero (get tx (key_system system_writer_epoch))
    ok_or (checked_add current_epoch 1) (internal "writer epoch counter overflow")

  -- A round of the loop whose commit succeeds.
  claim : Db → Bytes → CatalogResult ℕ → CatalogResult ℕ × Db
  claim db writer_nonce (err e) = (err e, db)
  claim db writer_nonce (ok new_epoch) = (
    ok new_epoch,
    put (put db (key_system system_writer_epoch) (encode_counter new_epoch))
        (key_system system_writer_nonce) writer_nonce,
  )

  -- One whose commit conflicts: `next` is the rest of the loop.
  lost_race : Db → CatalogResult ℕ → CatalogResult ℕ × Db → CatalogResult ℕ × Db
  lost_race db (err e) next = (err e, db)
  lost_race db (ok new_epoch) next = next

  -- The loop of `open`. The list has, for each commit that conflicts, what the others wrote.
  unfoldable pub acquire_epoch : Db → Bytes → List (Db → Db) → CatalogResult ℕ × Db
  unfolding claim lost_race
  acquire_epoch db writer_nonce [] = claim db writer_nonce (next_epoch db)
  acquire_epoch db writer_nonce (others ∷ rounds) =
      lost_race db (next_epoch db) (acquire_epoch (others db) writer_nonce rounds)

  or_zero : CatalogResult ℕ → ℕ
  or_zero (ok n) = n
  or_zero (err e) = 0

  module _ (codecs : Codecs) where
    version_of : Option Bytes → ℕ
    version_of none = 0
    version_of (some stored) = elim (decode_value codecs.snapshot stored) [
      | ok row ↦ row.schema_version
      | err e ↦ 0
    ]

    unfoldable pub load_schema_version : Db → CounterCache → ℕ
    unfolding version_of
    load_schema_version db counters =
        if ltb 1 (peek_snapshot_id counters)
        then version_of (get db (key_snapshot (peek_snapshot_id counters - 1)))
        else 0

    opened : CounterCache → Bytes → CatalogResult ℕ × Db → CatalogResult CatalogStore × Db
    opened counters writer_nonce (err e, db) = (err e, db)
    opened counters writer_nonce (ok writer_epoch, db) = (
      ok (record {
        counters = counters;
        writer_epoch = writer_epoch;
        writer_nonce = writer_nonce;
        schema_version = load_schema_version db counters;
        retain_from_cache = or_zero (read_retain_from kv db);
      }),
      db,
    )

    -- `open` from the point where the catalog is initialized and its keys are migrated.
    unfoldable pub open_initialized :
        Db → CounterCache → Bytes → List (Db → Db) → CatalogResult CatalogStore × Db
    unfolding opened or_zero
    open_initialized db counters writer_nonce rounds =
        opened counters writer_nonce (acquire_epoch db writer_nonce rounds)

  unfoldable pub read_fresh_latest : Db → CatalogResult CatalogReader
  read_fresh_latest db = do
    next ← counter_or_zero (get db (key_counter counter_next_snapshot_id))
    ok (record { dl_snapshot_id = next - 1 })

unfoldable pub read_at : CatalogStore → ℕ → CatalogResult CatalogReader
read_at s dl_snapshot_id =
    if ltb 0 s.retain_from_cache && ltb dl_snapshot_id s.retain_from_cache
    then err (snapshot_out_of_retention dl_snapshot_id s.retain_from_cache)
    else ok (record { dl_snapshot_id = dl_snapshot_id })

unfoldable pub read_latest : CatalogStore → CatalogReader
read_latest s = record {
  dl_snapshot_id =
      if ltb 1 (peek_snapshot_id s.counters) then peek_snapshot_id s.counters - 1 else 0;
}

unfoldable pub update_retain_from_cache : CatalogStore → ℕ → CatalogStore
update_retain_from_cache s new_retain_from = record s { retain_from_cache = new_retain_from }

unfoldable pub begin_write : CatalogStore → CatalogWriter
unfolding Writer.new Counters.new
begin_write s =
    Writer.new
      (Counters.new s.counters.next_snapshot_id s.counters.next_catalog_id s.counters.next_file_id)
      s.writer_epoch s.writer_nonce s.schema_version

unfoldable pub commit_writer : CatalogStore → CommitResult → CatalogStore
unfolding sync_from
commit_writer s result = record s {
  counters =
      sync_from s.counters result.next_snapshot_id result.next_catalog_id result.next_file_id;
  schema_version = result.schema_version;
}
