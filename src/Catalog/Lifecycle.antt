-- ===== src/Catalog/Lifecycle.antt =====
-- A write session followed by a read: crates/rocklake-catalog/src/writer and reader.rs together.
pub mod Schemas
pub mod DataFiles
pub mod Metadata
use slateduck.Prelude.{
  ◌≡◌, refl, ◌∙◌, Option, none, some, List, [], ◌∷◌, ◌++◌, Bool, ℕ, if◌then◌else◌,
}
use slateduck.Prelude.Bytes.{Bytes, bytes_eq_refl}
use slateduck.Core.Result.{ok}
use slateduck.Core.BigEndian.{IsU64}
use slateduck.Core.Rows.{Codecs}
use slateduck.Catalog.Kv.{Kv, Pair, written, written-append}
use slateduck.Catalog.Writer.{CatalogWriter, CommitResult, create_snapshot}
use slateduck.Catalog.Writer.Commit.{Committed, OwnKey, create_snapshot-Outcome}
use slateduck.Catalog.Store.Sessions.{Committed-of}

pub written_last :
    (k v : Bytes) (l : List Pair) (old : Option Bytes) → written k (l ++ (k, v) ∷ []) old ≡ some v
written_last k v l old =
    written-append k l ((k, v) ∷ []) old ∙ (unfold written in rw (bytes_eq_refl k) refl)

module _ (kv : Kv) (codecs : Codecs) where
  open kv use {Db, get}

  -- What a session staged last under a key is what the store holds after its commit.
  pub committed_last :
      (w : CatalogWriter) (db : Db) (time : Bytes) (author message : Option Bytes) (commits : Bool)
      (c : CommitResult) (k v : Bytes) (before : List Pair)
      → IsU64 w.counters.next_catalog_id
      → IsU64 w.counters.next_file_id
      → (create_snapshot kv codecs w db time author message commits).0 ≡ ok c
      → OwnKey kv codecs w.counters.next_snapshot_id k
      → w.staged ≡ before ++ (k, v) ∷ []
      → (get (create_snapshot kv codecs w db time author message commits).2 k ≡ some v)
        × (c.snapshot_id ≡ w.counters.next_snapshot_id)
  committed_last w db time author message commits c k v before a b h own e =
      let done =
        Committed-of kv codecs w db (create_snapshot kv codecs w db time author message commits) c h
          (create_snapshot-Outcome kv codecs w db time author message commits a b) in
      (done.rows k own ∙ rw e (written_last k v before (get db k)), done.id)
