-- ===== src/Catalog/Writer/Commit.antt =====
-- `create_snapshot` of writer/snapshot.rs: the store and the writer after a commit.
use slateduck.Prelude.{
  ℕ, ◌≡◌, refl, sym, ◌∙◌, Bool, true, false, Option, none, some, List, [], ◌∷◌, ◌++◌, append_assoc,
  arith,
}
use slateduck.Prelude.Bytes.{Bytes, bytes_eq}
use slateduck.Core.Result.{ok, err, CatalogResult, CatalogError}
use slateduck.Core.BigEndian.{IsU64}
use slateduck.Core.Values.{encode_value, encode_counter}
use slateduck.Core.Values.RoundTrip.{decode_counter-encode_counter}
use slateduck.Core.Tags.{counter_next_snapshot_id, counter_next_catalog_id, counter_next_file_id}
use slateduck.Core.Rows.{Codecs, SnapshotChangesRow}
use slateduck.Core.Keys.System.{key_counter}
use slateduck.Core.Keys.Rows.{key_snapshot, key_snapshot_changes}
use slateduck.Core.Counters.{
  CounterCache, increment, alloc_snapshot_id, encode_snapshot_counter, encode_catalog_counter,
  encode_file_counter,
}
use slateduck.Core.Counters as Counters
use slateduck.Catalog.Writer.Fence.{Holds, check_epoch_iff}
use slateduck.Catalog.Kv.{
  Kv, Pair, put_all, written, written-append, written_avoided, get-put_all, Avoids,
}
use slateduck.Catalog.Init.{load_counters_from_db, required_counter}
use slateduck.Catalog.Writer.{
  CatalogWriter, CommitResult, drained, commit_writes, commit_result, counter_writes, changes_write,
  check_epoch, commit_if, create_snapshot, snapshot_row, pending_changes,
}

-- Where the three counters stand last, they are what is read.
counters_written :
    (c : CounterCache) (front : List Pair) (old : Option Bytes)
    → (written (key_counter counter_next_snapshot_id) (front ++ counter_writes c) old
        ≡ some (encode_counter c.next_snapshot_id))
      × (written (key_counter counter_next_catalog_id) (front ++ counter_writes c) old
          ≡ some (encode_counter c.next_catalog_id))
      × (written (key_counter counter_next_file_id) (front ++ counter_writes c) old
          ≡ some (encode_counter c.next_file_id))
unfolding counter_writes encode_snapshot_counter encode_catalog_counter encode_file_counter
counters_written c front old = (
  written-append _ front (counter_writes c) _ ∙ (unfold written key_counter bytes_eq in refl),
  written-append _ front (counter_writes c) _ ∙ (unfold written key_counter bytes_eq in refl),
  written-append _ front (counter_writes c) _ ∙ (unfold written key_counter bytes_eq in refl),
)

module _ (kv : Kv) (codecs : Codecs) where
  open kv use {Db, get}

  -- The keys that a commit writes for itself.
  abbrev pub OwnKey : ℕ → Bytes → Type 0
  OwnKey snapshot_id k = Avoids k (
      (key_snapshot snapshot_id, [])
      ∷ (key_snapshot_changes snapshot_id, [])
      ∷ (key_counter counter_next_snapshot_id, [])
      ∷ (key_counter counter_next_catalog_id, [])
      ∷ (key_counter counter_next_file_id, [])
      ∷ [])

  -- A commit that succeeded: the writer held the store, the stored counters are the writer's and
  -- those it reports, and every key but the commit's own ones reads as it was staged last, or as before.
  pub record Committed (w : CatalogWriter) (db : Db) (c : CommitResult) (w' : CatalogWriter)
      (db' : Db) : Type 0 where
    pub fenced : Holds kv w db
    pub id : c.snapshot_id ≡ w.counters.next_snapshot_id
    pub next : c.next_snapshot_id ≡ increment w.counters.next_snapshot_id
    pub counters :
        load_counters_from_db kv db'
        ≡ ok (Counters.new c.next_snapshot_id c.next_catalog_id c.next_file_id)
    pub writer : w'.counters ≡ Counters.new c.next_snapshot_id c.next_catalog_id c.next_file_id
    pub nothing_staged : w'.staged ≡ []
    pub rows :
        (k : Bytes)
        → OwnKey w.counters.next_snapshot_id k
        → get db' k ≡ written k w.staged (get db k)

  -- One that failed: the store is as it was, and what was staged is gone.
  pub record Failed (w : CatalogWriter) (db : Db) (w' : CatalogWriter) (db' : Db) : Type 0 where
    pub same : db' ≡ db
    pub lost : w'.staged ≡ []
    pub spent : w'.counters.next_snapshot_id ≡ increment w.counters.next_snapshot_id

  abbrev pub Outcome : CatalogWriter → Db → CatalogResult CommitResult × CatalogWriter × Db → Type 0
  Outcome w db (ok c, w', db') = Committed w db c w' db'
  Outcome w db (err e, w', db') = Failed w db w' db'

  commit_writes-front :
      (w : CatalogWriter) (time : Bytes) (author message : Option Bytes)
      → (front : List Pair) × (commit_writes codecs w time author message
          ≡ front ++ counter_writes (drained w).counters)
  unfolding commit_writes
  commit_writes-front w time author message =
      let id = w.counters.next_snapshot_id in
      (
        w.staged
            ++ ((
              key_snapshot id,
              encode_value codecs.snapshot (snapshot_row codecs (drained w) id time),
            )
                ∷ changes_write codecs id
                    (pending_changes w.pending_snapshot_changes id author message)),
        sym (append_assoc w.staged _ _),
      )

  stored_in :
      (w : CatalogWriter) (db : Db) (time : Bytes) (author message : Option Bytes) (id v : ℕ)
      → ((front : List Pair) (old : Option Bytes)
          → written (key_counter id) (front ++ counter_writes (drained w).counters) old
            ≡ some (encode_counter v))
      → IsU64 v
      → required_counter
          (get (put_all kv db (commit_writes codecs w time author message)) (key_counter id))
        ≡ ok v
  unfolding required_counter
  stored_in w db time author message id v h fits =
      let (front, e) = commit_writes-front w time author message in
      rw (get-put_all kv db, e, h front, decode_counter-encode_counter v fits)

  counters_stored :
      (w : CatalogWriter) (db : Db) (time : Bytes) (author message : Option Bytes)
      → IsU64 w.counters.next_catalog_id
      → IsU64 w.counters.next_file_id
      → load_counters_from_db kv (put_all kv db (commit_writes codecs w time author message))
        ≡ ok (drained w).counters
  unfolding load_counters_from_db drained Counters.new
  counters_stored w db time author message a b =
      let written3 = counters_written (drained w).counters in
      rw (
        stored_in w db time author message counter_next_snapshot_id _ (λ f o. (written3 f o).0)
            (ground arith),
        stored_in w db time author message counter_next_catalog_id _ (λ f o. (written3 f o).1) a,
        stored_in w db time author message counter_next_file_id _ (λ f o. (written3 f o).2) b,
      )

  -- The snapshot's row, its change row and the counters avoid every key but the commit's own.
  tail_avoided :
      (id : ℕ) (row : Bytes) (changes : Option SnapshotChangesRow) (c : CounterCache) (k : Bytes)
      → OwnKey id k
      → Avoids k ((key_snapshot id, row) ∷ (changes_write codecs id changes ++ counter_writes c))
  unfolding changes_write counter_writes
  tail_avoided id row none c k h = (h.0, h.1.1)
  tail_avoided id row (some r) c k h = h

  -- The puts after the staged ones avoid every key but the commit's own.
  own_writes :
      (w : CatalogWriter) (time : Bytes) (author message old : Option Bytes) (k : Bytes)
      → OwnKey w.counters.next_snapshot_id k
      → written k (commit_writes codecs w time author message) old ≡ written k w.staged old
  unfolding commit_writes
  own_writes w time author message old k h =
      let id = w.counters.next_snapshot_id in
      let row = encode_value codecs.snapshot (snapshot_row codecs (drained w) id time) in
      let changes = pending_changes w.pending_snapshot_changes id author message in
      written-append k w.staged _ old
      ∙ written_avoided k
          ((key_snapshot id, row)
            ∷ (changes_write codecs id changes ++ counter_writes (drained w).counters))
          (written k w.staged old) (tail_avoided id row changes (drained w).counters k h)

  commit_if-Outcome :
      (w : CatalogWriter) (db : Db) (time : Bytes) (author message : Option Bytes) (commits : Bool)
      (r : CatalogResult (Unit {0}))
      → check_epoch kv w db ≡ r
      → IsU64 w.counters.next_catalog_id
      → IsU64 w.counters.next_file_id
      → Outcome w db
          (commit_if kv codecs r commits w (commit_writes codecs w time author message) db)
  unfolding commit_if drained alloc_snapshot_id commit_result Counters.new
  commit_if-Outcome w db time author message commits (err e) h a b = record {
    same = refl;
    lost = refl;
    spent = refl;
  }
  commit_if-Outcome w db time author message false (ok u) h a b = record {
    same = refl;
    lost = refl;
    spent = refl;
  }
  commit_if-Outcome w db time author message true (ok u) h a b = record {
    fenced = (check_epoch_iff kv w db).0 h;
    id = refl;
    next = refl;
    counters = counters_stored w db time author message a b;
    writer = refl;
    nothing_staged = refl;
    rows = λ k own.
        get-put_all kv db (commit_writes codecs w time author message) k
        ∙ own_writes w time author message (get db k) k own;
  }

  -- With catalog and file counters that are u64s, a commit is all or nothing. Where it succeeds,
  -- the writer held the store, the three counters stored afterwards are those it reports and those
  -- the writer goes on with, the snapshot's id is the one the writer was at and the next is one
  -- more, nothing is left staged, and every key but the snapshot's and the counters' own reads as
  -- the last staged put left it. Where it fails, the store is unchanged, what was staged is gone
  -- and the snapshot's id is spent.
  pub create_snapshot-Outcome :
      (w : CatalogWriter) (db : Db) (time : Bytes) (author message : Option Bytes) (commits : Bool)
      → IsU64 w.counters.next_catalog_id
      → IsU64 w.counters.next_file_id
      → Outcome w db (create_snapshot kv codecs w db time author message commits)
  unfolding create_snapshot
  create_snapshot-Outcome w db time author message commits =
      commit_if-Outcome w db time author message commits (check_epoch kv w db) refl

  -- A writer that the fence turns away changes nothing in the store.
  pub create_snapshot-refused :
      (w : CatalogWriter) (db : Db) (time : Bytes) (author message : Option Bytes) (commits : Bool)
      (e : CatalogError)
      → check_epoch kv w db ≡ err e
      → create_snapshot kv codecs w db time author message commits ≡ (err e, drained w, db)
  unfolding create_snapshot commit_if
  create_snapshot-refused w db time author message commits e h = rw h
