-- ===== src/Catalog/Store/Sessions.antt =====
-- A whole write session: the store's counters after `commit_writer`, and what its readers are bound to.
use slateduck.Prelude.{ℕ, Bool, ◌+◌, ◌-◌, ◌≤◌, ◌≡◌, ap, ◌∙◌, subst, Option, none, some, arith}
use slateduck.Prelude.Bytes.{Bytes}
use slateduck.Core.Result.{ok, err, CatalogResult, >>=-eq-ok, ok_injective}
use slateduck.Core.BigEndian.{IsU64}
use slateduck.Core.Tags.{counter_next_snapshot_id, counter_next_catalog_id, counter_next_file_id}
use slateduck.Core.Rows.{Codecs}
use slateduck.Core.Keys.System.{key_counter}
use slateduck.Core.Counters.{CounterCache}
use slateduck.Core.Counters as Counters
use slateduck.Catalog.Kv.{Kv}
use slateduck.Catalog.Init.{load_counters_from_db, required_counter}
use slateduck.Catalog.Gc.{counter_or_zero}
use slateduck.Catalog.Writer.{CatalogWriter, CommitResult, create_snapshot}
use slateduck.Catalog.Writer.Commit.{Committed, Outcome, create_snapshot-Outcome}
use slateduck.Catalog.Store.{CatalogStore, commit_writer, read_latest, read_fresh_latest}

module _ (kv : Kv) (codecs : Codecs) where
  open kv use {Db, get}

  pub Committed-of :
      (w : CatalogWriter) (db : Db) (r : CatalogResult CommitResult × CatalogWriter × Db)
      (c : CommitResult)
      → r.0 ≡ ok c
      → Outcome kv codecs w db r
      → Committed kv codecs w db c r.1 r.2
  Committed-of w db (ok a, w', db') c h o =
      subst (λ x. Committed kv codecs w db x w' db') (ok_injective h) o
  Committed-of w db (err e, w', db') c h o = cc

  required→or_zero :
      (stored : Option Bytes) (n : ℕ)
      → required_counter stored ≡ ok n
      → counter_or_zero stored ≡ ok n
  unfolding required_counter counter_or_zero
  required→or_zero none n h = cc
  required→or_zero (some v) n h = h

  loaded→fresh :
      (db : Db) (a b c : ℕ)
      → load_counters_from_db kv db ≡ ok (Counters.new a b c)
      → read_fresh_latest kv db ≡ ok (record { dl_snapshot_id = a - 1 })
  unfolding load_counters_from_db read_fresh_latest Counters.new
  loaded→fresh db a b c h =
      let (x, hx, h1) =
        >>=-eq-ok (required_counter (get db (key_counter counter_next_snapshot_id))) _ h in
      let (y, hy, h2) =
        >>=-eq-ok (required_counter (get db (key_counter counter_next_catalog_id))) _ h1 in
      let (z, hz, h3) =
        >>=-eq-ok (required_counter (get db (key_counter counter_next_file_id))) _ h2 in
      rw (required→or_zero _ x hx, ap (λ (k : CounterCache). k.next_snapshot_id) (ok_injective h3))

  -- What a store knows after a write session.
  pub record Session (s : CatalogStore) (db' : Db) (id : ℕ) : Type 0 where
    pub counters : load_counters_from_db kv db' ≡ ok s.counters
    pub latest : (read_latest s).dl_snapshot_id ≡ id
    pub fresh : read_fresh_latest kv db' ≡ ok (record { dl_snapshot_id = id })

  -- After a `create_snapshot` that succeeded and the `commit_writer` of its result, the store's
  -- counters are those in the database, and `read_latest` and `read_fresh_latest` both give a
  -- reader of the snapshot that was committed, as long as snapshot ids start at 1, the counters
  -- are u64s and the next snapshot id does not wrap.
  pub commit_writer-Session :
      (s : CatalogStore) (w : CatalogWriter) (db : Db) (time : Bytes)
      (author message : Option Bytes) (commits : Bool) (c : CommitResult)
      → 1 ≤ w.counters.next_snapshot_id
      → IsU64 (w.counters.next_snapshot_id + 1)
      → IsU64 w.counters.next_catalog_id
      → IsU64 w.counters.next_file_id
      → (create_snapshot kv codecs w db time author message commits).0 ≡ ok c
      → Session
          (commit_writer s c)
          (create_snapshot kv codecs w db time author message commits).2
          c.snapshot_id
  unfolding commit_writer read_latest Counters.new
  commit_writer-Session s w db time author message commits c one fits a b h =
      let done =
        Committed-of w db (create_snapshot kv codecs w db time author message commits) c h
          (create_snapshot-Outcome kv codecs w db time author message commits a b) in
      record {
        counters = done.counters;
        latest = ground (arith, done.id, done.next);
        fresh =
            loaded→fresh _ _ _ _ done.counters
            ∙ ap (λ n. ok (record { dl_snapshot_id = n })) (ground (arith, done.id, done.next));
      }
