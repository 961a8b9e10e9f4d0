-- ===== src/Catalog/Gc/Attempt.antt =====
-- One round of `gc_apply`: what its decision rests on.
use slateduck.Prelude.{ℕ, ◌<◌, ◌≤◌, ◌≡◌, inl, inr, Bool-cases, true, Option, none, some, leb, arith}
use slateduck.Prelude.Bytes.{Bytes, starts_with}
use slateduck.Core.Result.{ok, ok_injective, >>=-eq-ok, ◌>>=◌, ◌>>◌}
use slateduck.Core.BigEndian.{IsU64}
use slateduck.Core.Values.{Message, encode_counter}
use slateduck.Core.Rows.{SnapshotLeaseRow}
use slateduck.Core.Keys.Prefixes.{prefix_snapshot_leases}
use slateduck.Catalog.Kv.{scan_finds, Kv}
use slateduck.Catalog.Lease.{minimum_leased_snapshot_in_tx}
use slateduck.Catalog.Lease.Minimum.{AtMost, min_loop_bound}
use slateduck.Catalog.Gc.{
  Outcome, unchanged, advance, read_retain_from, read_pinned_snapshots, key_pinned_snapshot,
  check_pins, check_leases, gc_attempt,
}
use slateduck.Catalog.Gc.Pins.{pin_bound, MinAtMost, check_pins-below, check_leases-le}

module _ (kv : Kv) (codec : Message SnapshotLeaseRow) where
  open kv use {Db, get, scan_prefix, lookup-scan}

  -- What lets the floor go from `current` to `floor` in the state `db` at the time `now`: it was at
  -- `current`, it grows, it stays below every pin and does not pass a lease that is alive.
  pub record MayAdvance (db : Db) (now current floor : ℕ) : Type 0 where
    pub read : read_retain_from kv db ≡ ok current
    pub grows : current < floor
    pub pins :
        (id : ℕ)
        → IsU64 id
        → get db (key_pinned_snapshot id) ≡ some (encode_counter id)
        → floor < id
    pub leases :
        (k : Bytes) (row : SnapshotLeaseRow)
        → starts_with prefix_snapshot_leases k ≡ true
        → get db k ≡ some (codec.encode_to_vec row)
        → now < row.expires_at_unix_ms
        → floor ≤ row.min_snapshot_id

  lease_bound :
      (db : Db) (now : ℕ) (leased : Option ℕ) (k : Bytes) (row : SnapshotLeaseRow)
      → minimum_leased_snapshot_in_tx codec kv db now ≡ ok leased
      → starts_with prefix_snapshot_leases k ≡ true
      → get db k ≡ some (codec.encode_to_vec row)
      → now < row.expires_at_unix_ms
      → MinAtMost leased row.min_snapshot_id
  unfolding minimum_leased_snapshot_in_tx
  lease_bound db now leased k row e s g h =
      go leased (rw e at (min_loop_bound codec now none k row _ h (scan_finds kv db _ k _ s g)))
    where
      go : (o : Option ℕ) → AtMost (ok o) row.min_snapshot_id → MinAtMost o row.min_snapshot_id
      go none x = x
      go (some m) x = x

  -- What a round returned says which branch it took, and that every check of it passed.
  abbrev pub Decided : Db → ℕ → ℕ → Outcome → Type 0
  Decided db now floor (unchanged c) = (read_retain_from kv db ≡ ok c) × (floor ≤ c)
  Decided db now floor (advance c) = MayAdvance db now c floor

  checks :
      (db : Db) (now floor current : ℕ) (outcome : Outcome)
      → read_retain_from kv db ≡ ok current
      → current < floor
      → (do
        pinned ← read_pinned_snapshots kv db
        check_pins pinned floor
        leased ← minimum_leased_snapshot_in_tx codec kv db now
        check_leases leased floor
        ok (advance current))
        ≡ ok outcome
      → Decided db now floor outcome
  checks db now floor current outcome r lt h =
      let (pinned, hp, h1) = >>=-eq-ok (read_pinned_snapshots kv db) _ h in
      let (u, cp, h2) = >>=-eq-ok (check_pins pinned floor) _ h1 in
      let (leased, hl, h3) = >>=-eq-ok (minimum_leased_snapshot_in_tx codec kv db now) _ h2 in
      let (w, cl, h4) = >>=-eq-ok (check_leases leased floor) _ h3 in
      rw (← ok_injective h4) (record {
        read = r;
        grows = lt;
        pins = λ id hid g. check_pins-below pinned floor id cp (pin_bound kv db pinned id hp hid g);
        leases = λ k row s g alive.
            check_leases-le leased floor row.min_snapshot_id cl
              (lease_bound db now leased k row hl s g alive);
      })

  pub gc_attempt-Decided :
      (db : Db) (now floor : ℕ) (outcome : Outcome)
      → gc_attempt kv codec db now floor ≡ ok outcome
      → Decided db now floor outcome
  unfolding gc_attempt
  gc_attempt-Decided db now floor outcome h =
      let (current, r, h1) = >>=-eq-ok (read_retain_from kv db) _ h in
      elim (Bool-cases (leb floor current)) [
        | inl low ↦ rw (← ok_injective (rw low at h1)) (r, ground arith)
        | inr high ↦ checks db now floor current outcome r (ground arith) (rw high at h1)
      ]
