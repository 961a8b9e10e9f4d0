-- ===== src/Catalog/Gc/Protects.antt =====
-- `gc_apply` of gc.rs against one lease and against one pin.
use slateduck.Prelude.{ℕ, ◌<◌, ◌≤◌, ◌≡◌, refl, true, some, List, arith, All, subst}
use slateduck.Prelude.Bytes.{Bytes, starts_with, bytes_eq_refl, starts_with_self}
use slateduck.Core.Result.{ok, ok_injective, ok_or, ttl_overflow, expiry_overflow, >>=-eq-ok}
use slateduck.Core.BigEndian.{IsU64}
use slateduck.Core.Values.{Message, encode_counter}
use slateduck.Core.Rows.{SnapshotLeaseRow}
use slateduck.Core.Keys.System.{key_snapshot_lease}
use slateduck.Core.Keys.Prefixes.{prefix_snapshot_leases}
use slateduck.Core.Keys.Identifiers.{key_snapshot_lease-eq-ok}
use slateduck.Catalog.Kv.{Kv}
use slateduck.Catalog.Lease.{hold_snapshot, checked_mul, checked_add}
use slateduck.Catalog.Gc.{GcApplyResult, Round, gc_apply, pin_snapshot, key_pinned_snapshot}
use slateduck.Catalog.Gc.Apply.{Calm, EndedAt, gc_apply-EndedAt}

lease_key_selected :
    (c k : Bytes) → key_snapshot_lease c ≡ ok k → starts_with prefix_snapshot_leases k ≡ true
unfolding prefix_snapshot_leases
lease_key_selected c k e =
    rw ((key_snapshot_lease-eq-ok c k e).1) (starts_with_self prefix_snapshot_leases _)

module _ (kv : Kv) (codec : Message SnapshotLeaseRow) where
  open kv use {Db, get, put, get-put}

  -- The row of a lease under its key, or of a pin.
  abbrev pub LeaseStands : Bytes → SnapshotLeaseRow → Db → Type 0
  LeaseStands k row db = get db k ≡ some (codec.encode_to_vec row)

  abbrev pub PinStands : ℕ → Db → Type 0
  PinStands id db = get db (key_pinned_snapshot id) ≡ some (encode_counter id)

  held_row :
      (db : Db) (now_ms : ℕ) (c k : Bytes) (least ttl : ℕ) (row : SnapshotLeaseRow) (db' : Db)
      → hold_snapshot codec kv db now_ms c least ttl ≡ ok (row, db')
      → key_snapshot_lease c ≡ ok k
      → (row.min_snapshot_id ≡ least) × LeaseStands k row db'
  unfolding hold_snapshot
  held_row db now_ms c k least ttl row db' h e =
      let (ttl_ms, _, h1) = >>=-eq-ok (ok_or (checked_mul ttl 1000) (ttl_overflow ttl)) _ h in
      let (expires, _, h2) =
        >>=-eq-ok (ok_or (checked_add now_ms ttl_ms) (expiry_overflow now_ms ttl_ms)) _ h1 in
      subst (λ (p : SnapshotLeaseRow × Db). (p.0.min_snapshot_id ≡ least) × LeaseStands k p.0 p.1)
        (ok_injective (rw e at h2)) (refl, rw (get-put db, bytes_eq_refl))

  -- From the moment a lease is taken until it expires, no `gc_apply` to a u64 raises the floor
  -- past the lease's snapshot, however many of its commits conflict, as long as the other writers
  -- leave the lease in place and the clock of no round is ahead of the last one's.
  pub lease_protects :
      (db0 db db' : Db) (held_at least ttl floor now : ℕ) (c k : Bytes) (row : SnapshotLeaseRow)
      (rounds : List (Round kv codec)) (r : GcApplyResult)
      → hold_snapshot codec kv db0 held_at c least ttl ≡ ok (row, db)
      → key_snapshot_lease c ≡ ok k
      → now < row.expires_at_unix_ms
      → IsU64 floor
      → All (Calm kv codec (LeaseStands k row) now) rounds
      → gc_apply kv codec db floor rounds now ≡ (ok r, db')
      → r.previous_retain_from < r.new_retain_from
      → r.new_retain_from ≤ least
  lease_protects db0 db db' held_at least ttl floor now c k row rounds r hold named alive h calm e
        lt =
      let (same, stands) = held_row db0 held_at c k least ttl row db hold named in
      let last : EndedAt kv codec (LeaseStands k row) now (ok r, db') =
        rw e at (gc_apply-EndedAt kv codec (LeaseStands k row) db floor now rounds h stands calm) in
      omega (
        arith,
        (last.ends.allowed lt).leases k row (lease_key_selected c k named) last.holds
            (omega (arith, last.not_later)),
      )

  -- No `gc_apply` to a u64 raises the floor to a snapshot that was pinned or past it, however many
  -- of its commits conflict, as long as the other writers leave the pin in place.
  pub pin_protects :
      (db db' : Db) (id floor now : ℕ) (rounds : List (Round kv codec)) (r : GcApplyResult)
      → IsU64 id
      → IsU64 floor
      → All (Calm kv codec (PinStands id) now) rounds
      → gc_apply kv codec (pin_snapshot kv db id) floor rounds now ≡ (ok r, db')
      → r.previous_retain_from < r.new_retain_from
      → r.new_retain_from < id
  unfolding pin_snapshot
  pin_protects db db' id floor now rounds r hid h calm e lt =
      let last : EndedAt kv codec (PinStands id) now (ok r, db') = rw e at (
        gc_apply-EndedAt kv codec (PinStands id) (pin_snapshot kv db id) floor now rounds h
          (rw (get-put db, bytes_eq_refl) refl) calm) in
      (last.ends.allowed lt).pins id hid last.holds
