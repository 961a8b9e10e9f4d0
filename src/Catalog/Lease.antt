-- ===== src/Catalog/Lease.antt =====
-- crates/rocklake-catalog/src/lease.rs: leases that keep snapshots from being collected.
-- The system clock is an argument, in milliseconds since the epoch.
pub mod Minimum
use slateduck.Prelude.{
  ℕ, ◌+◌, ◌*◌, ◌^◌, ◌<◌, Bool, true, false, Option, none, some, List, [], ◌∷◌, ltb, min,
  if◌then◌else◌,
}
use slateduck.Prelude.Bytes.{Bytes}
use slateduck.Core.Result.{
  Result, ok, err, map_err, ok_or, CatalogResult, CatalogError, key, corrupt_lease, ttl_overflow,
  expiry_overflow, ◌>>=◌,
}
use slateduck.Core.Values.{Message}
use slateduck.Core.Rows.{SnapshotLeaseRow}
use slateduck.Core.Keys.System.{key_snapshot_lease}
use slateduck.Core.Keys.Prefixes.{prefix_snapshot_leases}
use slateduck.Catalog.Kv.{Kv, Pair}

abbrev pub checked_mul : ℕ → ℕ → Option ℕ
checked_mul a b = if ltb (a * b) (2 ^ 64) then some (a * b) else none

abbrev pub checked_add : ℕ → ℕ → Option ℕ
checked_add a b = if ltb (a + b) (2 ^ 64) then some (a + b) else none

abbrev pub is_some : {A : Type 0} → Option A → Bool
is_some none = false
is_some (some a) = true

-- `iter().min()`.
unfoldable pub minimum : List ℕ → Option ℕ
minimum [] = none
minimum (x ∷ xs) = elim (minimum xs) [ none ↦ some x | some m ↦ some (min x m) ]

abbrev pub min_with : Option ℕ → ℕ → Option ℕ
min_with none m = some m
min_with (some cur) m = some (min cur m)

unfoldable pub minimum_ids : List SnapshotLeaseRow → List ℕ
minimum_ids [] = []
minimum_ids (l ∷ ls) = l.min_snapshot_id ∷ minimum_ids ls

module _ (codec : Message SnapshotLeaseRow) where
  -- The scan loop of `list_active_leases`: one corrupt row fails the whole scan.
  unfoldable pub active_rows : ℕ → List Pair → CatalogResult (List SnapshotLeaseRow)
  active_rows now_ms [] = ok []
  active_rows now_ms ((k, v) ∷ rest) = do
    row ← map_err (λ e. corrupt_lease k) (codec.decode v)
    leases ← active_rows now_ms rest
    ok (if ltb now_ms row.expires_at_unix_ms then row ∷ leases else leases)

  -- The scan loop of `minimum_leased_snapshot_in_tx`.
  unfoldable pub min_loop : ℕ → Option ℕ → List Pair → CatalogResult (Option ℕ)
  min_loop now_ms min_snapshot [] = ok min_snapshot
  min_loop now_ms min_snapshot ((k, v) ∷ rest) = do
    row ← map_err (λ e. corrupt_lease k) (codec.decode v)
    min_loop now_ms
        (if ltb now_ms row.expires_at_unix_ms
          then min_with min_snapshot row.min_snapshot_id
          else min_snapshot)
        rest

  module _ (kv : Kv) where
    open kv use {Db, get, put, delete, scan_prefix}

    unfoldable pub hold_snapshot : Db → ℕ → Bytes → ℕ → ℕ → CatalogResult (SnapshotLeaseRow × Db)
    hold_snapshot db now_ms consumer_id min_snapshot_id ttl_seconds = do
      ttl_ms ← ok_or (checked_mul ttl_seconds 1000) (ttl_overflow ttl_seconds)
      expires_at_unix_ms ← ok_or (checked_add now_ms ttl_ms) (expiry_overflow now_ms ttl_ms)
      let row : SnapshotLeaseRow = record {
        consumer_id = consumer_id;
        min_snapshot_id = min_snapshot_id;
        expires_at_unix_ms = expires_at_unix_ms;
      }
      k ← map_err key (key_snapshot_lease consumer_id)
      ok (row, put db k (codec.encode_to_vec row))

    -- Whether there was a lease, and the store without it.
    unfoldable pub release_snapshot : Db → Bytes → CatalogResult (Bool × Db)
    release_snapshot db consumer_id = do
      k ← map_err key (key_snapshot_lease consumer_id)
      ok (is_some (get db k), delete db k)

    unfoldable pub list_active_leases : Db → ℕ → CatalogResult (List SnapshotLeaseRow)
    unfolding active_rows
    list_active_leases db now_ms = active_rows now_ms (scan_prefix db prefix_snapshot_leases)

    unfoldable pub minimum_leased_snapshot : Db → ℕ → CatalogResult (Option ℕ)
    unfolding minimum_ids
    minimum_leased_snapshot db now_ms = do
      leases ← list_active_leases db now_ms
      ok (minimum (minimum_ids leases))

    unfoldable pub minimum_leased_snapshot_in_tx : Db → ℕ → CatalogResult (Option ℕ)
    unfolding min_loop
    minimum_leased_snapshot_in_tx tx now_ms =
        min_loop now_ms none (scan_prefix tx prefix_snapshot_leases)
