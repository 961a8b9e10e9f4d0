-- ===== src/Catalog/Gc.antt =====
-- crates/rocklake-catalog/src/gc.rs: moving the floor of visible snapshots, `retain-from`.
pub mod Pins
pub mod Attempt
pub mod Apply
pub mod Protects
pub mod Plan
use slateduck.Prelude.{
  ℕ, ◌+◌, ◌-◌, ◌^◌, Bool, true, false, ◌&&◌, ◌||◌, Option, none, some, List, [], ◌∷◌, ◌++◌, ltb,
  leb, ◌==◌, if◌then◌else◌,
}
use slateduck.Prelude.Bytes.{Bytes, bytes_lt}
use slateduck.Core.Result.{
  Result, ok, err, map_err, CatalogResult, CatalogError, value, pinned_snapshot_blocks, ◌>>=◌, ◌>>◌,
}
use slateduck.Core.BigEndian.{encode_u64}
use slateduck.Core.Values.{Message, decode_value, encode_counter, decode_counter}
use slateduck.Core.Tags.{
  codes, tag_system, tag_snapshot, system_retain_from, counter_next_snapshot_id,
}
use slateduck.Core.Rows.{SnapshotRow, SnapshotLeaseRow}
use slateduck.Core.Keys.System.{key_system, key_counter}
use slateduck.Core.Keys.Prefixes.{prefix_for_tag}
use slateduck.Catalog.Kv.{Kv, Pair}
use slateduck.Catalog.Lease.{minimum, minimum_leased_snapshot_in_tx}

pub record GcPlan : Type 0 where
  pub current_retain_from : ℕ
  pub proposed_retain_from : ℕ
  pub snapshots_affected : ℕ
  pub pinned_snapshots : List ℕ

pub record GcApplyResult : Type 0 where
  pub previous_retain_from : ℕ
  pub new_retain_from : ℕ
  pub snapshots_hidden : ℕ

unfoldable pub retain_from_key : Bytes
unfolding key_system
retain_from_key = key_system system_retain_from

unfoldable pub pinned_snapshot_prefix : Bytes
pinned_snapshot_prefix = tag_system ∷ codes "pinned:"

unfoldable pub key_pinned_snapshot : ℕ → Bytes
key_pinned_snapshot snapshot_id = tag_system ∷ (codes "pinned:" ++ encode_u64 snapshot_id)

-- A counter that may be absent: `none` stands for 0.
unfoldable pub counter_or_zero : Option Bytes → CatalogResult ℕ
counter_or_zero none = ok 0
counter_or_zero (some v) = map_err value (decode_counter v)

-- The scan loop of the two `read_pinned_snapshots`.
unfoldable pub pinned_loop : List Pair → CatalogResult (List ℕ)
pinned_loop [] = ok []
pinned_loop ((k, v) ∷ rest) = do
  id ← map_err value (decode_counter v)
  pinned ← pinned_loop rest
  ok (id ∷ pinned)

-- A pin at or below the new floor blocks it.
unfoldable pub check_pins : List ℕ → ℕ → CatalogResult (Unit {0})
check_pins pinned new_retain_from = elim (minimum pinned) [
  | none ↦ ok tt
  | some min_pin ↦
      if leb min_pin new_retain_from
      then err (pinned_snapshot_blocks min_pin new_retain_from)
      else ok tt
]

-- A lease below the new floor blocks it.
unfoldable pub check_leases : Option ℕ → ℕ → CatalogResult (Unit {0})
check_leases none new_retain_from = ok tt
check_leases (some min_leased) new_retain_from =
    if ltb min_leased new_retain_from
    then err (pinned_snapshot_blocks min_leased new_retain_from)
    else ok tt

-- What one round of `gc_apply` decides before its commit, from the floor that it read.
pub data Outcome : Type 0 where
  unchanged advance : ℕ → Outcome

unfoldable pub is_within_retention : ℕ → ℕ → Bool
is_within_retention snapshot_id retain_from = (retain_from == 0) || leb retain_from snapshot_id

kept : ℕ → GcApplyResult
kept current = record {
  previous_retain_from = current;
  new_retain_from = current;
  snapshots_hidden = 0;
}

module _ (kv : Kv) where
  open kv use {Db, get, put, delete, scan_prefix}

  unfoldable pub read_retain_from : Db → CatalogResult ℕ
  unfolding counter_or_zero retain_from_key
  read_retain_from db = counter_or_zero (get db retain_from_key)

  unfoldable pub pin_snapshot : Db → ℕ → Db
  unfolding key_pinned_snapshot
  pin_snapshot db snapshot_id =
      put db (key_pinned_snapshot snapshot_id) (encode_counter snapshot_id)

  unfoldable pub unpin_snapshot : Db → ℕ → Db
  unfolding key_pinned_snapshot
  unpin_snapshot db snapshot_id = delete db (key_pinned_snapshot snapshot_id)

  unfoldable pub read_pinned_snapshots : Db → CatalogResult (List ℕ)
  unfolding pinned_loop pinned_snapshot_prefix
  read_pinned_snapshots db = pinned_loop (scan_prefix db pinned_snapshot_prefix)

  -- The end of a round whose commit succeeds.
  finish : Db → ℕ → CatalogResult Outcome → CatalogResult GcApplyResult × Db
  finish db new_retain_from (err e) = (err e, db)
  finish db new_retain_from (ok (unchanged current)) = (ok (kept current), db)
  finish db new_retain_from (ok (advance current)) = (
    ok (record {
      previous_retain_from = current;
      new_retain_from = new_retain_from;
      snapshots_hidden = new_retain_from - current;
    }),
    put db retain_from_key (encode_counter new_retain_from),
  )

  -- The end of a round whose commit, if it comes to one, conflicts: `next` is the rest of the loop.
  retry :
      Db
      → CatalogResult Outcome
      → CatalogResult GcApplyResult × Db
      → CatalogResult GcApplyResult × Db
  retry db (err e) next = (err e, db)
  retry db (ok (unchanged current)) next = (ok (kept current), db)
  retry db (ok (advance current)) next = next

  module _ (codec : Message SnapshotLeaseRow) where
    unfoldable pub gc_attempt : Db → ℕ → ℕ → CatalogResult Outcome
    gc_attempt tx now_ms new_retain_from = do
      current_retain_from ← read_retain_from tx
      if leb new_retain_from current_retain_from then ok (unchanged current_retain_from) else do
        pinned ← read_pinned_snapshots tx
        check_pins pinned new_retain_from
        leased ← minimum_leased_snapshot_in_tx codec kv tx now_ms
        check_leases leased new_retain_from
        ok (advance current_retain_from)

    -- A round whose commit conflicts: the clock in it, and what the others wrote meanwhile.
    abbrev pub Round : Type 0
    Round = ℕ × (Db → Db)

    -- The rounds are those whose commit conflicts, if they come to it; the next one commits.
    unfoldable pub gc_apply : Db → ℕ → List Round → ℕ → CatalogResult GcApplyResult × Db
    unfolding finish retry kept retain_from_key
    gc_apply db new_retain_from [] now_ms =
        finish db new_retain_from (gc_attempt db now_ms new_retain_from)
    gc_apply db new_retain_from ((now, others) ∷ rounds) now_ms =
        retry db (gc_attempt db now new_retain_from)
          (gc_apply (others db) new_retain_from rounds now_ms)

  unfoldable pub read_latest_snapshot_id : Db → CatalogResult ℕ
  unfolding counter_or_zero
  read_latest_snapshot_id db = do
    next ← counter_or_zero (get db (key_counter counter_next_snapshot_id))
    ok (if ltb 0 next then next - 1 else 0)
