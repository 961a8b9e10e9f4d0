-- ===== src/Catalog/Gc/Plan.antt =====
-- `gc_plan` of crates/rocklake-catalog/src/gc.rs. The clock and the date arithmetic are chrono's: the
-- RFC 3339 text of the cutoff is an argument.
pub mod Safe
use slateduck.Prelude.{
  ℕ, ◌-◌, ◌<◌, ◌≤◌, ◌≡◌, Bool, ◌&&◌, Option, none, some, List, [], ◌∷◌, ltb, leb, ◌==◌,
  if◌then◌else◌, arith, sym, ◌∙◌, ◌≢◌,
}
use slateduck.Prelude.Bytes.{Bytes, bytes_lt}
use slateduck.Core.Result.{
  CatalogError, ok, err, ok_injective, map_err, value, CatalogResult, >>=-eq-ok, ◌>>=◌,
}
use slateduck.Core.Values.{encode_counter, Message, decode_value}
use slateduck.Core.BigEndian.{IsU64}
use slateduck.Catalog.Gc.Pins.{MinAtMost, pin_bound}
use slateduck.Core.Tags.{tag_snapshot}
use slateduck.Core.Rows.{SnapshotRow}
use slateduck.Core.Keys.Prefixes.{prefix_for_tag}
use slateduck.Catalog.Kv.{Kv, Pair}
use slateduck.Catalog.Lease.{minimum}
use slateduck.Catalog.Gc.{
  key_pinned_snapshot, GcPlan, read_retain_from, read_pinned_snapshots, read_latest_snapshot_id,
}

-- The three tests of the scan loop: not above `max_snapshot`, older than the cutoff, and the latest
-- such so far.
abbrev qualifies : Bytes → ℕ → ℕ → SnapshotRow → Bool
qualifies cutoff_time max_snapshot last row =
    leb row.snapshot_id max_snapshot
    && (bytes_lt row.snapshot_time cutoff_time && ltb last row.snapshot_id)

-- A proposal at or above the least pin is put just below it.
unfoldable pub respect_pins : Option ℕ → ℕ → ℕ
respect_pins none proposed = proposed
respect_pins (some min_pin) proposed = if leb min_pin proposed then min_pin - 1 else proposed

module _ (codec : Message SnapshotRow) where
  unfoldable pub find_loop : Bytes → ℕ → ℕ → List Pair → CatalogResult ℕ
  find_loop cutoff_time max_snapshot last [] = ok last
  find_loop cutoff_time max_snapshot last ((k, v) ∷ rest) = do
    row ← map_err value (decode_value codec v)
    find_loop cutoff_time max_snapshot
        (if qualifies cutoff_time max_snapshot last row then row.snapshot_id else last) rest

  module _ (kv : Kv) where
    open kv use {Db, scan_prefix}

    unfoldable pub find_snapshot_before_time : Db → Bytes → ℕ → CatalogResult ℕ
    unfolding find_loop
    find_snapshot_before_time db cutoff_time max_snapshot =
        find_loop cutoff_time max_snapshot 0 (scan_prefix db (prefix_for_tag tag_snapshot))

    unfoldable pub gc_plan : Db → ℕ → Bytes → CatalogResult GcPlan
    unfolding respect_pins find_snapshot_before_time
    gc_plan db retention_days cutoff_time = do
      current ← read_retain_from kv db
      latest ← read_latest_snapshot_id kv db
      proposed ←
          if retention_days == 0
          then ok current
          else find_snapshot_before_time db cutoff_time latest
      pinned ← read_pinned_snapshots kv db
      ok (record {
        current_retain_from = current;
        proposed_retain_from = respect_pins (minimum pinned) proposed;
        snapshots_affected = proposed - current;
        pinned_snapshots = pinned;
      })
