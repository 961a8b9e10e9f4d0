-- ===== src/Catalog/Gc/Plan/Safe.antt =====
-- `gc_plan` of gc.rs against the latest snapshot and the pins.
use slateduck.Prelude.{
  ℕ, ◌<◌, ◌≤◌, ◌≡◌, Option, none, some, List, [], ◌∷◌, ◌==◌, if◌then◌else◌, arith, sym, ◌∙◌, ◌≢◌,
}
use slateduck.Prelude.Bytes.{Bytes}
use slateduck.Core.Result.{ok, err, ok_injective, map_err, value, CatalogResult, >>=-eq-ok, ◌>>=◌}
use slateduck.Core.Values.{encode_counter, Message, decode_value}
use slateduck.Core.BigEndian.{IsU64}
use slateduck.Catalog.Gc.Pins.{MinAtMost, pin_bound}
use slateduck.Core.Tags.{tag_snapshot}
use slateduck.Core.Rows.{SnapshotRow}
use slateduck.Core.Keys.Prefixes.{prefix_for_tag}
use slateduck.Catalog.Kv.{Kv, Pair}
use slateduck.Catalog.Lease.{minimum}
use slateduck.Catalog.Gc.{
  key_pinned_snapshot, GcPlan, read_retain_from, read_pinned_snapshots, read_latest_snapshot_id,
}
use slateduck.Catalog.Gc.Plan.{
  qualifies, respect_pins, find_loop, find_snapshot_before_time, gc_plan,
}

-- A scan that succeeds returns at most `b`.
abbrev AtMostOk : CatalogResult ℕ → ℕ → Type 0
AtMostOk (ok n) b = n ≤ b
AtMostOk (err e) b = Unit {0}

module _ (codec : Message SnapshotRow) where
  find_loop_le :
      (cutoff : Bytes) (latest last : ℕ) (rows : List Pair)
      → last ≤ latest
      → AtMostOk (find_loop codec cutoff latest last rows) latest
  unfolding find_loop
  find_loop_le cutoff latest last [] h = h
  find_loop_le cutoff latest last ((k, v) ∷ rows) h =
      go (map_err value (decode_value codec v)) (λ n. find_loop_le cutoff latest n rows)
    where
      go :
          (d : CatalogResult SnapshotRow)
          → ((n : ℕ) → n ≤ latest → AtMostOk (find_loop codec cutoff latest n rows) latest)
          → AtMostOk
              (d >>= λ row.
                find_loop codec cutoff latest
                  (if qualifies cutoff latest last row then row.snapshot_id else last)
                  rows)
              latest
      go (ok row) ih = ground (arith, ih row.snapshot_id, ih last)
      go (err e) ih = tt

respect_pins_le : (pin : Option ℕ) (proposed : ℕ) → respect_pins pin proposed ≤ proposed
unfolding respect_pins
respect_pins_le none p = omega arith
respect_pins_le (some m) p = ground arith

respect_pins_below : (m proposed : ℕ) → 0 < m → respect_pins (some m) proposed < m
unfolding respect_pins
respect_pins_below m proposed h = ground arith

below_pin :
    (pin : Option ℕ) (proposed id : ℕ)
    → MinAtMost pin id
    → 0 < respect_pins pin proposed
    → respect_pins pin proposed < id
unfolding respect_pins
below_pin none proposed id h pos = absurd h
below_pin (some m) proposed id h pos = ground arith

module _ (kv : Kv) (codec : Message SnapshotRow) where
  open kv use {Db, get, scan_prefix}

  -- What a plan promises: it is read off the state; with a retention time it hides no snapshot from
  -- the latest on, and without one it moves nothing up; and it stays below the pins, or is 0.
  pub record PlanIsSafe (db : Db) (days : ℕ) (plan : GcPlan) : Type 0 where
    pub current : read_retain_from kv db ≡ ok plan.current_retain_from
    pub latest :
        (n : ℕ) → days ≢ 0 → read_latest_snapshot_id kv db ≡ ok n → plan.proposed_retain_from ≤ n
    pub no_retention : days ≡ 0 → plan.proposed_retain_from ≤ plan.current_retain_from
    pub pins :
        (id : ℕ)
        → IsU64 id
        → get db (key_pinned_snapshot id) ≡ some (encode_counter id)
        → 0 < plan.proposed_retain_from
        → plan.proposed_retain_from < id

  unchanged_proposal :
      (days current p : ℕ) (other : CatalogResult ℕ)
      → days ≡ 0
      → (if days == 0 then ok current else other) ≡ ok p
      → current ≡ p
  unchanged_proposal days current p other z e = ground arith

  proposal_le :
      (db : Db) (cutoff : Bytes) (n p : ℕ)
      → find_snapshot_before_time codec kv db cutoff n ≡ ok p
      → p ≤ n
  unfolding find_snapshot_before_time
  proposal_le db cutoff n p e =
      rw e at
        (find_loop_le codec cutoff n 0 (scan_prefix db (prefix_for_tag tag_snapshot)) (omega arith))

  -- A plan that is returned reports the stored floor; with a retention time it proposes none above
  -- the latest snapshot, and without one none above the stored floor; and, unless it proposes 0,
  -- it proposes one below every pin.
  pub gc_plan-PlanIsSafe :
      (db : Db) (days : ℕ) (cutoff : Bytes) (plan : GcPlan)
      → gc_plan codec kv db days cutoff ≡ ok plan
      → PlanIsSafe db days plan
  unfolding gc_plan
  gc_plan-PlanIsSafe db days cutoff plan h =
      let (current, h1, r1) = >>=-eq-ok (read_retain_from kv db) _ h in
      let (latest, h2, r2) = >>=-eq-ok (read_latest_snapshot_id kv db) _ r1 in
      let (proposed, h3, r3) =
        >>=-eq-ok
          (if days == 0 then ok current else find_snapshot_before_time codec kv db cutoff latest) _
          r2 in
      let (pinned, h4, r4) = >>=-eq-ok (read_pinned_snapshots kv db) _ r3 in
      rw (← ok_injective r4) (record {
        current = h1;
        latest = λ n positive e. omega (
          arith,
          respect_pins_le (minimum pinned) proposed,
          proposal_le db cutoff latest proposed (ground (arith, h3)),
          ok_injective (sym h2 ∙ e),
        );
        no_retention = λ z. omega (
          arith,
          respect_pins_le (minimum pinned) proposed,
          unchanged_proposal days current proposed _ z h3,
        );
        pins = λ id hid g pos.
            below_pin (minimum pinned) proposed id (pin_bound kv db pinned id h4 hid g) pos;
      })
