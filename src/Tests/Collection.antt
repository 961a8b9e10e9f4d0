-- ===== src/Tests/Collection.antt =====
-- The properties of leases and of the collection of snapshots at concrete inputs.
use slateduck.Prelude.{ℕ, ◌≤◌, ◌<◌, ◌≡◌, refl, none, List, [], ◌∷◌, arith}
use slateduck.Prelude.Bytes.{Bytes, bytes_eq, bytes_lt, starts_with}
use slateduck.Core.Result.{ok}
use slateduck.Core.BigEndian.{u64_fields, encode_u64, be_bytes, from_be_bytes}
use slateduck.Core.Tags.{codes, counter_next_snapshot_id}
use slateduck.Core.Values.{
  encode_counter, decode_counter, encode_value, decode_value, encode_raw_value,
  decode_value_envelope,
}
use slateduck.Core.Rows.{SnapshotLeaseRow, SnapshotRow}
use slateduck.Core.Keys.System.{
  key_snapshot_lease, validate_identifier_len, encode_len, key_system, key_counter,
}
use slateduck.Core.Keys.Rows.{key_snapshot}
use slateduck.Core.Keys.Prefixes.{prefix_snapshot_leases, prefix_for_tag}
use slateduck.Catalog.Kv.{Pair, lookup}
use slateduck.Catalog.Lease.{
  hold_snapshot, minimum_leased_snapshot, minimum_leased_snapshot_in_tx, min_loop, min_with,
  minimum,
}
use slateduck.Catalog.Lease.Minimum.{minimum_leased_agree}
use slateduck.Catalog.Gc.{
  GcPlan, GcApplyResult, gc_apply, gc_attempt, pin_snapshot, read_retain_from, retain_from_key,
  counter_or_zero, read_pinned_snapshots, pinned_loop, pinned_snapshot_prefix, key_pinned_snapshot,
  check_pins, check_leases, read_latest_snapshot_id,
}
use slateduck.Catalog.Gc.Apply.{EndedAt, gc_apply-EndedAt}
use slateduck.Catalog.Gc.Protects.{lease_protects, pin_protects}
use slateduck.Catalog.Gc.Plan.{gc_plan, find_snapshot_before_time, find_loop, respect_pins}
use slateduck.Catalog.Gc.Plan.Safe.{PlanIsSafe, gc_plan-PlanIsSafe}
use slateduck.Tests.Memory.{mem_kv}
use slateduck.Tests.Messages.{codecs}

abbrev lease : SnapshotLeaseRow
lease = record { consumer_id = codes "c"; min_snapshot_id = 6; expires_at_unix_ms = 11000 }

abbrev lease_key : Bytes
lease_key = 0x22 ∷ 0 ∷ 1 ∷ codes "c"

abbrev leased : List Pair
leased = (lease_key, codecs.snapshot_lease.encode_to_vec lease) ∷ []

named : key_snapshot_lease (codes "c") ≡ ok lease_key
unfolding key_snapshot_lease validate_identifier_len encode_len be_bytes
named = refl

taken : hold_snapshot codecs.snapshot_lease mem_kv [] 1000 (codes "c") 6 10 ≡ ok (lease, leased)
unfolding hold_snapshot key_snapshot_lease validate_identifier_len encode_len be_bytes
taken = refl

abbrev advanced : GcApplyResult
advanced = record { previous_retain_from = 0; new_retain_from = 4; snapshots_hidden = 4 }

collected :
    gc_apply mem_kv codecs.snapshot_lease leased 4 ((1500, λ db. db) ∷ []) 2000
    ≡ (ok advanced, (retain_from_key, encode_counter 4) ∷ leased)
unfolding gc_apply gc_attempt read_retain_from retain_from_key counter_or_zero lookup bytes_eq
    key_system read_pinned_snapshots pinned_loop pinned_snapshot_prefix starts_with check_pins
    check_leases minimum minimum_leased_snapshot_in_tx min_loop min_with prefix_snapshot_leases
collected = refl

lease_example : 4 ≤ 6
lease_example =
    lease_protects mem_kv codecs.snapshot_lease [] leased
      ((retain_from_key, encode_counter 4) ∷ leased) 1000 6 10 4 2000 (codes "c") lease_key lease
      ((1500, λ db. db) ∷ []) advanced taken named (omega arith) (omega arith)
      ((omega arith, λ d q. q), tt) collected (omega arith)

pinned_collected :
    gc_apply mem_kv codecs.snapshot_lease (pin_snapshot mem_kv [] 9) 4 [] 2000
    ≡ (ok advanced, (retain_from_key, encode_counter 4) ∷ pin_snapshot mem_kv [] 9)
unfolding gc_apply gc_attempt read_retain_from retain_from_key counter_or_zero lookup bytes_eq
    key_system read_pinned_snapshots pinned_loop pinned_snapshot_prefix starts_with check_pins
    check_leases minimum pin_snapshot key_pinned_snapshot decode_counter decode_value_envelope
    encode_counter encode_u64 be_bytes from_be_bytes minimum_leased_snapshot_in_tx min_loop min_with
    prefix_snapshot_leases
pinned_collected = refl

pin_example : 4 < 9
pin_example =
    pin_protects mem_kv codecs.snapshot_lease []
      ((retain_from_key, encode_counter 4) ∷ pin_snapshot mem_kv [] 9) 9 4 2000 [] advanced
      (omega arith) (omega arith) tt pinned_collected (omega arith)

gc_apply_example :
    EndedAt mem_kv codecs.snapshot_lease
      (λ d. Unit {0})
      2000
      (gc_apply mem_kv codecs.snapshot_lease leased 4 ((1500, λ db. leased) ∷ []) 2000)
gc_apply_example =
    gc_apply-EndedAt mem_kv codecs.snapshot_lease (λ d. Unit {0}) leased 4 2000
      ((1500, λ db. leased) ∷ []) (omega arith) tt ((omega arith, λ d u. u), tt)

minimum_example :
    minimum_leased_snapshot_in_tx codecs.snapshot_lease mem_kv leased 2000
    ≡ minimum_leased_snapshot codecs.snapshot_lease mem_kv leased 2000
minimum_example = minimum_leased_agree codecs.snapshot_lease mem_kv leased 2000

abbrev snapshot_at : ℕ → Bytes → SnapshotRow
snapshot_at id time = record {
  snapshot_id = id;
  schema_version = 0;
  snapshot_time = time;
  author = none;
  message = none;
  next_catalog_id = none;
  next_file_id = none;
}

abbrev history : List Pair
history =
    (key_snapshot 2, encode_value codecs.snapshot (snapshot_at 2 (codes "1")))
    ∷ (key_snapshot 3, encode_value codecs.snapshot (snapshot_at 3 (codes "3")))
    ∷ (key_counter counter_next_snapshot_id, encode_counter 4)
    ∷ (key_pinned_snapshot 2, encode_counter 2)
    ∷ []

abbrev plan : GcPlan
plan = record {
  current_retain_from = 0;
  proposed_retain_from = 1;
  snapshots_affected = 2;
  pinned_snapshots = 2 ∷ [];
}

planned : gc_plan codecs.snapshot mem_kv history 7 (codes "2") ≡ ok plan
unfolding gc_plan find_snapshot_before_time find_loop respect_pins read_retain_from retain_from_key
    counter_or_zero lookup bytes_eq bytes_lt key_system key_counter key_snapshot u64_fields
    read_pinned_snapshots pinned_loop pinned_snapshot_prefix starts_with minimum key_pinned_snapshot
    decode_counter decode_value_envelope encode_counter encode_u64 be_bytes from_be_bytes
    read_latest_snapshot_id encode_value decode_value encode_raw_value prefix_for_tag
planned = refl

plan_example : PlanIsSafe mem_kv codecs.snapshot history 7 plan
plan_example = gc_plan-PlanIsSafe mem_kv codecs.snapshot history 7 (codes "2") plan planned
