-- ===== src/Catalog/Gc/Pins.antt =====
-- The scan of the pins in gc.rs, and the checks of a new floor.
use slateduck.Prelude.{
  ℕ, ◌<◌, ◌≤◌, ◌≡◌, refl, sym, ◌∙◌, inl, inr, Bool-cases, some_injective, true, Option, none, some,
  List, [], ◌∷◌, arith,
}
use slateduck.Prelude.Bytes.{starts_with_self, Bytes, bytes_eq}
use slateduck.Core.Result.{Result, ok, err, ok_injective, CatalogResult, ValueError, ◌>>=◌}
use slateduck.Core.BigEndian.{encode_u64, IsU64}
use slateduck.Core.Values.{encode_counter, decode_counter}
use slateduck.Core.Values.RoundTrip.{decode_counter-encode_counter}
use slateduck.Catalog.Kv.{Kv, scan_finds, Pair, lookup}
use slateduck.Catalog.Lease.{minimum}
use slateduck.Catalog.Gc.{
  read_pinned_snapshots, key_pinned_snapshot, pinned_snapshot_prefix, pinned_loop, check_pins,
  check_leases,
}

-- A minimum that is at most `b`.
abbrev pub MinAtMost : Option ℕ → ℕ → Type 0
MinAtMost none b = ⊥
MinAtMost (some m) b = m ≤ b

abbrev pub PinsAtMost : CatalogResult (List ℕ) → ℕ → Type 0
PinsAtMost (ok l) b = MinAtMost (minimum l) b
PinsAtMost (err e) b = Unit {0}

minimum_head : (x : ℕ) (xs : List ℕ) → MinAtMost (minimum (x ∷ xs)) x
unfolding minimum
minimum_head x xs = ground arith

minimum_tail : (x b : ℕ) (xs : List ℕ) → MinAtMost (minimum xs) b → MinAtMost (minimum (x ∷ xs)) b
unfolding minimum
minimum_tail x b xs h = ground arith

PinsAtMost-head :
    (id : ℕ) (r : CatalogResult (List ℕ)) → PinsAtMost (r >>= λ pinned. ok (id ∷ pinned)) id
PinsAtMost-head id (ok l) = minimum_head id l
PinsAtMost-head id (err e) = tt

PinsAtMost-tail :
    (id b : ℕ) (r : CatalogResult (List ℕ))
    → PinsAtMost r b
    → PinsAtMost (r >>= λ pinned. ok (id ∷ pinned)) b
PinsAtMost-tail id b (ok l) h = minimum_tail id b l h
PinsAtMost-tail id b (err e) h = tt

-- Where the rows hold a pin, a scan that succeeds finds no greater minimum.
pub pinned_loop_bound :
    (k : Bytes) (id : ℕ) (rows : List Pair)
    → IsU64 id
    → lookup k rows ≡ some (encode_counter id)
    → PinsAtMost (pinned_loop rows) id
unfolding pinned_loop lookup
pinned_loop_bound k id [] h l = cc
pinned_loop_bound k id ((j, v) ∷ rows) h l =
    go (decode_counter v) refl (pinned_loop_bound k id rows h)
  where
    found : bytes_eq j k ≡ true → decode_counter v ≡ ok id
    found e = rw (some_injective (rw e at l)) (decode_counter-encode_counter id h)

    go :
        (d : Result ValueError ℕ)
        → decode_counter v ≡ d
        → (lookup k rows ≡ some (encode_counter id) → PinsAtMost (pinned_loop rows) id)
        → PinsAtMost (pinned_loop ((j, v) ∷ rows)) id
    go (err x) e ih = rw e tt
    go (ok n) e ih = rw e (elim (Bool-cases (bytes_eq j k)) [
      | inl same ↦ rw (ok_injective (sym e ∙ found same)) (PinsAtMost-head id (pinned_loop rows))
      | inr other ↦ PinsAtMost-tail n id (pinned_loop rows) (ih (rw other at l))
    ])

-- A floor that the checks let through lies below every pin, and not above any lease.
pub check_pins-below :
    (pinned : List ℕ) (floor b : ℕ)
    → check_pins pinned floor ≡ ok tt
    → MinAtMost (minimum pinned) b
    → floor < b
unfolding check_pins
check_pins-below pinned floor b c h = ground arith

pub check_leases-le :
    (leased : Option ℕ) (floor b : ℕ)
    → check_leases leased floor ≡ ok tt
    → MinAtMost leased b
    → floor ≤ b
unfolding check_leases
check_leases-le none floor b c h = absurd h
check_leases-le (some m) floor b c h = ground arith

module _ (kv : Kv) where
  open kv use {Db, get, scan_prefix}

  -- The least pin that is read is at most any pin that stands.
  pub pin_bound :
      (db : Db) (pinned : List ℕ) (id : ℕ)
      → read_pinned_snapshots kv db ≡ ok pinned
      → IsU64 id
      → get db (key_pinned_snapshot id) ≡ some (encode_counter id)
      → MinAtMost (minimum pinned) id
  unfolding read_pinned_snapshots key_pinned_snapshot
  pin_bound db pinned id e h g = rw e at (
      pinned_loop_bound (key_pinned_snapshot id) id (scan_prefix db pinned_snapshot_prefix) h
        (scan_finds kv db _ _ _ (starts_with_self pinned_snapshot_prefix (encode_u64 id)) g))
