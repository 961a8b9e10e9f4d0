-- ===== src/Catalog/Lease/Minimum.antt =====
-- The two computations of the least leased snapshot in lease.rs.
use slateduck.Prelude.{
  ℕ, ◌<◌, ◌≤◌, ◌≡◌, refl, inl, inr, Bool-cases, lt→ltb, sym, ◌∙◌, some_injective, true, Option,
  none, some, List, [], ◌∷◌, ltb, min, if◌then◌else◌, arith,
}
use Prim.Native.String.{String}
use slateduck.Prelude.Bytes.{Bytes, bytes_eq}
use slateduck.Core.Result.{
  Result, ok, ok_injective, err, map_err, CatalogResult, corrupt_lease, ◌>>=◌,
}
use slateduck.Core.Values.{Message}
use slateduck.Core.Rows.{SnapshotLeaseRow}
use slateduck.Catalog.Kv.{Kv, Pair, lookup}
use slateduck.Catalog.Lease.{
  active_rows, min_loop, min_with, minimum, minimum_ids, minimum_leased_snapshot,
  minimum_leased_snapshot_in_tx, list_active_leases,
}

-- The smaller of two optional numbers.
abbrev least : Option ℕ → Option ℕ → Option ℕ
least none o = o
least (some m) none = some m
least (some m) (some n) = some (min m n)

-- A scan that succeeded found a minimum, and it is at most `b`.
abbrev pub AtMost : CatalogResult (Option ℕ) → ℕ → Type 0
AtMost (ok (some m)) b = m ≤ b
AtMost (ok none) b = ⊥
AtMost (err e) b = Unit {0}

module _ (codec : Message SnapshotLeaseRow) where
  -- `then` for a scan that may fail.
  abbrev after : Option ℕ → CatalogResult (List SnapshotLeaseRow) → CatalogResult (Option ℕ)
  after acc r = r >>= λ leases. ok (least acc (minimum (minimum_ids leases)))

  Scans : ℕ → List Pair → Type 0
  Scans now rows =
      (acc : Option ℕ) → min_loop codec now acc rows ≡ after acc (active_rows codec now rows)

  -- One row that could be decoded.
  one_row :
      (now : ℕ) (acc : Option ℕ) (row : SnapshotLeaseRow) (rows : List Pair)
      → Scans now rows
      → min_loop codec now
          (if ltb now row.expires_at_unix_ms then min_with acc row.min_snapshot_id else acc)
          rows
        ≡ after acc (
            active_rows codec now rows >>= λ leases.
            ok (if ltb now row.expires_at_unix_ms then row ∷ leases else leases))
  unfolding minimum minimum_ids Scans
  one_row now acc row rows ih = ground (arith, ih acc, ih (min_with acc row.min_snapshot_id))

  min_loop-active_rows : (now : ℕ) (rows : List Pair) → Scans now rows
  unfolding min_loop active_rows minimum minimum_ids Scans
  min_loop-active_rows now [] acc = ground arith
  min_loop-active_rows now ((k, v) ∷ rows) acc =
      go (codec.decode v) refl (min_loop-active_rows now rows)
    where
      go :
          (d : Result String SnapshotLeaseRow)
          → codec.decode v ≡ d
          → Scans now rows
          → min_loop codec now acc ((k, v) ∷ rows)
            ≡ after acc (active_rows codec now ((k, v) ∷ rows))
      go (ok row) e ih = rw e (one_row now acc row rows ih)
      go (err x) e ih = rw e

  -- The scan inside a transaction and the one outside compute the same minimum, or fail alike.
  pub minimum_leased_agree :
      (kv : Kv) (db : kv.Db) (now : ℕ)
      → minimum_leased_snapshot_in_tx codec kv db now ≡ minimum_leased_snapshot codec kv db now
  unfolding minimum_leased_snapshot_in_tx minimum_leased_snapshot list_active_leases Scans
  minimum_leased_agree kv db now = min_loop-active_rows now _ none

  min_loop_le :
      (now m b : ℕ) (rows : List Pair) → m ≤ b → AtMost (min_loop codec now (some m) rows) b
  unfolding min_loop
  min_loop_le now m b [] h = h
  min_loop_le now m b ((k, v) ∷ rows) h = go (codec.decode v) (λ n. min_loop_le now n b rows)
    where
      go :
          (d : Result String SnapshotLeaseRow)
          → ((n : ℕ) → n ≤ b → AtMost (min_loop codec now (some n) rows) b)
          → AtMost
              (map_err (λ e. corrupt_lease k) d >>= λ row.
                min_loop codec now
                  (if ltb now row.expires_at_unix_ms
                    then min_with (some m) row.min_snapshot_id
                    else some m)
                  rows)
              b
      go (ok row) ih = ground (arith, ih m, ih (min m row.min_snapshot_id))
      go (err x) ih = tt

  head_bound :
      (now : ℕ) (acc : Option ℕ) (row : SnapshotLeaseRow) (rows : List Pair)
      → now < row.expires_at_unix_ms
      → AtMost
          (min_loop codec now
            (if ltb now row.expires_at_unix_ms then min_with acc row.min_snapshot_id else acc)
            rows)
          row.min_snapshot_id
  head_bound now none row rows h =
      rw (lt→ltb _ _ h) (min_loop_le now row.min_snapshot_id row.min_snapshot_id rows (omega arith))
  head_bound now (some c) row rows h =
      rw (lt→ltb _ _ h)
        (min_loop_le now (min c row.min_snapshot_id) row.min_snapshot_id rows (omega arith))

  -- Where the rows hold an active lease, a scan that succeeds finds no greater minimum.
  pub min_loop_bound :
      (now : ℕ) (acc : Option ℕ) (k : Bytes) (row : SnapshotLeaseRow) (rows : List Pair)
      → now < row.expires_at_unix_ms
      → lookup k rows ≡ some (codec.encode_to_vec row)
      → AtMost (min_loop codec now acc rows) row.min_snapshot_id
  unfolding min_loop lookup
  min_loop_bound now acc k row [] h l = cc
  min_loop_bound now acc k row ((j, v) ∷ rows) h l =
      go (codec.decode v) refl (λ a. min_loop_bound now a k row rows h)
    where
      found : bytes_eq j k ≡ true → codec.decode v ≡ ok row
      found e = rw (some_injective (rw e at l)) (codec.decode-encode row)

      go :
          (d : Result String SnapshotLeaseRow)
          → codec.decode v ≡ d
          → ((a : Option ℕ)
              → lookup k rows ≡ some (codec.encode_to_vec row)
              → AtMost (min_loop codec now a rows) row.min_snapshot_id)
          → AtMost (min_loop codec now acc ((j, v) ∷ rows)) row.min_snapshot_id
      go (err x) e ih = rw e tt
      go (ok r) e ih = rw e (elim (Bool-cases (bytes_eq j k)) [
        | inl same ↦ rw (ok_injective (sym e ∙ found same)) (head_bound now acc row rows h)
        | inr other ↦ ih _ (rw other at l)
      ])
