-- ===== src/Catalog/Reader/Replay.antt =====
-- `snapshot_diff` of reader.rs against the listings at its two ends.
use slateduck.Prelude.{ℕ, ◌≤◌, ◌≡◌, ◌↔◌, ◌⊎◌, inl, inr, true, Option, none, some, List, IsIn, arith}
use slateduck.Core.Result.{ok, >>=-eq-ok, ok_injective}
use slateduck.Core.Rows.{Codecs, SchemaRow}
use slateduck.Core.Mvcc.Visibility.{LivesAt}
use slateduck.Catalog.Kv.{Kv}
use slateduck.Catalog.Reader.{list_schemas}
use slateduck.Catalog.Reader.Listing.{scan_rows_iff, list_schemas_iff}
use slateduck.Catalog.Reader.Diff.{
  SnapshotDiff, is_between, ends_between, diff_schemas, diff_tables, diff_columns, diff_data_files,
  snapshot_diff, diff_loop-scan_rows,
}

-- A row does not end before it begins.
abbrev pub Ordered : ℕ → Option ℕ → Type 0
Ordered begin none = Unit
Ordered begin (some end) = begin ≤ end

-- A row lives at the later snapshot when it lived at the earlier one or began in between, and did
-- not end in between.
lives_later :
    (begin : ℕ) (end : Option ℕ) (from to : ℕ)
    → from ≤ to
    → Ordered begin end
    → LivesAt begin end to ↔ (
        (LivesAt begin end from ⊎ (is_between from to begin ≡ true))
        × ¬ (ends_between from to end ≡ true))
unfolding is_between ends_between
lives_later begin none from to h o = ground arith
lives_later begin (some end) from to h o = ground arith

-- The same of what is listed, where a listing selects the stored rows by a test.
replay_listed :
    {Stored LivedAt Began LivesThen Ended Before Added Retired After : Type 0}
    → Before ↔ (Stored × LivedAt)
    → Added ↔ (Stored × Began)
    → Retired ↔ (Stored × Ended)
    → After ↔ (Stored × LivesThen)
    → LivesThen ↔ ((LivedAt ⊎ Began) × ¬ Ended)
    → After ↔ ((Before ⊎ Added) × ¬ Retired)
replay_listed was added retired is lives = (
  λ i.
      let (u, l) = is.0 i in
      let (origin, stays) = lives.0 l in
      (
        elim origin [ inl x ↦ inl (was.1 (u, x)) | inr x ↦ inr (added.1 (u, x)) ],
        λ j. stays (retired.0 j).1,
      ),
  λ (origin, stays). elim origin [
    | inl j ↦ let (u, x) = was.0 j in is.1 (u, lives.1 (inl x, λ e. stays (retired.1 (u, e))))
    | inr j ↦ let (u, x) = added.0 j in is.1 (u, lives.1 (inr x, λ e. stays (retired.1 (u, e))))
  ],
)

module _ (codecs : Codecs) (kv : Kv) where
  open kv use {Db}

  -- Where `snapshot_diff` of two snapshots in order and `list_schemas` at both succeed, a schema
  -- row that does not end before it begins is listed at the later snapshot exactly if it was
  -- listed at the earlier one or is among the added ones, and is not among the retired ones.
  pub snapshot_diff_replays :
      (db : Db) (from to : ℕ) (d : SnapshotDiff) (before after : List SchemaRow)
      → from ≤ to
      → snapshot_diff codecs kv db from to ≡ ok d
      → list_schemas codecs kv db from ≡ ok before
      → list_schemas codecs kv db to ≡ ok after
      → (r : SchemaRow) → Ordered r.begin_snapshot r.end_snapshot
      → IsIn r after ↔ ((IsIn r before ⊎ IsIn r d.added_schemas) × ¬ IsIn r d.retired_schemas)
  unfolding snapshot_diff diff_schemas
  snapshot_diff_replays db from to d before after h hd hb ha r o =
      let (p, e, h1) = >>=-eq-ok (diff_schemas codecs kv db from to) _ hd in
      let (q, _, h2) = >>=-eq-ok (diff_tables codecs kv db from to) _ h1 in
      let (s, _, h3) = >>=-eq-ok (diff_columns codecs kv db from to) _ h2 in
      let (t, _, h4) = >>=-eq-ok (diff_data_files codecs kv db from to) _ h3 in
      let (a, b) = diff_loop-scan_rows codecs.schema _ _ _ p e in
      let added = scan_rows_iff kv codecs.schema _ db _ p.0 a r in
      let retired = scan_rows_iff kv codecs.schema _ db _ p.1 b r in
      let was = list_schemas_iff kv codecs db from before hb r in
      let is = list_schemas_iff kv codecs db to after ha r in
      let lives = lives_later r.begin_snapshot r.end_snapshot from to h o in
      rw (← ok_injective h4) (replay_listed was added retired is lives)
