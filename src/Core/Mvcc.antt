-- ===== src/Core/Mvcc.antt =====
-- crates/rocklake-core/src/mvcc.rs: which versions of a row a snapshot sees.
pub mod Visibility
pub mod Latest
use slateduck.Prelude.{
  ℕ, Bool, true, false, Option, none, some, List, [], ◌∷◌, ltb, leb, if◌then◌else◌,
}

-- A `SnapshotId` is its `u64`.
unfoldable pub is_visible : ℕ → Option ℕ → ℕ → Bool
is_visible begin_snapshot end_snapshot dl_snapshot_id =
    if ltb dl_snapshot_id begin_snapshot
    then false
    else elim end_snapshot [ none ↦ true | some end ↦ ltb dl_snapshot_id end ]

unfoldable pub is_inlined_insert_visible : ℕ → Option ℕ → ℕ → Bool
unfolding is_visible
is_inlined_insert_visible begin_snapshot end_snapshot dl_snapshot_id =
    is_visible begin_snapshot end_snapshot dl_snapshot_id

unfoldable pub is_inlined_delete_visible : ℕ → ℕ → Bool
is_inlined_delete_visible begin_snapshot dl_snapshot_id = leb begin_snapshot dl_snapshot_id

unfoldable pub is_insert_gc_eligible : Option ℕ → ℕ → Bool
is_insert_gc_eligible none oldest_retained_snapshot = false
is_insert_gc_eligible (some end) oldest_retained_snapshot = leb end oldest_retained_snapshot

-- A version: its first snapshot, the snapshot that ended it, and the row.
abbrev pub Version : Type 0 → Type 0
Version T = ℕ × Option ℕ × T

module _ {T : Type 0} where
  -- The loop's `match &best`.
  better : Option (ℕ × T) → ℕ → T → Option (ℕ × T)
  better none begin item = some (begin, item)
  better (some (prev_begin, prev)) begin item =
      if ltb prev_begin begin then some (begin, item) else some (prev_begin, prev)

  latest_loop : Option (ℕ × T) → List (Version T) → ℕ → Option (ℕ × T)
  latest_loop best [] dl_snapshot_id = best
  latest_loop best ((begin, end, item) ∷ versions) dl_snapshot_id =
      latest_loop (if is_visible begin end dl_snapshot_id then better best begin item else best)
        versions dl_snapshot_id

  second : Option (ℕ × T) → Option T
  second none = none
  second (some (begin, item)) = some item

  unfoldable pub latest_visible_version : List (Version T) → ℕ → Option T
  unfolding latest_loop better second
  latest_visible_version versions dl_snapshot_id = second (latest_loop none versions dl_snapshot_id)
