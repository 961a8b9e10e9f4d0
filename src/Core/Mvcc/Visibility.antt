-- ===== src/Core/Mvcc/Visibility.antt =====
-- The visibility test against the interval that it stands for, and the order of its events.
use slateduck.Prelude.{
  ℕ, ◌-◌, ◌≤◌, ◌<◌, ◌≡◌, ◌↔◌, true, false, Option, none, some, arith, ltb, if◌then◌else◌,
}
use slateduck.Core.Mvcc.{is_visible, is_insert_gc_eligible}

-- The snapshots at which a row lives: from its first one up to, and without, its end.
abbrev pub LivesAt : ℕ → Option ℕ → ℕ → Type 0
LivesAt begin none snap = begin ≤ snap
LivesAt begin (some end) snap = (begin ≤ snap) × (snap < end)

-- A row is visible exactly at the snapshots from its first one up to, and without, its end.
pub is_visible_iff :
    (begin : ℕ) (end : Option ℕ) (snap : ℕ)
    → (is_visible begin end snap ≡ true) ↔ LivesAt begin end snap
unfolding is_visible
is_visible_iff begin none snap = ground arith
is_visible_iff begin (some end) snap = ground arith

-- Ending a live row at a snapshot changes nothing for the snapshots before that one, and hides the
-- row from that one on.
retire_visibility :
    (begin snapshot_id snap : ℕ)
    → is_visible begin (some snapshot_id) snap
      ≡ (if ltb snap snapshot_id then is_visible begin none snap else false)
unfolding is_visible
retire_visibility begin s snap = ground arith

-- What may be collected is hidden from every snapshot that is still retained.
gc_eligible_hidden :
    (begin : ℕ) (end : Option ℕ) (oldest snap : ℕ)
    → is_insert_gc_eligible end oldest ≡ true
    → oldest ≤ snap
    → is_visible begin end snap ≡ false
unfolding is_visible is_insert_gc_eligible
gc_eligible_hidden begin none oldest snap h k = cc
gc_eligible_hidden begin (some end) oldest snap h k = ground arith

-- A row whose end lies after its first snapshot, and that may not be collected, is seen by a
-- snapshot that is retained.
pub not_gc_eligible_needed :
    (begin end oldest : ℕ)
    → begin < end
    → is_insert_gc_eligible (some end) oldest ≡ false
    → (snap : ℕ) × (oldest ≤ snap) × (is_visible begin (some end) snap ≡ true)
unfolding is_visible is_insert_gc_eligible
not_gc_eligible_needed begin (end) oldest h k = (end - 1, ground arith, ground arith)

-- Successive versions of one entity, each ended where the next begins, are never seen together.
pub versions_disjoint :
    (b e : ℕ) (end : Option ℕ) (snap : ℕ)
    → is_visible b (some e) snap ≡ true
    → is_visible e end snap ≡ false
unfolding is_visible
versions_disjoint b e none snap h = ground arith
versions_disjoint b e (some end) snap h = ground arith
