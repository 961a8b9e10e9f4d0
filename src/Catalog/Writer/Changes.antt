-- ===== src/Catalog/Writer/Changes.antt =====
-- crates/rocklake-catalog/src/writer/mod.rs: `add_snapshot_changes`, which gathers what a snapshot
-- changes in one row.
pub mod Tokens
use slateduck.Prelude.{ℕ, Option, none, some, [], ◌∷◌, ◌++◌}
use slateduck.Prelude.Bytes.{Bytes}
use slateduck.Core.Result.{ok}
use slateduck.Core.Rows.{SnapshotChangesRow}
use slateduck.Core.Counters.{peek_snapshot_id}
use slateduck.Catalog.Writer.{CatalogWriter}
use slateduck.Catalog.Writer.Step.{Step}

-- `change_type:change_info`, or the type alone.
unfoldable pub token : Bytes → Option Bytes → Bytes
token change_type none = change_type
token change_type (some []) = change_type
token change_type (some (c ∷ info)) = change_type ++ 58 ∷ c ∷ info

unfoldable pub append_token : Option Bytes → Bytes → Option Bytes
append_token changes_made [] = changes_made
append_token none (c ∷ t) = some (c ∷ t)
append_token (some cm) (c ∷ t) = some (cm ++ 44 ∷ c ∷ t)

unfoldable pub or_named : Option ℕ → Option ℕ → Option ℕ
or_named none id = id
or_named (some n) id = some n

unfoldable pub gather :
    ℕ → Option SnapshotChangesRow → Bytes → Option Bytes → Option ℕ → Option ℕ → SnapshotChangesRow
unfolding token append_token or_named
gather snapshot_id none change_type change_info schema_id table_id = record {
  snapshot_id = snapshot_id;
  change_type = change_type;
  change_info = change_info;
  schema_id = schema_id;
  table_id = table_id;
  author = none;
  commit_message = none;
  commit_extra_info = none;
  changes_made = append_token none (token change_type change_info);
}
gather snapshot_id (some existing) change_type change_info schema_id table_id = record existing {
  changes_made = append_token existing.changes_made (token change_type change_info);
  schema_id = or_named existing.schema_id schema_id;
  table_id = or_named existing.table_id table_id;
}

unfoldable pub add_snapshot_changes : Bytes → Option Bytes → Option ℕ → Option ℕ → Step (Unit {0})
unfolding gather
add_snapshot_changes change_type change_info schema_id table_id w = (
  ok tt,
  record w {
    pending_snapshot_changes = some (
        gather (peek_snapshot_id w.counters) w.pending_snapshot_changes change_type change_info
          schema_id table_id);
  },
)
