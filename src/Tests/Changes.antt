-- ===== src/Tests/Changes.antt =====
-- Three changes of one session, at concrete inputs.
use slateduck.Prelude.{◌≡◌, refl, none, some, [], ◌∷◌}
use slateduck.Core.Tags.{codes}
use slateduck.Core.Rows.{SnapshotChangesRow}
use slateduck.Catalog.Writer.Changes.Tokens.{
  Change, add_all, add_all-gathers, spoken, listed, first_named, behind, said,
}
use slateduck.Catalog.Writer.Changes.{token}
use slateduck.Tests.Data.{writer}

abbrev created : Change
created = record {
  change_type = codes "created_table";
  change_info = some (codes "main.t");
  schema_id = some 4;
  table_id = none;
}

abbrev silent : Change
silent = record { change_type = []; change_info = some []; schema_id = none; table_id = none }

abbrev inserted : Change
inserted = record {
  change_type = codes "inserted";
  change_info = none;
  schema_id = some 6;
  table_id = some 7;
}

changes_example :
    (row : SnapshotChangesRow) × ((add_all
        (created ∷ silent ∷ inserted ∷ [])
        writer).pending_snapshot_changes
      ≡ some row)
    × (row.snapshot_id ≡ 5)
    × (row.change_type ≡ codes "created_table")
    × (row.changes_made ≡ some (codes "created_table:main.t,inserted"))
    × (row.schema_id ≡ some 4)
    × (row.table_id ≡ some 7)
unfolding spoken listed first_named behind said token
changes_example = add_all-gathers created (silent ∷ inserted ∷ []) writer refl
