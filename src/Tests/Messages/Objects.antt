-- ===== src/Tests/Messages/Objects.antt =====
-- Codecs of the rows of snapshots, schemas, tables, columns and views: numbers and texts in the order of the fields.
use slateduck.Prelude.{refl}
use slateduck.Core.Values.{Message}
use slateduck.Core.Rows.{SnapshotRow, SnapshotChangesRow, SchemaRow, TableRow, ColumnRow, ViewRow}
use slateduck.Tests.Format.{num, flag, text, optional, ◌⊗◌, message}

abbrev pub snapshot_codec : Message SnapshotRow
snapshot_codec =
    message
      (num
        ⊗ (num
            ⊗ (text ⊗ ((optional text) ⊗ ((optional text) ⊗ ((optional num) ⊗ (optional num)))))))
      (λ (r : SnapshotRow). (
        r.snapshot_id,
        (
          r.schema_version,
          (r.snapshot_time, (r.author, (r.message, (r.next_catalog_id, r.next_file_id)))),
        ),
      ))
      (λ p. record {
        snapshot_id = p.0;
        schema_version = p.1.0;
        snapshot_time = p.1.1.0;
        author = p.1.1.1.0;
        message = p.1.1.1.1.0;
        next_catalog_id = p.1.1.1.1.1.0;
        next_file_id = p.1.1.1.1.1.1;
      })
      (λ r. refl)

abbrev pub snapshot_changes_codec : Message SnapshotChangesRow
snapshot_changes_codec =
    message
      (num
        ⊗ (text
            ⊗ ((optional text)
                ⊗ ((optional num)
                    ⊗ ((optional num)
                        ⊗ ((optional text)
                            ⊗ ((optional text) ⊗ ((optional text) ⊗ (optional text)))))))))
      (λ (r : SnapshotChangesRow). (
        r.snapshot_id,
        (
          r.change_type,
          (
            r.change_info,
            (
              r.schema_id,
              (r.table_id, (r.author, (r.commit_message, (r.commit_extra_info, r.changes_made)))),
            ),
          ),
        ),
      ))
      (λ p. record {
        snapshot_id = p.0;
        change_type = p.1.0;
        change_info = p.1.1.0;
        schema_id = p.1.1.1.0;
        table_id = p.1.1.1.1.0;
        author = p.1.1.1.1.1.0;
        commit_message = p.1.1.1.1.1.1.0;
        commit_extra_info = p.1.1.1.1.1.1.1.0;
        changes_made = p.1.1.1.1.1.1.1.1;
      })
      (λ r. refl)

abbrev pub schema_codec : Message SchemaRow
schema_codec =
    message
      (num
        ⊗ (text
            ⊗ (num ⊗ ((optional num) ⊗ ((optional text) ⊗ ((optional text) ⊗ (optional flag)))))))
      (λ (r : SchemaRow). (
        r.schema_id,
        (
          r.schema_name,
          (r.begin_snapshot, (r.end_snapshot, (r.schema_uuid, (r.path, r.path_is_relative)))),
        ),
      ))
      (λ p. record {
        schema_id = p.0;
        schema_name = p.1.0;
        begin_snapshot = p.1.1.0;
        end_snapshot = p.1.1.1.0;
        schema_uuid = p.1.1.1.1.0;
        path = p.1.1.1.1.1.0;
        path_is_relative = p.1.1.1.1.1.1;
      })
      (λ r. refl)

abbrev pub table_codec : Message TableRow
table_codec =
    message
      (num
        ⊗ (num
            ⊗ (text
                ⊗ (num
                    ⊗ ((optional num) ⊗ ((optional text) ⊗ ((optional text) ⊗ (optional flag))))))))
      (λ (r : TableRow). (
        r.table_id,
        (
          r.schema_id,
          (
            r.table_name,
            (r.begin_snapshot, (r.end_snapshot, (r.path, (r.table_uuid, r.path_is_relative)))),
          ),
        ),
      ))
      (λ p. record {
        table_id = p.0;
        schema_id = p.1.0;
        table_name = p.1.1.0;
        begin_snapshot = p.1.1.1.0;
        end_snapshot = p.1.1.1.1.0;
        path = p.1.1.1.1.1.0;
        table_uuid = p.1.1.1.1.1.1.0;
        path_is_relative = p.1.1.1.1.1.1.1;
      })
      (λ r. refl)

abbrev pub column_codec : Message ColumnRow
column_codec =
    message
      (num
        ⊗ (num
            ⊗ (text
                ⊗ (text
                    ⊗ (num
                        ⊗ (num
                            ⊗ ((optional num)
                                ⊗ ((optional text)
                                    ⊗ (flag
                                        ⊗ ((optional text)
                                            ⊗ ((optional text)
                                                ⊗ ((optional text) ⊗ (optional num)))))))))))))
      (λ (r : ColumnRow). (
        r.column_id,
        (
          r.table_id,
          (
            r.column_name,
            (
              r.data_type,
              (
                r.column_index,
                (
                  r.begin_snapshot,
                  (
                    r.end_snapshot,
                    (
                      r.default_value,
                      (
                        r.is_nullable,
                        (
                          r.initial_default,
                          (r.default_value_type, (r.default_value_dialect, r.parent_column)),
                        ),
                      ),
                    ),
                  ),
                ),
              ),
            ),
          ),
        ),
      ))
      (λ p. record {
        column_id = p.0;
        table_id = p.1.0;
        column_name = p.1.1.0;
        data_type = p.1.1.1.0;
        column_index = p.1.1.1.1.0;
        begin_snapshot = p.1.1.1.1.1.0;
        end_snapshot = p.1.1.1.1.1.1.0;
        default_value = p.1.1.1.1.1.1.1.0;
        is_nullable = p.1.1.1.1.1.1.1.1.0;
        initial_default = p.1.1.1.1.1.1.1.1.1.0;
        default_value_type = p.1.1.1.1.1.1.1.1.1.1.0;
        default_value_dialect = p.1.1.1.1.1.1.1.1.1.1.1.0;
        parent_column = p.1.1.1.1.1.1.1.1.1.1.1.1;
      })
      (λ r. refl)

abbrev pub view_codec : Message ViewRow
view_codec =
    message
      (num
        ⊗ (num
            ⊗ (text
                ⊗ (text
                    ⊗ (num
                        ⊗ ((optional num)
                            ⊗ ((optional text) ⊗ ((optional text) ⊗ (optional text)))))))))
      (λ (r : ViewRow). (
        r.view_id,
        (
          r.schema_id,
          (
            r.view_name,
            (
              r.sql,
              (r.begin_snapshot, (r.end_snapshot, (r.view_uuid, (r.dialect, r.column_aliases)))),
            ),
          ),
        ),
      ))
      (λ p. record {
        view_id = p.0;
        schema_id = p.1.0;
        view_name = p.1.1.0;
        sql = p.1.1.1.0;
        begin_snapshot = p.1.1.1.1.0;
        end_snapshot = p.1.1.1.1.1.0;
        view_uuid = p.1.1.1.1.1.1.0;
        dialect = p.1.1.1.1.1.1.1.0;
        column_aliases = p.1.1.1.1.1.1.1.1;
      })
      (λ r. refl)
