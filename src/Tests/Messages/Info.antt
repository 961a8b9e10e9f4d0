-- ===== src/Tests/Messages/Info.antt =====
-- Codecs of the rows of macros, leases, tags and the rest: numbers and texts in the order of the fields.
use slateduck.Prelude.{refl}
use slateduck.Core.Values.{Message}
use slateduck.Core.Rows.{
  MacroRow, MacroImplRow, MacroParametersRow, SnapshotLeaseRow, ExtensionSchemaRow,
  PartitionInfoRow, SortInfoRow, TagRow, ColumnTagRow, SchemaVersionsRow,
}
use slateduck.Tests.Format.{num, text, optional, ◌⊗◌, message}

abbrev pub macro_codec : Message MacroRow
macro_codec =
    message (num ⊗ (num ⊗ (text ⊗ (text ⊗ (num ⊗ ((optional num) ⊗ (optional text)))))))
      (λ (r : MacroRow). (
        r.macro_id,
        (
          r.schema_id,
          (r.macro_name, (r.macro_type, (r.begin_snapshot, (r.end_snapshot, r.macro_uuid)))),
        ),
      ))
      (λ p. record {
        macro_id = p.0;
        schema_id = p.1.0;
        macro_name = p.1.1.0;
        macro_type = p.1.1.1.0;
        begin_snapshot = p.1.1.1.1.0;
        end_snapshot = p.1.1.1.1.1.0;
        macro_uuid = p.1.1.1.1.1.1;
      })
      (λ r. refl)

abbrev pub macro_impl_codec : Message MacroImplRow
macro_impl_codec =
    message (num ⊗ (num ⊗ (text ⊗ ((optional text) ⊗ (optional text)))))
      (λ (r : MacroImplRow). (r.impl_id, (r.macro_id, (r.sql, (r.dialect, r.impl_type)))))
      (λ p. record {
        impl_id = p.0;
        macro_id = p.1.0;
        sql = p.1.1.0;
        dialect = p.1.1.1.0;
        impl_type = p.1.1.1.1;
      })
      (λ r. refl)

abbrev pub macro_parameters_codec : Message MacroParametersRow
macro_parameters_codec =
    message (num ⊗ (num ⊗ (num ⊗ (text ⊗ (text ⊗ ((optional text) ⊗ (optional text)))))))
      (λ (r : MacroParametersRow). (
        r.macro_id,
        (
          r.impl_id,
          (
            r.column_id,
            (r.parameter_name, (r.parameter_type, (r.default_value, r.default_value_type))),
          ),
        ),
      ))
      (λ p. record {
        macro_id = p.0;
        impl_id = p.1.0;
        column_id = p.1.1.0;
        parameter_name = p.1.1.1.0;
        parameter_type = p.1.1.1.1.0;
        default_value = p.1.1.1.1.1.0;
        default_value_type = p.1.1.1.1.1.1;
      })
      (λ r. refl)

abbrev pub snapshot_lease_codec : Message SnapshotLeaseRow
snapshot_lease_codec =
    message (text ⊗ (num ⊗ num))
      (λ (r : SnapshotLeaseRow). (r.consumer_id, (r.min_snapshot_id, r.expires_at_unix_ms)))
      (λ p. record { consumer_id = p.0; min_snapshot_id = p.1.0; expires_at_unix_ms = p.1.1 })
      (λ r. refl)

abbrev pub extension_schema_codec : Message ExtensionSchemaRow
extension_schema_codec =
    message (num ⊗ (text ⊗ (num ⊗ text)))
      (λ (r : ExtensionSchemaRow). (r.extension_id, (r.table_name, (r.row_id, r.data_json))))
      (λ p. record {
        extension_id = p.0;
        table_name = p.1.0;
        row_id = p.1.1.0;
        data_json = p.1.1.1;
      })
      (λ r. refl)

abbrev pub partition_info_codec : Message PartitionInfoRow
partition_info_codec =
    message (num ⊗ (num ⊗ (num ⊗ (optional num))))
      (λ (r : PartitionInfoRow). (r.partition_id, (r.table_id, (r.begin_snapshot, r.end_snapshot))))
      (λ p. record {
        partition_id = p.0;
        table_id = p.1.0;
        begin_snapshot = p.1.1.0;
        end_snapshot = p.1.1.1;
      })
      (λ r. refl)

abbrev pub sort_info_codec : Message SortInfoRow
sort_info_codec =
    message (num ⊗ (num ⊗ (num ⊗ (optional num))))
      (λ (r : SortInfoRow). (r.sort_id, (r.table_id, (r.begin_snapshot, r.end_snapshot))))
      (λ p. record {
        sort_id = p.0;
        table_id = p.1.0;
        begin_snapshot = p.1.1.0;
        end_snapshot = p.1.1.1;
      })
      (λ r. refl)

abbrev pub tag_codec : Message TagRow
tag_codec =
    message (num ⊗ (text ⊗ (text ⊗ (num ⊗ (optional num)))))
      (λ (r : TagRow).
        (r.object_id, (r.tag_key, (r.tag_value, (r.begin_snapshot, r.end_snapshot)))))
      (λ p. record {
        object_id = p.0;
        tag_key = p.1.0;
        tag_value = p.1.1.0;
        begin_snapshot = p.1.1.1.0;
        end_snapshot = p.1.1.1.1;
      })
      (λ r. refl)

abbrev pub column_tag_codec : Message ColumnTagRow
column_tag_codec =
    message (num ⊗ (num ⊗ (text ⊗ (text ⊗ (num ⊗ (optional num))))))
      (λ (r : ColumnTagRow).
        (r.table_id, (r.column_id, (r.tag_key, (r.tag_value, (r.begin_snapshot, r.end_snapshot))))))
      (λ p. record {
        table_id = p.0;
        column_id = p.1.0;
        tag_key = p.1.1.0;
        tag_value = p.1.1.1.0;
        begin_snapshot = p.1.1.1.1.0;
        end_snapshot = p.1.1.1.1.1;
      })
      (λ r. refl)

abbrev pub schema_versions_codec : Message SchemaVersionsRow
schema_versions_codec =
    message (num ⊗ (num ⊗ num))
      (λ (r : SchemaVersionsRow). (r.table_id, (r.begin_snapshot, r.schema_version)))
      (λ p. record { table_id = p.0; begin_snapshot = p.1.0; schema_version = p.1.1 }) (λ r. refl)
