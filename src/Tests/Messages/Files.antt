-- ===== src/Tests/Messages/Files.antt =====
-- Codecs of the rows of files, inlined rows and statistics: numbers and texts in the order of the fields.
use slateduck.Prelude.{refl}
use slateduck.Core.Values.{Message}
use slateduck.Core.Rows.{
  DataFileRow, DeleteFileRow, TableStatsRow, InlinedInsertRow, InlinedDeleteRow,
  FilesScheduledForDeletionRow, InlinedDataTablesRow,
}
use slateduck.Tests.Format.{num, flag, text, optional, ◌⊗◌, message}

abbrev pub data_file_codec : Message DataFileRow
data_file_codec =
    message
      (num
        ⊗ (num
            ⊗ (text
                ⊗ (text
                    ⊗ (num
                        ⊗ (num
                            ⊗ ((optional num)
                                ⊗ ((optional text)
                                    ⊗ ((optional num)
                                        ⊗ ((optional num)
                                            ⊗ ((optional num)
                                                ⊗ ((optional flag)
                                                    ⊗ ((optional num)
                                                        ⊗ ((optional num)
                                                            ⊗ ((optional num)
                                                            ⊗ (optional text))))))))))))))))
      (λ (r : DataFileRow). (
        r.data_file_id,
        (
          r.table_id,
          (
            r.path,
            (
              r.file_format,
              (
                r.record_count,
                (
                  r.file_size_bytes,
                  (
                    r.footer_size,
                    (
                      r.encryption_key,
                      (
                        r.begin_snapshot,
                        (
                          r.end_snapshot,
                          (
                            r.file_order,
                            (
                              r.path_is_relative,
                              (r.row_id_start, (r.partition_id, (r.mapping_id, r.partial_max))),
                            ),
                          ),
                        ),
                      ),
                    ),
                  ),
                ),
              ),
            ),
          ),
        ),
      ))
      (λ p. record {
        data_file_id = p.0;
        table_id = p.1.0;
        path = p.1.1.0;
        file_format = p.1.1.1.0;
        record_count = p.1.1.1.1.0;
        file_size_bytes = p.1.1.1.1.1.0;
        footer_size = p.1.1.1.1.1.1.0;
        encryption_key = p.1.1.1.1.1.1.1.0;
        begin_snapshot = p.1.1.1.1.1.1.1.1.0;
        end_snapshot = p.1.1.1.1.1.1.1.1.1.0;
        file_order = p.1.1.1.1.1.1.1.1.1.1.0;
        path_is_relative = p.1.1.1.1.1.1.1.1.1.1.1.0;
        row_id_start = p.1.1.1.1.1.1.1.1.1.1.1.1.0;
        partition_id = p.1.1.1.1.1.1.1.1.1.1.1.1.1.0;
        mapping_id = p.1.1.1.1.1.1.1.1.1.1.1.1.1.1.0;
        partial_max = p.1.1.1.1.1.1.1.1.1.1.1.1.1.1.1;
      })
      (λ r. refl)

abbrev pub delete_file_codec : Message DeleteFileRow
delete_file_codec =
    message
      (num
        ⊗ (num
            ⊗ (text
                ⊗ (num
                    ⊗ (num
                        ⊗ (num
                            ⊗ ((optional num)
                                ⊗ ((optional num)
                                    ⊗ ((optional num)
                                        ⊗ ((optional flag)
                                            ⊗ ((optional text)
                                                ⊗ ((optional num) ⊗ (optional text)))))))))))))
      (λ (r : DeleteFileRow). (
        r.delete_file_id,
        (
          r.data_file_id,
          (
            r.path,
            (
              r.delete_count,
              (
                r.file_size_bytes,
                (
                  r.snapshot_id,
                  (
                    r.table_id,
                    (
                      r.begin_snapshot,
                      (
                        r.end_snapshot,
                        (r.path_is_relative, (r.format, (r.footer_size, r.partial_max))),
                      ),
                    ),
                  ),
                ),
              ),
            ),
          ),
        ),
      ))
      (λ p. record {
        delete_file_id = p.0;
        data_file_id = p.1.0;
        path = p.1.1.0;
        delete_count = p.1.1.1.0;
        file_size_bytes = p.1.1.1.1.0;
        snapshot_id = p.1.1.1.1.1.0;
        table_id = p.1.1.1.1.1.1.0;
        begin_snapshot = p.1.1.1.1.1.1.1.0;
        end_snapshot = p.1.1.1.1.1.1.1.1.0;
        path_is_relative = p.1.1.1.1.1.1.1.1.1.0;
        format = p.1.1.1.1.1.1.1.1.1.1.0;
        footer_size = p.1.1.1.1.1.1.1.1.1.1.1.0;
        partial_max = p.1.1.1.1.1.1.1.1.1.1.1.1;
      })
      (λ r. refl)

abbrev pub table_stats_codec : Message TableStatsRow
table_stats_codec =
    message (num ⊗ (num ⊗ (num ⊗ (num ⊗ (optional num)))))
      (λ (r : TableStatsRow).
        (r.table_id, (r.record_count, (r.internal_file_count, (r.file_size_bytes, r.next_row_id)))))
      (λ p. record {
        table_id = p.0;
        record_count = p.1.0;
        internal_file_count = p.1.1.0;
        file_size_bytes = p.1.1.1.0;
        next_row_id = p.1.1.1.1;
      })
      (λ r. refl)

abbrev pub inlined_insert_codec : Message InlinedInsertRow
inlined_insert_codec =
    message (num ⊗ (num ⊗ (num ⊗ (text ⊗ (num ⊗ (optional num))))))
      (λ (r : InlinedInsertRow). (
        r.table_id,
        (r.schema_version, (r.row_id, (r.payload, (r.begin_snapshot, r.end_snapshot)))),
      ))
      (λ p. record {
        table_id = p.0;
        schema_version = p.1.0;
        row_id = p.1.1.0;
        payload = p.1.1.1.0;
        begin_snapshot = p.1.1.1.1.0;
        end_snapshot = p.1.1.1.1.1;
      })
      (λ r. refl)

abbrev pub inlined_delete_codec : Message InlinedDeleteRow
inlined_delete_codec =
    message (num ⊗ (num ⊗ (num ⊗ num)))
      (λ (r : InlinedDeleteRow). (r.table_id, (r.data_file_id, (r.row_id, r.begin_snapshot))))
      (λ p. record {
        table_id = p.0;
        data_file_id = p.1.0;
        row_id = p.1.1.0;
        begin_snapshot = p.1.1.1;
      })
      (λ r. refl)

abbrev pub files_scheduled_for_deletion_codec : Message FilesScheduledForDeletionRow
files_scheduled_for_deletion_codec =
    message (num ⊗ (num ⊗ (text ⊗ ((optional text) ⊗ (optional flag)))))
      (λ (r : FilesScheduledForDeletionRow).
        (r.data_file_id, (r.schedule_start, (r.path, (r.file_type, r.path_is_relative)))))
      (λ p. record {
        data_file_id = p.0;
        schedule_start = p.1.0;
        path = p.1.1.0;
        file_type = p.1.1.1.0;
        path_is_relative = p.1.1.1.1;
      })
      (λ r. refl)

abbrev pub inlined_data_tables_codec : Message InlinedDataTablesRow
inlined_data_tables_codec =
    message (num ⊗ (num ⊗ text))
      (λ (r : InlinedDataTablesRow). (r.table_id, (r.schema_version, r.sql)))
      (λ p. record { table_id = p.0; schema_version = p.1.0; sql = p.1.1 }) (λ r. refl)
