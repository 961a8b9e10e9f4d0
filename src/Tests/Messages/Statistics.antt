-- ===== src/Tests/Messages/Statistics.antt =====
-- Codecs of the rows of statistics.
use slateduck.Prelude.{refl}
use slateduck.Core.Values.{Message}
use slateduck.Core.Rows.{FileColumnStatsRow}
use slateduck.Tests.Format.{num, flag, text, optional, ◌⊗◌, message}

abbrev pub file_column_stats_codec : Message FileColumnStatsRow
file_column_stats_codec =
    message
      (num
        ⊗ (num
            ⊗ (num
                ⊗ (flag
                    ⊗ ((optional text)
                        ⊗ ((optional text)
                            ⊗ (flag
                                ⊗ ((optional num)
                                    ⊗ ((optional num) ⊗ ((optional num) ⊗ (optional text)))))))))))
      (λ (r : FileColumnStatsRow). (
        r.table_id,
        (
          r.column_id,
          (
            r.data_file_id,
            (
              r.contains_null,
              (
                r.min_value,
                (
                  r.max_value,
                  (
                    r.contains_nan,
                    (r.column_size_bytes, (r.value_count, (r.null_count, r.extra_stats))),
                  ),
                ),
              ),
            ),
          ),
        ),
      ))
      (λ p. record {
        table_id = p.0;
        column_id = p.1.0;
        data_file_id = p.1.1.0;
        contains_null = p.1.1.1.0;
        min_value = p.1.1.1.1.0;
        max_value = p.1.1.1.1.1.0;
        contains_nan = p.1.1.1.1.1.1.0;
        column_size_bytes = p.1.1.1.1.1.1.1.0;
        value_count = p.1.1.1.1.1.1.1.1.0;
        null_count = p.1.1.1.1.1.1.1.1.1.0;
        extra_stats = p.1.1.1.1.1.1.1.1.1.1;
      })
      (λ r. refl)
