-- ===== src/Tests/Pruning.antt =====
-- The properties of the column types and of pruning at concrete inputs.
use Prim.Native.Nat.{lt, gt}
use slateduck.Prelude.{◌≡◌, refl, false, none, some, List, [], ◌∷◌, IsIn, arith}
use slateduck.Prelude.Bytes.{bytes_eq, bytes_lt, starts_with}
use slateduck.Core.Result.{ok}
use slateduck.Core.Tags.{codes}
use slateduck.Core.BigEndian.{u64_fields, encode_u64, be_bytes}
use slateduck.Core.Values.{encode_value, decode_value, encode_raw_value, decode_value_envelope}
use slateduck.Core.Rows.{FileColumnStatsRow}
use slateduck.Core.Text.{parse_unsigned, chars}
use slateduck.Core.Types.{DuckLakeType, integer, keep}
use slateduck.Core.Types.Parse.{parse, parse_in}
use slateduck.Core.Types.Termination.{parse_total}
use slateduck.Core.Types.Compare.{
  prune_file, type_aware_compare, compare_as, is_unknown, never_pruned, is_float, check_bound,
  after_compare, or_else,
}
use slateduck.Core.Types.Pruning.{prune_file-keep}
use slateduck.Core.Keys.Rows.{key_file_column_stats}
use slateduck.Core.Keys.Prefixes.{
  prefix_data_files_by_snapshot_for_table, prefix_data_files_by_snapshot_upper,
}
use slateduck.Catalog.Kv.{Pair, lookup}
use slateduck.Catalog.Reader.{list_data_files, files_loop, sort_by_key}
use slateduck.Catalog.Reader.Statistics.{
  prune_files, prefix_column_stats, kept_loop, without_partial, retain, survives, partial_max_of,
}
use slateduck.Catalog.Reader.Listing.{Under}
use slateduck.Catalog.Reader.Pruned.{prune_files_keeps, Matches}
use slateduck.Tests.Memory.{mem_kv}
use slateduck.Tests.Messages.{codecs}
use slateduck.Tests.Floats.{floats, float_laws}

parse_total_example :
    (t : DuckLakeType) × (parse (codes "list<int>") ≡ some t)
    × (parse_in 20 (codes "list<int>") ≡ some t)
parse_total_example = parse_total (codes "list<int>") 20 (omega arith)

prune_file_example :
    prune_file floats (codes "+5") (some (codes "1")) (some (codes "9")) false (integer false 32)
    ≡ ok keep
unfolding type_aware_compare compare_as parse_unsigned
prune_file_example =
    prune_file-keep floats float_laws (integer false 32) (codes "+5") (codes "5") (some (codes "1"))
      (some (codes "9")) false refl (gt, refl, λ e. cc) (lt, refl, λ e. cc)

abbrev stats : FileColumnStatsRow
stats = record {
  table_id = 7;
  column_id = 1;
  data_file_id = 3;
  contains_null = false;
  min_value = some (codes "1");
  max_value = some (codes "9");
  contains_nan = false;
  column_size_bytes = none;
  value_count = none;
  null_count = none;
  extra_stats = none;
}

abbrev with_stats : List Pair
with_stats = (key_file_column_stats 7 1 3, encode_value codecs.file_column_stats stats) ∷ []

kept_files :
    prune_files codecs floats mem_kv with_stats 5 7 1 (codes "5") (integer false 32) ≡ ok (3 ∷ [])
unfolding prune_files kept_loop without_partial retain survives partial_max_of list_data_files
    files_loop sort_by_key prefix_column_stats key_file_column_stats
    prefix_data_files_by_snapshot_for_table prefix_data_files_by_snapshot_upper u64_fields
    encode_u64 be_bytes encode_value decode_value encode_raw_value decode_value_envelope bytes_lt
    starts_with bytes_eq chars prune_file is_unknown never_pruned is_float check_bound after_compare
    or_else type_aware_compare compare_as parse_unsigned
kept_files = refl

no_files : list_data_files codecs mem_kv with_stats 5 7 ≡ ok []
unfolding list_data_files files_loop sort_by_key key_file_column_stats
    prefix_data_files_by_snapshot_for_table prefix_data_files_by_snapshot_upper u64_fields
    encode_u64 be_bytes starts_with
no_files = refl

stats_stand : Under mem_kv codecs.file_column_stats with_stats (prefix_column_stats 7 1) stats
unfolding prefix_column_stats key_file_column_stats u64_fields encode_u64 be_bytes encode_value
    decode_value encode_raw_value decode_value_envelope starts_with bytes_eq lookup
stats_stand = record {
  key = key_file_column_stats 7 1 3;
  value = encode_value codecs.file_column_stats stats;
  selected = refl;
  holds = refl;
  decodes = refl;
}

matching : Matches codecs floats float_laws (codes "5") (integer false 32) stats
unfolding type_aware_compare compare_as parse_unsigned chars
matching = record {
  stored = codes "5";
  equal = refl;
  above = (gt, refl, λ e. cc);
  below = (lt, refl, λ e. cc);
}

prune_files_example : IsIn stats.data_file_id (3 ∷ [])
prune_files_example =
    prune_files_keeps codecs floats float_laws mem_kv with_stats 5 7 1 (codes "5")
      (integer false 32) (3 ∷ []) [] stats kept_files no_files stats_stand matching
      (λ f i e. absurd i)
