-- ===== src/Tests/Messages.antt =====
-- The row codecs that the tests use.
mod Objects
mod Files
mod Info
mod Statistics
use slateduck.Core.Rows.{Codecs}
use slateduck.Tests.Messages.Objects.{
  snapshot_codec, snapshot_changes_codec, schema_codec, table_codec, column_codec, view_codec,
}
use slateduck.Tests.Messages.Files.{
  data_file_codec, delete_file_codec, table_stats_codec, inlined_insert_codec, inlined_delete_codec,
  files_scheduled_for_deletion_codec, inlined_data_tables_codec,
}
use slateduck.Tests.Messages.Info.{
  macro_codec, macro_impl_codec, macro_parameters_codec, snapshot_lease_codec,
  extension_schema_codec, partition_info_codec, sort_info_codec, tag_codec, column_tag_codec,
  schema_versions_codec,
}
use slateduck.Tests.Messages.Statistics.{file_column_stats_codec}

abbrev pub codecs : Codecs
codecs = record {
  snapshot = snapshot_codec;
  snapshot_changes = snapshot_changes_codec;
  schema = schema_codec;
  table = table_codec;
  column = column_codec;
  view = view_codec;
  macro = macro_codec;
  macro_impl = macro_impl_codec;
  macro_parameters = macro_parameters_codec;
  data_file = data_file_codec;
  delete_file = delete_file_codec;
  snapshot_lease = snapshot_lease_codec;
  file_column_stats = file_column_stats_codec;
  table_stats = table_stats_codec;
  inlined_insert = inlined_insert_codec;
  inlined_delete = inlined_delete_codec;
  extension_schema = extension_schema_codec;
  files_scheduled_for_deletion = files_scheduled_for_deletion_codec;
  inlined_data_tables = inlined_data_tables_codec;
  partition_info = partition_info_codec;
  sort_info = sort_info_codec;
  tag = tag_codec;
  column_tag = column_tag_codec;
  schema_versions = schema_versions_codec;
}
