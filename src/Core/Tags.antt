-- ===== src/Core/Tags.antt =====
-- crates/rocklake-core/src/tags.rs: the first byte of every key, sub-bytes, and system suffixes.
use Prim.Native.Char.{code}
use Prim.Native.String.{String}
use slateduck.Prelude.{ℕ, Bool, false, List, [], ◌∷◌, ◌==◌, ◌||◌}
use slateduck.Prelude.Bytes.{Bytes}

-- The bytes of an ASCII text.
abbrev pub codes : String → Bytes
codes String.[] = []
codes (String.◌∷◌ c s) = code c ∷ codes s

abbrev pub tag_metadata : ℕ
tag_metadata = 0x01

abbrev pub tag_snapshot : ℕ
tag_snapshot = 0x02

abbrev pub tag_snapshot_changes : ℕ
tag_snapshot_changes = 0x03

abbrev pub tag_schema : ℕ
tag_schema = 0x04

abbrev pub tag_table : ℕ
tag_table = 0x05

abbrev pub tag_column : ℕ
tag_column = 0x06

abbrev pub tag_view : ℕ
tag_view = 0x07

abbrev pub tag_macro : ℕ
tag_macro = 0x08

abbrev pub tag_macro_impl : ℕ
tag_macro_impl = 0x09

abbrev pub tag_macro_parameters : ℕ
tag_macro_parameters = 0x0A

abbrev pub tag_data_file : ℕ
tag_data_file = 0x0B

abbrev pub tag_delete_file : ℕ
tag_delete_file = 0x0C

abbrev pub tag_files_scheduled_for_deletion : ℕ
tag_files_scheduled_for_deletion = 0x0D

abbrev pub tag_inlined_data_tables : ℕ
tag_inlined_data_tables = 0x0E

abbrev pub tag_column_mapping : ℕ
tag_column_mapping = 0x0F

abbrev pub tag_name_mapping : ℕ
tag_name_mapping = 0x10

abbrev pub tag_table_stats : ℕ
tag_table_stats = 0x11

abbrev pub tag_table_column_stats : ℕ
tag_table_column_stats = 0x12

abbrev pub tag_file_column_stats : ℕ
tag_file_column_stats = 0x13

abbrev pub tag_file_variant_stats : ℕ
tag_file_variant_stats = 0x14

abbrev pub tag_partition_info : ℕ
tag_partition_info = 0x15

abbrev pub tag_partition_column : ℕ
tag_partition_column = 0x16

abbrev pub tag_file_partition_value : ℕ
tag_file_partition_value = 0x17

abbrev pub tag_sort_info : ℕ
tag_sort_info = 0x18

abbrev pub tag_sort_expression : ℕ
tag_sort_expression = 0x19

abbrev pub tag_tag : ℕ
tag_tag = 0x1A

abbrev pub tag_column_tag : ℕ
tag_column_tag = 0x1B

abbrev pub tag_schema_versions : ℕ
tag_schema_versions = 0x1C

abbrev pub tag_encrypted_secret : ℕ
tag_encrypted_secret = 0x24

abbrev pub tag_encryption_key : ℕ
tag_encryption_key = 0x25

abbrev pub tag_snapshot_lease : ℕ
tag_snapshot_lease = 0x22

abbrev pub tag_extension_schema : ℕ
tag_extension_schema = 0x23

abbrev pub tag_data_file_by_snapshot : ℕ
tag_data_file_by_snapshot = 0x21

abbrev pub tag_table_by_id : ℕ
tag_table_by_id = 0xFC

abbrev pub tag_inlined_rows : ℕ
tag_inlined_rows = 0xFD

abbrev pub tag_counters : ℕ
tag_counters = 0xFE

abbrev pub tag_system : ℕ
tag_system = 0xFF

abbrev pub inlined_subtype_insert : ℕ
inlined_subtype_insert = 0x01

abbrev pub inlined_subtype_delete : ℕ
inlined_subtype_delete = 0x02

abbrev pub counter_next_snapshot_id : ℕ
counter_next_snapshot_id = 0x01

abbrev pub counter_next_catalog_id : ℕ
counter_next_catalog_id = 0x02

abbrev pub counter_next_file_id : ℕ
counter_next_file_id = 0x03

abbrev pub counter_next_checkpoint_id : ℕ
counter_next_checkpoint_id = 0x04

abbrev pub counter_next_excision_seq : ℕ
counter_next_excision_seq = 0x05

abbrev pub counter_next_column_id_prefix : ℕ
counter_next_column_id_prefix = 0x10

abbrev pub counter_next_rowid_prefix : ℕ
counter_next_rowid_prefix = 0x11

abbrev pub tag_secondary_index : ℕ
tag_secondary_index = 0xFC

abbrev pub system_writer_epoch : Bytes
system_writer_epoch = codes "writer-epoch"

abbrev pub system_writer_nonce : Bytes
system_writer_nonce = codes "writer-nonce"

abbrev pub system_excised_prefix : Bytes
system_excised_prefix = codes "excised"

abbrev pub system_retain_from : Bytes
system_retain_from = codes "retain-from"

abbrev pub system_catalog_format_version : Bytes
system_catalog_format_version = codes "catalog-format-version"

abbrev pub system_hot_key : Bytes
system_hot_key = codes "hot-key"

abbrev pub system_key_encoding_v020_migrated : Bytes
system_key_encoding_v020_migrated = codes "key-encoding-v020-migrated"

abbrev pub catalog_format_version : ℕ
catalog_format_version = 1

-- The tags of the registry `ALL_TAGS`, in its order.
abbrev pub all_tags : List ℕ
all_tags =
    tag_metadata ∷ tag_snapshot ∷ tag_snapshot_changes ∷ tag_schema ∷ tag_table ∷ tag_column
    ∷ tag_view ∷ tag_macro ∷ tag_macro_impl ∷ tag_macro_parameters ∷ tag_data_file ∷ tag_delete_file
    ∷ tag_files_scheduled_for_deletion ∷ tag_inlined_data_tables ∷ tag_column_mapping
    ∷ tag_name_mapping ∷ tag_table_stats ∷ tag_table_column_stats ∷ tag_file_column_stats
    ∷ tag_file_variant_stats ∷ tag_partition_info ∷ tag_partition_column ∷ tag_file_partition_value
    ∷ tag_sort_info ∷ tag_sort_expression ∷ tag_tag ∷ tag_column_tag ∷ tag_schema_versions
    ∷ tag_inlined_rows ∷ tag_counters ∷ tag_system ∷ tag_secondary_index ∷ []

any_tag : List ℕ → ℕ → Bool
any_tag [] tag = false
any_tag (d ∷ ds) tag = (d == tag) || any_tag ds tag

unfoldable pub is_known_tag : ℕ → Bool
unfolding any_tag
is_known_tag tag = any_tag all_tags tag
