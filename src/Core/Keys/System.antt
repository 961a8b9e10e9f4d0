-- ===== src/Core/Keys/System.antt =====
-- Counter, system, lease and extension keys: crates/rocklake-core/src/keys.rs, lines 93 to 147
-- and 494 to 811. A Rust `&str` is the list of its UTF-8 bytes.
use slateduck.Prelude.{ℕ, [], ◌∷◌, ◌++◌, ◌%◌, ◌^◌, length, ltb, ◌==◌, if◌then◌else◌}
use slateduck.Prelude.Bytes.{Bytes}
use slateduck.Core.BigEndian.{u64_fields, be_bytes, encode_u64}
use slateduck.Core.Result.{Result, ok, err, KeyError, ◌>>◌}
use slateduck.Core.Tags.{
  codes, is_known_tag, tag_metadata, tag_snapshot_lease, tag_extension_schema, system_hot_key,
  tag_system, counter_next_column_id_prefix, counter_next_rowid_prefix, tag_counters,
  tag_encrypted_secret, tag_encryption_key, tag_secondary_index, tag_table_by_id,
}

unfoldable pub key_counter_column_id : ℕ → Bytes
key_counter_column_id table_id =
    tag_counters ∷ counter_next_column_id_prefix ∷ u64_fields (table_id ∷ [])

unfoldable pub key_counter_rowid : ℕ → Bytes
key_counter_rowid table_id = tag_counters ∷ counter_next_rowid_prefix ∷ u64_fields (table_id ∷ [])

unfoldable pub key_encrypted_secret : ℕ → Bytes
key_encrypted_secret secret_id = tag_encrypted_secret ∷ u64_fields (secret_id ∷ [])

unfoldable pub key_encryption_key : ℕ → ℕ → Bytes
key_encryption_key catalog_id begin_snapshot =
    tag_encryption_key ∷ u64_fields (catalog_id ∷ begin_snapshot ∷ [])

unfoldable pub key_table_by_id : ℕ → Bytes
key_table_by_id table_id = tag_table_by_id ∷ u64_fields (table_id ∷ [])

unfoldable pub key_secondary_index : ℕ → ℕ → ℕ → Bytes
key_secondary_index snapshot_id table_id data_file_id =
    tag_secondary_index ∷ u64_fields (snapshot_id ∷ table_id ∷ data_file_id ∷ [])

pub data MetadataScope : Type 0 where
  global schema table : MetadataScope

unfoldable pub scope_byte : MetadataScope → ℕ
scope_byte MetadataScope.global = 0x00
scope_byte MetadataScope.schema = 0x01
scope_byte MetadataScope.table = 0x02

unfoldable pub from_byte : ℕ → Result KeyError MetadataScope
from_byte b =
    if b == 0x00
    then ok MetadataScope.global
    else if b == 0x01
    then ok MetadataScope.schema
    else if b == 0x02
    then ok MetadataScope.table
    else err (KeyError.unknown_tag b)

abbrev pub u16_max : ℕ
u16_max = 65535

-- `len as u16`, big-endian: a length that does not fit is cut.
unfoldable pub encode_len : ℕ → Bytes
encode_len n = be_bytes 2 (n % 2 ^ 16)

unfoldable pub validate_identifier_len : Bytes → Result KeyError (Unit {0})
validate_identifier_len s =
    if ltb u16_max (length s) then err (KeyError.identifier_too_long (length s) u16_max) else ok tt

unfoldable pub key_metadata : MetadataScope → ℕ → Bytes → Bytes
unfolding encode_len scope_byte
key_metadata scope scope_id key =
    tag_metadata ∷ scope_byte scope ∷ (encode_u64 scope_id ++ (encode_len (length key) ++ key))

unfoldable pub key_counter : ℕ → Bytes
key_counter counter_id = tag_counters ∷ counter_id ∷ []

unfoldable pub key_system : Bytes → Bytes
key_system suffix = tag_system ∷ suffix

unfoldable pub key_audit : ℕ → Bytes
key_audit snapshot_id = tag_system ∷ (codes "audit" ++ encode_u64 snapshot_id)

unfoldable pub audit_prefix : Bytes
audit_prefix = tag_system ∷ codes "audit"

unfoldable pub key_hot : Bytes
unfolding key_system
key_hot = key_system system_hot_key

unfoldable pub key_packed_table_metadata : ℕ → Bytes
key_packed_table_metadata table_id = tag_system ∷ (codes "packed-meta" ++ encode_u64 table_id)

unfoldable pub key_snapshot_lease : Bytes → Result KeyError Bytes
unfolding validate_identifier_len encode_len
key_snapshot_lease consumer_id = do
  validate_identifier_len consumer_id
  ok (tag_snapshot_lease ∷ (encode_len (length consumer_id) ++ consumer_id))

unfoldable pub prefix_extension_table : ℕ → Bytes → Result KeyError Bytes
unfolding validate_identifier_len encode_len
prefix_extension_table extension_id table_name = do
  validate_identifier_len table_name
  ok (tag_extension_schema ∷ extension_id ∷ (encode_len (length table_name) ++ table_name))

unfoldable pub key_extension_schema : ℕ → Bytes → ℕ → Result KeyError Bytes
unfolding validate_identifier_len encode_len
key_extension_schema extension_id table_name row_id = do
  validate_identifier_len table_name
  ok (
      tag_extension_schema
      ∷ extension_id
      ∷ (encode_len (length table_name) ++ (table_name ++ encode_u64 row_id)))

unfoldable pub extract_tag : Bytes → Result KeyError ℕ
extract_tag [] = err (KeyError.too_short 1 0)
extract_tag (tag ∷ rest) = if is_known_tag tag then ok tag else err (KeyError.unknown_tag tag)
