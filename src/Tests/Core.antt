-- ===== src/Tests/Core.antt =====
-- The properties of the core crate at concrete inputs.
use slateduck.Prelude.{
  ℕ, ◌<◌, ◌≡◌, ◌≢◌, refl, ◌↔◌, true, false, none, some, List, [], ◌∷◌, ◌++◌, leb, ◌==◌, arith,
}
use slateduck.Prelude.Bytes.{Bytes, bytes_lt, starts_with}
use slateduck.Core.Result.{ok}
use slateduck.Core.BigEndian.{be_bytes, u64_fields, encode_u64, decode_u64, decode_u64-encode_u64}
use slateduck.Core.Tags.{codes}
use slateduck.Core.Values.{encode_raw_value}
use slateduck.Core.Values.RoundTrip.{decode_envelope_iff, decode_envelope-encode}
use slateduck.Core.Keys.Rows.{
  key_table, key_column, key_view, key_data_file, key_data_file_by_snapshot,
}
use slateduck.Core.Keys.Prefixes.{
  prefix_tables_for_schema, prefix_columns_for_table, prefix_views_for_schema,
  prefix_data_files_for_table, prefix_data_files_by_snapshot_for_table,
  prefix_data_files_by_snapshot_upper,
}
use slateduck.Core.Keys.System.{
  key_snapshot_lease, key_extension_schema, prefix_extension_table, validate_identifier_len,
  encode_len,
}
use slateduck.Core.Keys.Order.{triple_lt, key_table-lt, prefix_selects, below_upper_iff}
use slateduck.Core.Keys.Identifiers.{
  key_snapshot_lease_injective, key_extension_schema_injective, prefix_extension_table_selects,
}
use slateduck.Core.Mvcc.{is_visible, latest_visible_version, Version}
use slateduck.Core.Mvcc.Visibility.{versions_disjoint}
use slateduck.Core.Mvcc.Latest.{IsLatest, latest_visible_version-IsLatest}
use slateduck.Core.Path.{
  CatalogPath, relative_to_data_prefix, slash, trim_start, resolve_data_path, to_stored_path,
}
use slateduck.Core.Path.Stored.{stored-resolve, resolve-stored}
use slateduck.Core.Counters as Counters
use slateduck.Core.Counters.Allocation.{Request, serve, run, ids_fresh}

disjoint_example : is_visible 5 none 4 ≡ false
disjoint_example = versions_disjoint 3 5 none 4 (unfold is_visible in refl)

abbrev versions : List (Version ℕ)
versions = (1, some 4, 10) ∷ (4, none, 20) ∷ (9, none, 30) ∷ []

latest_example : IsLatest 5 versions (latest_visible_version versions 5)
latest_example = latest_visible_version-IsLatest 5 versions

table_order_example : bytes_lt (key_table 1 2 300) (key_table 1 256 3) ≡ triple_lt 1 2 300 1 256 3
table_order_example =
    key_table-lt 1 2 300 1 256 3 (omega arith, (omega arith, (omega arith, tt)))
      (omega arith, (omega arith, (omega arith, tt)))

upper_example :
    bytes_lt (key_data_file_by_snapshot 4 256 1) (0x21 ∷ (encode_u64 4 ++ (encode_u64 257 ++ [])))
    ≡ leb 256 256
unfolding encode_u64 u64_fields
upper_example =
    below_upper_iff 4 256 256 1 (omega arith) (omega arith, (omega arith, (omega arith, tt)))
      (unfold prefix_data_files_by_snapshot_upper in refl)

lease_key_example : codes "c" ≡ codes "c"
unfolding be_bytes
lease_key_example =
    key_snapshot_lease_injective (codes "c") (codes "c") (0x22 ∷ 0 ∷ 1 ∷ codes "c")
      (unfold key_snapshot_lease validate_identifier_len encode_len in refl)
      (unfold key_snapshot_lease validate_identifier_len encode_len in refl)

envelope_example : encode_raw_value (7 ∷ []) ≡ encode_raw_value (7 ∷ [])
envelope_example =
    decode_envelope_iff (encode_raw_value (7 ∷ [])) (7 ∷ []) (decode_envelope-encode (7 ∷ []))

u64_example : decode_u64 (encode_u64 300 ++ (9 ∷ [])) ≡ ok 300
u64_example = decode_u64-encode_u64 300 (9 ∷ []) (omega arith)

ids_example :
    (serve Request.file (Counters.new 1 1 1)).0
    < (serve Request.file
        (run (Request.catalog ∷ Request.file ∷ []) (serve Request.file (Counters.new 1 1 1)).1)).0
ids_example = ids_fresh Request.file (Request.catalog ∷ Request.file ∷ []) (Counters.new 1 1 1) (
    unfold Counters.new in
    record { snapshots = omega arith; catalogs = omega arith; files = omega arith })

prefixes_example :
    (starts_with (prefix_tables_for_schema 1) (key_table 1 2 3) ≡ (1 == 1))
    × (starts_with (prefix_columns_for_table 1) (key_column 1 2 3) ≡ (1 == 1))
    × (starts_with (prefix_views_for_schema 1) (key_view 1 2 3) ≡ (1 == 1))
    × (starts_with (prefix_data_files_for_table 1) (key_data_file 1 2) ≡ (1 == 1))
    × (starts_with (prefix_data_files_by_snapshot_for_table 1) (key_data_file_by_snapshot 1 2 3)
        ≡ (1 == 1))
prefixes_example =
    prefix_selects 1 1 2 3 (omega arith) (omega arith, (omega arith, (omega arith, tt)))

abbrev extension_key : Bytes
extension_key = 0x23 ∷ 7 ∷ 0 ∷ 1 ∷ b't' ∷ (encode_u64 3)

extension_key_example : (◌≡◌ {A = ℕ} 7 7) × (codes "t" ≡ codes "t") × (◌≡◌ {A = ℕ} 3 3)
unfolding be_bytes
extension_key_example =
    key_extension_schema_injective 7 7 (codes "t") (codes "t") 3 3 extension_key (omega arith)
      (omega arith) (unfold key_extension_schema validate_identifier_len encode_len in refl)
      (unfold key_extension_schema validate_identifier_len encode_len in refl)

extension_prefix_example :
    (starts_with (0x23 ∷ 7 ∷ 0 ∷ 1 ∷ codes "t") extension_key ≡ true)
    ↔ ((◌≡◌ {A = ℕ} 7 7) × (codes "t" ≡ codes "t"))
unfolding be_bytes
extension_prefix_example =
    prefix_extension_table_selects 7 7 (codes "t") (codes "t") 3 (0x23 ∷ 7 ∷ 0 ∷ 1 ∷ codes "t")
      extension_key (unfold prefix_extension_table validate_identifier_len encode_len in refl)
      (unfold key_extension_schema validate_identifier_len encode_len in refl)

abbrev lake : CatalogPath
lake = record {
  object_store_root = codes "s3://b/";
  catalog_prefix = codes "c/";
  data_prefix = codes "d/";
  data_path_mode = relative_to_data_prefix;
}

stored_path_example : to_stored_path lake (resolve_data_path lake (codes "t/1")) ≡ codes "t/1"
stored_path_example = stored-resolve lake (codes "t/1") (λ e. unfold trim_start in refl)

full_path_example :
    ((s : Bytes)
      → trim_start slash s ≡ s
      → codes "x/1" ≡ codes "d/" ++ s
      → resolve_data_path lake (to_stored_path lake (codes "x/1")) ≡ codes "x/1")
    × (starts_with (codes "d/") (codes "x/1") ≡ false
        → resolve_data_path lake (to_stored_path lake (codes "x/1")) ≢ codes "x/1")
full_path_example = resolve-stored lake (codes "x/1") refl
