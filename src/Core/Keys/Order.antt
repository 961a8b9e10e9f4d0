-- ===== src/Core/Keys/Order.antt =====
-- The order of the keys of keys.rs, and what their prefixes select.
use slateduck.Prelude.{
  ℕ, ◌+◌, ◌≡◌, Bool, true, false, List, [], ◌∷◌, some, arith, ltb, leb, ◌==◌, if◌then◌else◌, All,
}
use slateduck.Prelude.Bytes.{Bytes, bytes_eq, bytes_lt, starts_with}
use slateduck.Core.BigEndian.{u64_fields, IsU64}
use slateduck.Core.BigEndian.Fields.{bytes_lt-fields, starts_with-fields}
use slateduck.Core.Keys.Rows.{
  key_table, key_column, key_view, key_data_file, key_data_file_by_snapshot,
}
use slateduck.Core.Keys.Prefixes.{
  prefix_tables_for_schema, prefix_columns_for_table, prefix_data_files_for_table,
  prefix_views_for_schema, prefix_data_files_by_snapshot_for_table,
  prefix_data_files_by_snapshot_upper,
}

-- One tag byte in front changes nothing.
pub bytes_lt-tag : (t : ℕ) (a b : Bytes) → bytes_lt (t ∷ a) (t ∷ b) ≡ bytes_lt a b
unfolding bytes_lt
bytes_lt-tag t a b = ground arith

pub bytes_eq-tag : (t : ℕ) (a b : Bytes) → bytes_eq (t ∷ a) (t ∷ b) ≡ bytes_eq a b
unfolding bytes_eq
bytes_eq-tag t a b = ground arith

pub starts_with-tag : (t : ℕ) (a b : Bytes) → starts_with (t ∷ a) (t ∷ b) ≡ starts_with a b
unfolding starts_with
starts_with-tag t a b = ground arith

-- The order of triples: the first difference decides.
abbrev pub triple_lt : ℕ → ℕ → ℕ → ℕ → ℕ → ℕ → Bool
triple_lt a b c x y z =
    if ltb a x
    then true
    else if ltb x a
    then false
    else if ltb b y
    then true
    else if ltb y b
    then false
    else ltb c z

triple_order :
    (t a b c x y z : ℕ)
    → All IsU64 (a ∷ b ∷ c ∷ [])
    → All IsU64 (x ∷ y ∷ z ∷ [])
    → bytes_lt (t ∷ u64_fields (a ∷ b ∷ c ∷ [])) (t ∷ u64_fields (x ∷ y ∷ z ∷ []))
      ≡ triple_lt a b c x y z
triple_order t a b c x y z h k =
    rw (bytes_lt-tag t, bytes_lt-fields (a ∷ b ∷ c ∷ []) (x ∷ y ∷ z ∷ []) h k)
      (unfold bytes_lt in ground arith)

-- Keys of tables with u64 ids sort by schema, then table, then first snapshot.
pub key_table-lt :
    (a b c x y z : ℕ)
    → All IsU64 (a ∷ b ∷ c ∷ [])
    → All IsU64 (x ∷ y ∷ z ∷ [])
    → bytes_lt (key_table a b c) (key_table x y z) ≡ triple_lt a b c x y z
unfolding key_table
key_table-lt a b c x y z h k = triple_order _ a b c x y z h k

pub key_data_file_by_snapshot-lt :
    (a b c x y z : ℕ)
    → All IsU64 (a ∷ b ∷ c ∷ [])
    → All IsU64 (x ∷ y ∷ z ∷ [])
    → bytes_lt (key_data_file_by_snapshot a b c) (key_data_file_by_snapshot x y z)
      ≡ triple_lt a b c x y z
unfolding key_data_file_by_snapshot
key_data_file_by_snapshot-lt a b c x y z h k = triple_order _ a b c x y z h k

pub prefix_of_one :
    (t p : ℕ) (k : ℕ) (ks : List ℕ)
    → IsU64 p
    → All IsU64 (k ∷ ks)
    → starts_with (t ∷ u64_fields (p ∷ [])) (t ∷ u64_fields (k ∷ ks)) ≡ (p == k)
prefix_of_one t p k ks h hk =
    rw (starts_with-tag t, starts_with-fields (p ∷ []) (k ∷ ks) (h, tt) hk)
      (unfold starts_with in ground arith)

-- For ids that are u64s, the prefix of one schema's tables selects a table key exactly if it is of
-- that schema; likewise the prefixes of a table's columns, of a schema's views, of a table's files
-- and of a table's files by snapshot.
pub prefix_selects :
    (p a b c : ℕ)
    → IsU64 p
    → All IsU64 (a ∷ b ∷ c ∷ [])
    → (starts_with (prefix_tables_for_schema p) (key_table a b c) ≡ (p == a))
      × (starts_with (prefix_columns_for_table p) (key_column a b c) ≡ (p == a))
      × (starts_with (prefix_views_for_schema p) (key_view a b c) ≡ (p == a))
      × (starts_with (prefix_data_files_for_table p) (key_data_file a b) ≡ (p == a))
      × (starts_with (prefix_data_files_by_snapshot_for_table p) (key_data_file_by_snapshot a b c)
          ≡ (p == a))
unfolding prefix_tables_for_schema prefix_columns_for_table prefix_views_for_schema
    prefix_data_files_for_table prefix_data_files_by_snapshot_for_table key_table key_column
    key_view key_data_file key_data_file_by_snapshot
prefix_selects p a b c h k = (
  prefix_of_one _ p a (b ∷ c ∷ []) h k,
  prefix_of_one _ p a (b ∷ c ∷ []) h k,
  prefix_of_one _ p a (b ∷ c ∷ []) h k,
  prefix_of_one _ p a (b ∷ []) h (k.0, (k.1.0, tt)),
  prefix_of_one _ p a (b ∷ c ∷ []) h k,
)

-- For ids that are u64s, and a snapshot that has a bound, a file's key lies below the bound at
-- which `list_data_files` stops exactly if the file was registered at or before the snapshot that
-- is read.
pub below_upper_iff :
    (table_id read snapshot_id file_id : ℕ) {upper : Bytes}
    → IsU64 read
    → All IsU64 (table_id ∷ snapshot_id ∷ file_id ∷ [])
    → prefix_data_files_by_snapshot_upper table_id read ≡ some upper
    → bytes_lt (key_data_file_by_snapshot table_id snapshot_id file_id) upper ≡ leb snapshot_id read
unfolding prefix_data_files_by_snapshot_upper key_data_file_by_snapshot
below_upper_iff t r s f {upper} hr h e = ground (
  arith,
  bytes_lt-tag 0x21 (u64_fields (t ∷ s ∷ f ∷ [])) (u64_fields (t ∷ (r + 1) ∷ [])),
  bytes_lt-fields (t ∷ s ∷ f ∷ []) (t ∷ (r + 1) ∷ []) h,
  order,
)
  where
    order : bytes_lt (t ∷ s ∷ f ∷ []) (t ∷ (r + 1) ∷ []) ≡ leb s r
    order = unfold bytes_lt in ground arith
