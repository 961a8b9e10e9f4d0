-- ===== src/Catalog/Reader/Listing.antt =====
-- `list_schemas` and `list_tables` of reader.rs against the store.
use slateduck.Prelude.{◌≡◌, ◌↔◌, Bool, true, some, List, ℕ, IsIn, Bool-cases, inl, inr}
use slateduck.Prelude.Bytes.{Bytes, starts_with}
use slateduck.Core.Result.{ok}
use slateduck.Core.Tags.{tag_schema}
use slateduck.Core.Values.{Message, decode_value}
use slateduck.Core.Rows.{Codecs, SchemaRow, TableRow}
use slateduck.Core.Mvcc.{is_visible}
use slateduck.Core.Mvcc.Visibility.{LivesAt, is_visible_iff}
use slateduck.Core.Keys.Prefixes.{prefix_for_tag, prefix_tables_for_schema}
use slateduck.Catalog.Kv.{Kv, lookup}
use slateduck.Catalog.Reader.{scan_rows, list_schemas, list_tables}
use slateduck.Catalog.Reader.Scan.{scan_rows_complete, scan_rows_sound}

module _ (kv : Kv) where
  open kv use {Db, get, scan_prefix, scan-IsSorted, lookup-scan}

  -- A key under the prefix holds a value that decodes to the row.
  pub record Under {R : Type 0} (m : Message R) (db : Db) (prefix : Bytes) (r : R) : Type 0 where
    pub key : Bytes
    pub value : Bytes
    pub selected : starts_with prefix key ≡ true
    pub holds : get db key ≡ some value
    pub decodes : decode_value m value ≡ ok r

  pub scanned :
      (db : Db) (p k v : Bytes)
      → lookup k (scan_prefix db p) ≡ some v
      → (starts_with p k ≡ true) × (get db k ≡ some v)
  scanned db p k v h = elim (Bool-cases (starts_with p k)) [
    | inl s ↦ (s, rw (lookup-scan db p k, s) at h)
    | inr o ↦ cc (rw (lookup-scan db p k, o) at h)
  ]

  module _ {R : Type 0} (m : Message R) (test : R → Bool) where
    -- A scan loop over a prefix returns the stored rows that pass, and no other.
    pub scan_rows_iff :
        (db : Db) (p : Bytes) (rows : List R)
        → scan_rows m test (scan_prefix db p) ≡ ok rows
        → (r : R) → IsIn r rows ↔ (Under m db p r × (test r ≡ true))
    scan_rows_iff db p rows h r = (
      λ i.
          let s = scan_rows_sound m test _ rows (scan-IsSorted db p) h r i in
          let at = scanned db p s.key s.value s.found in
          (
            record {
              key = s.key;
              value = s.value;
              selected = at.0;
              holds = at.1;
              decodes = s.decodes;
            },
            s.passes,
          ),
      λ (u, pass). scan_rows_complete m test _ rows h r (record {
        key = u.key;
        value = u.value;
        found = rw (lookup-scan db p u.key, u.selected) (u.holds);
        decodes = u.decodes;
        passes = pass;
      }),
    )

  module _ (codecs : Codecs) where
    -- Where it succeeds, `list_schemas` returns exactly the schema rows in the store that live at
    -- the snapshot.
    pub list_schemas_iff :
        (db : Db) (snap : ℕ) (rows : List SchemaRow)
        → list_schemas codecs kv db snap ≡ ok rows
        → (r : SchemaRow)
        → IsIn r rows ↔ (
            Under codecs.schema db (prefix_for_tag tag_schema) r
            × LivesAt r.begin_snapshot r.end_snapshot snap)
    unfolding list_schemas
    list_schemas_iff db snap rows h r =
        let listed =
          scan_rows_iff codecs.schema (λ row. is_visible row.begin_snapshot row.end_snapshot snap)
            db _ rows h r in
        let lives = is_visible_iff r.begin_snapshot r.end_snapshot snap in
        (λ i. ((listed.0 i).0, lives.0 (listed.0 i).1), λ (u, l). listed.1 (u, lives.1 l))

    -- `list_tables` of a schema returns exactly the table rows under the schema's prefix that live
    -- at the snapshot.
    pub list_tables_iff :
        (db : Db) (snap schema_id : ℕ) (rows : List TableRow)
        → list_tables codecs kv db snap schema_id ≡ ok rows
        → (r : TableRow)
        → IsIn r rows ↔ (
            Under codecs.table db (prefix_tables_for_schema schema_id) r
            × LivesAt r.begin_snapshot r.end_snapshot snap)
    unfolding list_tables
    list_tables_iff db snap schema_id rows h r =
        let listed =
          scan_rows_iff codecs.table (λ row. is_visible row.begin_snapshot row.end_snapshot snap) db
            _ rows h r in
        let lives = is_visible_iff r.begin_snapshot r.end_snapshot snap in
        (λ i. ((listed.0 i).0, lives.0 (listed.0 i).1), λ (u, l). listed.1 (u, lives.1 l))
