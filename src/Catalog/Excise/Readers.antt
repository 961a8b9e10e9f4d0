-- ===== src/Catalog/Excise/Readers.antt =====
-- What readers at the retained snapshots list after an excision of excise.rs.
use slateduck.Prelude.{
  ℕ, ◌≤◌, ◌≡◌, ◌≢◌, refl, sym, ◌∙◌, inl, inr, Bool, true, false, Option, none, some, List, [], ◌∷◌,
  some_injective, arith, ◌==◌,
}
use slateduck.Prelude.Bytes.{Bytes, bytes_eq, starts_with}
use slateduck.Core.Result.{ok, ok_injective}
use slateduck.Core.Tags.{tag_schema, tag_table, counter_next_excision_seq, codes}
use slateduck.Core.Values.{Message, decode_value}
use slateduck.Core.Rows.{Codecs, SchemaRow, TableRow}
use slateduck.Core.Mvcc.{is_visible}
use slateduck.Core.Keys.Prefixes.{prefix_for_tag, prefix_tables_for_schema}
use slateduck.Core.Keys.System.{key_counter}
use slateduck.Catalog.Kv.{Kv, scan_finds}
use slateduck.Catalog.Reader.{scan_rows, list_schemas, list_tables}
use slateduck.Catalog.Reader.Listing.{scanned}
use slateduck.Catalog.Excise.{ended_by, excise_apply, excise_audit_prefix, ExciseAuditEntry}
use slateduck.Catalog.Excise.Thinned.{scan_rows_thinned}
use slateduck.Catalog.Excise.Removes.{Removes}
use slateduck.Catalog.Excise.Expired.{
  Expired, schema, table, column, insert, marker, snapshot, OffAudit, excise_apply-Removes,
}

module _ (kv : Kv) where
  open kv use {Db, get, scan_prefix, scan-IsSorted, lookup-scan}

  module _ {R : Type 0} (m : Message R) (test : R → Bool) where
    -- A scan loop finds the same rows where what is gone did not pass its test.
    scan_kept :
        (Q : Bytes → Type 0) (P : Bytes → Bytes → Type 0) (db after : Db) (prefix : Bytes)
        (rows : List R)
        → Removes kv Q P db after
        → ((k : Bytes) → starts_with prefix k ≡ true → Q k)
        → ((k v : Bytes) (r : R)
            → starts_with prefix k ≡ true
            → P k v
            → decode_value m v ≡ ok r
            → test r ≡ false)
        → scan_rows m test (scan_prefix db prefix) ≡ ok rows
        → scan_rows m test (scan_prefix after prefix) ≡ ok rows
    scan_kept Q P db after prefix rows removes inside hidden =
        scan_rows_thinned m test _ _ rows (scan-IsSorted db prefix) (scan-IsSorted after prefix)
          (record {
            stands = λ k v g.
                let (u, e) = scanned kv after prefix k v g in
                elim (removes k (inside k u)) [
                  | inl same ↦ scan_finds kv db prefix k v u (sym same ∙ e)
                  | inr (x, a, b, p) ↦ cc
                ];
            keeps = λ k v r g d pass.
                let (u, e) = scanned kv db prefix k v g in
                elim (removes k (inside k u)) [
                  | inl same ↦ scan_finds kv after prefix k v u (same ∙ e)
                  | inr (x, a, b, p) ↦
                      let v_is_x : v ≡ x = some_injective (sym e ∙ a) in
                      cc (pass, hidden k x r u p (rw (← v_is_x) d))
                ];
          })

-- A key has one first byte.
first_byte :
    (a b : ℕ) (p q k : Bytes)
    → (a == b) ≡ false
    → starts_with (a ∷ p) k ≡ true
    → starts_with (b ∷ q) k ≡ false
unfolding starts_with
first_byte a b p q [] d h = refl
first_byte a b p q (c ∷ k) d h = ground arith

not_under :
    (a b : ℕ) (p q k : Bytes)
    → (a == b) ≡ false
    → starts_with (a ∷ p) k ≡ true
    → starts_with (b ∷ q) k ≢ true
not_under a b p q k d h g = cc (first_byte a b p q k d h)

off_counter :
    (a : ℕ) (p k : Bytes)
    → (a == 0xFE) ≡ false
    → starts_with (a ∷ p) k ≡ true
    → bytes_eq (key_counter counter_next_excision_seq) k ≡ false
unfolding key_counter bytes_eq starts_with
off_counter a p [] c u = cc
off_counter a p (b ∷ k) c u = ground arith

off_audit :
    (a : ℕ) (p k : Bytes)
    → (a == 0xFE) ≡ false
    → (a == 0xFF) ≡ false
    → starts_with (a ∷ p) k ≡ true
    → OffAudit k
unfolding excise_audit_prefix
off_audit a p k c e u = record {
  counter = off_counter a p k c u;
  entry = first_byte a 0xFF p (codes "excised") k e u;
}

schema-OffAudit : (k : Bytes) → starts_with (prefix_for_tag tag_schema) k ≡ true → OffAudit k
unfolding prefix_for_tag
schema-OffAudit k u = off_audit tag_schema [] k refl refl u

table-OffAudit :
    (schema_id : ℕ) (k : Bytes)
    → starts_with (prefix_tables_for_schema schema_id) k ≡ true
    → OffAudit k
unfolding prefix_tables_for_schema
table-OffAudit schema_id k u = off_audit tag_table _ k refl refl u

-- A version that ended by a snapshot is not visible at a later one.
ended_hidden :
    (begin : ℕ) (end : Option ℕ) (before snap : ℕ)
    → before ≤ snap
    → ended_by before end ≡ true
    → is_visible begin end snap ≡ false
unfolding ended_by is_visible
ended_hidden begin none before snap h e = cc
ended_hidden begin (some end) before snap h e = ground arith

module _ (kv : Kv) (codecs : Codecs) (audit : Message ExciseAuditEntry) (fails : Bytes → Bool)
    (now_ms before : ℕ) (operator : Bytes) where
  open kv use {Db}

  schema_hidden :
      (snap : ℕ) (k v : Bytes) (r : SchemaRow)
      → before ≤ snap
      → starts_with (prefix_for_tag tag_schema) k ≡ true
      → Expired codecs before k v
      → decode_value codecs.schema v ≡ ok r
      → is_visible r.begin_snapshot r.end_snapshot snap ≡ false
  unfolding prefix_for_tag
  schema_hidden snap k v r h u (schema s) d =
      let same : s.row ≡ r = ok_injective (sym (s.decodes) ∙ d) in
      ended_hidden r.begin_snapshot r.end_snapshot before snap h (rw (← same) (s.old))
  schema_hidden snap k v r h u (table s) d = absurd (not_under _ _ _ _ k refl u (s.under))
  schema_hidden snap k v r h u (column s) d = absurd (not_under _ _ _ _ k refl u (s.under))
  schema_hidden snap k v r h u (insert s) d = absurd (not_under _ _ _ _ k refl u (s.under))
  schema_hidden snap k v r h u (marker s) d = absurd (not_under _ _ _ _ k refl u (s.under))
  schema_hidden snap k v r h u (snapshot s) d = absurd (not_under _ _ _ _ k refl u (s.under))

  table_hidden :
      (snap schema_id : ℕ) (k v : Bytes) (r : TableRow)
      → before ≤ snap
      → starts_with (prefix_tables_for_schema schema_id) k ≡ true
      → Expired codecs before k v
      → decode_value codecs.table v ≡ ok r
      → is_visible r.begin_snapshot r.end_snapshot snap ≡ false
  unfolding prefix_for_tag prefix_tables_for_schema
  table_hidden snap schema_id k v r h u (schema s) d = absurd (not_under _ _ _ _ k refl u (s.under))
  table_hidden snap schema_id k v r h u (table s) d =
      let same : s.row ≡ r = ok_injective (sym (s.decodes) ∙ d) in
      ended_hidden r.begin_snapshot r.end_snapshot before snap h (rw (← same) (s.old))
  table_hidden snap schema_id k v r h u (column s) d = absurd (not_under _ _ _ _ k refl u (s.under))
  table_hidden snap schema_id k v r h u (insert s) d = absurd (not_under _ _ _ _ k refl u (s.under))
  table_hidden snap schema_id k v r h u (marker s) d = absurd (not_under _ _ _ _ k refl u (s.under))
  table_hidden snap schema_id k v r h u (snapshot s) d =
      absurd (not_under _ _ _ _ k refl u (s.under))

  -- Whatever `excise_apply` returns, and whichever deletes fail, where a reader at the snapshot of
  -- the excision or a later one listed the schemas, or the tables of a schema, before it, it lists
  -- the same rows in the same order after it.
  pub excise_apply_listed :
      (db : Db) (snap : ℕ)
      → before ≤ snap
      → let after = (excise_apply kv codecs audit fails now_ms before operator db).1 in
        ((rows : List SchemaRow)
          → list_schemas codecs kv db snap ≡ ok rows
          → list_schemas codecs kv after snap ≡ ok rows)
        × ((schema_id : ℕ) (rows : List TableRow)
            → list_tables codecs kv db snap schema_id ≡ ok rows
            → list_tables codecs kv after snap schema_id ≡ ok rows)
  unfolding list_schemas list_tables
  excise_apply_listed db snap h =
      let removes = excise_apply-Removes kv codecs audit fails now_ms before operator db in
      (
        λ rows.
            scan_kept kv codecs.schema _ OffAudit (Expired codecs before) db _ _ rows removes
              schema-OffAudit (λ k v r u p d. schema_hidden snap k v r h u p d),
        λ schema_id rows.
            scan_kept kv codecs.table _ OffAudit (Expired codecs before) db _ _ rows removes
              (table-OffAudit schema_id) (λ k v r u p d. table_hidden snap schema_id k v r h u p d),
      )
