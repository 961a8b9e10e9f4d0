-- ===== src/Tests/Excision.antt =====
-- The properties of an excision at concrete inputs.
use slateduck.Prelude.{ℕ, ◌≡◌, refl, ◌⊎◌, false, none, some, List, ◌∷◌, arith}
use slateduck.Prelude.Bytes.{Bytes, bytes_eq, starts_with}
use slateduck.Core.Result.{ok}
use slateduck.Core.Tags.{codes, system_retain_from}
use slateduck.Core.Values.{Message, encode_value, encode_counter}
use slateduck.Core.Rows.{SchemaRow, TableRow}
use slateduck.Core.Keys.Rows.{key_schema}
use slateduck.Core.Keys.System.{key_system, key_counter}
use slateduck.Catalog.Kv.{Pair}
use slateduck.Catalog.Reader.{list_schemas, list_tables}
use slateduck.Catalog.Excise.{ExciseAuditEntry, excise_apply, excise_audit_prefix}
use slateduck.Catalog.Excise.Expired.{Expired, excise_apply-Removes}
use slateduck.Catalog.Excise.Readers.{excise_apply_listed}
use slateduck.Tests.Memory.{mem_kv}
use slateduck.Tests.Messages.{codecs}
use slateduck.Tests.Format.{num, text, ◌⊗◌, message}
use slateduck.Tests.Data.{held, schema}

abbrev audit_codec : Message ExciseAuditEntry
audit_codec =
    message (num ⊗ (num ⊗ (num ⊗ (num ⊗ text))))
      (λ (r : ExciseAuditEntry).
        (r.timestamp_millis, (r.before_snapshot, (r.keys_deleted, (r.keys_failed, r.operator)))))
      (λ p. record {
        timestamp_millis = p.0;
        before_snapshot = p.1.0;
        keys_deleted = p.1.1.0;
        keys_failed = p.1.1.1.0;
        operator = p.1.1.1.1;
      })
      (λ r. refl)

-- A floor of 5, and the schema 4, which ended at 3.
abbrev floored : List Pair
floored =
    (key_schema 4, encode_value codecs.schema (record schema { end_snapshot = some 3 }))
    ∷ (key_system system_retain_from, encode_counter 5)
    ∷ held

abbrev excised : List Pair
excised = (excise_apply mem_kv codecs audit_codec (λ k. false) 9 4 (codes "op") floored).1

removes_example :
    (mem_kv.get excised (key_schema 4) ≡ mem_kv.get floored (key_schema 4))
    ⊎ ((v : Bytes) × (mem_kv.get floored (key_schema 4) ≡ some v)
        × (mem_kv.get excised (key_schema 4) ≡ none)
        × Expired codecs 4 (key_schema 4) v)
removes_example =
    excise_apply-Removes mem_kv codecs audit_codec (λ k. false) 9 4 (codes "op") floored
      (key_schema 4)
      (record {
        counter = unfold key_counter key_schema bytes_eq in refl;
        entry = unfold excise_audit_prefix key_schema starts_with in refl;
      })

listed_after_example :
    ((rows : List SchemaRow)
      → list_schemas codecs mem_kv floored 4 ≡ ok rows
      → list_schemas codecs mem_kv excised 4 ≡ ok rows)
    × ((schema_id : ℕ) (rows : List TableRow)
        → list_tables codecs mem_kv floored 4 schema_id ≡ ok rows
        → list_tables codecs mem_kv excised 4 schema_id ≡ ok rows)
listed_after_example =
    excise_apply_listed mem_kv codecs audit_codec (λ k. false) 9 4 (codes "op") floored 4
      (omega arith)
