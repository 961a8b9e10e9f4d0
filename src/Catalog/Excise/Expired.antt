-- ===== src/Catalog/Excise/Expired.antt =====
-- The deletes of excise.rs: which keys the store loses.
use slateduck.Prelude.{ℕ, ◌≡◌, refl, inl, inr, Bool, false, ◌||◌, ◌∷◌, Bool-cases, ltb, ◌==◌}
use slateduck.Prelude.Bytes.{Bytes, bytes_eq, bytes_eq_iff, starts_with, starts_with_self}
use slateduck.Core.Result.{ok, err, CatalogResult}
use slateduck.Core.Tags.{
  tag_schema, tag_table, tag_column, tag_snapshot, tag_system, system_excised_prefix,
  counter_next_excision_seq,
}
use slateduck.Core.Values.{Message}
use slateduck.Core.Rows.{Codecs}
use slateduck.Core.Keys.Prefixes.{prefix_for_tag}
use slateduck.Core.Keys.System.{key_counter}
use slateduck.Catalog.Kv.{Kv}
use slateduck.Catalog.Gc.{read_retain_from}
use slateduck.Catalog.Excise.Removes.{Selected, Removes, then_do-Removes, delete_eligible-Removes}
use slateduck.Catalog.Excise.{
  delete_eligible, with_seq, unless_unsafe, old_schema, old_table, old_column, old_insert,
  old_delete, old_snapshot, inlined_insert_prefix, inlined_delete_prefix, then_do, Effect,
  delete_excisable_schemas, delete_excisable_tables, delete_excisable_columns,
  delete_excisable_inlined_inserts, delete_excisable_inlined_deletes, delete_old_snapshots,
  record_audit_entry, next_seq, excise_all, excise_apply, excise_audit_prefix,
  excise_audit_key_with_seq, ExciseAuditEntry,
}

-- A stored value that an excision before a snapshot may delete: a schema, a table, a column or an
-- inlined insert that ended by then, or a marker of an inlined delete or a snapshot from before.
pub data Expired (codecs : Codecs) (before : ℕ) (k v : Bytes) : Type 0 where
  schema :
      Selected codecs.schema (old_schema before) (prefix_for_tag tag_schema) k v
      → Expired codecs before k v
  table :
      Selected codecs.table (old_table before) (prefix_for_tag tag_table) k v
      → Expired codecs before k v
  column :
      Selected codecs.column (old_column before) (prefix_for_tag tag_column) k v
      → Expired codecs before k v
  insert :
      Selected codecs.inlined_insert (old_insert before) inlined_insert_prefix k v
      → Expired codecs before k v
  marker :
      Selected codecs.inlined_delete (old_delete before) inlined_delete_prefix k v
      → Expired codecs before k v
  snapshot :
      Selected codecs.snapshot (old_snapshot before) (prefix_for_tag tag_snapshot) k v
      → Expired codecs before k v

-- Neither the counter of the audit entries nor an entry.
pub record OffAudit (k : Bytes) : Type 0 where
  pub counter : bytes_eq (key_counter counter_next_excision_seq) k ≡ false
  pub entry : starts_with excise_audit_prefix k ≡ false

entry_other :
    (now seq : ℕ) (k : Bytes)
    → starts_with excise_audit_prefix k ≡ false
    → bytes_eq (excise_audit_key_with_seq now seq) k ≡ false
unfolding excise_audit_prefix excise_audit_key_with_seq
entry_other now seq k h = elim (Bool-cases (bytes_eq (excise_audit_key_with_seq now seq) k)) [
  | inr other ↦ other
  | inl same ↦ cc (
    h,
    (bytes_eq_iff (excise_audit_key_with_seq now seq) k).0 same,
    starts_with_self (tag_system ∷ system_excised_prefix) _,
  )
]

module _ (kv : Kv) (codecs : Codecs) (audit : Message ExciseAuditEntry) (fails : Bytes → Bool)
    (now_ms before : ℕ) (operator : Bytes) where
  open kv use {Db, get, get-put}

  abbrev Step : Db → Db → Type 0
  Step = Removes kv OffAudit (Expired codecs before)

  record_audit_entry-Removes :
      (deleted failed : ℕ) (db : Db)
      → Step db (record_audit_entry kv codecs audit now_ms before deleted failed operator db).1
  unfolding record_audit_entry with_seq
  record_audit_entry-Removes deleted failed db =
      go (next_seq kv codecs (get db (key_counter counter_next_excision_seq)))
    where
      go :
          (c : CatalogResult ℕ)
          → Step db (with_seq kv codecs audit now_ms before deleted failed operator db c).1
      go (err e) k q = inl refl
      go (ok seq) k q =
          inl (rw (get-put, entry_other now_ms seq k (q.entry), get-put, q.counter) refl)

  chain :
      {A B : Type 0} (db : Db) (r : CatalogResult A × Db) (next : A → Effect kv B)
      → Step db r.1
      → ((a : A) (mid : Db) → Step mid (next a mid).1)
      → Step db (then_do kv r next).1
  chain = then_do-Removes kv OffAudit (Expired codecs before)

  part :
      {R : Type 0} (m : Message R) (test : R → Bool) (prefix : Bytes) (db : Db)
      → ((k v : Bytes) → Selected m test prefix k v → Expired codecs before k v)
      → Step db (delete_eligible kv fails m test prefix db).1
  part = delete_eligible-Removes kv OffAudit (Expired codecs before) fails

  excise_all-Removes :
      (db : Db) → Step db (excise_all kv codecs audit fails now_ms before operator db).1
  unfolding excise_all delete_excisable_schemas delete_excisable_tables delete_excisable_columns
      delete_excisable_inlined_inserts delete_excisable_inlined_deletes delete_old_snapshots
  excise_all-Removes db = chain db _ _ (part _ _ _ db λ k v. schema) λ schemas db1.
      chain db1 _ _ (part _ _ _ db1 λ k v. table) λ tables db2.
        chain db2 _ _ (part _ _ _ db2 λ k v. column) λ columns db3.
          chain db3 _ _ (part _ _ _ db3 λ k v. insert) λ inserts db4.
            chain db4 _ _ (part _ _ _ db4 λ k v. marker) λ deletes db5.
              chain db5 _ _ (part _ _ _ db5 λ k v. snapshot) λ snapshots db6.
                chain db6 _ _ (record_audit_entry-Removes _ _ db6) λ id db7 k q. inl refl

  -- Whatever `excise_apply` returns, and whichever deletes fail, a key that is neither the counter
  -- of the audit entries nor under their prefix holds what it held, or is gone and held a schema,
  -- a table, a column or an inlined insert that ended by the snapshot of the excision, or a marker
  -- of an inlined delete or a snapshot from before it.
  pub excise_apply-Removes :
      (db : Db) → Step db (excise_apply kv codecs audit fails now_ms before operator db).1
  unfolding excise_apply unless_unsafe
  excise_apply-Removes db = go (read_retain_from kv db)
    where
      go :
          (c : CatalogResult ℕ)
          → Step db (unless_unsafe kv codecs audit fails now_ms before operator db c).1
      go (err e) k q = inl refl
      go (ok floor) k q = elim (Bool-cases ((floor == 0) || ltb floor before)) [
        | inl refused ↦ rw refused (inl refl)
        | inr allowed ↦ rw allowed (excise_all-Removes db k q)
      ]
