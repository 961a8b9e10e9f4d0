-- ===== src/Tests/Sessions.antt =====
-- The properties of the writer, the store and the readers at concrete inputs.
use slateduck.Prelude.{◌≤◌, ◌≡◌, refl, ◌↔◌, true, none, some, List, [], ◌∷◌, IsIn, arith}
use slateduck.Prelude.Bytes.{bytes_eq}
use slateduck.Core.Keys.System.{key_system}
use slateduck.Core.Values.{decode_counter, encode_counter, decode_value_envelope}
use slateduck.Core.BigEndian.{be_bytes, from_be_bytes, encode_u64}
use slateduck.Catalog.Gc.{counter_or_zero}
use slateduck.Catalog.Reader.{list_schemas}
use slateduck.Catalog.Kv.{Pair, lookup}
use slateduck.Catalog.Writer.{CatalogWriter, commit_if}
use slateduck.Catalog.Writer.Objects.{create_schema}
use slateduck.Catalog.Store.{CatalogStore, commit_writer}
use slateduck.Catalog.Store.Sessions.{Session, commit_writer-Session}
use slateduck.Catalog.Lifecycle.Schemas.{create_schema_listed}
use slateduck.Core.Result.{ok, err, writer_epoch_mismatch}
use slateduck.Core.Tags.{codes, system_writer_epoch}
use slateduck.Core.Rows.{SchemaRow}
use slateduck.Catalog.Kv.{put_all}
use slateduck.Catalog.Writer.{create_snapshot, check_epoch, drained, commit_result}
use slateduck.Catalog.Writer.Commit.{Outcome, create_snapshot-Outcome}
use slateduck.Catalog.Writer.Fence.{Holds, check_epoch_iff}
use slateduck.Catalog.Store.{acquire_epoch, next_epoch}
use slateduck.Catalog.Store.Fencing.{
  Claimed, acquire_epoch-Claimed, stale_writer_refused, holder_passes,
}
use slateduck.Core.BigEndian.{u64_fields}
use slateduck.Core.Values.{encode_value, decode_value, encode_raw_value}
use slateduck.Prelude.Bytes.{bytes_lt, starts_with}
use slateduck.Core.Keys.Rows.{key_schema, key_snapshot}
use slateduck.Core.Keys.System.{key_counter, key_counter_rowid}
use slateduck.Core.Keys.Prefixes.{prefix_for_tag}
use slateduck.Core.Mvcc.{is_visible}
use slateduck.Core.Counters.{alloc_catalog_id, alloc_snapshot_id}
use slateduck.Catalog.Reader.{scan_rows, keep_row}
use slateduck.Catalog.Writer.{
  stage, mark_schema_changed, commit_writes, snapshot_row, pending_changes, changes_write,
  counter_writes, empty_changes, complete_changes, keep_changes,
}
use slateduck.Catalog.Writer.RowIds.{next_rowid_range}
use slateduck.Catalog.Writer.RowIds.Ranges.{Taken, next_rowid_range-TakenBy}
use slateduck.Tests.Memory.{mem_kv}
use slateduck.Tests.Messages.{codecs}
use slateduck.Tests.Data.{held, writer}

claimed : (acquire_epoch mem_kv held (codes "b") []).0 ≡ ok 2
unfolding acquire_epoch lookup next_epoch counter_or_zero bytes_eq key_system decode_counter
    decode_value_envelope encode_counter encode_u64 be_bytes from_be_bytes
claimed = refl

abbrev store : CatalogStore
store = record {
  counters = writer.counters;
  writer_epoch = 1;
  writer_nonce = codes "a";
  schema_version = 2;
  retain_from_cache = 0;
}

abbrev pub new_schema : SchemaRow
new_schema = record {
  schema_id = 8;
  schema_name = codes "s";
  begin_snapshot = 5;
  end_snapshot = none;
  schema_uuid = some (codes "u");
  path = none;
  path_is_relative = some true;
}

create_snapshot_example :
    Outcome mem_kv codecs writer held
      (create_snapshot mem_kv codecs writer held (codes "t") none (some (codes "m")) true)
create_snapshot_example =
    create_snapshot-Outcome mem_kv codecs writer held (codes "t") none (some (codes "m")) true
      (omega arith) (omega arith)

check_epoch_example : (check_epoch mem_kv writer held ≡ ok tt) ↔ Holds mem_kv writer held
check_epoch_example = check_epoch_iff mem_kv writer held

-- Another process opens the store in between, with epoch 6.
abbrev reopened : List Pair
reopened = mem_kv.put held (key_system system_writer_epoch) (encode_counter 6)

acquire_epoch_example :
    Claimed mem_kv reopened
      (codes "b")
      7
      (acquire_epoch mem_kv held
        (codes "b")
        ((λ db. mem_kv.put db (key_system system_writer_epoch) (encode_counter 6)) ∷ [])).1
unfolding acquire_epoch next_epoch counter_or_zero lookup bytes_eq key_system decode_counter
    decode_value_envelope encode_counter encode_u64 be_bytes from_be_bytes
acquire_epoch_example =
    acquire_epoch-Claimed mem_kv held (codes "b")
      ((λ db. mem_kv.put db (key_system system_writer_epoch) (encode_counter 6)) ∷ [])

stale_writer_example :
    create_snapshot mem_kv codecs writer
      (put_all mem_kv (acquire_epoch mem_kv held (codes "b") []).1 ((3 ∷ [], []) ∷ []))
      (codes "t")
      none
      none
      true
    ≡ (
      err writer_epoch_mismatch,
      drained writer,
      put_all mem_kv (acquire_epoch mem_kv held (codes "b") []).1 ((3 ∷ [], []) ∷ []),
    )
stale_writer_example =
    stale_writer_refused mem_kv codecs held (codes "b") [] 2 ((3 ∷ [], []) ∷ []) writer (codes "t")
      none none true claimed (unfold bytes_eq key_system in (refl, tt))
      (unfold bytes_eq key_system in (refl, tt)) (unfold bytes_eq in refl)

holder_example :
    Holds mem_kv
      (record writer { writer_epoch = 2; writer_nonce = codes "b" })
      (put_all mem_kv (acquire_epoch mem_kv held (codes "b") []).1 ((3 ∷ [], []) ∷ []))
holder_example =
    holder_passes mem_kv codecs held (codes "b") [] 2 ((3 ∷ [], []) ∷ [])
      (record writer { writer_epoch = 2; writer_nonce = codes "b" }) claimed
      (unfold bytes_eq key_system in (refl, tt)) (unfold bytes_eq key_system in (refl, tt)) refl
      refl

pub holds_at :
    (w : CatalogWriter)
    → w.writer_epoch ≡ 1
    → w.writer_nonce ≡ codes "a"
    → check_epoch mem_kv w held ≡ ok tt
unfolding check_epoch lookup bytes_eq key_system decode_counter decode_value_envelope encode_counter
    encode_u64 be_bytes from_be_bytes
holds_at w e n = rw (e, n) refl

pub accepted :
    (w : CatalogWriter) (db : List Pair)
    → check_epoch mem_kv w db ≡ ok tt
    → (create_snapshot mem_kv codecs w db (codes "t") none none true).0
      ≡ ok (commit_result (drained w) w.counters.next_snapshot_id)
unfolding create_snapshot commit_if
accepted w db h = rw h refl

Session-example :
    Session mem_kv codecs
      (commit_writer store (commit_result (drained writer) 5))
      (create_snapshot mem_kv codecs writer held (codes "t") none none true).2
      5
unfolding commit_result
Session-example =
    commit_writer-Session mem_kv codecs store writer held (codes "t") none none true
      (commit_result (drained writer) 5) (omega arith) (omega arith) (omega arith) (omega arith)
      (accepted writer held (holds_at writer refl refl))

abbrev pub creating : CatalogWriter
creating = (create_schema codecs (codes "u") (codes "s") writer).1

pub creating_holds : check_epoch mem_kv creating held ≡ ok tt
unfolding create_schema stage mark_schema_changed alloc_catalog_id
creating_holds = holds_at creating refl refl

pub created_db :
    (create_snapshot mem_kv codecs creating held (codes "t") none none true).2
    ≡ put_all mem_kv held (commit_writes codecs creating (codes "t") none none)
unfolding create_snapshot commit_if
created_db = rw creating_holds refl

pub created_rows :
    list_schemas codecs mem_kv
      (put_all mem_kv held (commit_writes codecs creating (codes "t") none none))
      6
    ≡ ok (new_schema ∷ [])
unfolding list_schemas scan_rows keep_row commit_writes drained snapshot_row pending_changes
    changes_write counter_writes empty_changes complete_changes keep_changes put_all create_schema
    stage mark_schema_changed alloc_catalog_id alloc_snapshot_id key_schema key_snapshot key_counter
    key_system u64_fields encode_u64 be_bytes from_be_bytes encode_value decode_value
    encode_raw_value decode_value_envelope bytes_eq bytes_lt starts_with prefix_for_tag is_visible
created_rows = refl

listed_example :
    ((create_schema codecs (codes "u") (codes "s") writer).0 ≡ ok 8)
    × ((commit_result (drained creating) 5).snapshot_id ≡ 5)
    × (mem_kv.get
          (create_snapshot mem_kv codecs creating held (codes "t") none none true).2
          (key_schema 8)
        ≡ some (encode_value codecs.schema new_schema))
    × (IsIn new_schema (new_schema ∷ []) ↔ (5 ≤ 6))
unfolding commit_result mark_schema_changed stage create_schema alloc_catalog_id
listed_example =
    create_schema_listed mem_kv codecs writer held (codes "u") (codes "s") (codes "t") none none
      true (commit_result (drained creating) 5) 6 (new_schema ∷ []) (omega arith)
      (accepted creating held creating_holds) (rw created_db created_rows)

-- Another writer takes ids in between, up to 40.
abbrev shared : List Pair
shared = mem_kv.put held (key_counter_rowid 7) (encode_counter 40)

rowid_example :
    Taken mem_kv 7 10 shared 40 50
      (next_rowid_range mem_kv held 7 10
        ((λ db. mem_kv.put db (key_counter_rowid 7) (encode_counter 40)) ∷ [])).1
unfolding next_rowid_range counter_or_zero lookup bytes_eq key_system key_counter_rowid
    decode_counter decode_value_envelope encode_counter encode_u64 be_bytes from_be_bytes u64_fields
rowid_example =
    next_rowid_range-TakenBy mem_kv 7 10 held
      ((λ db. mem_kv.put db (key_counter_rowid 7) (encode_counter 40)) ∷ [])
