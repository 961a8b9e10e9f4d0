-- ===== src/Catalog/Lifecycle/DataFiles.antt =====
-- A data file from its registration to the listing of its table.
use slateduck.Prelude.{
  ℕ, ◌≤◌, ◌≡◌, refl, ◌∙◌, Bool, true, false, Option, none, some, List, [], ◌∷◌, ◌++◌, IsIn, arith,
  All, inl, inr, Option-cases,
}
use slateduck.Prelude.Bytes.{Bytes, bytes_eq, starts_with}
use slateduck.Core.Result.{ok}
use slateduck.Core.BigEndian.{IsU64}
use slateduck.Core.Values.{encode_value}
use slateduck.Core.Values.RoundTrip.{decode_value-encode_value}
use slateduck.Core.Rows.{Codecs, DataFileRow}
use slateduck.Core.Keys.Rows.{
  key_data_file, key_data_file_by_snapshot, key_snapshot, key_snapshot_changes, key_table_stats,
}
use slateduck.Core.Keys.System.{key_counter}
use slateduck.Core.Keys.Prefixes.{
  prefix_data_files_by_snapshot_for_table, prefix_data_files_by_snapshot_upper,
}
use slateduck.Core.Keys.Order.{prefix_of_one, below_upper_iff}
use slateduck.Core.Counters.{alloc_file_id}
use slateduck.Catalog.Kv.{Kv}
use slateduck.Catalog.Writer.{CatalogWriter, CommitResult, create_snapshot, stage}
use slateduck.Catalog.Writer.Commit.{OwnKey}
use slateduck.Catalog.Writer.Files.{
  register_data_file, register_data_file_with_metadata, next_row_id_of,
}
use slateduck.Catalog.Reader.{list_data_files, below, ended_by}
use slateduck.Catalog.Reader.Files.{FileAt, list_data_files_iff}
use slateduck.Catalog.Lifecycle.{committed_last}

indexed_under :
    (t s f : ℕ)
    → All IsU64 (t ∷ s ∷ f ∷ [])
    → starts_with (prefix_data_files_by_snapshot_for_table t) (key_data_file_by_snapshot t s f)
      ≡ true
unfolding prefix_data_files_by_snapshot_for_table key_data_file_by_snapshot
indexed_under t s f h = prefix_of_one _ t t (s ∷ f ∷ []) (h.0) h ∙ ground arith

within_bound :
    (t read s f : ℕ)
    → IsU64 read
    → All IsU64 (t ∷ s ∷ f ∷ [])
    → s ≤ read
    → below (key_data_file_by_snapshot t s f) (prefix_data_files_by_snapshot_upper t read) ≡ true
unfolding below
within_bound t read s f hr h le = elim (Option-cases (prefix_data_files_by_snapshot_upper t read)) [
  | inl e ↦ rw e refl
  | inr (u, e) ↦ rw e (below_upper_iff t read s f hr h e ∙ ground (arith, le))
]

module _ (kv : Kv) (codecs : Codecs) where
  open kv use {Db, get}

  key_data_file_by_snapshot-OwnKey :
      (t s f snapshot_id : ℕ) → OwnKey kv codecs snapshot_id (key_data_file_by_snapshot t s f)
  unfolding key_data_file_by_snapshot key_snapshot key_snapshot_changes key_counter bytes_eq
  key_data_file_by_snapshot-OwnKey t s f snapshot_id = (refl, (refl, (refl, (refl, (refl, tt)))))

  registered_row : CatalogWriter → Db → ℕ → Bytes → Bytes → ℕ → ℕ → DataFileRow
  registered_row w db table_id path file_format record_count file_size_bytes = record {
    data_file_id = w.counters.next_file_id;
    table_id = table_id;
    path = path;
    file_format = file_format;
    record_count = record_count;
    file_size_bytes = file_size_bytes;
    footer_size = none;
    encryption_key = none;
    begin_snapshot = some w.counters.next_snapshot_id;
    end_snapshot = none;
    file_order = some w.counters.next_file_id;
    path_is_relative = some false;
    row_id_start = some (next_row_id_of codecs (get db (key_table_stats table_id)));
    partition_id = none;
    mapping_id = none;
    partial_max = none;
  }

  -- With ids that are u64s, a data file that was registered and committed stands in a row with the
  -- id that `register_data_file` returned and its path, and every `list_data_files` of its table
  -- that succeeds on the store after the commit, at the committed snapshot or a later one, has
  -- that row.
  pub register_data_file_listed :
      (w : CatalogWriter) (db : Db) (table_id : ℕ) (path file_format : Bytes)
      (record_count file_size_bytes : ℕ) (time : Bytes) (author message : Option Bytes)
      (commits : Bool) (c : CommitResult) (snap : ℕ) (rows : List DataFileRow)
      → All IsU64 (table_id ∷ w.counters.next_snapshot_id ∷ w.counters.next_file_id ∷ [])
      → IsU64 w.counters.next_catalog_id
      → IsU64 snap
      → (create_snapshot kv codecs
          (register_data_file codecs kv db table_id path file_format record_count file_size_bytes
            w).1
          db
          time
          author
          message
          commits).0
        ≡ ok c
      → c.snapshot_id ≤ snap
      → list_data_files codecs kv
          (create_snapshot kv codecs
            (register_data_file codecs kv db table_id path file_format record_count file_size_bytes
              w).1
            db
            time
            author
            message
            commits).2
          snap
          table_id
        ≡ ok rows
      → (row : DataFileRow) × ((register_data_file codecs kv db table_id path file_format
            record_count file_size_bytes w).0
          ≡ ok row.data_file_id)
        × (row.path ≡ path)
        × IsIn row rows
  unfolding register_data_file register_data_file_with_metadata next_row_id_of registered_row stage
      alloc_file_id
  register_data_file_listed w db table_id path file_format record_count file_size_bytes time author
        message commits c snap rows fits cat hs h le listed =
      let row = registered_row w db table_id path file_format record_count file_size_bytes in
      let key =
        key_data_file_by_snapshot table_id w.counters.next_snapshot_id w.counters.next_file_id in
      let (holds, id) =
        committed_last kv codecs
          (register_data_file codecs kv db table_id path file_format record_count file_size_bytes
            w).1
          db time author message commits c key (encode_value codecs.data_file row)
          (w.staged
            ++ (key_data_file table_id w.counters.next_file_id, encode_value codecs.data_file row)
              ∷ [])
          cat (ground arith) h (key_data_file_by_snapshot-OwnKey _ _ _ _) refl in
      let at : FileAt codecs kv _ snap table_id row = record {
        indexed = record {
          key = key;
          value = encode_value codecs.data_file row;
          selected = indexed_under _ _ _ fits;
          holds = holds;
          decodes = decode_value-encode_value codecs.data_file row;
        };
        bounded = within_bound _ snap _ _ hs fits (rw id at le);
        lives = unfold ended_by in refl;
      } in
      (row, refl, refl, ((list_data_files_iff codecs kv _ snap table_id rows listed).0 row).1 at)
