-- ===== src/Core/Counters.antt =====
-- crates/rocklake-core/src/counters.rs: the writer's cache of the three id counters.
pub mod Allocation
use slateduck.Prelude.{ℕ, ◌+◌, ◌%◌, ◌^◌}
use slateduck.Prelude.Bytes.{Bytes}
use slateduck.Core.Result.{Result, ValueError}
use slateduck.Core.Values.{encode_counter, decode_counter}
use slateduck.Core.Tags.{counter_next_snapshot_id, counter_next_catalog_id, counter_next_file_id}
use slateduck.Core.Keys.System.{key_counter, key_counter_column_id}

pub data CounterDomain : Type 0 where
  snapshot_id catalog_id file_id : CounterDomain
  column_id : ℕ → CounterDomain

unfoldable pub domain_key : CounterDomain → Bytes
domain_key CounterDomain.snapshot_id = key_counter counter_next_snapshot_id
domain_key CounterDomain.catalog_id = key_counter counter_next_catalog_id
domain_key CounterDomain.file_id = key_counter counter_next_file_id
domain_key (CounterDomain.column_id table_id) = key_counter_column_id table_id

pub record CounterCache : Type 0 where
  pub next_snapshot_id : ℕ
  pub next_catalog_id : ℕ
  pub next_file_id : ℕ

-- `+= 1` on a u64, as a release build computes it.
abbrev pub increment : ℕ → ℕ
increment n = (n + 1) % 2 ^ 64

unfoldable pub new : ℕ → ℕ → ℕ → CounterCache
new next_snapshot_id next_catalog_id next_file_id = record {
  next_snapshot_id = next_snapshot_id;
  next_catalog_id = next_catalog_id;
  next_file_id = next_file_id;
}

unfoldable pub alloc_snapshot_id : CounterCache → ℕ × CounterCache
alloc_snapshot_id c =
    (c.next_snapshot_id, record c { next_snapshot_id = increment c.next_snapshot_id })

unfoldable pub alloc_catalog_id : CounterCache → ℕ × CounterCache
alloc_catalog_id c = (c.next_catalog_id, record c { next_catalog_id = increment c.next_catalog_id })

unfoldable pub alloc_file_id : CounterCache → ℕ × CounterCache
alloc_file_id c = (c.next_file_id, record c { next_file_id = increment c.next_file_id })

abbrev pub peek_snapshot_id : CounterCache → ℕ
peek_snapshot_id c = c.next_snapshot_id

abbrev pub peek_catalog_id : CounterCache → ℕ
peek_catalog_id c = c.next_catalog_id

abbrev pub peek_file_id : CounterCache → ℕ
peek_file_id c = c.next_file_id

unfoldable pub encode_snapshot_counter : CounterCache → Bytes
encode_snapshot_counter c = encode_counter c.next_snapshot_id

unfoldable pub encode_catalog_counter : CounterCache → Bytes
encode_catalog_counter c = encode_counter c.next_catalog_id

unfoldable pub encode_file_counter : CounterCache → Bytes
encode_file_counter c = encode_counter c.next_file_id

unfoldable pub sync_from : CounterCache → ℕ → ℕ → ℕ → CounterCache
sync_from c next_snapshot_id next_catalog_id next_file_id = record c {
  next_snapshot_id = next_snapshot_id;
  next_catalog_id = next_catalog_id;
  next_file_id = next_file_id;
}

unfoldable pub encode_column_counter : ℕ → Bytes
encode_column_counter next_column_id = encode_counter next_column_id

unfoldable pub decode_counter_value : Bytes → Result ValueError ℕ
decode_counter_value bytes = decode_counter bytes
