-- ===== src/Catalog/Init.antt =====
-- crates/rocklake-catalog/src/init.rs: a fresh catalog, or the check of one that is there. Whether a
-- transaction's commit succeeds is SlateDB's answer, an argument.
use slateduck.Prelude.{
  ℕ, Bool, true, false, not, Option, none, some, List, [], ◌∷◌, ◌==◌, if◌then◌else◌,
}
use slateduck.Prelude.Bytes.{Bytes}
use slateduck.Core.Result.{
  ok, err, map_err, ok_or, CatalogResult, value, format_version_mismatch, not_initialized,
  transaction_conflict, ◌>>=◌,
}
use slateduck.Core.Values.{
  encode_counter, decode_counter, encode_format_version, decode_format_version,
}
use slateduck.Core.Tags.{
  system_catalog_format_version, system_retain_from, catalog_format_version,
  counter_next_snapshot_id, counter_next_catalog_id, counter_next_file_id,
}
use slateduck.Core.Keys.System.{key_system, key_counter}
use slateduck.Core.Counters.{CounterCache}
use slateduck.Core.Counters as Counters
use slateduck.Catalog.Kv.{Kv, Pair, put_all}

-- A counter that has to be there.
unfoldable pub required_counter : Option Bytes → CatalogResult ℕ
required_counter stored = do
  bytes ← ok_or stored not_initialized
  map_err value (decode_counter bytes)

check_version : ℕ → CatalogResult (Unit {0})
check_version version =
    if not (version == catalog_format_version)
    then err (format_version_mismatch catalog_format_version version)
    else ok tt

-- The first writes of a catalog, in their order.
abbrev pub initial_writes : List Pair
initial_writes =
    (key_system system_catalog_format_version, encode_format_version catalog_format_version)
    ∷ (key_counter counter_next_snapshot_id, encode_counter 1)
    ∷ (key_counter counter_next_catalog_id, encode_counter 1)
    ∷ (key_counter counter_next_file_id, encode_counter 1)
    ∷ (key_system system_retain_from, encode_counter 0)
    ∷ []

module _ (kv : Kv) where
  open kv use {Db, get}

  unfoldable pub load_counters : Db → CatalogResult CounterCache
  unfolding required_counter
  load_counters tx = do
    next_snapshot_id ← required_counter (get tx (key_counter counter_next_snapshot_id))
    next_catalog_id ← required_counter (get tx (key_counter counter_next_catalog_id))
    next_file_id ← required_counter (get tx (key_counter counter_next_file_id))
    ok (Counters.new next_snapshot_id next_catalog_id next_file_id)

  -- The same reads outside a transaction.
  unfoldable pub load_counters_from_db : Db → CatalogResult CounterCache
  unfolding load_counters
  load_counters_from_db db = load_counters db

  unfoldable pub verify_format_version : Db → CatalogResult (Unit {0})
  unfolding check_version
  verify_format_version db = do
    bytes ← ok_or (get db (key_system system_catalog_format_version)) not_initialized
    version ← map_err value (decode_format_version bytes)
    check_version version

  existing_catalog : Bytes → Db → CatalogResult CounterCache
  existing_catalog bytes tx = do
    version ← map_err value (decode_format_version bytes)
    checked ← check_version version
    load_counters tx

  fresh_catalog : Bool → Db → CatalogResult CounterCache × Db
  fresh_catalog true db = (ok (Counters.new 1 1 1), put_all kv db initial_writes)
  fresh_catalog false db = (err transaction_conflict, db)

  initialize_from : Option Bytes → Bool → Db → CatalogResult CounterCache × Db
  initialize_from (some bytes) commits db = (existing_catalog bytes db, db)
  initialize_from none commits db = fresh_catalog commits db

  unfoldable pub initialize_catalog : Bool → Db → CatalogResult CounterCache × Db
  unfolding initialize_from fresh_catalog existing_catalog check_version load_counters
  initialize_catalog commits db =
      initialize_from (get db (key_system system_catalog_format_version)) commits db
