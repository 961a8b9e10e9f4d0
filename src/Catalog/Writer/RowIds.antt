-- ===== src/Catalog/Writer/RowIds.antt =====
-- crates/rocklake-catalog/src/writer/mod.rs: `next_rowid_range`, which hands out ranges of row ids.
pub mod Ranges
use slateduck.Prelude.{ℕ, List, [], ◌∷◌, ◌==◌, if◌then◌else◌}
use slateduck.Core.Result.{Result, ok, err, ok_or, CatalogResult, invalid_input, ◌>>=◌, ◌>>◌}
use slateduck.Core.Values.{encode_counter}
use slateduck.Core.Keys.System.{key_counter_rowid}
use slateduck.Catalog.Kv.{Kv}
use slateduck.Catalog.Lease.{checked_add}
use slateduck.Catalog.Gc.{counter_or_zero}

check_count : ℕ → CatalogResult (Unit {0})
check_count count =
    if count == 0 then err (invalid_input "rowid range count must be > 0" []) else ok tt

module _ (kv : Kv) where
  open kv use {Db, get, put}

  -- What a round of the loop computes before its put.
  range_in : Db → ℕ → ℕ → CatalogResult (ℕ × ℕ)
  range_in tx table_id count = do
    start ← counter_or_zero (get tx (key_counter_rowid table_id))
    end ← ok_or (checked_add start count) (invalid_input "rowid overflow" (start ∷ count ∷ []))
    ok (start, end)

  take_range : Db → ℕ → CatalogResult (ℕ × ℕ) → CatalogResult (ℕ × ℕ) × Db
  take_range db table_id (err e) = (err e, db)
  take_range db table_id (ok (start, end)) =
      (ok (start, end), put db (key_counter_rowid table_id) (encode_counter end))

  -- A round whose commit conflicts: `next` is the rest of the loop.
  lost_range : Db → CatalogResult (ℕ × ℕ) → CatalogResult (ℕ × ℕ) × Db → CatalogResult (ℕ × ℕ) × Db
  lost_range db (err e) next = (err e, db)
  lost_range db (ok range) next = next

  -- The list has, for each commit that conflicts, what the others wrote.
  range_loop : Db → ℕ → ℕ → List (Db → Db) → CatalogResult (ℕ × ℕ) × Db
  range_loop db table_id count [] = take_range db table_id (range_in db table_id count)
  range_loop db table_id count (others ∷ rounds) =
      lost_range db (range_in db table_id count) (range_loop (others db) table_id count rounds)

  counted : Db → CatalogResult (Unit {0}) → CatalogResult (ℕ × ℕ) × Db → CatalogResult (ℕ × ℕ) × Db
  counted db (err e) loop = (err e, db)
  counted db (ok u) loop = loop

  unfoldable pub next_rowid_range : Db → ℕ → ℕ → List (Db → Db) → CatalogResult (ℕ × ℕ) × Db
  unfolding check_count range_loop range_in take_range lost_range counted
  next_rowid_range db table_id count rounds =
      counted db (check_count count) (range_loop db table_id count rounds)
