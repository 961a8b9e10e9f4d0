-- ===== src/Catalog/Writer/Step.antt =====
-- The shape of the writer's operations: `&mut self` as a state, and `?` that leaves it where it is.
use slateduck.Prelude.{ℕ}
use slateduck.Prelude.Bytes.{Bytes}
use slateduck.Core.Result.{ok, err, map_err, ok_or, CatalogResult, CatalogError, value}
use slateduck.Core.Values.{Message, decode_value}
use slateduck.Core.Counters.{CounterCache, peek_snapshot_id}
use slateduck.Catalog.Kv.{Kv}
use slateduck.Catalog.Writer.{CatalogWriter, stage, mark_schema_changed}

abbrev pub Step : Type 0 → Type 0
Step A = CatalogWriter → CatalogResult A × CatalogWriter

module _ {A : Type 0} where
  abbrev pub pure : A → Step A
  pure a w = (ok a, w)

  abbrev pub lift : CatalogResult A → Step A
  lift r w = (r, w)

module _ {A B : Type 0} where
  abbrev pub and_then : CatalogResult A → (A → Step B) → Step B
  and_then (ok a) f w = f a w
  and_then (err e) f w = (err e, w)

  infixl 5 ◌>>=◌
  abbrev pub ◌>>=◌ : Step A → (A → Step B) → Step B
  ◌>>=◌ m f w = and_then (m w).0 f (m w).1

-- `self.counters.alloc_…()`.
abbrev pub alloc : (CounterCache → ℕ × CounterCache) → Step ℕ
alloc f w = (ok (f w.counters).0, record w { counters = (f w.counters).1 })

-- `self.counters.peek_snapshot_id()`.
abbrev pub peek : Step ℕ
peek w = (ok (peek_snapshot_id w.counters), w)

abbrev pub put_row : Bytes → Bytes → Step (Unit {0})
put_row k v w = (ok tt, stage w k v)

abbrev pub schema_mutation : Step (Unit {0})
schema_mutation w = (ok tt, mark_schema_changed w)

abbrev decoded : {R : Type 0} → Message R → CatalogResult Bytes → CatalogResult R
decoded m (ok bytes) = map_err value (decode_value m bytes)
decoded m (err e) = err e

-- The row that has to be there.
abbrev pub existing :
    {R : Type 0} (kv : Kv) → Message R → kv.Db → Bytes → CatalogError → CatalogResult R
existing kv m db k missing = decoded m (ok_or (kv.get db k) missing)
