-- ===== src/Catalog/Kv.antt =====
-- SlateDB, the key-value store under the catalog, is a library: it is an argument of the model, with
-- what its documentation promises. A transaction reads the state at its begin; the puts of one that
-- commits all take effect, and those of one that does not leave no trace.
use slateduck.Prelude.{
  ℕ, take, ◌≡◌, refl, ap, ◌∙◌, true, false, Option, none, some, List, [], ◌∷◌, ◌++◌, if◌then◌else◌,
  All,
}
use slateduck.Prelude.Bytes.{Bytes, bytes_eq, bytes_lt, starts_with}

abbrev pub Pair : Type 0
Pair = Bytes × Bytes

-- The value of the first pair with that key.
unfoldable pub lookup : Bytes → List Pair → Option Bytes
lookup k [] = none
lookup k ((j, v) ∷ l) = if bytes_eq j k then some v else lookup k l

-- Each key is smaller than all that follow.
abbrev pub IsSorted : List Pair → Type 0
IsSorted [] = Unit {0}
IsSorted ((k, v) ∷ l) = All (λ e. bytes_lt k e.0 ≡ true) l × IsSorted l

pub record Kv : Type 1 where
  pub Db : Type 0
  pub get : Db → Bytes → Option Bytes
  pub put : Db → Bytes → Bytes → Db
  pub delete : Db → Bytes → Db
  pub scan_prefix : Db → Bytes → List Pair
  pub get-put :
      (db : Db) (k v j : Bytes) → get (put db k v) j ≡ (if bytes_eq k j then some v else get db j)
  pub get-delete :
      (db : Db) (k j : Bytes) → get (delete db k) j ≡ (if bytes_eq k j then none else get db j)
  pub scan-IsSorted : (db : Db) (p : Bytes) → IsSorted (scan_prefix db p)
  pub lookup-scan :
      (db : Db) (p k : Bytes)
      → lookup k (scan_prefix db p) ≡ (if starts_with p k then get db k else none)

module _ (kv : Kv) where
  open kv use {Db, get, put, scan_prefix, lookup-scan}

  -- The puts of a transaction, in order.
  unfoldable pub put_all : Db → List Pair → Db
  put_all db [] = db
  put_all db ((k, v) ∷ l) = put_all (put db k v) l

  -- A scan finds what stands under its prefix.
  pub scan_finds :
      (db : Db) (p k v : Bytes)
      → starts_with p k ≡ true
      → get db k ≡ some v
      → lookup k (scan_prefix db p) ≡ some v
  scan_finds db p k v s g = rw (lookup-scan db p k, s) g

-- The state after what the others wrote in each of the conflicting rounds.
abbrev pub after_rounds : {S : Type 0} → S → List (S → S) → S
after_rounds s [] = s
after_rounds s (others ∷ rounds) = after_rounds (others s) rounds

-- A loop that failed stopped in some round, for a reason in what it saw there, and put nothing.
abbrev pub StoppedAt : {S : Type 0} → (S → Type 0) → S → List (S → S) → S → Type 0
StoppedAt Reason s rounds s' =
    (n : ℕ) × (s' ≡ after_rounds s (take n rounds)) × Reason (after_rounds s (take n rounds))

-- What a list of puts leaves under a key that held `old`.
unfoldable pub written : Bytes → List Pair → Option Bytes → Option Bytes
written k [] old = old
written k ((j, v) ∷ l) old = written k l (if bytes_eq j k then some v else old)

pub written-append :
    (k : Bytes) (l m : List Pair) (old : Option Bytes)
    → written k (l ++ m) old ≡ written k m (written k l old)
unfolding written
written-append k [] m old = refl
written-append k ((j, v) ∷ l) m old = written-append k l m (if bytes_eq j k then some v else old)

-- No put of the list is under the key.
abbrev pub Avoids : Bytes → List Pair → Type 0
Avoids k [] = Unit {0}
Avoids k ((j, v) ∷ l) = (bytes_eq j k ≡ false) × Avoids k l

pub written_avoided :
    (k : Bytes) (l : List Pair) (old : Option Bytes) → Avoids k l → written k l old ≡ old
unfolding written
written_avoided k [] old h = refl
written_avoided k ((j, v) ∷ l) old h = rw (h.0) (written_avoided k l old h.1)

module _ (kv : Kv) where
  open kv use {Db, get, put, get-put}

  pub get-put_all :
      (db : Db) (l : List Pair) (k : Bytes) → get (put_all kv db l) k ≡ written k l (get db k)
  unfolding put_all written
  get-put_all db [] k = refl
  get-put_all db ((j, v) ∷ l) k = get-put_all (put db j v) l k ∙ ap (written k l) (get-put db j v k)
