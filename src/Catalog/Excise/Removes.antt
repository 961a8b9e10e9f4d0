-- ===== src/Catalog/Excise/Removes.antt =====
-- The loops of excise.rs that delete the keys of a scan.
use slateduck.Prelude.{
  ◌≡◌, refl, sym, ◌∙◌, ◌⊎◌, inl, inr, Bool, true, none, some, List, [], ◌∷◌, All, Bool-cases,
  Option-cases, some_injective,
}
use slateduck.Prelude.Bytes.{Bytes, bytes_eq, bytes_eq_iff, starts_with}
use slateduck.Core.Result.{ok, err, map_err, CatalogResult, value, ok_injective, >>=-eq-ok}
use slateduck.Core.Values.{Message, decode_value}
use slateduck.Catalog.Kv.{Kv, Pair, lookup, IsSorted}
use slateduck.Catalog.Reader.Scan.{map_err-eq-ok, lookup_first, lookup_later, later_key_differs}
use slateduck.Catalog.Reader.Listing.{scanned}
use slateduck.Catalog.Excise.{eligible, delete_keys, delete_eligible, delete_found, then_do, Effect}

-- A value under a prefix that decodes to a row that a test selects.
pub record Selected {R : Type 0} (m : Message R) (test : R → Bool) (prefix k v : Bytes)
    : Type 0 where
  pub under : starts_with prefix k ≡ true
  pub row : R
  pub decodes : decode_value m v ≡ ok row
  pub old : test row ≡ true

module _ {R : Type 0} (m : Message R) (test : R → Bool) where
  abbrev Found : List Pair → Bytes × R → Type 0
  Found l e =
      (v : Bytes) × (lookup e.0 l ≡ some v) × (decode_value m v ≡ ok e.1) × (test e.1 ≡ true)

  Found-later :
      (k v : Bytes) (l : List Pair) (rows : List (Bytes × R))
      → IsSorted ((k, v) ∷ l)
      → All (Found l) rows
      → All (Found ((k, v) ∷ l)) rows
  Found-later k v l [] sorted hs = tt
  Found-later k v l ((j, row) ∷ rows) sorted ((w, g, d, t), hs) = (
    (w, lookup_later k v j w l (later_key_differs k j w l sorted.0 g) g, d, t),
    Found-later k v l rows sorted hs,
  )

  eligible-Found :
      (l : List Pair) (rows : List (Bytes × R))
      → IsSorted l
      → eligible m test l ≡ ok rows
      → All (Found l) rows
  unfolding eligible
  eligible-Found [] rows sorted h = rw (← ok_injective h) tt
  eligible-Found ((k, v) ∷ l) rows sorted h =
      let (row, d, h1) = >>=-eq-ok (map_err value (decode_value m v)) _ h in
      let (later, e, h2) = >>=-eq-ok (eligible m test l) _ h1 in
      let rest = Found-later k v l later sorted (eligible-Found l later sorted.1 e) in
      rw (← ok_injective h2) (elim (Bool-cases (test row)) [
        | inl t ↦ rw t ((v, lookup_first k v l, map_err-eq-ok _ d, t), rest)
        | inr t ↦ rw t rest
      ])

module _ (kv : Kv) where
  open kv use {Db, get, put, delete, scan_prefix, scan-IsSorted, get-delete, get-put}

  -- On the keys in `Q` nothing changes, but that a key whose value is in `P` may be gone.
  abbrev pub Removes : (Bytes → Type 0) → (Bytes → Bytes → Type 0) → Db → Db → Type 0
  Removes Q P db after =
      (k : Bytes)
      → Q k
      → (get after k ≡ get db k)
        ⊎ ((v : Bytes) × (get db k ≡ some v) × (get after k ≡ none) × P k v)

  module _ (Q : Bytes → Type 0) (P : Bytes → Bytes → Type 0) where
    Removes-trans :
        (db mid after : Db) → Removes Q P db mid → Removes Q P mid after → Removes Q P db after
    Removes-trans db mid after f g k q = elim (f k q) [
      | inl e ↦ elim (g k q) [ inl d ↦ inl (d ∙ e) | inr (v, a, b, p) ↦ inr (v, sym e ∙ a, b, p) ]
      | inr (v, a, b, p) ↦ elim (g k q) [ inl d ↦ inr (v, a, d ∙ b, p) | inr (w, c, _, _) ↦ cc ]
    ]

    pub then_do-Removes :
        {A B : Type 0} (db : Db) (r : CatalogResult A × Db) (next : A → Effect kv B)
        → Removes Q P db r.1
        → ((a : A) (mid : Db) → Removes Q P mid (next a mid).1)
        → Removes Q P db (then_do kv r next).1
    unfolding then_do
    then_do-Removes db (err e, mid) next f g = f
    then_do-Removes db (ok a, mid) next f g = Removes-trans db mid _ f (g a mid)

    delete_keys-Removes :
        {R : Type 0} (fails : Bytes → Bool) (rows : List (Bytes × R)) (db : Db)
        → All (λ (e : Bytes × R). (v : Bytes) → get db e.0 ≡ some v → P e.0 v) rows
        → Removes Q P db (delete_keys kv fails rows db).1
    unfolding delete_keys
    delete_keys-Removes fails [] db hs = λ k q. inl refl
    delete_keys-Removes {R} fails ((key, row) ∷ rest) db (h, hs) = elim (Bool-cases (fails key)) [
      | inl f ↦ rw f (delete_keys-Removes fails rest db hs)
      | inr f ↦ rw f (
          Removes-trans db (delete db key) _ gone
            (delete_keys-Removes fails rest (delete db key) (after rest hs)))
    ]
      where
        gone : Removes Q P db (delete db key)
        gone k q = elim (Bool-cases (bytes_eq key k)) [
          | inr other ↦ inl (rw (get-delete db key k, other) refl)
          | inl same ↦ elim (Option-cases (get db k)) [
            | inl absent ↦ inl (rw (get-delete db key k, same, absent) refl)
            | inr (v, e) ↦
                let equal = (bytes_eq_iff key k).0 same in
                inr (v, e, rw (get-delete db key k, same) refl, rw (← equal) (h v (rw equal e)))
          ]
        ]

        after :
            (l : List (Bytes × R))
            → All (λ (e : Bytes × R). (v : Bytes) → get db e.0 ≡ some v → P e.0 v) l
            → All (λ (e : Bytes × R). (v : Bytes) → get (delete db key) e.0 ≡ some v → P e.0 v) l
        after [] gs = tt
        after ((j, r) ∷ l) (g, gs) = (
          λ v e. elim (Bool-cases (bytes_eq key j)) [
            | inl same ↦ cc (rw (get-delete db key j, same) at e)
            | inr other ↦ g v (rw (get-delete db key j, other) at e)
          ],
          after l gs,
        )

    pub delete_eligible-Removes :
        {R : Type 0} (fails : Bytes → Bool) (m : Message R) (test : R → Bool) (prefix : Bytes)
        (db : Db)
        → ((k v : Bytes) → Selected m test prefix k v → P k v)
        → Removes Q P db (delete_eligible kv fails m test prefix db).1
    unfolding delete_eligible delete_found
    delete_eligible-Removes {R} fails m test prefix db weaken =
        go (eligible m test (scan_prefix db prefix)) refl
      where
        holds :
            (rows : List (Bytes × R))
            → All (Found m test (scan_prefix db prefix)) rows
            → All (λ (e : Bytes × R). (v : Bytes) → get db e.0 ≡ some v → P e.0 v) rows
        holds [] hs = tt
        holds ((k, row) ∷ rows) ((w, g, d, t), hs) = (
          λ v e.
              let at = scanned kv db prefix k w g in
              let same : w ≡ v = some_injective (sym at.1 ∙ e) in
              weaken k v (record { under = at.0; row = row; decodes = rw (← same) d; old = t }),
          holds rows hs,
        )

        go :
            (c : CatalogResult (List (Bytes × R)))
            → eligible m test (scan_prefix db prefix) ≡ c
            → Removes Q P db (delete_found kv fails db c).1
        go (err e) h = λ k q. inl refl
        go (ok rows) h =
            delete_keys-Removes fails rows db
              (holds rows (eligible-Found m test _ rows (scan-IsSorted db prefix) h))
