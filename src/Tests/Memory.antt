-- ===== src/Tests/Memory.antt =====
-- A key-value store in memory: a list of puts, newest first.
use slateduck.Prelude.{
  ◌≡◌, refl, true, false, none, some, List, [], ◌∷◌, if◌then◌else◌, All, Bool-cases, inl, inr,
  arith,
}
use slateduck.Prelude.Bytes.{
  Bytes, bytes_eq, bytes_eq_iff, bytes_eq_refl, bytes_lt, bytes_lt_trans, bytes_lt_total,
  starts_with,
}
use slateduck.Catalog.Kv.{Kv, Pair, lookup, IsSorted}

abbrev pub without : Bytes → List Pair → List Pair
without k [] = []
without k ((j, v) ∷ l) = if bytes_eq j k then without k l else (j, v) ∷ without k l

abbrev pub insert : Bytes → Bytes → List Pair → List Pair
insert k v [] = (k, v) ∷ []
insert k v ((j, w) ∷ l) =
    if bytes_eq k j
    then (k, v) ∷ l
    else if bytes_lt k j
    then (k, v) ∷ (j, w) ∷ l
    else (j, w) ∷ insert k v l

abbrev pub scan : List Pair → Bytes → List Pair
scan [] p = []
scan ((k, v) ∷ db) p = if starts_with p k then insert k v (scan db p) else scan db p

pub lookup-without :
    (l : List Pair) (k j : Bytes)
    → lookup j (without k l) ≡ (if bytes_eq k j then none else lookup j l)
unfolding lookup
lookup-without [] k j = ground arith
lookup-without ((i, v) ∷ l) k j = elim (Bool-cases (bytes_eq i k)) [
  | inl a ↦ elim (Bool-cases (bytes_eq k j)) [
    | inl b ↦ rw (a, b, lookup-without l k j, b) refl
    | inr b ↦ rw (a, b, lookup-without l k j, b, (bytes_eq_iff i k).0 a, b) refl
  ]
  | inr a ↦ elim (Bool-cases (bytes_eq i j)) [
    | inl c ↦ rw (a, c, bytes_eq_sym i j k c a) refl
    | inr c ↦ rw (a, c, lookup-without l k j) refl
  ]
]
  where
    bytes_eq_sym :
        (i j k : Bytes) → bytes_eq i j ≡ true → bytes_eq i k ≡ false → bytes_eq k j ≡ false
    bytes_eq_sym i j k c a = elim (Bool-cases (bytes_eq k j)) [
      | inr d ↦ d
      | inl d ↦ cc (a, bytes_eq_refl i, (bytes_eq_iff i j).0 c, (bytes_eq_iff k j).0 d)
    ]

lookup-insert :
    (l : List Pair) (k v j : Bytes)
    → lookup j (insert k v l) ≡ (if bytes_eq k j then some v else lookup j l)
unfolding lookup
lookup-insert [] k v j = refl
lookup-insert ((i, w) ∷ l) k v j = elim (Bool-cases (bytes_eq k i)) [
  | inl a ↦ elim (Bool-cases (bytes_eq k j)) [
    | inl b ↦ rw (a, b) refl
    | inr b ↦ rw (a, b, ← (bytes_eq_iff k i).0 a, b) refl
  ]
  | inr a ↦ elim (Bool-cases (bytes_lt k i)) [
    | inl c ↦ rw (a, c) refl
    | inr c ↦ elim (Bool-cases (bytes_eq i j)) [
      | inl d ↦ rw (a, c, d, ← (bytes_eq_iff i j).0 d, a) refl
      | inr d ↦ rw (a, c, d) (lookup-insert l k v j)
    ]
  ]
]

pub lookup-scan :
    (db : List Pair) (p k : Bytes)
    → lookup k (scan db p) ≡ (if starts_with p k then lookup k db else none)
unfolding lookup
lookup-scan [] p k = ground arith
lookup-scan ((j, w) ∷ db) p k = elim (Bool-cases (bytes_eq j k)) [
  | inl same ↦ elim (Bool-cases (starts_with p j)) [
    | inl s ↦ rw (s, lookup-insert (scan db p) j w k, same, ← (bytes_eq_iff j k).0 same, s) refl
    | inr o ↦ rw (o, lookup-scan db p k, same, ← (bytes_eq_iff j k).0 same, o) refl
  ]
  | inr other ↦ elim (Bool-cases (starts_with p j)) [
    | inl s ↦ rw (s, lookup-insert (scan db p) j w k, other) (lookup-scan db p k)
    | inr o ↦ rw (o, other) (lookup-scan db p k)
  ]
]

Above : Bytes → List Pair → Type 0
Above k l = All (λ e. bytes_lt k e.0 ≡ true) l

Above-insert :
    (i k v : Bytes) (l : List Pair) → bytes_lt i k ≡ true → Above i l → Above i (insert k v l)
unfolding Above
Above-insert i k v [] h a = (h, tt)
Above-insert i k v ((j, w) ∷ l) h a = elim (Bool-cases (bytes_eq k j)) [
  | inl e ↦ rw e (h, a.1)
  | inr e ↦ elim (Bool-cases (bytes_lt k j)) [
    | inl c ↦ rw (e, c) (h, a)
    | inr c ↦ rw (e, c) (a.0, Above-insert i k v l h a.1)
  ]
]

Above-trans : (i k : Bytes) (l : List Pair) → bytes_lt i k ≡ true → Above k l → Above i l
unfolding Above
Above-trans i k [] h a = tt
Above-trans i k ((j, w) ∷ l) h a = (bytes_lt_trans i k j h a.0, Above-trans i k l h a.1)

insert-IsSorted : (k v : Bytes) (l : List Pair) → IsSorted l → IsSorted (insert k v l)
unfolding Above
insert-IsSorted k v [] s = (tt, tt)
insert-IsSorted k v ((j, w) ∷ l) s = elim (Bool-cases (bytes_eq k j)) [
  | inl e ↦ rw e (rw ((bytes_eq_iff k j).0 e) s)
  | inr e ↦ elim (Bool-cases (bytes_lt k j)) [
    | inl c ↦ rw (e, c) ((c, Above-trans k j l c s.0), s)
    | inr c ↦
        rw (e, c) (Above-insert j k v l (bytes_lt_total k j e c) s.0, insert-IsSorted k v l s.1)
  ]
]

pub scan-IsSorted : (db : List Pair) (p : Bytes) → IsSorted (scan db p)
scan-IsSorted [] p = tt
scan-IsSorted ((k, v) ∷ db) p = elim (Bool-cases (starts_with p k)) [
  | inl s ↦ rw s (insert-IsSorted k v (scan db p) (scan-IsSorted db p))
  | inr o ↦ rw o (scan-IsSorted db p)
]

pub lookup-put :
    (db : List Pair) (k v j : Bytes)
    → lookup j ((k, v) ∷ db) ≡ (if bytes_eq k j then some v else lookup j db)
unfolding lookup
lookup-put db k v j = refl

abbrev pub mem_kv : Kv
mem_kv = record {
  Db = List Pair;
  get = λ db k. lookup k db;
  put = λ db k v. (k, v) ∷ db;
  delete = λ db k. without k db;
  scan_prefix = scan;
  get-put = lookup-put;
  get-delete = λ db k j. lookup-without db k j;
  scan-IsSorted = scan-IsSorted;
  lookup-scan = lookup-scan;
}
