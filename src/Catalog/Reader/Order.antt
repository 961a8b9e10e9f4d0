-- ===== src/Catalog/Reader/Order.antt =====
-- The `sort_by_key` of `list_data_files` in reader.rs: its rows and their order.
use slateduck.Prelude.{
  ℕ, ◌≤◌, ◌↔◌, inl, inr, Bool, true, false, List, [], ◌∷◌, if◌then◌else◌, leb, arith, All, IsIn,
  Bool-cases,
}
use slateduck.Catalog.Reader.{insert_by, sort_by_key}

module _ {R : Type 0} (f : R → ℕ) where
  abbrev pub Ascends : List R → Type 0
  Ascends [] = Unit {0}
  Ascends (r ∷ rows) = All (λ s. f r ≤ f s) rows × Ascends rows

  insert-IsIn : (r s : R) (rows : List R) → IsIn s (insert_by f r rows) ↔ IsIn s (r ∷ rows)
  unfolding insert_by
  insert-IsIn r s [] = (λ i. i, λ i. i)
  insert-IsIn r s (t ∷ rows) = go (leb (f r) (f t)) (insert-IsIn r s rows)
    where
      go :
          (b : Bool)
          → (IsIn s (insert_by f r rows) ↔ IsIn s (r ∷ rows))
          → (IsIn s (if b then r ∷ t ∷ rows else t ∷ insert_by f r rows) ↔ IsIn s (r ∷ t ∷ rows))
      go true rest = (λ i. i, λ i. i)
      go false rest = (
        λ i. elim i [
          | inl e ↦ inr (inl e)
          | inr x ↦ elim (rest.0 x) [ inl e ↦ inl e | inr y ↦ inr (inr y) ]
        ],
        λ i. elim i [
          | inl e ↦ inr (rest.1 (inl e))
          | inr x ↦ elim x [ inl e ↦ inl e | inr y ↦ inr (rest.1 (inr y)) ]
        ],
      )

  pub sort-IsIn : (s : R) (rows : List R) → IsIn s (sort_by_key f rows) ↔ IsIn s rows
  unfolding sort_by_key
  sort-IsIn s [] = (λ i. i, λ i. i)
  sort-IsIn s (r ∷ rows) = (
    λ i. elim ((insert-IsIn r s (sort_by_key f rows)).0 i) [
      | inl e ↦ inl e
      | inr x ↦ inr ((sort-IsIn s rows).0 x)
    ],
    λ i.
        (insert-IsIn r s (sort_by_key f rows)).1
          (elim i [ inl e ↦ inl e | inr x ↦ inr ((sort-IsIn s rows).1 x) ]),
  )

  All-insert :
      (n : ℕ) (r : R) (rows : List R)
      → n ≤ f r
      → All (λ s. n ≤ f s) rows
      → All (λ s. n ≤ f s) (insert_by f r rows)
  unfolding insert_by
  All-insert n r [] h a = (h, tt)
  All-insert n r (t ∷ rows) h a = elim (Bool-cases (leb (f r) (f t))) [
    | inl y ↦ rw y (h, a)
    | inr x ↦ rw x (a.0, All-insert n r rows h a.1)
  ]

  All-weaken : (m n : ℕ) (rows : List R) → m ≤ n → All (λ s. n ≤ f s) rows → All (λ s. m ≤ f s) rows
  All-weaken m n [] h a = tt
  All-weaken m n (t ∷ rows) h a = (omega (arith, h, a.0), All-weaken m n rows h a.1)

  insert-Ascends : (r : R) (rows : List R) → Ascends rows → Ascends (insert_by f r rows)
  unfolding insert_by
  insert-Ascends r [] a = (tt, tt)
  insert-Ascends r (t ∷ rows) a = elim (Bool-cases (leb (f r) (f t))) [
    | inl y ↦ rw y ((ground (arith, y), All-weaken (f r) (f t) rows (ground (arith, y)) a.0), a)
    | inr x ↦ rw x (All-insert (f t) r rows (ground (arith, x)) a.0, insert-Ascends r rows a.1)
  ]

  pub sort-Ascends : (rows : List R) → Ascends (sort_by_key f rows)
  unfolding sort_by_key
  sort-Ascends [] = tt
  sort-Ascends (r ∷ rows) = insert-Ascends r (sort_by_key f rows) (sort-Ascends rows)
