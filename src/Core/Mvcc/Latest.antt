-- ===== src/Core/Mvcc/Latest.antt =====
-- `latest_visible_version` of mvcc.rs against the versions in its list.
use slateduck.Prelude.{
  ℕ, ◌≤◌, ◌≡◌, refl, ◌⊎◌, inl, true, false, Option, none, some, List, [], ◌∷◌, arith,
}
use slateduck.Core.Mvcc.{is_visible, Version, better, latest_loop, second, latest_visible_version}

-- Every visible version begins at or before `bound`.
abbrev pub AllBelow : {T : Type 0} → ℕ → ℕ → List (Version T) → Type 0
AllBelow snap bound [] = Unit {0}
AllBelow snap bound ((begin, end, item) ∷ vs) =
    (is_visible begin end snap ≡ true → begin ≤ bound) × AllBelow snap bound vs

-- The list holds a visible version of that first snapshot and that row.
abbrev pub Holds : {T : Type 0} → ℕ → ℕ → T → List (Version T) → Type 0
Holds snap b t [] = ⊥
Holds snap b t ((begin, end, item) ∷ vs) =
    ((is_visible begin end snap ≡ true) × (begin ≡ b) × (item ≡ t)) ⊎ Holds snap b t vs

abbrev pub NoneVisible : {T : Type 0} → ℕ → List (Version T) → Type 0
NoneVisible snap [] = Unit {0}
NoneVisible snap ((begin, end, item) ∷ vs) =
    (is_visible begin end snap ≡ false) × NoneVisible snap vs

-- What the loop leaves, from what it had.
abbrev BestOf : {T : Type 0} → ℕ → Option (ℕ × T) → List (Version T) → Option (ℕ × T) → Type 0
BestOf snap none vs none = NoneVisible snap vs
BestOf snap none vs (some (b, t)) = Holds snap b t vs × AllBelow snap b vs
BestOf snap (some (p, u)) vs none = ⊥
BestOf snap (some (p, u)) vs (some (b, t)) =
    (p ≤ b) × (((b ≡ p) × (t ≡ u)) ⊎ Holds snap b t vs) × AllBelow snap b vs

latest_loop-BestOf :
    {T : Type 0} (snap : ℕ) (best : Option (ℕ × T)) (vs : List (Version T))
    → BestOf snap best vs (latest_loop best vs snap)
unfolding latest_loop better
latest_loop-BestOf snap none [] = tt
latest_loop-BestOf snap (some (p, u)) [] = (omega arith, inl (refl, refl), tt)
latest_loop-BestOf snap none ((begin, end, item) ∷ vs) =
    ground (arith, latest_loop-BestOf snap none vs, latest_loop-BestOf snap (some (begin, item)) vs)
latest_loop-BestOf snap (some (p, u)) ((begin, end, item) ∷ vs) = ground (
  arith,
  latest_loop-BestOf snap (some (p, u)) vs,
  latest_loop-BestOf snap (some (begin, item)) vs,
)

-- A result is the row of a visible version, and no visible version begins later.
abbrev pub IsLatest : {T : Type 0} → ℕ → List (Version T) → Option T → Type 0
IsLatest snap vs none = NoneVisible snap vs
IsLatest snap vs (some t) = (b : ℕ) × (Holds snap b t vs × AllBelow snap b vs)

IsLatest-second :
    {T : Type 0} (snap : ℕ) (vs : List (Version T)) (r : Option (ℕ × T))
    → BestOf snap none vs r
    → IsLatest snap vs (second r)
unfolding second
IsLatest-second snap vs none h = h
IsLatest-second snap vs (some (b, t)) h = (b, h)

-- `latest_visible_version` returns the row of a visible version such that no visible version
-- begins later; where it returns none, no version is visible.
pub latest_visible_version-IsLatest :
    {T : Type 0} (snap : ℕ) (vs : List (Version T))
    → IsLatest snap vs (latest_visible_version vs snap)
unfolding latest_visible_version
latest_visible_version-IsLatest snap vs =
    IsLatest-second snap vs _ (latest_loop-BestOf snap none vs)
