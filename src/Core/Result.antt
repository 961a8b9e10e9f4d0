-- ===== src/Core/Result.antt =====
-- Rust's `Result`, with `?` as `>>=`, and the error types of the two crates:
-- crates/rocklake-core/src/keys.rs, crates/rocklake-core/src/values.rs and
-- crates/rocklake-catalog/src/error.rs. A formatted message is kept as the values it shows.
use Prim.Native.String.{String}
use slateduck.Prelude.{ℕ, ◌≡◌, ◌⊎◌, inl, inr, refl, Option, none, some, List}
use slateduck.Prelude.Bytes.{Bytes}
use slateduck.Core.Types.{TypeCompareError}

pub data Result (E A : Type 0) : Type 0 where
  ok : A → Result E A
  err : E → Result E A

abbrev pub map_err : {E F A : Type 0} → (E → F) → Result E A → Result F A
map_err f (err e) = err (f e)
map_err f (ok a) = ok a

infixl 5 ◌>>=◌
abbrev pub ◌>>=◌ : {E A B : Type 0} → Result E A → (A → Result E B) → Result E B
err e >>= next = err e
ok a >>= next = next a

abbrev pub ok_or : {E A : Type 0} → Option A → E → Result E A
ok_or (some a) e = ok a
ok_or none e = err e

infixl 5 ◌>>◌
abbrev pub ◌>>◌ : {E B : Type 0} → Result E (Unit {0}) → Result E B → Result E B
first >> next = first >>= λ done. next

pub data KeyError : Type 0 where
  unknown_tag : ℕ → KeyError
  too_short : ℕ → ℕ → KeyError
  invalid_utf8 : String → KeyError
  identifier_too_long : ℕ → ℕ → KeyError

pub data ValueError : Type 0 where
  too_short : ℕ → ℕ → ValueError
  invalid_magic : Bytes → ValueError
  unsupported_version : ℕ → ValueError
  decode_error : String → ValueError
  too_large : ℕ → ℕ → ValueError

-- The variants that the modelled operations return.
pub data CatalogError : Type 0 where
  key : KeyError → CatalogError
  value : ValueError → CatalogError
  format_version_mismatch : ℕ → ℕ → CatalogError
  not_initialized : CatalogError
  writer_epoch_mismatch : CatalogError
  not_found : String → ℕ → CatalogError
  value_too_large : ℕ → CatalogError
  transaction_conflict : CatalogError
  pinned_snapshot_blocks : ℕ → ℕ → CatalogError
  excision_unsafe : ℕ → ℕ → CatalogError
  snapshot_out_of_retention : ℕ → ℕ → CatalogError
  corrupt_lease : Bytes → CatalogError
  invalid_input : String → List ℕ → CatalogError
  internal : String → CatalogError
  type_compare : TypeCompareError → CatalogError
  ttl_overflow : ℕ → CatalogError
  expiry_overflow : ℕ → ℕ → CatalogError

abbrev pub CatalogResult : Type 0 → Type 0
CatalogResult = Result CatalogError

-- Inversion of a successful bind.
pub >>=-eq-ok :
    {E A B : Type 0} (r : Result E A) (next : A → Result E B) {done : B}
    → (r >>= next) ≡ ok done
    → (a : A) × (r ≡ ok a) × (next a ≡ ok done)
>>=-eq-ok (err e) next p = cc
>>=-eq-ok (ok a) next p = (a, refl, p)

-- Inversion of a bind that fails.
pub >>=-eq-err :
    {E A B : Type 0} (r : Result E A) (next : A → Result E B) {e : E}
    → (r >>= next) ≡ err e
    → (r ≡ err e) ⊎ ((a : A) × (r ≡ ok a) × (next a ≡ err e))
>>=-eq-err (err e) next p = inl cc
>>=-eq-err (ok a) next p = inr (a, refl, p)

pub ok_injective : {E A : Type 0} {a b : A} → ◌≡◌ {A = Result E A} (ok a) (ok b) → a ≡ b
ok_injective e = cc
