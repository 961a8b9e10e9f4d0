-- ===== src/Core/Types.antt =====
-- crates/rocklake-core/src/types.rs: the column types and the errors of their comparison.
pub mod Parse
pub mod Compare
pub mod Pruning
pub mod Termination
use slateduck.Prelude.{ℕ, Bool}
use slateduck.Core.Text.{Text}

mutual
  -- The fields of `Integer`, `Decimal`, `Timestamp` and the others are in the source's order.
  pub data DuckLakeType : Type 0 where
    integer : Bool → ℕ → DuckLakeType
    decimal : ℕ → ℕ → DuckLakeType
    float : ℕ → DuckLakeType
    timestamp : Bool → ℕ → DuckLakeType
    date : DuckLakeType
    time : Bool → DuckLakeType
    interval varchar blob boolean uuid json variant geometry : DuckLakeType
    list : DuckLakeType → DuckLakeType
    struct : Fields → DuckLakeType
    map : DuckLakeType → DuckLakeType → DuckLakeType
    unknown : Text → DuckLakeType

  -- The vector of a struct's named fields.
  pub data Fields : Type 0 where
    no_fields : Fields
    field : Text → DuckLakeType → Fields → Fields

-- A value's text with the name of the type that it was read as.
pub data TypeCompareError : Type 0 where
  unsupported_type : DuckLakeType → TypeCompareError
  parse_error : Text → Text → TypeCompareError
  nan_comparison : TypeCompareError

pub data PruneResult : Type 0 where
  prune keep : PruneResult
