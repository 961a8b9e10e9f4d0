-- ===== src/Pgwire/Session.antt =====
-- crates/rocklake-pgwire/src/session.rs: the batch of operations between BEGIN and COMMIT. The size
-- of a `BufferedOp` in memory, which the compiler chooses, is a parameter.
pub mod Batch
use slateduck.Prelude.{
  ℕ, ◌+◌, ◌*◌, Bool, true, false, Option, none, some, List, [], ◌∷◌, ◌++◌, ltb, if◌then◌else◌,
  length,
}
use slateduck.Prelude.Bytes.{Bytes}
use slateduck.Core.Result.{Result, ok, err}
use slateduck.Core.Text.{ℤ}

abbrev pub max_batch_size : ℕ
max_batch_size = 64 * 1024 * 1024

pub data BufferedOp : Type 0 where
  insert_schema : (schema_name : Bytes) → BufferedOp
  insert_table : (schema_id : ℕ) → (table_name : Bytes) → (data_path : Option Bytes) → BufferedOp
  insert_column :
      (table_id : ℕ)
      → (column_name : Bytes) → (data_type : Bytes) → (column_index : ℕ) → (is_nullable : Bool)
      → (default_value : Option Bytes) → (initial_default : Option Bytes)
      → (default_value_type : Option Bytes) → (default_value_dialect : Option Bytes)
      → (parent_column : Option ℕ) → BufferedOp
  insert_data_file :
      (table_id : ℕ)
      → (path : Bytes) → (file_format : Bytes) → (row_count : ℕ) → (file_size_bytes : ℕ)
      → BufferedOp
  insert_delete_file :
      (data_file_id : ℕ) → (path : Bytes) → (delete_count : ℕ) → (file_size_bytes : ℕ) → BufferedOp
  insert_snapshot : (author : Option Bytes) → (message : Option Bytes) → BufferedOp
  insert_snapshot_changes :
      (change_type : Bytes)
      → (change_info : Option Bytes) → (schema_id : Option ℕ) → (table_id : Option ℕ) → BufferedOp
  update_end_snapshot :
      (table_name : Bytes)
      → (entity_id : ℕ) → (begin_snapshot : ℕ) → (end_snapshot : ℕ) → BufferedOp
  update_table_stats : (table_id : ℕ) → (row_count_delta : ℤ) → BufferedOp
  set_table_stats :
      (table_id : ℕ) → (record_count : ℕ) → (file_size_bytes : ℕ) → (next_row_id : ℕ) → BufferedOp
  insert_file_column_stats :
      (table_id : ℕ)
      → (column_id : ℕ) → (data_file_id : ℕ) → (contains_null : Bool) → (min_value : Option Bytes)
      → (max_value : Option Bytes) → (contains_nan : Bool) → BufferedOp
  insert_table_column_stats :
      (table_id : ℕ)
      → (column_id : ℕ) → (contains_null : Bool) → (contains_nan : Option Bool)
      → (min_value : Option Bytes) → (max_value : Option Bytes) → (extra_stats : Option Bytes)
      → BufferedOp
  insert_metadata :
      (key : Bytes) → (value : Bytes) → (scope : Option Bytes) → (scope_id : Option ℕ) → BufferedOp
  insert_inlined_data_tables :
      (table_id : ℕ) → (table_name : Bytes) → (schema_version : ℕ) → BufferedOp
  insert_schema_versions : (begin_snapshot : ℕ) → (schema_version : ℕ) → (table_id : ℕ) → BufferedOp
  insert_inlined_row : (table_name : Bytes) → (rows : List (List (Option Bytes))) → BufferedOp
  delete_inlined_rows : (table_name : Bytes) → (row_ids : List ℕ) → BufferedOp
  insert_view :
      (schema_id : ℕ)
      → (view_name : Bytes) → (sql : Bytes) → (view_uuid : Option Bytes) → (dialect : Option Bytes)
      → (column_aliases : Option Bytes) → BufferedOp
  insert_macro :
      (schema_id : ℕ)
      → (macro_name : Bytes) → (macro_type : Bytes) → (macro_uuid : Option Bytes) → BufferedOp
  insert_macro_impl :
      (macro_id : ℕ)
      → (sql : Bytes) → (dialect : Option Bytes) → (impl_type : Option Bytes) → BufferedOp
  insert_macro_params :
      (macro_id : ℕ)
      → (impl_id : ℕ) → (column_id : ℕ) → (parameter_name : Bytes) → (parameter_type : Bytes)
      → (default_value : Option Bytes) → (default_value_type : Option Bytes) → BufferedOp
  insert_table_stats :
      (table_id : ℕ) → (record_count : ℕ) → (next_row_id : ℕ) → (file_size_bytes : ℕ) → BufferedOp

pub record PendingCatalogTxn : Type 0 where
  pub ops : List BufferedOp
  pub estimated_size : ℕ

pub data RockLakeError : Type 0 where
  batch_too_large : RockLakeError

unfoldable pub new : PendingCatalogTxn
new = record { ops = []; estimated_size = 0 }

-- The fixed part of the estimate for an operation.
module _ (size_of_op : ℕ) where
  unfoldable pub op_size : ℕ
  op_size = size_of_op + 128

  unfoldable pub push :
      PendingCatalogTxn → BufferedOp → Result RockLakeError (Unit {0}) × PendingCatalogTxn
  unfolding op_size
  push txn op =
      if ltb max_batch_size (txn.estimated_size + op_size) then (err batch_too_large, txn) else (
        ok tt,
        record { ops = txn.ops ++ (op ∷ []); estimated_size = txn.estimated_size + op_size },
      )

unfoldable pub take_ops : PendingCatalogTxn → List BufferedOp × PendingCatalogTxn
unfolding new
take_ops txn = (txn.ops, new)

unfoldable pub clear : PendingCatalogTxn → PendingCatalogTxn
unfolding new
clear txn = new

unfoldable pub is_empty : PendingCatalogTxn → Bool
is_empty txn = elim txn.ops [ [] ↦ true | op ∷ ops ↦ false ]

unfoldable pub len : PendingCatalogTxn → ℕ
len txn = length txn.ops
