-- ===== src/Catalog/Writer/Views.antt =====
-- crates/rocklake-catalog/src/writer/mod.rs: views, macros, tags and sort info. The uuids and the
-- standard library's hash of a tag's key are arguments.
use slateduck.Prelude.{ℕ, Option, none, some}
use slateduck.Prelude.Bytes.{Bytes}
use slateduck.Core.Result.{not_found}
use slateduck.Core.Values.{encode_value}
use slateduck.Core.Rows.{
  Codecs, ViewRow, MacroRow, MacroImplRow, MacroParametersRow, TagRow, ColumnTagRow, SortInfoRow,
}
use slateduck.Core.Keys.Rows.{
  key_view, key_macro, key_macro_impl, key_macro_parameters, key_tag, key_column_tag, key_sort_info,
}
use slateduck.Core.Counters.{alloc_catalog_id}
use slateduck.Catalog.Kv.{Kv}
use slateduck.Catalog.Writer.Step.{
  Step, ◌>>=◌, pure, lift, alloc, peek, put_row, schema_mutation, existing,
}

abbrev or_uuid : Option Bytes → Bytes → Option Bytes
or_uuid none uuid = some uuid
or_uuid (some given) uuid = some given

module _ (codecs : Codecs) where
  unfoldable pub create_view_with_opts :
      Bytes → ℕ → Bytes → Bytes → Option Bytes → Option Bytes → Option Bytes → Step ℕ
  create_view_with_opts uuid schema_id view_name sql view_uuid dialect column_aliases = do
    view_id ← alloc alloc_catalog_id
    snapshot_id ← peek
    let row : ViewRow = record {
      view_id = view_id;
      schema_id = schema_id;
      view_name = view_name;
      sql = sql;
      begin_snapshot = snapshot_id;
      end_snapshot = none;
      view_uuid = or_uuid view_uuid uuid;
      dialect = dialect;
      column_aliases = column_aliases;
    }
    staged ← put_row (key_view schema_id view_id snapshot_id) (encode_value codecs.view row)
    marked ← schema_mutation
    pure view_id

  unfoldable pub create_view : Bytes → ℕ → Bytes → Bytes → Step ℕ
  unfolding create_view_with_opts
  create_view uuid schema_id view_name sql =
      create_view_with_opts uuid schema_id view_name sql none none none

  unfoldable pub create_macro : Bytes → ℕ → Bytes → Bytes → Step ℕ
  create_macro uuid schema_id macro_name macro_type = do
    macro_id ← alloc alloc_catalog_id
    snapshot_id ← peek
    let row : MacroRow = record {
      macro_id = macro_id;
      schema_id = schema_id;
      macro_name = macro_name;
      macro_type = macro_type;
      begin_snapshot = snapshot_id;
      end_snapshot = none;
      macro_uuid = some uuid;
    }
    staged ← put_row (key_macro schema_id macro_id snapshot_id) (encode_value codecs.macro row)
    marked ← schema_mutation
    pure macro_id

  unfoldable pub add_macro_impl_with_opts : ℕ → Bytes → Option Bytes → Option Bytes → Step ℕ
  add_macro_impl_with_opts macro_id sql dialect impl_type = do
    impl_id ← alloc alloc_catalog_id
    let row : MacroImplRow = record {
      impl_id = impl_id;
      macro_id = macro_id;
      sql = sql;
      dialect = dialect;
      impl_type = impl_type;
    }
    staged ← put_row (key_macro_impl macro_id impl_id) (encode_value codecs.macro_impl row)
    pure impl_id

  unfoldable pub add_macro_impl : ℕ → Bytes → Step ℕ
  unfolding add_macro_impl_with_opts
  add_macro_impl macro_id definition = add_macro_impl_with_opts macro_id definition none none

  unfoldable pub add_sort_info : ℕ → ℕ → Step (Unit {0})
  add_sort_info table_id sort_id = do
    snapshot_id ← peek
    let row : SortInfoRow = record {
      sort_id = sort_id;
      table_id = table_id;
      begin_snapshot = snapshot_id;
      end_snapshot = none;
    }
    put_row (key_sort_info table_id sort_id snapshot_id) (encode_value codecs.sort_info row)

  module _ (hash_tag_key : Bytes → ℕ) where
    unfoldable pub set_tag : ℕ → Bytes → Bytes → Step (Unit {0})
    set_tag object_id tag_key tag_value = do
      snapshot_id ← peek
      let row : TagRow = record {
        object_id = object_id;
        tag_key = tag_key;
        tag_value = tag_value;
        begin_snapshot = snapshot_id;
        end_snapshot = none;
      }
      put_row (key_tag object_id (hash_tag_key tag_key) snapshot_id) (encode_value codecs.tag row)

    unfoldable pub set_column_tag : ℕ → ℕ → Bytes → Bytes → Step (Unit {0})
    set_column_tag table_id column_id tag_key tag_value = do
      snapshot_id ← peek
      let row : ColumnTagRow = record {
        table_id = table_id;
        column_id = column_id;
        tag_key = tag_key;
        tag_value = tag_value;
        begin_snapshot = snapshot_id;
        end_snapshot = none;
      }
      put_row (key_column_tag table_id column_id (hash_tag_key tag_key) snapshot_id)
          (encode_value codecs.column_tag row)

  module _ (kv : Kv) where
    open kv use {Db, put}

    unfoldable pub drop_view : Db → ℕ → ℕ → ℕ → Step (Unit {0})
    drop_view db schema_id view_id begin_snapshot = do
      snapshot_id ← peek
      row ← lift (
          existing kv codecs.view db (key_view schema_id view_id begin_snapshot)
            (not_found "view" view_id))
      staged ←
          put_row (key_view schema_id view_id begin_snapshot)
            (encode_value codecs.view (record row { end_snapshot = some snapshot_id }))
      schema_mutation

    unfoldable pub drop_macro : Db → ℕ → ℕ → ℕ → Step (Unit {0})
    drop_macro db schema_id macro_id begin_snapshot = do
      snapshot_id ← peek
      row ← lift (
          existing kv codecs.macro db (key_macro schema_id macro_id begin_snapshot)
            (not_found "macro" macro_id))
      staged ←
          put_row (key_macro schema_id macro_id begin_snapshot)
            (encode_value codecs.macro (record row { end_snapshot = some snapshot_id }))
      schema_mutation

    -- This one is not staged: it is put at once.
    unfoldable pub add_macro_parameter_with_opts :
        Db → ℕ → ℕ → ℕ → Bytes → Bytes → Option Bytes → Option Bytes → Db
    add_macro_parameter_with_opts db macro_id impl_id column_id parameter_name parameter_type
          default_value default_value_type =
        let row : MacroParametersRow = record {
          macro_id = macro_id;
          impl_id = impl_id;
          column_id = column_id;
          parameter_name = parameter_name;
          parameter_type = parameter_type;
          default_value = default_value;
          default_value_type = default_value_type;
        } in
        put db (key_macro_parameters macro_id impl_id column_id)
          (encode_value codecs.macro_parameters row)

    unfoldable pub add_macro_parameter : Db → ℕ → ℕ → ℕ → Bytes → Bytes → Option Bytes → Db
    unfolding add_macro_parameter_with_opts
    add_macro_parameter db macro_id impl_id column_id parameter_name parameter_type default_value =
        add_macro_parameter_with_opts db macro_id impl_id column_id parameter_name parameter_type
          default_value none

    module _ (hash_tag_key : Bytes → ℕ) where
      unfoldable pub remove_tag : Db → ℕ → Bytes → ℕ → Step (Unit {0})
      remove_tag db object_id tag_key begin_snapshot = do
        snapshot_id ← peek
        row ← lift (
            existing kv codecs.tag db (key_tag object_id (hash_tag_key tag_key) begin_snapshot)
              (not_found "tag" object_id))
        put_row (key_tag object_id (hash_tag_key tag_key) begin_snapshot)
            (encode_value codecs.tag (record row { end_snapshot = some snapshot_id }))

      unfoldable pub remove_column_tag : Db → ℕ → ℕ → Bytes → ℕ → Step (Unit {0})
      remove_column_tag db table_id column_id tag_key begin_snapshot = do
        snapshot_id ← peek
        row ← lift (
            existing kv codecs.column_tag db
              (key_column_tag table_id column_id (hash_tag_key tag_key) begin_snapshot)
              (not_found "column tag" column_id))
        put_row (key_column_tag table_id column_id (hash_tag_key tag_key) begin_snapshot)
            (encode_value codecs.column_tag (record row { end_snapshot = some snapshot_id }))
