-- ===== src/Core/Path.antt =====
-- crates/rocklake-core/src/path.rs: object-store paths, as the lists of their bytes.
pub mod Stored
use slateduck.Prelude.{
  ℕ, List, [], ◌∷◌, ◌++◌, Bool, true, false, Option, none, some, ◌==◌, if◌then◌else◌,
}
use slateduck.Prelude.Bytes.{Bytes}

pub data DataPathMode : Type 0 where
  absolute relative_to_data_prefix : DataPathMode

pub record CatalogPath : Type 0 where
  pub object_store_root : Bytes
  pub catalog_prefix : Bytes
  pub data_prefix : Bytes
  pub data_path_mode : DataPathMode

abbrev pub slash : ℕ
slash = b'/'

-- The standard library's `str::ends_with`, `trim_start_matches` and `strip_prefix`.
unfoldable pub ends_with : ℕ → Bytes → Bool
ends_with c [] = false
ends_with c (x ∷ []) = x == c
ends_with c (x ∷ y ∷ s) = ends_with c (y ∷ s)

unfoldable pub trim_start : ℕ → Bytes → Bytes
trim_start c [] = []
trim_start c (x ∷ s) = let rest = trim_start c s in if x == c then rest else x ∷ s

unfoldable pub strip_prefix : Bytes → Bytes → Option Bytes
strip_prefix [] s = some s
strip_prefix (p ∷ ps) [] = none
strip_prefix (p ∷ ps) (c ∷ s) = let rest = strip_prefix ps s in if p == c then rest else none

unfoldable pub normalize_trailing_slash : Bytes → Bytes
unfolding ends_with
normalize_trailing_slash [] = []
normalize_trailing_slash (x ∷ s) =
    if ends_with slash (x ∷ s) then x ∷ s else (x ∷ s) ++ (slash ∷ [])

unfoldable pub new : Bytes → Bytes → Bytes → DataPathMode → CatalogPath
unfolding normalize_trailing_slash
new object_store_root catalog_prefix data_prefix mode = record {
  object_store_root = normalize_trailing_slash object_store_root;
  catalog_prefix = normalize_trailing_slash catalog_prefix;
  data_prefix = normalize_trailing_slash data_prefix;
  data_path_mode = mode;
}

resolve_in : DataPathMode → Bytes → Bytes → Bytes
resolve_in DataPathMode.absolute data_prefix stored_path = stored_path
resolve_in DataPathMode.relative_to_data_prefix data_prefix stored_path =
    data_prefix ++ trim_start slash stored_path

unfoldable pub resolve_data_path : CatalogPath → Bytes → Bytes
unfolding resolve_in trim_start
resolve_data_path cp stored_path = resolve_in cp.data_path_mode cp.data_prefix stored_path

unwrap_or : Option Bytes → Bytes → Bytes
unwrap_or none d = d
unwrap_or (some s) d = s

stored_in : DataPathMode → Bytes → Bytes → Bytes
stored_in DataPathMode.absolute data_prefix absolute_path = absolute_path
stored_in DataPathMode.relative_to_data_prefix data_prefix absolute_path =
    unwrap_or (strip_prefix data_prefix absolute_path) absolute_path

unfoldable pub to_stored_path : CatalogPath → Bytes → Bytes
unfolding stored_in strip_prefix unwrap_or
to_stored_path cp absolute_path = stored_in cp.data_path_mode cp.data_prefix absolute_path

unfoldable pub catalog_full_path : CatalogPath → Bytes
unfolding trim_start
catalog_full_path cp = cp.object_store_root ++ trim_start slash cp.catalog_prefix

unfoldable pub data_full_path : CatalogPath → Bytes
unfolding trim_start
data_full_path cp = cp.object_store_root ++ trim_start slash cp.data_prefix
