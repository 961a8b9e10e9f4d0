-- ===== src/Core/Path/Stored.antt =====
-- Stored paths of path.rs against full ones, there and back.
use slateduck.Prelude.{◌≡◌, ◌≢◌, refl, subst, [], ◌∷◌, ◌++◌, true, false, none, some, arith}
use slateduck.Prelude.Bytes.{Bytes, starts_with, starts_with_self}
use slateduck.Core.Path.{
  DataPathMode, absolute, relative_to_data_prefix, CatalogPath, slash, trim_start, strip_prefix,
  resolve_in, unwrap_or, stored_in, resolve_data_path, to_stored_path,
}

strip_prefix-append : (p s : Bytes) → strip_prefix p (p ++ s) ≡ some s
unfolding strip_prefix
strip_prefix-append [] s = refl
strip_prefix-append (x ∷ p) s = ground (arith, strip_prefix-append p s)

strip_prefix-eq-none : (p s : Bytes) → starts_with p s ≡ false → strip_prefix p s ≡ none
unfolding strip_prefix starts_with
strip_prefix-eq-none [] s h = cc
strip_prefix-eq-none (x ∷ p) [] h = refl
strip_prefix-eq-none (x ∷ p) (y ∷ s) h = ground (arith, strip_prefix-eq-none p s)

-- A path in stored form: in relative mode it has no slash in front.
abbrev pub IsStored : CatalogPath → Bytes → Type 0
IsStored cp s = (cp.data_path_mode ≡ relative_to_data_prefix) → trim_start slash s ≡ s

-- Storing the full path of a stored path, which in relative mode has no slash in front, gives the
-- stored path back.
pub stored-resolve :
    (cp : CatalogPath) (s : Bytes) → IsStored cp s → to_stored_path cp (resolve_data_path cp s) ≡ s
unfolding to_stored_path resolve_data_path
stored-resolve cp s h = go cp.data_path_mode h
  where
    go :
        (m : DataPathMode)
        → ((m ≡ relative_to_data_prefix) → trim_start slash s ≡ s)
        → stored_in m cp.data_prefix (resolve_in m cp.data_prefix s) ≡ s
    go absolute k = refl
    go relative_to_data_prefix k = rw (k refl, strip_prefix-append cp.data_prefix s)

-- In relative mode a path under the data prefix, with no second slash behind it, is resolved to
-- itself after it was stored; one outside the prefix never is.
pub resolve-stored :
    (cp : CatalogPath) (p : Bytes)
    → cp.data_path_mode ≡ relative_to_data_prefix
    → ((s : Bytes)
        → trim_start slash s ≡ s
        → p ≡ cp.data_prefix ++ s
        → resolve_data_path cp (to_stored_path cp p) ≡ p)
      × (starts_with cp.data_prefix p ≡ false → resolve_data_path cp (to_stored_path cp p) ≢ p)
unfolding to_stored_path resolve_data_path
resolve-stored cp p m = rw m (
  (λ s hs e. rw (e, strip_prefix-append cp.data_prefix s, unwrap_or, hs)),
  (λ outside back. cc (
    outside,
    subst (λ q. starts_with cp.data_prefix q ≡ true) back (starts_with_self cp.data_prefix _),
  )),
)
