-- ===== src/Core/Types/Parse.antt =====
-- crates/rocklake-core/src/types.rs: `DuckLakeType::parse` and `split_top_level`. A nested type is
-- parsed by a call on a part of its text; the calls take fuel, and `none` is a run out of it.
use Prim.Native.String.{String}
use slateduck.Prelude.{
  ℕ, zero, suc, ◌+◌, ◌-◌, Bool, true, false, ◌&&◌, ◌||◌, Option, none, some, List, [], ◌∷◌, ◌==◌,
  if◌then◌else◌, length, drop,
}
use slateduck.Prelude.Bytes.{bytes_eq, starts_with}
use slateduck.Core.Tags.{codes}
use slateduck.Core.Path.{ends_with}
use slateduck.Core.Text.{Text, trim, to_ascii_lowercase, find, drop_last, parse_unsigned}
use slateduck.Core.Types.{
  DuckLakeType, integer, decimal, float, timestamp, date, time, interval, varchar, blob, boolean,
  uuid, json, variant, geometry, list, struct, map, unknown, Fields, no_fields, field,
}

-- The loop of `split_top_level`: the depth, the part that is being read, and the text left.
unfoldable pub cons_part : ℕ → List Text → List Text
cons_part c [] = (c ∷ []) ∷ []
cons_part c (part ∷ parts) = (c ∷ part) ∷ parts

unfoldable pub depth_after : ℕ → ℕ → ℕ
depth_after depth c = if c == b'<' then depth + 1 else if c == b'>' then depth - 1 else depth

unfoldable pub is_split : ℕ → ℕ → ℕ → Bool
is_split sep depth c =
    if c == b'<' then false else if c == b'>' then false else ((c == sep) && (depth == 0))

unfoldable pub split_loop : ℕ → ℕ → Text → List Text
unfolding cons_part depth_after is_split
split_loop sep depth [] = [] ∷ []
split_loop sep depth (c ∷ s) =
    let rest = split_loop sep (depth_after depth c) s in
    if is_split sep depth c then [] ∷ rest else cons_part c rest

unfoldable pub split_top_level : Text → ℕ → List Text
unfolding split_loop
split_top_level s sep = split_loop sep 0 s

-- `str::split` on a character.
unfoldable pub split : ℕ → Text → List Text
unfolding cons_part
split sep [] = [] ∷ []
split sep (c ∷ s) = let rest = split sep s in if c == sep then [] ∷ rest else cons_part c rest

-- The types that are one word or phrase.
abbrev words : List (List String × DuckLakeType)
words =
    ("int8" ∷ "tinyint" ∷ [], integer true 8)
    ∷ ("int16" ∷ "smallint" ∷ "short" ∷ [], integer true 16)
    ∷ ("int32" ∷ "int" ∷ "integer" ∷ "signed" ∷ [], integer true 32)
    ∷ ("int64" ∷ "bigint" ∷ "long" ∷ [], integer true 64)
    ∷ ("int128" ∷ "hugeint" ∷ [], integer true 128)
    ∷ ("uint8" ∷ "utinyint" ∷ [], integer false 8)
    ∷ ("uint16" ∷ "usmallint" ∷ [], integer false 16)
    ∷ ("uint32" ∷ "uinteger" ∷ [], integer false 32)
    ∷ ("uint64" ∷ "ubigint" ∷ [], integer false 64)
    ∷ ("uint128" ∷ "uhugeint" ∷ [], integer false 128)
    ∷ ("float" ∷ "float32" ∷ "real" ∷ [], float 32)
    ∷ ("double" ∷ "float64" ∷ "float8" ∷ [], float 64)
    ∷ ("timestamp" ∷ "datetime" ∷ [], timestamp false 6)
    ∷ ("timestamp with time zone" ∷ "timestamptz" ∷ "timestamp_tz" ∷ [], timestamp true 6)
    ∷ ("timestamp_s" ∷ [], timestamp false 0)
    ∷ ("timestamp_ms" ∷ [], timestamp false 3)
    ∷ ("timestamp_us" ∷ [], timestamp false 6)
    ∷ ("timestamp_ns" ∷ [], timestamp false 9)
    ∷ ("date" ∷ "date32" ∷ [], date)
    ∷ ("time" ∷ "time without time zone" ∷ [], time false)
    ∷ ("time with time zone" ∷ "timetz" ∷ "time_tz" ∷ [], time true)
    ∷ ("interval" ∷ [], interval)
    ∷ ("varchar" ∷ "text" ∷ "string" ∷ "char" ∷ "bpchar" ∷ "name" ∷ [], varchar)
    ∷ ("blob" ∷ "bytea" ∷ "binary" ∷ "varbinary" ∷ [], blob)
    ∷ ("boolean" ∷ "bool" ∷ "logical" ∷ [], boolean)
    ∷ ("uuid" ∷ [], uuid)
    ∷ ("json" ∷ [], json)
    ∷ ("variant" ∷ [], variant)
    ∷ ("geometry" ∷ "wkb_blob" ∷ [], geometry)
    ∷ ("decimal" ∷ "numeric" ∷ [], decimal 18 3)
    ∷ []

unfoldable pub is_any : List String → Text → Bool
is_any [] s = false
is_any (word ∷ rest) s = bytes_eq (codes word) s || is_any rest s

named_in : List (List String × DuckLakeType) → Text → DuckLakeType
named_in [] lower = unknown lower
named_in ((spellings, t) ∷ rest) lower =
    let other = named_in rest lower in if is_any spellings lower then t else other

unfoldable pub named : Text → DuckLakeType
unfolding named_in is_any bytes_eq
named lower = named_in words lower

or_default : Option ℕ → ℕ → ℕ
or_default none d = d
or_default (some n) d = n

-- What stands between the brackets of `decimal(P,S)`.
decimal_of : List Text → DuckLakeType
decimal_of (p ∷ s ∷ []) =
    decimal (or_default (parse_unsigned 256 (trim p)) 18)
      (or_default (parse_unsigned 256 (trim s)) 0)
decimal_of _ = decimal 18 0

behind_bracket : Text → Text
behind_bracket lower = elim (find b'(' lower) [ none ↦ lower | some p ↦ p.1 ]

-- `parse` of a text that is no list, struct or map.
unfoldable pub scalar : Text → DuckLakeType
unfolding decimal_of or_default behind_bracket named split
scalar lower =
    if (starts_with (codes "decimal(") lower || starts_with (codes "numeric(") lower)
      && ends_with b')' lower
    then decimal_of (split b',' (drop_last (behind_bracket lower)))
    else named lower

module _ (nested : Text → Option DuckLakeType) where
  unfoldable pub add_field : Text → Option DuckLakeType → Option Fields → Option Fields
  add_field name (some t) (some fs) = some (field name t fs)
  add_field name _ _ = none

  -- A part without a colon is skipped.
  unfoldable pub parse_fields : List Text → Option Fields
  unfolding add_field
  parse_fields [] = some no_fields
  parse_fields (part ∷ parts) =
      let rest = parse_fields parts in
      elim (find b':' part) [ none ↦ rest | some p ↦ add_field (trim p.0) (nested (trim p.1)) rest ]

  unfoldable pub map_of : Option DuckLakeType → Option DuckLakeType → Option DuckLakeType
  map_of (some k) (some v) = some (map k v)
  map_of _ _ = none

  -- A map of other than two parts is read on as a scalar.
  unfoldable pub parse_map : Text → List Text → Option DuckLakeType
  parse_map lower (k ∷ v ∷ []) = map_of (nested (trim k)) (nested (trim v))
  parse_map lower _ = some (scalar lower)

  unfoldable pub list_of : Option DuckLakeType → Option DuckLakeType
  list_of none = none
  list_of (some t) = some (list t)

  unfoldable pub struct_of : Option Fields → Option DuckLakeType
  struct_of none = none
  struct_of (some fs) = some (struct fs)

  -- The body of `parse` on the trimmed text and its lower case.
  unfoldable pub parse_trimmed : Text → Text → Option DuckLakeType
  unfolding parse_map map_of list_of struct_of parse_fields
  parse_trimmed s lower =
      if starts_with (codes "list<") lower && ends_with b'>' lower
      then list_of (nested (drop_last (drop 5 s)))
      else if starts_with (codes "struct<") lower && ends_with b'>' lower
      then struct_of (parse_fields (split_top_level (drop_last (drop 7 s)) b','))
      else if starts_with (codes "map<") lower && ends_with b'>' lower
      then parse_map lower (split_top_level (drop_last (drop 4 s)) b',')
      else some (scalar lower)

unfoldable pub parse_in : ℕ → Text → Option DuckLakeType
unfolding parse_trimmed
parse_in zero s = none
parse_in (suc fuel) s =
    let t = trim s in parse_trimmed (parse_in fuel) t (trim (to_ascii_lowercase t))

unfoldable pub parse : Text → Option DuckLakeType
unfolding parse_in
parse s = parse_in (length s + 1) s
