-- ===== src/Pgwire/CopyParser.antt =====
-- crates/rocklake-pgwire/src/copy_parser.rs: the binary COPY format. The position in the stream is
-- the list of the bytes that are left. The loop over the rows takes fuel; `none` is a run out of it.
pub mod Termination
pub mod RoundTrip
pub mod Fields
pub mod Truncation
use slateduck.Prelude.{
  ℕ, zero, suc, ◌+◌, ◌-◌, Bool, true, false, Option, none, some, List, [], ◌∷◌, ◌++◌, ltb, leb,
  ◌==◌, if◌then◌else◌, length, take, drop,
}
use slateduck.Prelude.Bytes.{Bytes, starts_with}
use slateduck.Core.Result.{Result, ok, err, ◌>>=◌}
use slateduck.Core.BigEndian.{from_be_bytes}
use slateduck.Core.Tags.{codes}

abbrev pub pgcopy_signature : Bytes
pgcopy_signature = codes "PGCOPY" ++ (0x0A ∷ 0xFF ∷ 0x0D ∷ 0x0A ∷ 0x00 ∷ [])

pub data CopyParseError : Type 0 where
  too_short bad_signature truncated_header_ext : CopyParseError
  truncated_field_count : ℕ → CopyParseError
  truncated_field_length : ℕ → ℕ → CopyParseError
  truncated_field_body : ℕ → ℕ → ℕ → ℕ → CopyParseError
  missing_end_marker : CopyParseError

-- `none` is SQL's NULL.
abbrev pub Field : Type 0
Field = Option Bytes

abbrev pub Row : Type 0
Row = List Field

abbrev pub Parsed : Type 0 → Type 0
Parsed = Result CopyParseError

-- The body of a field of `len` bytes.
unfoldable pub read_body : ℕ → ℕ → ℕ → Bytes → Parsed (Field × Bytes)
read_body row field len rest =
    if ltb (length rest) len
    then err (truncated_field_body row field len (length rest))
    else ok (some (take len rest), drop len rest)

-- One field: its length is an `i32`, negative for NULL.
unfoldable pub read_field : ℕ → ℕ → Bytes → Parsed (Field × Bytes)
unfolding read_body
read_field row field rest =
    if ltb (length rest) 4
    then err (truncated_field_length row field)
    else if leb 2_147_483_648 (from_be_bytes (take 4 rest))
    then ok (none, drop 4 rest)
    else read_body row field (from_be_bytes (take 4 rest)) (drop 4 rest)

-- `count` fields, the first of them the row's field number `field`.
unfoldable pub read_fields : ℕ → ℕ → ℕ → Bytes → Parsed (Row × Bytes)
unfolding read_field
read_fields zero row field rest = ok ([], rest)
read_fields (suc count) row field rest = read_field row field rest >>= λ f.
    read_fields count row (field + 1) f.1 >>= λ fs. ok (f.0 ∷ fs.0, fs.1)

unfoldable pub add_row : Row → Option (Parsed (List Row)) → Option (Parsed (List Row))
add_row row none = none
add_row row (some (err e)) = some (err e)
add_row row (some (ok rows)) = some (ok (row ∷ rows))

module _ (next : Bytes → Option (Parsed (List Row))) where
  unfoldable pub after_row : Parsed (Row × Bytes) → Option (Parsed (List Row))
  unfolding add_row
  after_row (err e) = some (err e)
  after_row (ok p) = add_row p.0 (next p.1)

  -- One round of the loop over the rows: `next` is the rest of it. A field count below 0 ends it.
  unfoldable pub round : ℕ → Bytes → Option (Parsed (List Row))
  unfolding read_fields after_row
  round row rest =
      if ltb (length rest) 2
      then some (err (truncated_field_count row))
      else if leb 32_768 (from_be_bytes (take 2 rest))
      then some (ok [])
      else after_row (read_fields (from_be_bytes (take 2 rest)) row 0 (drop 2 rest))

unfoldable pub rows_loop : ℕ → ℕ → Bytes → Option (Parsed (List Row))
unfolding round
rows_loop zero row rest = none
rows_loop (suc fuel) row rest = round (rows_loop fuel (row + 1)) row rest

-- From the header extension on: its length, a `u32`, and that many bytes.
unfoldable pub after_flags : Bytes → Option (Parsed (List Row))
unfolding rows_loop
after_flags rest =
    if ltb (length rest) 4
    then some (err truncated_header_ext)
    else if ltb (length (drop 4 rest)) (from_be_bytes (take 4 rest))
    then some (err truncated_header_ext)
    else rows_loop (suc (length rest)) 0 (drop (from_be_bytes (take 4 rest)) (drop 4 rest))

unfoldable pub parse_binary_copy_rows : Bytes → Option (Parsed (List Row))
unfolding after_flags starts_with
parse_binary_copy_rows stream =
    if ltb (length stream) (length pgcopy_signature + 8)
    then some (err too_short)
    else if starts_with pgcopy_signature stream
    then after_flags (drop 4 (drop (length pgcopy_signature) stream))
    else some (err bad_signature)

unfoldable pub field_at : Row → ℕ → Field
field_at [] idx = none
field_at (f ∷ row) zero = f
field_at (f ∷ row) (suc idx) = field_at row idx

-- The `u64` whose two's complement is the `i64`.
unfoldable pub extract_i64 : Row → ℕ → Option ℕ
unfolding field_at
extract_i64 row idx = elim (field_at row idx) [
  | none ↦ none
  | some bytes ↦ if length bytes == 8 then some (from_be_bytes bytes) else none
]
