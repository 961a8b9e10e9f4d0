-- ===== src/Pgwire/CopyParser/RoundTrip.antt =====
-- The binary COPY format, written from its description in copy_parser.rs, against the parser.
use slateduck.Prelude.{
  ℕ, zero, suc, ◌+◌, ◌^◌, ◌<◌, ◌≤◌, ◌≡◌, refl, ap, ◌∙◌, false, none, some, List, [], ◌∷◌, ◌++◌,
  append_assoc, ltb, leb, arith, length, length-append, take, drop, take-append, drop-append, All,
}
use slateduck.Prelude.Bytes.{Bytes, starts_with}
use slateduck.Core.Result.{ok}
use slateduck.Core.BigEndian.{
  be_bytes, from_be_bytes, length-be_bytes, take-be_bytes, from_be_bytes-be_bytes,
}
use slateduck.Pgwire.CopyParser.{
  Row, Field, read_field, read_body, read_fields, add_row, after_row, round, rows_loop, after_flags,
  parse_binary_copy_rows, pgcopy_signature,
}

-- A field: its length and its bytes, and -1 alone for NULL.
abbrev pub field_bytes : Field → Bytes
field_bytes none = be_bytes 4 4_294_967_295
field_bytes (some body) = be_bytes 4 (length body) ++ body

unfoldable pub fields_bytes : Row → Bytes
fields_bytes [] = []
fields_bytes (f ∷ fs) = field_bytes f ++ fields_bytes fs

-- The rows, each behind its field count, and the trailer, which is -1.
unfoldable pub rows_bytes : List Row → Bytes
unfolding fields_bytes
rows_bytes [] = be_bytes 2 65_535
rows_bytes (row ∷ rows) = be_bytes 2 (length row) ++ (fields_bytes row ++ rows_bytes rows)

-- A stream with its flags and its header extension.
unfoldable pub stream_bytes : ℕ → Bytes → List Row → Bytes
unfolding rows_bytes
stream_bytes flags ext rows =
    pgcopy_signature ++ (be_bytes 4 flags ++ (be_bytes 4 (length ext) ++ (ext ++ rows_bytes rows)))

-- The lengths fit their signed fields.
abbrev pub FieldFits : Field → Type 0
FieldFits none = Unit {0}
FieldFits (some body) = length body < 2_147_483_648

abbrev pub RowFits : Row → Type 0
RowFits row = (length row < 32_768) × All FieldFits row

pub drop-be_bytes : (n v : ℕ) (rest : Bytes) → drop n (be_bytes n v ++ rest) ≡ rest
drop-be_bytes n v rest = rw length-be_bytes at (drop-append (be_bytes n v) rest)

pub read-be_bytes :
    (n v : ℕ) (rest : Bytes) → v < 256 ^ n → from_be_bytes (take n (be_bytes n v ++ rest)) ≡ v
read-be_bytes n v rest h = ap from_be_bytes (take-be_bytes n v rest) ∙ from_be_bytes-be_bytes n v h

enough-be_bytes : (n v : ℕ) (rest : Bytes) → ltb (length (be_bytes n v ++ rest)) n ≡ false
enough-be_bytes n v rest = ground (arith, length-append (be_bytes n v) rest, length-be_bytes n v)

not_ltb : (m n : ℕ) → n ≤ m → ltb m n ≡ false
not_ltb m n h = ground arith

not_leb : (m n : ℕ) → n < m → leb m n ≡ false
not_leb m n h = ground arith

read_field_bytes :
    (row field : ℕ) (f : Field) (rest : Bytes)
    → FieldFits f
    → read_field row field (field_bytes f ++ rest) ≡ ok (f, rest)
unfolding read_field read_body
read_field_bytes row field none rest h =
    rw
      (
        enough-be_bytes 4 4_294_967_295 rest,
        read-be_bytes 4 4_294_967_295 rest (omega arith),
        drop-be_bytes 4 4_294_967_295 rest,
      )
      refl
read_field_bytes row field (some body) rest h =
    rw
      (
        append_assoc,
        enough-be_bytes 4 (length body) (body ++ rest),
        read-be_bytes 4 (length body) (body ++ rest) (omega arith),
        not_leb 2_147_483_648 (length body) h,
        drop-be_bytes 4 (length body) (body ++ rest),
        not_ltb (length (body ++ rest)) (length body) (omega (arith, length-append body rest)),
        take-append body rest,
        drop-append body rest,
      )
      refl

read_fields_bytes :
    (fields : Row) (row field : ℕ) (rest : Bytes)
    → All FieldFits fields
    → read_fields (length fields) row field (fields_bytes fields ++ rest) ≡ ok (fields, rest)
unfolding read_fields fields_bytes
read_fields_bytes [] row field rest h = refl
read_fields_bytes (f ∷ fs) row field rest (h, hs) =
    rw
      (
        append_assoc,
        read_field_bytes row field f (fields_bytes fs ++ rest) h,
        read_fields_bytes fs row (field + 1) rest hs,
      )
      refl

-- Bytes behind the trailer are not looked at.
rows_loop-rows_bytes :
    (rows : List Row) (fuel row : ℕ) (rest : Bytes)
    → length rows < fuel
    → All RowFits rows
    → rows_loop fuel row (rows_bytes rows ++ rest) ≡ some (ok rows)
unfolding rows_loop round rows_bytes after_row add_row
rows_loop-rows_bytes rows zero row rest h fits = absurd (omega arith)
rows_loop-rows_bytes [] (suc fuel) row rest h fits =
    rw (enough-be_bytes 2 65_535 rest, read-be_bytes 2 65_535 rest (omega arith)) refl
rows_loop-rows_bytes (fields ∷ rows) (suc fuel) row rest h ((short, fits), later) =
    rw
      (
        append_assoc,
        append_assoc,
        enough-be_bytes 2 (length fields) (fields_bytes fields ++ (rows_bytes rows ++ rest)),
        read-be_bytes 2 (length fields) (fields_bytes fields ++ (rows_bytes rows ++ rest))
            (omega arith),
        not_leb 32_768 (length fields) short,
        drop-be_bytes 2 (length fields) (fields_bytes fields ++ (rows_bytes rows ++ rest)),
        read_fields_bytes fields row 0 (rows_bytes rows ++ rest) fits,
        rows_loop-rows_bytes rows fuel (row + 1) rest (omega arith) later,
      )
      refl

length-rows_bytes : (rows : List Row) → length rows ≤ length (rows_bytes rows)
unfolding rows_bytes
length-rows_bytes [] = omega arith
length-rows_bytes (row ∷ rows) = omega (
  arith,
  length-rows_bytes rows,
  length-append (be_bytes 2 (length row)) (fields_bytes row ++ rows_bytes rows),
  length-append (fields_bytes row) (rows_bytes rows),
  length-be_bytes 2 (length row),
)

pub after_flags_bytes :
    (ext : Bytes) (rows : List Row) (rest : Bytes)
    → length ext < 2 ^ 32
    → All RowFits rows
    → after_flags (be_bytes 4 (length ext) ++ (ext ++ (rows_bytes rows ++ rest))) ≡ some (ok rows)
unfolding after_flags
after_flags_bytes ext rows rest h fits =
    let body = ext ++ (rows_bytes rows ++ rest) in
    let whole = be_bytes 4 (length ext) ++ body in
    let sizes : length rows < suc (length whole) = omega (
      arith,
      length-append (be_bytes 4 (length ext)) body,
      length-append ext (rows_bytes rows ++ rest),
      length-append (rows_bytes rows) rest,
      length-rows_bytes rows,
    ) in
    rw
      (
        enough-be_bytes 4 (length ext) body,
        read-be_bytes 4 (length ext) body (omega arith),
        drop-be_bytes 4 (length ext) body,
        not_ltb (length body) (length ext)
            (omega (arith, length-append ext (rows_bytes rows ++ rest))),
        drop-append ext (rows_bytes rows ++ rest),
      )
      (rows_loop-rows_bytes rows (suc (length whole)) 0 rest sizes fits)

parse_signed :
    (body : Bytes)
    → 8 ≤ length body
    → parse_binary_copy_rows (pgcopy_signature ++ body) ≡ after_flags (drop 4 body)
unfolding parse_binary_copy_rows starts_with
parse_signed body h = ground arith

pub stream_bytes-append :
    (flags : ℕ) (ext : Bytes) (rows : List Row) (rest : Bytes)
    → (stream_bytes flags ext rows ++ rest) ≡ (
        pgcopy_signature
        ++ (be_bytes 4 flags ++ (be_bytes 4 (length ext) ++ (ext ++ (rows_bytes rows ++ rest)))))
unfolding stream_bytes
stream_bytes-append flags ext rows rest = simp append_assoc

-- A stream in the binary COPY format, with any flags, a header extension below 4 GiB and counts
-- and lengths that fit their signed fields, parses to the rows it was made of, whatever bytes
-- follow its trailer.
pub parse_binary_copy_rows-stream_bytes :
    (flags : ℕ) (ext : Bytes) (rows : List Row) (rest : Bytes)
    → length ext < 2 ^ 32
    → All RowFits rows
    → parse_binary_copy_rows (stream_bytes flags ext rows ++ rest) ≡ some (ok rows)
parse_binary_copy_rows-stream_bytes flags ext rows rest h fits =
    let sized = be_bytes 4 (length ext) ++ (ext ++ (rows_bytes rows ++ rest)) in
    let long : 8 ≤ length (be_bytes 4 flags ++ sized) = omega (
      arith,
      length-append (be_bytes 4 flags) sized,
      length-append (be_bytes 4 (length ext)) (ext ++ (rows_bytes rows ++ rest)),
      length-be_bytes 4 flags,
      length-be_bytes 4 (length ext),
    ) in
    ap parse_binary_copy_rows (stream_bytes-append flags ext rows rest)
    ∙ parse_signed (be_bytes 4 flags ++ sized) long
    ∙ ap after_flags (drop-be_bytes 4 flags sized)
    ∙ after_flags_bytes ext rows rest h fits
