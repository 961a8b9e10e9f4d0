-- ===== src/Pgwire/CopyParser/Truncation.antt =====
-- The parser of copy_parser.rs on streams that are cut.
use slateduck.Prelude.{
  length-drop, ℕ, zero, suc, ◌+◌, ◌^◌, ◌<◌, ◌≤◌, ◌≡◌, refl, sym, ap, ◌∙◌, Option, none, some, List,
  [], ◌∷◌, ◌++◌, append-nil, ltb, leb, arith, length, length-append, take, drop, All, Bool-cases,
  inl, inr, some_injective,
}
use slateduck.Prelude.Bytes.{Bytes}
use slateduck.Core.Result.{ok, err, ok_injective}
use slateduck.Core.BigEndian.{be_bytes, from_be_bytes, length-be_bytes}
use slateduck.Pgwire.CopyParser.{
  Row, Parsed, read_fields, add_row, after_row, round, rows_loop, after_flags,
  parse_binary_copy_rows, pgcopy_signature, CopyParseError,
}
use slateduck.Pgwire.CopyParser.Termination.{parse_binary_copy_rows_total}
use slateduck.Pgwire.CopyParser.RoundTrip.{
  fields_bytes, rows_bytes, stream_bytes, RowFits, stream_bytes-append, drop-be_bytes,
  read-be_bytes, after_flags_bytes,
}
use slateduck.Pgwire.CopyParser.Fields.{take_front, drop_front, enough, read_fields-Reads}

-- A loop that returned rows returns them from a longer stream too, with as much fuel or more, and
-- its stream is no shorter than the rows.
abbrev Accepts :
    (Bytes → Option (Parsed (List Row))) → (Bytes → Option (Parsed (List Row))) → Type 0
Accepts loop more =
    (b t : Bytes) (rows : List Row)
    → loop b ≡ some (ok rows)
    → (more (b ++ t) ≡ some (ok rows)) × (length (rows_bytes rows) ≤ length b)

add_row-eq-ok :
    (fields : Row) (o : Option (Parsed (List Row))) (rows : List Row)
    → add_row fields o ≡ some (ok rows)
    → (later : List Row) × (o ≡ some (ok later)) × (rows ≡ fields ∷ later)
unfolding add_row
add_row-eq-ok fields none rows h = cc
add_row-eq-ok fields (some (err e)) rows h = cc
add_row-eq-ok fields (some (ok later)) rows h = (later, refl, cc)

length-trailer : length (rows_bytes []) ≡ 2
unfolding rows_bytes
length-trailer = length-be_bytes 2 65_535

length-row :
    (row : Row) (rows : List Row)
    → length (rows_bytes (row ∷ rows)) ≡ 2 + length (fields_bytes row) + length (rows_bytes rows)
unfolding rows_bytes
length-row row rows = omega (
  arith,
  length-be_bytes 2 (length row),
  length-append (be_bytes 2 (length row)) (fields_bytes row ++ rows_bytes rows),
  length-append (fields_bytes row) (rows_bytes rows),
)

module _ (next more : Bytes → Option (Parsed (List Row))) (accepts : Accepts next more) where
  after_row-eq-ok :
      (c : Parsed (Row × Bytes)) (rows : List Row)
      → after_row next c ≡ some (ok rows)
      → (p : Row × Bytes) × (c ≡ ok p) × (add_row p.0 (next p.1) ≡ some (ok rows))
  unfolding after_row
  after_row-eq-ok (err e) rows h = cc
  after_row-eq-ok (ok p) rows h = (p, refl, h)

  round-Accepts : (row : ℕ) → Accepts (round next row) (round more row)
  unfolding round
  round-Accepts row b t rows h = elim (Bool-cases (ltb (length b) 2)) [
    | inl short ↦ cc (rw short at h)
    | inr e ↦
        let fits : 2 ≤ length b = ground arith in
        let h1 = rw e at h in
        rw (enough 2 b t e, take_front 2 b t fits, drop_front 2 b t fits)
          (elim (Bool-cases (leb 32_768 (from_be_bytes (take 2 b)))) [
            | inl last ↦
                let none_left : [] ≡ rows = ok_injective (some_injective (rw last at h1)) in
                rw (last, ← none_left) (refl, omega (arith, length-trailer))
            | inr goes_on ↦
                let (p, read, h2) =
                  after_row-eq-ok (read_fields (from_be_bytes (take 2 b)) row 0 (drop 2 b)) rows
                    (rw goes_on at h1) in
                let (longer, sizes) =
                  read_fields-Reads (from_be_bytes (take 2 b)) row 0 (drop 2 b) t p read in
                let (later, found, eq) = add_row-eq-ok p.0 (next p.1) rows h2 in
                let (rest, rest_sizes) = accepts p.1 t later found in
                rw (goes_on, longer, eq)
                  (
                    unfold after_row add_row in rw rest refl,
                    omega (arith, sizes, rest_sizes, length-drop 2 b, length-row p.0 later),
                  )
          ])
  ]

rows_loop-Accepts :
    (fuel more row : ℕ) → fuel ≤ more → Accepts (rows_loop fuel row) (rows_loop more row)
unfolding rows_loop
rows_loop-Accepts zero more row le b t rows h = cc
rows_loop-Accepts (suc fuel) zero row le b t rows h = absurd (omega arith)
rows_loop-Accepts (suc fuel) (suc more) row le b t rows h =
    round-Accepts (rows_loop fuel (row + 1)) (rows_loop more (row + 1))
      (rows_loop-Accepts fuel more (row + 1) (omega arith)) row b t rows h

-- The header extension is accounted for as well.
after_flags_accepts :
    (b t : Bytes) (rows : List Row)
    → after_flags b ≡ some (ok rows)
    → (after_flags (b ++ t) ≡ some (ok rows))
      × (4 ≤ length b)
      × (4 + from_be_bytes (take 4 b) + length (rows_bytes rows) ≤ length b)
unfolding after_flags
after_flags_accepts b t rows h = elim (Bool-cases (ltb (length b) 4)) [
  | inl short ↦ cc (rw short at h)
  | inr e ↦
      let fits : 4 ≤ length b = ground arith in
      let ext = from_be_bytes (take 4 b) in
      elim (Bool-cases (ltb (length (drop 4 b)) ext)) [
        | inl cut ↦ cc (rw (e, cut) at h)
        | inr d ↦
            let ext_fits : ext ≤ length (drop 4 b) = ground arith in
            let (longer, sizes) =
              rows_loop-Accepts (suc (length b)) (suc (length (b ++ t))) 0
                (omega (arith, length-append b t)) (drop ext (drop 4 b)) t rows (rw (e, d) at h) in
            (
              rw
                  (
                    enough 4 b t e,
                    take_front 4 b t fits,
                    drop_front 4 b t fits,
                    enough ext (drop 4 b) t d,
                    drop_front ext (drop 4 b) t ext_fits,
                  )
                  longer,
              fits,
              omega (arith, sizes, length-drop 4 b, length-drop ext (drop 4 b)),
            )
      ]
]

parse_accepts :
    (b : Bytes) (rows : List Row)
    → parse_binary_copy_rows b ≡ some (ok rows)
    → (15 ≤ length b) × (after_flags (drop 4 (drop 11 b)) ≡ some (ok rows))
unfolding parse_binary_copy_rows
parse_accepts b rows h = ground arith

-- Behind the signature and the flags of a stream that is cut stands a part of what stood there.
after_header :
    (flags : ℕ) (ext : Bytes) (rows : List Row) (b t : Bytes)
    → b ++ t ≡ stream_bytes flags ext rows
    → 15 ≤ length b
    → drop 4 (drop 11 b) ++ t ≡ be_bytes 4 (length ext) ++ (ext ++ (rows_bytes rows ++ []))
after_header flags ext rows b t e fits =
    let sized = be_bytes 4 (length ext) ++ (ext ++ (rows_bytes rows ++ [])) in
    let whole : b ++ t ≡ pgcopy_signature ++ (be_bytes 4 flags ++ sized) =
      e ∙ sym (append-nil _) ∙ stream_bytes-append flags ext rows [] in
    sym (drop_front 4 (drop 11 b) t (omega (arith, length-drop 11 b)))
    ∙ ap (drop 4) (sym (drop_front 11 b t (omega arith)))
    ∙ ap (λ s. drop 4 (drop 11 s)) whole
    ∙ drop-be_bytes 4 flags sized

-- A stream in the binary COPY format, with a header extension below 4 GiB and counts and lengths
-- that fit their signed fields, is refused with an error when it is cut anywhere, so that at least
-- its last byte is missing.
pub parse_binary_copy_rows_cut :
    (flags : ℕ) (ext : Bytes) (rows : List Row) (b t : Bytes)
    → length ext < 2 ^ 32
    → All RowFits rows
    → b ++ t ≡ stream_bytes flags ext rows
    → 0 < length t
    → (e : CopyParseError) × (parse_binary_copy_rows b ≡ some (err e))
parse_binary_copy_rows_cut flags ext rows b t h fits cut missing =
    let (r, total) = parse_binary_copy_rows_total b in refused r total
  where
    refused :
        (r : Parsed (List Row))
        → parse_binary_copy_rows b ≡ some r
        → (e : CopyParseError) × (parse_binary_copy_rows b ≡ some (err e))
    refused (err e) total = (e, total)
    refused (ok found) total =
        let (long, accepted) = parse_accepts b found total in
        let left = drop 4 (drop 11 b) in
        let whole = after_header flags ext rows b t cut long in
        let (longer, four, sizes) = after_flags_accepts left t found accepted in
        let same : found ≡ rows = ok_injective (
          some_injective
            (sym longer ∙ ap after_flags whole ∙ after_flags_bytes ext rows [] h fits)) in
        let ext_len : from_be_bytes (take 4 left) ≡ length ext =
          ap from_be_bytes (sym (take_front 4 left t four) ∙ ap (take 4) whole)
          ∙ read-be_bytes 4 (length ext) (ext ++ (rows_bytes rows ++ [])) (omega arith) in
        let total_size = ap length whole in
        absurd (
          omega (
            arith,
            rw same at sizes,
            ext_len,
            total_size,
            length-append left t,
            length-append (be_bytes 4 (length ext)) (ext ++ (rows_bytes rows ++ [])),
            length-append ext (rows_bytes rows ++ []),
            length-append (rows_bytes rows) [],
            length-be_bytes 4 (length ext),
          ))
