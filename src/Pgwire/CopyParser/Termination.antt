-- ===== src/Pgwire/CopyParser/Termination.antt =====
-- The row loop of copy_parser.rs and its fuel.
use slateduck.Prelude.{
  length-drop, ℕ, zero, suc, ◌+◌, ◌<◌, ◌≤◌, ◌≡◌, refl, Option, none, some, List, [], ◌∷◌, ltb, leb,
  arith, length, take, drop, Bool-cases, inl, inr,
}
use slateduck.Prelude.Bytes.{Bytes, starts_with}
use slateduck.Core.Result.{ok, err, >>=-eq-ok, ok_injective}
use slateduck.Core.BigEndian.{from_be_bytes}
use slateduck.Pgwire.CopyParser.{
  Row, Field, Parsed, read_field, read_body, read_fields, add_row, after_row, round, rows_loop,
  after_flags, parse_binary_copy_rows, pgcopy_signature, too_short, bad_signature,
  truncated_header_ext, truncated_field_count,
}

read_field_shorter :
    (row field : ℕ) (rest : Bytes) (p : Field × Bytes)
    → read_field row field rest ≡ ok p
    → length p.1 ≤ length rest
unfolding read_field
read_field_shorter row field rest p h =
    ground (
      arith,
      length-drop 4 rest,
      length-drop (from_be_bytes (take 4 rest)) (drop 4 rest),
      read_body,
    )

read_fields_shorter :
    (count row field : ℕ) (rest : Bytes) (p : Row × Bytes)
    → read_fields count row field rest ≡ ok p
    → length p.1 ≤ length rest
unfolding read_fields
read_fields_shorter zero row field rest p h = rw (← ok_injective h) (omega arith)
read_fields_shorter (suc count) row field rest p h =
    let (f, e, h1) = >>=-eq-ok (read_field row field rest) _ h in
    let (fs, e1, h2) = >>=-eq-ok (read_fields count row (field + 1) f.1) _ h1 in
    let first = read_field_shorter row field rest f e in
    let later = read_fields_shorter count row (field + 1) f.1 fs e1 in
    rw (← ok_injective h2) (omega arith)

module _ (next : Bytes → Option (Parsed (List Row))) where
  add_row_total :
      (fields : Row) (o : Option (Parsed (List Row)))
      → (r : Parsed (List Row)) × (o ≡ some r)
      → (r : Parsed (List Row)) × (add_row fields o ≡ some r)
  unfolding add_row
  add_row_total fields none (r, e) = cc (e)
  add_row_total fields (some (err x)) h = (err x, refl)
  add_row_total fields (some (ok rows)) h = (ok (fields ∷ rows), refl)

  after_row_total :
      (c : Parsed (Row × Bytes))
      → ((p : Row × Bytes) → c ≡ ok p → (r : Parsed (List Row)) × (next p.1 ≡ some r))
      → (r : Parsed (List Row)) × (after_row next c ≡ some r)
  unfolding after_row
  after_row_total (err e) h = (err e, refl)
  after_row_total (ok p) h = add_row_total p.0 (next p.1) (h p refl)

  -- A round succeeds where the rest of the loop does on what it leaves.
  round_total :
      (row : ℕ) (rest : Bytes)
      → ((left : Bytes)
          → length left < length rest
          → (r : Parsed (List Row)) × (next left ≡ some r))
      → (r : Parsed (List Row)) × (round next row rest ≡ some r)
  unfolding round
  round_total row rest h = elim (Bool-cases (ltb (length rest) 2)) [
    | inl short ↦ rw short (err (truncated_field_count row), refl)
    | inr e ↦ elim (Bool-cases (leb 32_768 (from_be_bytes (take 2 rest)))) [
      | inl last ↦ rw (e, last) (ok [], refl)
      | inr more ↦
          rw (e, more)
            (after_row_total (read_fields (from_be_bytes (take 2 rest)) row 0 (drop 2 rest)) λ p q.
              let shorter = read_fields_shorter _ row 0 (drop 2 rest) p q in
              h p.1 (ground (arith, length-drop 2 rest, shorter)))
    ]
  ]

-- The loop ends within the fuel: each row takes two bytes or more.
rows_loop_total :
    (fuel row : ℕ) (rest : Bytes)
    → length rest < fuel
    → (r : Parsed (List Row)) × (rows_loop fuel row rest ≡ some r)
unfolding rows_loop
rows_loop_total zero row rest h = absurd (omega arith)
rows_loop_total (suc fuel) row rest h =
    round_total (rows_loop fuel (row + 1)) row rest
      λ left l. rows_loop_total fuel (row + 1) left (omega arith)

after_flags_total : (rest : Bytes) → (r : Parsed (List Row)) × (after_flags rest ≡ some r)
unfolding after_flags
after_flags_total rest = elim (Bool-cases (ltb (length rest) 4)) [
  | inl short ↦ rw short (err truncated_header_ext, refl)
  | inr e ↦ elim (Bool-cases (ltb (length (drop 4 rest)) (from_be_bytes (take 4 rest)))) [
    | inl cut ↦ rw (e, cut) (err truncated_header_ext, refl)
    | inr fits ↦
        rw (e, fits)
          (rows_loop_total (suc (length rest)) 0 (drop (from_be_bytes (take 4 rest)) (drop 4 rest))
            (omega
              (arith, length-drop 4 rest, length-drop (from_be_bytes (take 4 rest)) (drop 4 rest))))
  ]
]

-- The COPY parser returns rows or an error on every stream: its loop ends within the fuel.
pub parse_binary_copy_rows_total :
    (stream : Bytes) → (r : Parsed (List Row)) × (parse_binary_copy_rows stream ≡ some r)
unfolding parse_binary_copy_rows
parse_binary_copy_rows_total stream =
    elim (Bool-cases (ltb (length stream) (length pgcopy_signature + 8))) [
      | inl short ↦ rw short (err too_short, refl)
      | inr e ↦ elim (Bool-cases (starts_with pgcopy_signature stream)) [
        | inl signed ↦
            rw (e, signed) (after_flags_total (drop 4 (drop (length pgcopy_signature) stream)))
        | inr other ↦ rw (e, other) (err bad_signature, refl)
      ]
    ]
