-- ===== src/Pgwire/CopyParser/Fields.antt =====
-- The fields of a row that copy_parser.rs reads, and the bytes they take.
use slateduck.Prelude.{
  length-drop, ℕ, zero, suc, ◌+◌, ◌-◌, ◌≤◌, ◌≡◌, refl, ap, false, none, some, [], ◌∷◌, ◌++◌, ltb,
  leb, arith, length, length-append, take, drop, Bool-cases, inl, inr,
}
use slateduck.Prelude.Bytes.{Bytes}
use slateduck.Core.Result.{ok, >>=-eq-ok, ok_injective}
use slateduck.Core.BigEndian.{be_bytes, from_be_bytes, length-be_bytes}
use slateduck.Pgwire.CopyParser.{Field, Parsed, read_field, read_body, read_fields}
use slateduck.Pgwire.CopyParser.RoundTrip.{field_bytes, fields_bytes}

pub take_front : (n : ℕ) (b t : Bytes) → n ≤ length b → take n (b ++ t) ≡ take n b
take_front zero b t h = refl
take_front (suc n) [] t h = absurd (omega arith)
take_front (suc n) (x ∷ b) t h = ap (◌∷◌ x) (take_front n b t (omega arith))

pub drop_front : (n : ℕ) (b t : Bytes) → n ≤ length b → drop n (b ++ t) ≡ drop n b ++ t
drop_front zero b t h = refl
drop_front (suc n) [] t h = absurd (omega arith)
drop_front (suc n) (x ∷ b) t h = drop_front n b t (omega arith)

pub length-take : (n : ℕ) (b : Bytes) → n ≤ length b → length (take n b) ≡ n
length-take zero b h = refl
length-take (suc n) [] h = absurd (omega arith)
length-take (suc n) (x ∷ b) h = omega (arith, length-take n b)

pub enough : (n : ℕ) (b t : Bytes) → ltb (length b) n ≡ false → ltb (length (b ++ t)) n ≡ false
enough n b t h = ground (arith, length-append b t)

-- What is read off the front of `b` is read off a longer stream too; `size` bytes are taken for it.
abbrev pub Reads : {A : Type 0} → (Bytes → Parsed (A × Bytes)) → (A → ℕ) → Type 0
Reads {A} read size =
    (b t : Bytes) (p : A × Bytes)
    → read b ≡ ok p
    → (read (b ++ t) ≡ ok (p.0, p.1 ++ t)) × (length b ≡ size p.0 + length p.1)

length-field_bytes : (f : Field) → 4 ≤ length (field_bytes f)
length-field_bytes none = omega (arith, length-be_bytes 4 4_294_967_295)
length-field_bytes (some body) =
    omega (arith, length-be_bytes 4 (length body), length-append (be_bytes 4 (length body)) body)

read_body-Reads :
    (row field len : ℕ) → Reads (read_body row field len) (λ f. length (field_bytes f) - 4)
unfolding read_body
read_body-Reads row field len b t p h = elim (Bool-cases (ltb (length b) len)) [
  | inl short ↦ cc (rw short at h)
  | inr e ↦
      let fits : len ≤ length b = ground arith in
      let same = ok_injective (rw e at h) in
      rw (← same) (
        rw (enough len b t e, take_front len b t fits, drop_front len b t fits) refl,
        omega (
          arith,
          length-take len b fits,
          length-drop len b,
          length-be_bytes 4 (length (take len b)),
          length-append (be_bytes 4 (length (take len b))) (take len b),
        ),
      )
]

read_field-Reads : (row field : ℕ) → Reads (read_field row field) (λ f. length (field_bytes f))
unfolding read_field
read_field-Reads row field b t p h = elim (Bool-cases (ltb (length b) 4)) [
  | inl short ↦ cc (rw short at h)
  | inr e ↦
      let fits : 4 ≤ length b = ground arith in
      let h1 = rw e at h in
      rw (enough 4 b t e, take_front 4 b t fits, drop_front 4 b t fits)
        (elim (Bool-cases (leb 2_147_483_648 (from_be_bytes (take 4 b)))) [
          | inl null ↦
              let same = ok_injective (rw null at h1) in
              rw (null, ← same)
                (refl, omega (arith, length-drop 4 b, length-be_bytes 4 4_294_967_295))
          | inr value ↦
              let (longer, sizes) =
                read_body-Reads row field (from_be_bytes (take 4 b)) (drop 4 b) t p
                  (rw value at h1) in
              rw value (longer, omega (arith, sizes, length-drop 4 b, length-field_bytes p.0))
        ])
]

pub read_fields-Reads :
    (count row field : ℕ)
    → Reads (read_fields count row field) (λ fields. length (fields_bytes fields))
unfolding read_fields fields_bytes
read_fields-Reads zero row field b t p h = rw (← ok_injective h) (refl, omega arith)
read_fields-Reads (suc count) row field b t p h =
    let (f, e, h1) = >>=-eq-ok (read_field row field b) _ h in
    let (fs, e1, h2) = >>=-eq-ok (read_fields count row (field + 1) f.1) _ h1 in
    let (first, first_size) = read_field-Reads row field b t f e in
    let (later, later_size) = read_fields-Reads count row (field + 1) f.1 t fs e1 in
    rw (← ok_injective h2) (
      rw (first, later) refl,
      omega (arith, first_size, later_size, length-append (field_bytes f.0) (fields_bytes fs.0)),
    )
