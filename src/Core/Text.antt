-- ===== src/Core/Text.antt =====
-- What crates/rocklake-core/src/types.rs uses of Rust's `str`: a text is the list of its code points,
-- whose lexicographic order is that of its UTF-8 bytes.
use slateduck.Prelude.{
  ℕ, zero, suc, ◌+◌, ◌-◌, ◌*◌, ◌^◌, Bool, ◌&&◌, ◌||◌, Option, none, some, List, [], ◌∷◌, ltb, leb,
  ◌==◌, if◌then◌else◌,
}

abbrev pub Text : Type 0
Text = List ℕ

-- `str::chars` on valid UTF-8: what a first byte says of its character, and the bytes behind it.
lead_count : ℕ → ℕ
lead_count b = if ltb b 0xC0 then 0 else if ltb b 0xE0 then 1 else if ltb b 0xF0 then 2 else 3

lead_bits : ℕ → ℕ
lead_bits b =
    if ltb b 0xC0
    then b
    else if ltb b 0xE0
    then b - 0xC0
    else if ltb b 0xF0
    then b - 0xE0
    else b - 0xF0

-- `count` more bytes of a character whose bits so far are `bits`.
chars_loop : ℕ → ℕ → List ℕ → Text
chars_loop count bits [] = []
chars_loop zero bits (b ∷ s) =
    let rest = chars_loop (lead_count b) (lead_bits b) s in
    if lead_count b == 0 then lead_bits b ∷ rest else rest
chars_loop (suc count) bits (b ∷ s) =
    let value = bits * 64 + (b - 0x80) in
    let rest = chars_loop count value s in if count == 0 then value ∷ rest else rest

unfoldable pub chars : List ℕ → Text
unfolding chars_loop lead_count lead_bits
chars s = chars_loop 0 0 s

-- `char::is_whitespace`: Unicode's White_Space.
unfoldable pub is_whitespace : ℕ → Bool
is_whitespace c =
    (leb 9 c && leb c 13)
    || (c == 32)
    || (c == 0x85)
    || (c == 0xA0)
    || (c == 0x1680)
    || (leb 0x2000 c && leb c 0x200A)
    || (c == 0x2028)
    || (c == 0x2029)
    || (c == 0x202F)
    || (c == 0x205F)
    || (c == 0x3000)

unfoldable pub trim_front : Text → Text
trim_front [] = []
trim_front (c ∷ s) = let rest = trim_front s in if is_whitespace c then rest else c ∷ s

unfoldable pub push_front : ℕ → Text → Text
push_front c [] = if is_whitespace c then [] else c ∷ []
push_front c (d ∷ s) = c ∷ d ∷ s

unfoldable pub trim_back : Text → Text
unfolding push_front
trim_back [] = []
trim_back (c ∷ s) = push_front c (trim_back s)

unfoldable pub trim : Text → Text
unfolding trim_front trim_back
trim s = trim_back (trim_front s)

unfoldable pub lower_char : ℕ → ℕ
lower_char c = if leb b'A' c && leb c b'Z' then c + 32 else c

unfoldable pub to_ascii_lowercase : Text → Text
unfolding lower_char
to_ascii_lowercase [] = []
to_ascii_lowercase (c ∷ s) = lower_char c ∷ to_ascii_lowercase s

-- `find` on one character: the text before it and behind it.
unfoldable pub find : ℕ → Text → Option (Text × Text)
find c [] = none
find c (x ∷ s) =
    let rest = find c s in
    if x == c then some ([], s) else elim rest [ none ↦ none | some p ↦ some (x ∷ p.0, p.1) ]

-- All but the last character.
unfoldable pub drop_last : Text → Text
drop_last [] = []
drop_last (x ∷ []) = []
drop_last (x ∷ y ∷ s) = x ∷ drop_last (y ∷ s)

-- Digits read from the left.
unfoldable pub digits_loop : ℕ → Text → Option ℕ
digits_loop n [] = some n
digits_loop n (c ∷ s) =
    if leb b'0' c && leb c b'9' then digits_loop (n * 10 + (c - b'0')) s else none

unfoldable pub digits : Text → Option ℕ
unfolding digits_loop
digits [] = none
digits (c ∷ s) = digits_loop 0 (c ∷ s)

-- `parse` of an unsigned type whose values are below `bound`: a `+` may stand in front.
unfoldable pub parse_unsigned : ℕ → Text → Option ℕ
unfolding digits
parse_unsigned bound [] = none
parse_unsigned bound (c ∷ s) = elim (if c == b'+' then digits s else digits (c ∷ s)) [
  | none ↦ none
  | some n ↦ if ltb n bound then some n else none
]

pub data ℤ : Type 0 where
  pos : ℕ → ℤ
  negsuc : ℕ → ℤ

-- The negative of a natural number.
unfoldable pub negative : ℕ → ℤ
negative zero = ℤ.pos zero
negative (suc n) = ℤ.negsuc n

-- `parse::<i128>`: a sign, then digits of a number that fits.
unfoldable pub parse_i128 : Text → Option ℤ
unfolding digits negative
parse_i128 [] = none
parse_i128 (c ∷ s) =
    if c == b'-'
    then elim (digits s) [
      | none ↦ none
      | some n ↦ if leb n (2 ^ 127) then some (negative n) else none
    ]
    else elim (if c == b'+' then digits s else digits (c ∷ s)) [
      | none ↦ none
      | some n ↦ if ltb n (2 ^ 127) then some (ℤ.pos n) else none
    ]
