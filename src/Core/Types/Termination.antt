-- ===== src/Core/Types/Termination.antt =====
-- The fuel of the type parser of types.rs.
use slateduck.Prelude.{
  length-drop, ℕ, zero, suc, ◌+◌, ◌<◌, ◌≤◌, ◌≡◌, refl, Bool, true, ◌&&◌, Option, some, List, [],
  ◌∷◌, arith, length, drop, All, Option-cases, Bool-cases, inl, inr,
}
use slateduck.Prelude.Bytes.{starts_with}
use slateduck.Core.Tags.{codes}
use slateduck.Core.Path.{ends_with}
use slateduck.Core.Text.{
  Text, trim, trim_front, trim_back, push_front, to_ascii_lowercase, find, drop_last,
}
use slateduck.Core.Types.{DuckLakeType, list, struct, Fields, map, field, no_fields}
use slateduck.Core.Types.Parse.{
  split_loop, split_top_level, cons_part, depth_after, is_split, scalar, add_field, parse_fields,
  map_of, parse_map, list_of, struct_of, parse_trimmed, parse_in, parse,
}

length-trim_front : (s : Text) → length (trim_front s) ≤ length s
unfolding trim_front
length-trim_front [] = omega arith
length-trim_front (c ∷ s) = ground (arith, length-trim_front s)

length-push_front : (c : ℕ) (s : Text) → length (push_front c s) ≤ suc (length s)
unfolding push_front
length-push_front c [] = ground arith
length-push_front c (d ∷ s) = omega arith

length-trim_back : (s : Text) → length (trim_back s) ≤ length s
unfolding trim_back
length-trim_back [] = omega arith
length-trim_back (c ∷ s) = omega (arith, length-push_front c (trim_back s), length-trim_back s)

length-trim : (s : Text) → length (trim s) ≤ length s
unfolding trim
length-trim s = omega (arith, length-trim_back (trim_front s), length-trim_front s)

length-to_ascii_lowercase : (s : Text) → length (to_ascii_lowercase s) ≡ length s
unfolding to_ascii_lowercase
length-to_ascii_lowercase [] = refl
length-to_ascii_lowercase (c ∷ s) = omega (arith, length-to_ascii_lowercase s)

length-drop_last : (s : Text) → suc (length (drop_last s)) ≤ suc (length s)
unfolding drop_last
length-drop_last [] = omega arith
length-drop_last (x ∷ []) = omega arith
length-drop_last (x ∷ y ∷ s) = omega (arith, length-drop_last (y ∷ s))

-- What stands inside a prefix of one character or more is shorter than the text.
inside_shorter : (n : ℕ) (s : Text) → 0 < length s → length (drop_last (drop (suc n) s)) < length s
inside_shorter n [] h = absurd (omega arith)
inside_shorter n (x ∷ s) h = omega (arith, length-drop n s, length-drop_last (drop n s))

find_shorter : (c : ℕ) (s : Text) (p : Text × Text) → find c s ≡ some p → length p.1 < length s
unfolding find
find_shorter c [] p h = cc
find_shorter c (x ∷ s) p h = elim (Option-cases (find c s)) [
  | inl e ↦ ground arith
  | inr (q, e) ↦ let ih = find_shorter c s q e in ground arith
]

cons_part-All :
    (n c : ℕ) (parts : List Text)
    → All (λ (part : Text). length part ≤ n) parts
    → All (λ (part : Text). length part ≤ suc n) (cons_part c parts)
unfolding cons_part
cons_part-All n c [] h = (omega arith, tt)
cons_part-All n c (part ∷ parts) (h, hs) = (omega arith, weaken parts hs)
  where
    weaken :
        (parts : List Text)
        → All (λ (part : Text). length part ≤ n) parts
        → All (λ (part : Text). length part ≤ suc n) parts
    weaken [] hs = tt
    weaken (part ∷ parts) (h, hs) = (omega arith, weaken parts hs)

module _ {P Q : Text → Type 0} (step : (s : Text) → P s → Q s) where
  All-map : (parts : List Text) → All P parts → All Q parts
  All-map [] hs = tt
  All-map (part ∷ parts) (h, hs) = (step part h, All-map parts hs)

split_loop-All :
    (sep depth : ℕ) (s : Text)
    → All (λ (part : Text). length part ≤ length s) (split_loop sep depth s)
unfolding split_loop
split_loop-All sep depth [] = (omega arith, tt)
split_loop-All sep depth (c ∷ s) =
    let ih = split_loop-All sep (depth_after depth c) s in
    elim (Bool-cases (is_split sep depth c)) [
      | inl e ↦ rw e (omega arith, All-map (λ part h. omega arith) _ ih)
      | inr e ↦ rw e (cons_part-All (length s) c _ ih)
    ]

split_top_level-All :
    (s : Text) (sep : ℕ) → All (λ (part : Text). length part ≤ length s) (split_top_level s sep)
unfolding split_top_level
split_top_level-All s sep = split_loop-All sep 0 s

bracketed_pos :
    (c : ℕ) (p lower : Text) (closed : Bool)
    → (starts_with (c ∷ p) lower && closed) ≡ true
    → 0 < length lower
unfolding starts_with
bracketed_pos c p [] closed h = cc
bracketed_pos c p (x ∷ lower) closed h = omega arith

-- On texts shorter than `n` the two parsers succeed with one type.
abbrev Agree : ℕ → (Text → Option DuckLakeType) → (Text → Option DuckLakeType) → Type 0
Agree n f g = (u : Text) → length u < n → (t : DuckLakeType) × (f u ≡ some t) × (g u ≡ some t)

module _ (n : ℕ) (f g : Text → Option DuckLakeType) (agree : Agree n f g) where
  parse_fields-agree :
      (parts : List Text)
      → All (λ (part : Text). length part < n) parts
      → (fs : Fields) × (parse_fields f parts ≡ some fs) × (parse_fields g parts ≡ some fs)
  unfolding parse_fields add_field
  parse_fields-agree [] hs = (no_fields, refl, refl)
  parse_fields-agree (part ∷ parts) (h, hs) =
      let (fs, p, q) = parse_fields-agree parts hs in
      elim (Option-cases (find b':' part)) [
        | inl e ↦ rw (parse_fields, e) (fs, p, q)
        | inr (split, e) ↦
            let shorter = find_shorter b':' part split e in
            let (t, a, b) = agree (trim split.1) (omega (arith, length-trim split.1)) in
            rw (parse_fields, e) (field (trim split.0) t fs, rw (a, p), rw (b, q))
      ]

  parse_map-agree :
      (lower : Text) (parts : List Text)
      → All (λ (part : Text). length part < n) parts
      → (t : DuckLakeType) × (parse_map f lower parts ≡ some t) × (parse_map g lower parts ≡ some t)
  unfolding parse_map map_of
  parse_map-agree lower [] hs = (scalar lower, refl, refl)
  parse_map-agree lower (k ∷ []) hs = (scalar lower, refl, refl)
  parse_map-agree lower (k ∷ v ∷ []) (h, (i, _)) =
      let (kt, a, b) = agree (trim k) (omega (arith, length-trim k)) in
      let (vt, c, d) = agree (trim v) (omega (arith, length-trim v)) in
      (map kt vt, rw (a, c), rw (b, d))
  parse_map-agree lower (k ∷ v ∷ w ∷ parts) hs = (scalar lower, refl, refl)

  -- Both read a text of at most `n` characters alike.
  parse_trimmed-agree :
      (s lower : Text)
      → length s ≤ n
      → length lower ≤ length s
      → (t : DuckLakeType) × (parse_trimmed f s lower ≡ some t) × (parse_trimmed g s lower ≡ some t)
  unfolding parse_trimmed list_of struct_of
  parse_trimmed-agree s lower h l =
      elim (Bool-cases (starts_with (codes "list<") lower && ends_with b'>' lower)) [
        | inl e ↦
            let pos = bracketed_pos _ _ lower _ e in
            let shorter = inside_shorter 4 s (omega arith) in
            let (t, a, b) = agree (drop_last (drop 5 s)) (omega arith) in rw e (list t, rw a, rw b)
        | inr e ↦
            rw e (elim (Bool-cases (starts_with (codes "struct<") lower && ends_with b'>' lower)) [
              | inl d ↦
                  let pos = bracketed_pos _ _ lower _ d in
                  let (fs, a, b) = parse_fields-agree _ (parts_shorter 6 s pos h l) in
                  rw d (struct fs, rw a, rw b)
              | inr d ↦
                  rw d
                    (elim (Bool-cases (starts_with (codes "map<") lower && ends_with b'>' lower)) [
                      | inl c ↦
                          let pos = bracketed_pos _ _ lower _ c in
                          rw c (parse_map-agree lower _ (parts_shorter 3 s pos h l))
                      | inr c ↦ rw c (scalar lower, refl, refl)
                    ])
            ])
      ]
    where
      parts_shorter :
          (k : ℕ) (s : Text)
          → 0 < length lower
          → length s ≤ n
          → length lower ≤ length s
          → All
              (λ (part : Text). length part < n)
              (split_top_level (drop_last (drop (suc k) s)) b',')
      parts_shorter k s pos h l =
          let shorter = inside_shorter k s (omega arith) in
          All-map (λ part le. omega arith) _ (split_top_level-All _ b',')

-- With two amounts of fuel above its length a text is read alike.
parse_in-Agree : (n a b : ℕ) → n ≤ a → n ≤ b → Agree n (parse_in a) (parse_in b)
unfolding parse_in
parse_in-Agree n zero b h k u l = absurd (omega arith)
parse_in-Agree n (suc a) zero h k u l = absurd (omega arith)
parse_in-Agree n (suc a) (suc b) h k u l =
    parse_trimmed-agree (length u) (parse_in a) (parse_in b)
      (parse_in-Agree (length u) a b (omega arith) (omega arith)) (trim u)
      (trim (to_ascii_lowercase (trim u))) (length-trim u)
      (omega (arith, length-trim (to_ascii_lowercase (trim u)), length-to_ascii_lowercase (trim u)))

-- `parse` finds a type in every text, and any amount of fuel above the text's length finds the
-- same one.
pub parse_total :
    (s : Text) (fuel : ℕ)
    → length s < fuel
    → (t : DuckLakeType) × (parse s ≡ some t) × (parse_in fuel s ≡ some t)
unfolding parse
parse_total s fuel h =
    parse_in-Agree (suc (length s)) (length s + 1) fuel (omega arith) (omega arith) s (omega arith)
