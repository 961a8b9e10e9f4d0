-- ===== src/Core/Keys/Identifiers.antt =====
-- The keys of keys.rs that hold a text with its length in front.
use slateduck.Prelude.{
  ℕ, ◌≤◌, ◌≡◌, refl, sym, true, [], ◌∷◌, ◌++◌, arith, length, ap, ◌∙◌, ◌↔◌, append-nil,
  append_assoc,
}
use slateduck.Prelude.Bytes.{Bytes, starts_with, append_split, starts_with→append, starts_with_self}
use slateduck.Core.Result.{ok}
use slateduck.Core.BigEndian.{from_be_bytes-be_bytes, from_be_bytes, IsU64, be_bytes, encode_u64}
use slateduck.Core.Tags.{tag_snapshot_lease, tag_extension_schema}
use slateduck.Core.Keys.System.{
  key_snapshot_lease, key_extension_schema, prefix_extension_table, encode_len, u16_max,
}

-- Two lengths that fit 16 bits have one encoding only if they are equal.
encode_len_injective : (m n : ℕ) → m ≤ u16_max → n ≤ u16_max → encode_len m ≡ encode_len n → m ≡ n
unfolding encode_len be_bytes
encode_len_injective m n hm hn e = ground arith

encode_u64_injective : (a b : ℕ) → IsU64 a → IsU64 b → encode_u64 a ≡ encode_u64 b → a ≡ b
unfolding encode_u64
encode_u64_injective a b ha hb e =
    sym (from_be_bytes-be_bytes 8 a ha) ∙ ap from_be_bytes e ∙ from_be_bytes-be_bytes 8 b hb

length-encode_len : (n : ℕ) → length (encode_len n) ≡ 2
unfolding encode_len be_bytes
length-encode_len n = refl

-- A length-prefixed text and what follows it are read back in one way only.
prefixed_split :
    (a b : Bytes) {x y : Bytes}
    → length a ≤ u16_max
    → length b ≤ u16_max
    → encode_len (length a) ++ (a ++ x) ≡ encode_len (length b) ++ (b ++ y)
    → (a ≡ b) × (x ≡ y)
prefixed_split a b ha hb e =
    let (l, r) =
      append_split (encode_len (length a)) (encode_len (length b))
        (rw (length-encode_len (length a), length-encode_len (length b))) e in
    append_split a b (encode_len_injective (length a) (length b) ha hb l) r

-- What an accepted key is made of.
pub key_snapshot_lease-eq-ok :
    (a k : Bytes)
    → key_snapshot_lease a ≡ ok k
    → (length a ≤ u16_max) × (k ≡ tag_snapshot_lease ∷ (encode_len (length a) ++ a))
unfolding key_snapshot_lease
key_snapshot_lease-eq-ok a k p = ground arith

key_extension_schema-eq-ok :
    (e : ℕ) (a : Bytes) (r : ℕ) (k : Bytes)
    → key_extension_schema e a r ≡ ok k
    → (length a ≤ u16_max)
      × (k ≡ tag_extension_schema ∷ e ∷ (encode_len (length a) ++ (a ++ encode_u64 r)))
unfolding key_extension_schema
key_extension_schema-eq-ok e a r k p = ground arith

prefix_extension_table-eq-ok :
    (e : ℕ) (a : Bytes) (k : Bytes)
    → prefix_extension_table e a ≡ ok k
    → (length a ≤ u16_max) × (k ≡ tag_extension_schema ∷ e ∷ (encode_len (length a) ++ a))
unfolding prefix_extension_table
prefix_extension_table-eq-ok e a k p = ground arith

-- Distinct consumer ids never share an accepted lease key.
pub key_snapshot_lease_injective :
    (a b k : Bytes) → key_snapshot_lease a ≡ ok k → key_snapshot_lease b ≡ ok k → a ≡ b
key_snapshot_lease_injective a b k p q =
    let (la, ea) = key_snapshot_lease-eq-ok a k p in
    let (lb, eb) = key_snapshot_lease-eq-ok b k q in
    (prefixed_split a b {x = []} {y = []} la lb (rw (append-nil, append-nil) (cc))).0

-- Extension rows of distinct extensions, tables or u64 row ids never share an accepted key.
pub key_extension_schema_injective :
    (e f : ℕ) (a b : Bytes) (r s : ℕ) (k : Bytes)
    → IsU64 r
    → IsU64 s
    → key_extension_schema e a r ≡ ok k
    → key_extension_schema f b s ≡ ok k
    → (e ≡ f) × (a ≡ b) × (r ≡ s)
key_extension_schema_injective e f a b r s k hr hs p q =
    let (la, ea) = key_extension_schema-eq-ok e a r k p in
    let (lb, eb) = key_extension_schema-eq-ok f b s k q in
    let (t, u) = prefixed_split a b la lb (cc) in (cc, t, encode_u64_injective r s hr hs u)

front_selects :
    (t e : ℕ) (l a rest : Bytes)
    → starts_with (t ∷ e ∷ (l ++ a)) (t ∷ e ∷ (l ++ (a ++ rest))) ≡ true
front_selects t e l a rest =
    rw (append_assoc l a rest) at (starts_with_self (t ∷ e ∷ (l ++ a)) rest)

-- The accepted prefix of one extension table selects an accepted row key exactly if it is of that
-- extension and that table.
pub prefix_extension_table_selects :
    (e f : ℕ) (a b : Bytes) (r : ℕ) (p k : Bytes)
    → prefix_extension_table e a ≡ ok p
    → key_extension_schema f b r ≡ ok k
    → (starts_with p k ≡ true) ↔ ((e ≡ f) × (a ≡ b))
prefix_extension_table_selects e f a b r p k hp hk =
    let (la, ea) = prefix_extension_table-eq-ok e a p hp in
    let (lb, eb) = key_extension_schema-eq-ok f b r k hk in
    (
      λ h.
          let (rest, x) = starts_with→append p k h in
          let front : tag_extension_schema ∷ e ∷ (encode_len (length a) ++ (a ++ rest)) ≡ k =
            rw (← append_assoc) (cc) in
          (cc, (prefixed_split a b {x = rest} {y = encode_u64 r} la lb (cc)).0),
      λ same. rw (ea, eb, ← same.0, ← same.1) (front_selects _ e _ a (encode_u64 r)),
    )
