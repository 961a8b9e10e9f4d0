-- ===== src/Core/BigEndian.antt =====
-- Rust's `to_be_bytes` and `from_be_bytes`, and the fields of a key: u64s in big-endian bytes.
-- crates/rocklake-core/src/keys.rs, lines 34 to 85.
pub mod Order
pub mod Fields
use slateduck.Prelude.{
  ℕ, zero, suc, ◌+◌, ◌*◌, ◌/◌, ◌%◌, ◌^◌, ◌<◌, ◌≡◌, ap, append-nil, refl, List, [], ◌∷◌, ◌++◌, arith,
  length, length-append, take, drop, take-append, ltb, if◌then◌else◌,
}
use slateduck.Prelude.Bytes.{Bytes}
use slateduck.Core.Result.{Result, ok, err, KeyError}
use native.Mathlib.Nat.{pow-suc, mod-lt, one-le-pow, div-add-mod'}

-- The low `n` bytes of `v`, the highest first.
unfoldable pub be_bytes : ℕ → ℕ → Bytes
be_bytes zero v = []
be_bytes (suc n) v = (v / 256 ^ n % 256) ∷ be_bytes n (v % 256 ^ n)

unfoldable pub from_be_bytes : Bytes → ℕ
from_be_bytes [] = 0
from_be_bytes (b ∷ bs) = b * 256 ^ length bs + from_be_bytes bs

abbrev pub IsU64 : ℕ → Type 0
IsU64 v = v < 2 ^ 64

abbrev pub IsU32 : ℕ → Type 0
IsU32 v = v < 2 ^ 32

unfoldable pub encode_u64 : ℕ → Bytes
encode_u64 v = be_bytes 8 v

unfoldable pub encode_u32 : ℕ → Bytes
encode_u32 v = be_bytes 4 v

unfoldable pub decode_u64 : Bytes → Result KeyError ℕ
decode_u64 bytes =
    if ltb (length bytes) 8
    then err (KeyError.too_short 8 (length bytes))
    else ok (from_be_bytes (take 8 bytes))

unfoldable pub decode_u32 : Bytes → Result KeyError ℕ
decode_u32 bytes =
    if ltb (length bytes) 4
    then err (KeyError.too_short 4 (length bytes))
    else ok (from_be_bytes (take 4 bytes))

-- u64s, one after the other.
unfoldable pub u64_fields : List ℕ → Bytes
u64_fields [] = []
u64_fields (v ∷ vs) = encode_u64 v ++ u64_fields vs

pub length-be_bytes : (n v : ℕ) → length (be_bytes n v) ≡ n
unfolding be_bytes
length-be_bytes zero v = refl
length-be_bytes (suc n) v = omega (arith, length-be_bytes n (v % 256 ^ n))

-- The top byte of a number of `n + 1` bytes.
pub top_byte : (n v : ℕ) → v < 256 ^ suc n → v / 256 ^ n % 256 ≡ v / 256 ^ n
top_byte n v h = grind (arith, pow-suc)

pub rest_bytes : (n v : ℕ) → v % 256 ^ n < 256 ^ n
rest_bytes n v = mod-lt v (one-le-pow n 256 (omega arith))

-- Reading back the bytes of a number that fits gives the number.
pub from_be_bytes-be_bytes : (n v : ℕ) → v < 256 ^ n → from_be_bytes (be_bytes n v) ≡ v
unfolding be_bytes from_be_bytes
from_be_bytes-be_bytes zero v h = omega arith
from_be_bytes-be_bytes (suc n) v h =
    rw (top_byte n v h, length-be_bytes n, from_be_bytes-be_bytes n (v % 256 ^ n) (rest_bytes n v))
      (div-add-mod' v (256 ^ n))

pub take-be_bytes : (n v : ℕ) (rest : Bytes) → take n (be_bytes n v ++ rest) ≡ be_bytes n v
take-be_bytes n v rest = rw length-be_bytes at (take-append (be_bytes n v) rest)

pub length-encode_u64 : (v : ℕ) → length (encode_u64 v) ≡ 8
unfolding encode_u64
length-encode_u64 v = length-be_bytes 8 v

pub decode_u64-encode_u64 :
    (v : ℕ) (rest : Bytes) → IsU64 v → decode_u64 (encode_u64 v ++ rest) ≡ ok v
unfolding encode_u64 decode_u64
decode_u64-encode_u64 v rest h = ground (
  arith,
  length-append (be_bytes 8 v) rest,
  length-be_bytes 8 v,
  take-be_bytes 8 v rest,
  from_be_bytes-be_bytes 8 v,
)

pub decode_u32-encode_u32 :
    (v : ℕ) (rest : Bytes) → IsU32 v → decode_u32 (encode_u32 v ++ rest) ≡ ok v
unfolding encode_u32 decode_u32
decode_u32-encode_u32 v rest h = ground (
  arith,
  length-append (be_bytes 4 v) rest,
  length-be_bytes 4 v,
  take-be_bytes 4 v rest,
  from_be_bytes-be_bytes 4 v,
)

-- A field with nothing after it.
pub read_all : (n v : ℕ) → v < 256 ^ n → from_be_bytes (take n (be_bytes n v)) ≡ v
read_all n v h =
    rw (append-nil, from_be_bytes-be_bytes n v h) at (ap from_be_bytes (take-be_bytes n v []))
