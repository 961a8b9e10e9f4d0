-- ===== src/Core/BigEndian/Fields.antt =====
-- Order, equality and prefixes of keys that are built of u64 fields.
use slateduck.Prelude.{ℕ, ◌≡◌, refl, List, [], ◌∷◌, arith, All}
use slateduck.Prelude.Bytes.{bytes_eq, bytes_lt, starts_with}
use slateduck.Core.BigEndian.{be_bytes, encode_u64, u64_fields, IsU64}
use slateduck.Core.BigEndian.Order.{bytes_lt-be_bytes, bytes_eq-be_bytes, starts_with-be_bytes}

pub bytes_lt-fields :
    (xs ys : List ℕ)
    → All IsU64 xs
    → All IsU64 ys
    → bytes_lt (u64_fields xs) (u64_fields ys) ≡ bytes_lt xs ys
unfolding u64_fields encode_u64 bytes_lt
bytes_lt-fields [] [] hx hy = refl
bytes_lt-fields [] (y ∷ ys) hx hy = unfold be_bytes in refl
bytes_lt-fields (x ∷ xs) [] hx hy = unfold be_bytes in refl
bytes_lt-fields (x ∷ xs) (y ∷ ys) hx hy = ground (
  arith,
  bytes_lt-be_bytes (u64_fields xs) (u64_fields ys) 8 x y hx.0 hy.0,
  bytes_lt-fields xs ys hx.1 hy.1,
)

pub bytes_eq-fields :
    (xs ys : List ℕ)
    → All IsU64 xs
    → All IsU64 ys
    → bytes_eq (u64_fields xs) (u64_fields ys) ≡ bytes_eq xs ys
unfolding u64_fields encode_u64 bytes_eq
bytes_eq-fields [] [] hx hy = refl
bytes_eq-fields [] (y ∷ ys) hx hy = unfold be_bytes in refl
bytes_eq-fields (x ∷ xs) [] hx hy = unfold be_bytes in refl
bytes_eq-fields (x ∷ xs) (y ∷ ys) hx hy = ground (
  arith,
  bytes_eq-be_bytes (u64_fields xs) (u64_fields ys) 8 x y hx.0 hy.0,
  bytes_eq-fields xs ys hx.1 hy.1,
)

pub starts_with-fields :
    (xs ys : List ℕ)
    → All IsU64 xs
    → All IsU64 ys
    → starts_with (u64_fields xs) (u64_fields ys) ≡ starts_with xs ys
unfolding u64_fields encode_u64 starts_with
starts_with-fields [] ys hx hy = refl
starts_with-fields (x ∷ xs) [] hx hy = unfold be_bytes in refl
starts_with-fields (x ∷ xs) (y ∷ ys) hx hy = ground (
  arith,
  starts_with-be_bytes (u64_fields xs) (u64_fields ys) 8 x y hx.0 hy.0,
  starts_with-fields xs ys hx.1 hy.1,
)
