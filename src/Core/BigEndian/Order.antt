-- ===== src/Core/BigEndian/Order.antt =====
-- Order, equality and prefixes of big-endian fields against those of the numbers.
use slateduck.Prelude.{
  ℕ, zero, suc, ◌/◌, ◌%◌, ◌^◌, ◌<◌, ◌≡◌, true, false, ◌&&◌, ◌++◌, arith, ltb, ◌==◌, if◌then◌else◌,
}
use slateduck.Prelude.Bytes.{Bytes, bytes_eq, bytes_lt, starts_with}
use slateduck.Core.BigEndian.{be_bytes, top_byte, rest_bytes}
use native.Mathlib.Nat.{mod-lt, mul-le-mul_left, div-add-mod', one-le-pow}

quot_lt : (a b p : ℕ) → 0 < p → a / p < b / p → a < b
quot_lt a b p hp h =
    omega (arith, div-add-mod' a p, div-add-mod' b p, mod-lt a hp, mul-le-mul_left p h)

quot_eq : (a b p : ℕ) → a / p ≡ b / p → ltb (a % p) (b % p) ≡ ltb a b
quot_eq a b p h = grind (arith, div-add-mod' a p, div-add-mod' b p)

quot_rem_eq : (a b p : ℕ) → a / p ≡ b / p → a % p ≡ b % p → a ≡ b
quot_rem_eq a b p h k = grind (arith, div-add-mod' a p, div-add-mod' b p)

module _ (x y : Bytes) where
  pub bytes_lt-be_bytes :
      (n a b : ℕ)
      → a < 256 ^ n
      → b < 256 ^ n
      → bytes_lt (be_bytes n a ++ x) (be_bytes n b ++ y)
        ≡ (if ltb a b then true else if ltb b a then false else bytes_lt x y)
  unfolding be_bytes bytes_lt
  bytes_lt-be_bytes zero a b ha hb = ground arith
  bytes_lt-be_bytes (suc n) a b ha hb =
      let p = 256 ^ n in
      ground (
        arith,
        top_byte n a ha,
        top_byte n b hb,
        quot_lt a b p (one-le-pow n 256 (omega arith)),
        quot_lt b a p (one-le-pow n 256 (omega arith)),
        quot_eq a b p,
        quot_eq b a p,
        bytes_lt-be_bytes n (a % p) (b % p) (rest_bytes n a) (rest_bytes n b),
      )

  pub bytes_eq-be_bytes :
      (n a b : ℕ)
      → a < 256 ^ n
      → b < 256 ^ n
      → bytes_eq (be_bytes n a ++ x) (be_bytes n b ++ y) ≡ ((a == b) && bytes_eq x y)
  unfolding be_bytes bytes_eq
  bytes_eq-be_bytes zero a b ha hb = ground arith
  bytes_eq-be_bytes (suc n) a b ha hb =
      let p = 256 ^ n in
      ground (
        arith,
        top_byte n a ha,
        top_byte n b hb,
        quot_rem_eq a b p,
        bytes_eq-be_bytes n (a % p) (b % p) (rest_bytes n a) (rest_bytes n b),
      )

  pub starts_with-be_bytes :
      (n a b : ℕ)
      → a < 256 ^ n
      → b < 256 ^ n
      → starts_with (be_bytes n a ++ x) (be_bytes n b ++ y) ≡ ((a == b) && starts_with x y)
  unfolding be_bytes starts_with
  starts_with-be_bytes zero a b ha hb = ground arith
  starts_with-be_bytes (suc n) a b ha hb =
      let p = 256 ^ n in
      ground (
        arith,
        top_byte n a ha,
        top_byte n b hb,
        quot_rem_eq a b p,
        starts_with-be_bytes n (a % p) (b % p) (rest_bytes n a) (rest_bytes n b),
      )
