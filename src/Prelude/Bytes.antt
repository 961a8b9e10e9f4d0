-- ===== src/Prelude/Bytes.antt =====
-- Byte strings: equality, prefixes and the lexicographic order by which a key-value store scans.
use slateduck.Prelude.Lists.{length}
use slateduck.Prelude.Tests.{ltb, ◌==◌, if◌then◌else◌, ==_refl}
use Prim.Native.Nat.{ℕ}
use mathlib.Core.Path.{◌≡◌, refl}
use mathlib.Core.Logic.{◌↔◌}
use mathlib.Core.Bool.{Bool, true, false, ◌&&◌}
use mathlib.Core.List.{List, [], ◌∷◌, ◌++◌}
use native.Mathlib.Omega.{arith}

abbrev pub Bytes : Type 0
Bytes = List ℕ

unfoldable pub bytes_eq : Bytes → Bytes → Bool
bytes_eq [] [] = true
bytes_eq [] (y ∷ ys) = false
bytes_eq (x ∷ xs) [] = false
bytes_eq (x ∷ xs) (y ∷ ys) = (x == y) && bytes_eq xs ys

unfoldable pub starts_with : Bytes → Bytes → Bool
starts_with [] key = true
starts_with (p ∷ ps) [] = false
starts_with (p ∷ ps) (k ∷ ks) = (p == k) && starts_with ps ks

-- Rust's `Ord` on slices: the first difference decides, and a proper prefix is smaller.
unfoldable pub bytes_lt : Bytes → Bytes → Bool
bytes_lt xs [] = false
bytes_lt [] (y ∷ ys) = true
bytes_lt (x ∷ xs) (y ∷ ys) = if ltb x y then true else if ltb y x then false else bytes_lt xs ys

bytes_eq→eq : (a b : Bytes) → bytes_eq a b ≡ true → a ≡ b
unfolding bytes_eq
bytes_eq→eq [] [] h = refl
bytes_eq→eq [] (y ∷ ys) h = cc
bytes_eq→eq (x ∷ xs) [] h = cc
bytes_eq→eq (x ∷ xs) (y ∷ ys) h = ground (arith, bytes_eq→eq xs ys)

pub bytes_eq_refl : (a : Bytes) → bytes_eq a a ≡ true
unfolding bytes_eq
bytes_eq_refl [] = refl
bytes_eq_refl (x ∷ xs) = rw (==_refl x, bytes_eq_refl xs)

pub bytes_eq_iff : (a b : Bytes) → (bytes_eq a b ≡ true) ↔ (a ≡ b)
bytes_eq_iff a b = (bytes_eq→eq a b, λ e. rw e (bytes_eq_refl b))

pub bytes_lt_irrefl : (a : Bytes) → bytes_lt a a ≡ false
unfolding bytes_lt
bytes_lt_irrefl [] = refl
bytes_lt_irrefl (x ∷ xs) = ground (arith, bytes_lt_irrefl xs)

pub bytes_lt_trans :
    (a b c : Bytes) → bytes_lt a b ≡ true → bytes_lt b c ≡ true → bytes_lt a c ≡ true
unfolding bytes_lt
bytes_lt_trans a [] c p q = cc
bytes_lt_trans a (y ∷ b) [] p q = cc
bytes_lt_trans [] (y ∷ b) (z ∷ c) p q = refl
bytes_lt_trans (x ∷ a) (y ∷ b) (z ∷ c) p q = ground (arith, bytes_lt_trans a b c)

-- Any two byte strings are equal or ordered.
pub bytes_lt_total :
    (a b : Bytes) → bytes_eq a b ≡ false → bytes_lt a b ≡ false → bytes_lt b a ≡ true
unfolding bytes_lt bytes_eq
bytes_lt_total [] [] p q = cc
bytes_lt_total [] (y ∷ b) p q = cc
bytes_lt_total (x ∷ a) [] p q = refl
bytes_lt_total (x ∷ a) (y ∷ b) p q = ground (arith, bytes_lt_total a b)

-- A shared front drops out of each test.
pub starts_with-append : (p a b : Bytes) → starts_with (p ++ a) (p ++ b) ≡ starts_with a b
unfolding starts_with
starts_with-append [] a b = refl
starts_with-append (x ∷ p) a b = ground (arith, starts_with-append p a b)

pub bytes_lt-append : (p a b : Bytes) → bytes_lt (p ++ a) (p ++ b) ≡ bytes_lt a b
unfolding bytes_lt
bytes_lt-append [] a b = refl
bytes_lt-append (x ∷ p) a b = ground (arith, bytes_lt-append p a b)

pub starts_with_self : (p a : Bytes) → starts_with p (p ++ a) ≡ true
unfolding starts_with
starts_with_self [] a = refl
starts_with_self (x ∷ p) a = ground (arith, starts_with_self p a)

-- What starts with `p` is `p` and a rest.
pub starts_with→append : (p k : Bytes) → starts_with p k ≡ true → (rest : Bytes) × (k ≡ p ++ rest)
unfolding starts_with
starts_with→append [] k h = (k, refl)
starts_with→append (x ∷ p) [] h = cc
starts_with→append (x ∷ p) (y ∷ k) h =
    let (rest, e) = starts_with→append p k (ground arith) in (rest, ground arith)

-- Fronts of one length, and what follows them, are told apart.
pub append_split :
    (xs ys : Bytes) {a b : Bytes} → length xs ≡ length ys → xs ++ a ≡ ys ++ b → (xs ≡ ys) × (a ≡ b)
append_split [] [] l e = (refl, e)
append_split [] (y ∷ ys) l e = absurd (omega arith)
append_split (x ∷ xs) [] l e = absurd (omega arith)
append_split (x ∷ xs) (y ∷ ys) {a} {b} l e =
    let (p, q) = append_split xs ys {a = a} {b = b} (omega arith) (cc) in (cc, q)
