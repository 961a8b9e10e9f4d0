-- ===== src/Tests/Format.antt =====
-- Formats that read back what they wrote, and the codec that a format gives a row.
use Prim.Native.String.{String}
use slateduck.Prelude.{
  ℕ, zero, suc, ◌==◌, ◌≡◌, refl, ap, Bool, true, false, Option, none, some, [], ◌∷◌, ◌++◌, length,
  take, drop, take-append, drop-append,
}
use slateduck.Prelude.Bytes.{Bytes}
use slateduck.Core.Result.{Result, ok, err}
use slateduck.Core.Values.{Message}

pub record Format (A : Type 0) : Type 0 where
  pub write : A → Bytes → Bytes
  pub read : Bytes → Option (A × Bytes)
  pub read-write : (a : A) (rest : Bytes) → read (write a rest) ≡ some (a, rest)

abbrev pub read_num : Bytes → Option (ℕ × Bytes)
read_num [] = none
read_num (n ∷ rest) = some (n, rest)

abbrev pub num : Format ℕ
num = record { write = λ n rest. n ∷ rest; read = read_num; read-write = λ n rest. refl }

abbrev pub write_flag : Bool → Bytes → Bytes
write_flag true rest = 1 ∷ rest
write_flag false rest = 0 ∷ rest

abbrev pub read_flag : Bytes → Option (Bool × Bytes)
read_flag [] = none
read_flag (n ∷ rest) = some (n == 1, rest)

pub flag_law : (b : Bool) (rest : Bytes) → read_flag (write_flag b rest) ≡ some (b, rest)
flag_law true rest = refl
flag_law false rest = refl

abbrev pub flag : Format Bool
flag = record { write = write_flag; read = read_flag; read-write = flag_law }

abbrev pub write_text : Bytes → Bytes → Bytes
write_text b rest = length b ∷ (b ++ rest)

abbrev pub read_text : Bytes → Option (Bytes × Bytes)
read_text [] = none
read_text (n ∷ rest) = some (take n rest, drop n rest)

pub text_law : (b rest : Bytes) → read_text (write_text b rest) ≡ some (b, rest)
text_law b rest = rw (take-append b rest, drop-append b rest) refl

abbrev pub text : Format Bytes
text = record { write = write_text; read = read_text; read-write = text_law }

module _ {A : Type 0} (f : Format A) where
  abbrev pub write_optional : Option A → Bytes → Bytes
  write_optional none rest = 0 ∷ rest
  write_optional (some a) rest = 1 ∷ f.write a rest

  abbrev pub wrapped : Option (A × Bytes) → Option (Option A × Bytes)
  wrapped none = none
  wrapped (some (a, rest)) = some (some a, rest)

  abbrev pub read_optional : Bytes → Option (Option A × Bytes)
  read_optional [] = none
  read_optional (zero ∷ rest) = some (none, rest)
  read_optional (suc n ∷ rest) = wrapped (f.read rest)

  pub optional_law :
      (o : Option A) (rest : Bytes) → read_optional (write_optional o rest) ≡ some (o, rest)
  optional_law none rest = refl
  optional_law (some a) rest = rw (f.read-write a rest) refl

  abbrev pub optional : Format (Option A)
  optional = record { write = write_optional; read = read_optional; read-write = optional_law }

module _ {A B : Type 0} (f : Format A) (g : Format B) where
  abbrev pub with_second : A → Option (B × Bytes) → Option ((A × B) × Bytes)
  with_second a none = none
  with_second a (some (b, rest)) = some ((a, b), rest)

  abbrev pub read_both : Option (A × Bytes) → Option ((A × B) × Bytes)
  read_both none = none
  read_both (some (a, rest)) = with_second a (g.read rest)

  abbrev pub write_pair : A × B → Bytes → Bytes
  write_pair (a, b) rest = f.write a (g.write b rest)

  pub pair_law :
      (p : A × B) (rest : Bytes) → read_both (f.read (write_pair p rest)) ≡ some (p, rest)
  pair_law (a, b) rest = rw (f.read-write a (g.write b rest), g.read-write b rest) refl

  infixr 5 ◌⊗◌
  abbrev pub ◌⊗◌ : Format (A × B)
  ◌⊗◌ = record { write = write_pair; read = λ b. read_both (f.read b); read-write = pair_law }

module _ {A R : Type 0} (f : Format A) (to : R → A) (from : A → R) where
  abbrev pub finished : Option (A × Bytes) → Result String R
  finished none = err "short"
  finished (some (a, rest)) = ok (from a)

  abbrev pub message : ((r : R) → from (to r) ≡ r) → Message R
  message law = record {
    encode_to_vec = λ r. f.write (to r) [];
    decode = λ b. finished (f.read b);
    decode-encode = λ r. rw (f.read-write (to r) []) (ap ok (law r));
  }
