-- ===== src/Core/Values.antt =====
-- crates/rocklake-core/src/values.rs: every stored value is `version | "SDKV" | payload`.
-- The protobuf payloads are those of the prost library, an argument of the codecs below.
pub mod RoundTrip
use Prim.Native.String.{String}
use slateduck.Prelude.{
  ℕ, ◌*◌, List, [], ◌∷◌, ◌++◌, ◌≡◌, length, take, drop, ltb, ◌==◌, not, if◌then◌else◌,
}
use slateduck.Prelude.Bytes.{Bytes, bytes_eq}
use slateduck.Core.Result.{Result, ok, err, map_err, ValueError, ◌>>=◌}
use slateduck.Core.BigEndian.{encode_u64, encode_u32, from_be_bytes}

-- b"SDKV"
abbrev pub value_magic : Bytes
value_magic = b'S' ∷ b'D' ∷ b'K' ∷ b'V' ∷ []

abbrev pub encoding_version : ℕ
encoding_version = 1

abbrev pub max_inlined_value_size : ℕ
max_inlined_value_size = 64 * 1024 * 1024

-- What prost derives for a row type: documented to read back what it wrote.
pub record Message (R : Type 0) : Type 0 where
  pub encode_to_vec : R → Bytes
  pub decode : Bytes → Result String R
  pub decode-encode : (r : R) → decode (encode_to_vec r) ≡ ok r

unfoldable pub encode_raw_value : Bytes → Bytes
encode_raw_value payload = encoding_version ∷ (value_magic ++ payload)

unfoldable pub encode_value : {R : Type 0} → Message R → R → Bytes
unfolding encode_raw_value
encode_value m msg = encode_raw_value (m.encode_to_vec msg)

-- The checks after the length: the version byte, then the four magic bytes.
unfoldable pub decode_value_envelope : Bytes → Result ValueError Bytes
decode_value_envelope [] = err (ValueError.too_short 5 0)
decode_value_envelope (version ∷ rest) =
    if ltb (length (version ∷ rest)) 5
    then err (ValueError.too_short 5 (length (version ∷ rest)))
    else if not (version == encoding_version)
    then err (ValueError.unsupported_version version)
    else if not (bytes_eq (take 4 rest) value_magic)
    then err (ValueError.invalid_magic (take 4 rest))
    else ok (drop 4 rest)

unfoldable pub decode_value : {R : Type 0} → Message R → Bytes → Result ValueError R
decode_value m bytes = do
  payload ← decode_value_envelope bytes
  map_err ValueError.decode_error (m.decode payload)

unfoldable pub encode_counter : ℕ → Bytes
unfolding encode_raw_value
encode_counter val = encode_raw_value (encode_u64 val)

unfoldable pub decode_counter : Bytes → Result ValueError ℕ
decode_counter bytes = do
  payload ← decode_value_envelope bytes
  if ltb (length payload) 8
      then err (ValueError.too_short 8 (length payload))
      else ok (from_be_bytes (take 8 payload))

unfoldable pub encode_format_version : ℕ → Bytes
unfolding encode_raw_value
encode_format_version val = encode_raw_value (encode_u32 val)

unfoldable pub decode_format_version : Bytes → Result ValueError ℕ
decode_format_version bytes = do
  payload ← decode_value_envelope bytes
  if ltb (length payload) 4
      then err (ValueError.too_short 4 (length payload))
      else ok (from_be_bytes (take 4 payload))

unfoldable pub decode_raw_value : Bytes → Result ValueError Bytes
decode_raw_value bytes = do payload ← decode_value_envelope bytes; ok payload
