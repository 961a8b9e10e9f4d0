-- ===== src/Core/Values/RoundTrip.antt =====
-- Reading back what the encoders of values.rs wrote, and what a foreign value gives.
use slateduck.Prelude.{ℕ, ◌≡◌, [], ◌∷◌, arith}
use slateduck.Prelude.Bytes.{Bytes, bytes_eq, bytes_eq_iff}
use slateduck.Core.Result.{ok}
use slateduck.Core.BigEndian.{
  be_bytes, length-be_bytes, read_all, encode_u64, encode_u32, IsU64, IsU32,
}
use slateduck.Core.Values.{
  Message, value_magic, encode_raw_value, encode_value, decode_value_envelope, decode_value,
  encode_counter, decode_counter, encode_format_version, decode_format_version,
}

pub decode_envelope-encode :
    (payload : Bytes) → decode_value_envelope (encode_raw_value payload) ≡ ok payload
unfolding decode_value_envelope encode_raw_value bytes_eq
decode_envelope-encode payload = ground arith

pub decode_value-encode_value :
    {R : Type 0} (m : Message R) (r : R) → decode_value m (encode_value m r) ≡ ok r
unfolding decode_value encode_value
decode_value-encode_value m r = rw (decode_envelope-encode (m.encode_to_vec r), m.decode-encode r)

-- A counter that is a u64 decodes to itself.
pub decode_counter-encode_counter : (v : ℕ) → IsU64 v → decode_counter (encode_counter v) ≡ ok v
unfolding decode_counter encode_counter encode_u64
decode_counter-encode_counter v h =
    rw (decode_envelope-encode (be_bytes 8 v)) (ground (arith, length-be_bytes 8 v, read_all 8 v))

pub decode_format_version-encode_format_version :
    (v : ℕ) → IsU32 v → decode_format_version (encode_format_version v) ≡ ok v
unfolding decode_format_version encode_format_version encode_u32
decode_format_version-encode_format_version v h =
    rw (decode_envelope-encode (be_bytes 4 v)) (ground (arith, length-be_bytes 4 v, read_all 4 v))

-- What is accepted as a value is the version byte, the magic and the payload that is returned.
pub decode_envelope_iff :
    (bytes payload : Bytes)
    → decode_value_envelope bytes ≡ ok payload
    → bytes ≡ encode_raw_value payload
unfolding decode_value_envelope encode_raw_value
decode_envelope_iff [] payload h = cc
decode_envelope_iff (v ∷ []) payload h = ground arith
decode_envelope_iff (v ∷ a ∷ []) payload h = ground arith
decode_envelope_iff (v ∷ a ∷ b ∷ []) payload h = ground arith
decode_envelope_iff (v ∷ a ∷ b ∷ c ∷ []) payload h = ground arith
decode_envelope_iff (v ∷ a ∷ b ∷ c ∷ d ∷ rest) payload h =
    ground (arith, bytes_eq_iff (a ∷ b ∷ c ∷ d ∷ []) value_magic)
