-- ===== src/Protocol/Frame.antt =====
-- Frames of crates/meshelf-protocol/src/lib.rs and v2.rs: a payload after its length as four bytes,
-- the greatest first. A reader is the bytes that are to come; serde_json is a parameter.
pub mod Laws
use meshelf.Base.{
  ℕ, ◌+◌, ◌*◌, ◌/◌, ◌%◌, ◌^◌, Bool, Option, none, some, List, [], ◌∷◌, ◌++◌, Result, ok, err, ◌>>=◌,
  ◌>>◌, reject, map_err, ltb, leb, ◌==◌, if◌then◌else◌, length, take, drop,
}
use meshelf.Base.Text.{Text, lit}
use meshelf.Core.Model.{u32_max}
use meshelf.Protocol.Messages.{
  max_frame_bytes, v2_max_control_frame_bytes, ProtocolError, io, json, empty_frame,
  length_overflow, frame_too_large, v2_validation, expected_client_hello, ClientHello, WireMessage,
  client_hello, server_hello, V2Message,
}
use meshelf.Protocol.Validate.{validate_v2_message}

-- `serde_json::to_vec` and `serde_json::from_slice` at one type
pub record Codec (M : Type 0) : Type 0 where
  pub to_vec : M → Result Text (List ℕ)
  pub from_slice : List ℕ → Result Text M

abbrev pub Bytes : Type 0
Bytes = List ℕ

-- `u32::to_be_bytes` and `u32::from_be_bytes`
unfoldable pub to_be_bytes : ℕ → Bytes
to_be_bytes n = n / 16777216 % 256 ∷ n / 65536 % 256 ∷ n / 256 % 256 ∷ n % 256 ∷ []

unfoldable pub from_be_bytes : Bytes → ℕ
from_be_bytes (a ∷ b ∷ c ∷ d ∷ _) = a * 16777216 + b * 65536 + c * 256 + d
from_be_bytes _ = 0

-- `validate_payload_len` and `validate_v2_payload_len`
unfoldable pub validate_len : (maximum : ℕ) → ℕ → Result ProtocolError (Unit {0})
validate_len maximum n = do
  reject (n == 0) empty_frame
  reject (ltb maximum n) (frame_too_large n maximum)
  ok tt

-- `Read::read_exact`
unfoldable pub read_exact : ℕ → Bytes → Result ProtocolError (Bytes × Bytes)
read_exact n reader =
    if leb n (length reader)
    then ok (take n reader, drop n reader)
    else err (io (lit "failed to fill whole buffer"))

-- the frame of a payload
unfoldable pub put_frame : (maximum : ℕ) → Bytes → Result ProtocolError Bytes
put_frame maximum payload = do
  validate_len maximum (length payload)
  reject (ltb u32_max (length payload)) length_overflow
  ok (to_be_bytes (length payload) ++ payload)

-- the payload of the next frame, and the reader after it
unfoldable pub get_frame : (maximum : ℕ) → Bytes → Result ProtocolError (Bytes × Bytes)
get_frame maximum reader = do
  (length_bytes, body) ← read_exact 4 reader
  validate_len maximum (from_be_bytes length_bytes)
  read_exact (from_be_bytes length_bytes) body

module _ (codec : Codec WireMessage) where
  unfoldable pub encode_frame : WireMessage → Result ProtocolError Bytes
  encode_frame message = do
    payload ← map_err json (codec.to_vec message)
    put_frame max_frame_bytes payload

  unfoldable pub read_frame : Bytes → Result ProtocolError (WireMessage × Bytes)
  read_frame reader = do
    (payload, rest) ← get_frame max_frame_bytes reader
    message ← map_err json (codec.from_slice payload)
    ok (message, rest)

  abbrev pub only_client : WireMessage → Result ProtocolError ClientHello
  only_client (client_hello hello) = ok hello
  only_client (server_hello _) = err (v2_validation expected_client_hello)

  unfoldable pub read_client_hello : Bytes → Result ProtocolError (ClientHello × Bytes)
  read_client_hello reader = do
    (message, rest) ← read_frame reader
    hello ← only_client message
    ok (hello, rest)

module _ (codec : Codec V2Message) where
  unfoldable pub encode_v2_frame : V2Message → Result ProtocolError Bytes
  encode_v2_frame message = do
    validate_v2_message message
    payload ← map_err json (codec.to_vec message)
    put_frame v2_max_control_frame_bytes payload

  unfoldable pub decode_v2_payload : Bytes → Result ProtocolError V2Message
  decode_v2_payload payload = do
    validate_len v2_max_control_frame_bytes (length payload)
    map_err json (codec.from_slice payload)

  unfoldable pub read_v2_frame : Bytes → Result ProtocolError (V2Message × Bytes)
  read_v2_frame reader = do
    (payload, rest) ← get_frame v2_max_control_frame_bytes reader
    message ← decode_v2_payload payload
    ok (message, rest)
