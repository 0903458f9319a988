-- ===== src/Protocol/Frame/Laws.antt =====
-- Frames of crates/meshelf-protocol/src/lib.rs and v2.rs, written and read back.
use mathlib.Core.List.{append_assoc}
use meshelf.Base.{
  ℕ, ◌≤◌, ◌≡◌, refl, ap, ◌∙◌, ◌↔◌, inl, inr, arith, List, [], ◌∷◌, ◌++◌, ok, ◌>>◌, Result-cases,
  length, take, drop, length-append, >>=-eq-ok,
}
use meshelf.Core.Model.{u32_max}
use meshelf.Protocol.Messages.{max_frame_bytes, v2_max_control_frame_bytes, WireMessage, V2Message}
use meshelf.Protocol.Validate.{validate_v2_message}
use meshelf.Protocol.Frame.{
  Codec, Bytes, to_be_bytes, from_be_bytes, validate_len, read_exact, put_frame, get_frame,
  encode_frame, read_frame, encode_v2_frame, decode_v2_payload, read_v2_frame,
}

from_be_bytes-to_be_bytes : (n : ℕ) → n ≤ u32_max → from_be_bytes (to_be_bytes n) ≡ n
unfolding from_be_bytes to_be_bytes
from_be_bytes-to_be_bytes n h = omega arith

take-append : {A : Type 0} (xs ys : List A) → take (length xs) (xs ++ ys) ≡ xs
take-append [] ys = ground arith
take-append (x ∷ xs) ys = ap (λ zs. x ∷ zs) (take-append xs ys)

drop-append : {A : Type 0} (xs ys : List A) → drop (length xs) (xs ++ ys) ≡ ys
drop-append [] ys = ground arith
drop-append (x ∷ xs) ys = drop-append xs ys

read_exact-append : (xs ys : Bytes) → read_exact (length xs) (xs ++ ys) ≡ ok (xs, ys)
unfolding read_exact
read_exact-append xs ys = ground (arith, take-append xs ys, drop-append xs ys, length-append xs ys)

-- what was checked before a frame was put
put_frame-eq-ok :
    (maximum : ℕ) (payload frame : Bytes)
    → put_frame maximum payload ≡ ok frame
    → (validate_len maximum (length payload) ≡ ok tt)
      × (length payload ≤ u32_max)
      × (frame ≡ to_be_bytes (length payload) ++ payload)
unfolding put_frame
put_frame-eq-ok maximum payload frame h =
    let (u, valid, rest) = >>=-eq-ok (validate_len maximum (length payload)) _ h in
    (valid, ground arith, ground arith)

length-to_be_bytes : (n : ℕ) → length (to_be_bytes n) ≡ 4
unfolding to_be_bytes
length-to_be_bytes n = refl

split_length : (n : ℕ) (ys : Bytes) → read_exact 4 (to_be_bytes n ++ ys) ≡ ok (to_be_bytes n, ys)
unfolding to_be_bytes
split_length n ys = read_exact-append (to_be_bytes n) ys

get_after_length :
    (maximum : ℕ) (length_bytes body : Bytes) (reader : Bytes)
    → read_exact 4 reader ≡ ok (length_bytes, body)
    → get_frame maximum reader ≡ (
        validate_len maximum (from_be_bytes length_bytes)
        >> read_exact (from_be_bytes length_bytes) body)
unfolding get_frame
get_after_length maximum length_bytes body reader e = rw e refl

get-put :
    (maximum : ℕ) (payload frame rest : Bytes)
    → put_frame maximum payload ≡ ok frame
    → get_frame maximum (frame ++ rest) ≡ ok (payload, rest)
get-put maximum payload frame rest h =
    let (valid, small, same) = put_frame-eq-ok maximum payload frame h in
    let n = length payload in
    let back = from_be_bytes-to_be_bytes n small in
    rw (same, append_assoc (to_be_bytes n) payload rest)
      (get_after_length maximum (to_be_bytes n) (payload ++ rest) _
          (split_length n (payload ++ rest))
        ∙ rw (back, valid) (read_exact-append payload rest))

-- A handshake message that encode_frame encoded is read back by read_frame, whatever bytes follow,
-- where serde_json decodes what it encoded.
pub read-encode_frame :
    (codec : Codec WireMessage) (message : WireMessage) (payload frame rest : Bytes)
    → codec.to_vec message ≡ ok payload
    → codec.from_slice payload ≡ ok message
    → encode_frame codec message ≡ ok frame
    → read_frame codec (frame ++ rest) ≡ ok (message, rest)
unfolding encode_frame read_frame
read-encode_frame codec message payload frame rest to back h =
    let put : put_frame max_frame_bytes payload ≡ ok frame = ground arith in
    let got = get-put max_frame_bytes payload frame rest put in rw (got, back) refl

-- A version-2 message that encode_v2_frame encoded is read back by read_v2_frame, whatever bytes
-- follow, where serde_json decodes what it encoded.
pub read-encode_v2_frame :
    (codec : Codec V2Message) (message : V2Message) (payload frame rest : Bytes)
    → codec.to_vec message ≡ ok payload
    → codec.from_slice payload ≡ ok message
    → encode_v2_frame codec message ≡ ok frame
    → read_v2_frame codec (frame ++ rest) ≡ ok (message, rest)
unfolding encode_v2_frame read_v2_frame decode_v2_payload
read-encode_v2_frame codec message payload frame rest to back h =
    let put : put_frame v2_max_control_frame_bytes payload ≡ ok frame = ground arith in
    let got = get-put v2_max_control_frame_bytes payload frame rest put in
    let (valid, small, same) = put_frame-eq-ok v2_max_control_frame_bytes payload frame put in
    rw (got, valid, back) refl

-- encode_v2_frame succeeds exactly when the message is valid and serde_json encodes it in between 1
-- byte and 64 KiB.
pub encode_v2_frame_iff :
    (codec : Codec V2Message) (message : V2Message)
    → ((frame : Bytes) × (encode_v2_frame codec message ≡ ok frame)) ↔ (
        (validate_v2_message message ≡ ok tt)
        × (payload : Bytes) × (codec.to_vec message ≡ ok payload)
        × (1 ≤ length payload)
        × (length payload ≤ v2_max_control_frame_bytes))
unfolding encode_v2_frame put_frame validate_len
encode_v2_frame_iff codec message = (
  (λ (frame, h). elim (Result-cases (codec.to_vec message)) [
    | inl (payload, e) ↦ (ground arith, payload, e, ground arith, ground arith)
    | inr (x, e) ↦ absurd (ground (arith, Result-cases (validate_v2_message message)))
  ]),
  λ (valid, payload, to, some_bytes, few). (to_be_bytes (length payload) ++ payload, ground arith),
)
