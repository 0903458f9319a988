-- ===== src/Protocol/Tests.antt =====
-- The wire at concrete inputs.
use meshelf.Base.{
  zero, suc, take, drop, ◌==◌, if◌then◌else◌, ℕ, ◌≤◌, ◌≡◌, refl, ◌↔◌, All, List, [], ◌∷◌, ◌++◌, ok,
  length,
}
use meshelf.Base.Text.{
  lit, byte_len, len_utf8, ends_with, strip_prefix, split_from, split, before_first, trim_end,
}
use meshelf.Core.Model.{max_offer_manifest_entries, max_offer_transfer_bytes}
use meshelf.Core.Destination
use meshelf.Protocol.Messages.{
  v2_max_control_frame_bytes, WireMessage, client_hello, ManifestEntry, ManifestChunk,
  FileEntryKind, V2Message, manifest_chunk, fetch_request,
}
use meshelf.Protocol.Paths.{
  validate_path_component, validate_path_components, validate_relative_path,
}
use meshelf.Protocol.Paths.Agreement.{destination-validate_relative_path}
use meshelf.Protocol.Manifest.{
  validate_entry, validate_each, file_bytes_from, validate_chunk, checked_bytes_from,
  validate_manifest_entries,
}
use meshelf.Protocol.Manifest.Laws.{IsEntry, file_bytes, validate_manifest_entries_iff}
use meshelf.Protocol.Validate.{validate_v2_message}
use meshelf.Protocol.Frame.{
  Codec, Bytes, to_be_bytes, validate_len, put_frame, encode_frame, read_frame, encode_v2_frame,
  read_v2_frame,
}
use meshelf.Protocol.Frame.Laws.{read-encode_frame, read-encode_v2_frame, encode_v2_frame_iff}
use meshelf.Protocol.Chunks.{
  new_chunk, encoded_bytes_from, encoded_manifest_bytes, close_chunk, chunk_one, chunk_all,
  last_chunk, chunk_manifest,
}
use meshelf.Protocol.Chunks.Laws.{flat, Consecutive, IsChunk, chunk_manifest-covers}

wire_runs : Unit {0}
unfolding byte_len len_utf8 ends_with strip_prefix split_from split before_first trim_end
    Destination.device_stem Destination.is_reserved Destination.validate_component
    Destination.validate_components Destination.validate_relative_path validate_path_component
    validate_path_components validate_relative_path validate_entry validate_each file_bytes_from
    validate_chunk checked_bytes_from validate_manifest_entries validate_v2_message to_be_bytes
    validate_len put_frame encode_frame encode_v2_frame new_chunk encoded_bytes_from
    encoded_manifest_bytes close_chunk chunk_one chunk_all last_chunk chunk_manifest
wire_runs = tt

nested_accepted : Destination.validate_relative_path (lit "photos/a.jpg") ≡ ok tt
unfolding wire_runs
nested_accepted = refl

nested_on_wire : validate_relative_path (lit "photos/a.jpg") ≡ ok tt
nested_on_wire = destination-validate_relative_path (lit "photos/a.jpg") nested_accepted

abbrev entries : List ManifestEntry
entries =
    (record { relative_path = lit "photos"; kind = FileEntryKind.directory; byte_len = 0 })
    ∷ (record { relative_path = lit "photos/a.jpg"; kind = FileEntryKind.file; byte_len = 12 })
    ∷ []

entries_accepted : (validate_manifest_entries entries ≡ ok tt) ↔ (
    (length entries ≤ max_offer_manifest_entries)
    × All IsEntry entries
    × (file_bytes entries ≤ max_offer_transfer_bytes))
entries_accepted = validate_manifest_entries_iff entries

abbrev hello : WireMessage
hello = client_hello (record {
  protocol_version = 2;
  device_id = 5;
  device_name = lit "desk";
  nonce = lit "n";
  capabilities = lit "offer-pull-v2" ∷ [];
  public_key = [];
  signature = [];
})

-- a codec that knows one message
abbrev hello_codec : Codec WireMessage
hello_codec = record { to_vec = λ m. ok (1 ∷ 2 ∷ 3 ∷ []); from_slice = λ bytes. ok hello }

hello_encoded : encode_frame hello_codec hello ≡ ok (0 ∷ 0 ∷ 0 ∷ 3 ∷ 1 ∷ 2 ∷ 3 ∷ [])
unfolding wire_runs
hello_encoded = refl

hello_read :
    read_frame hello_codec ((0 ∷ 0 ∷ 0 ∷ 3 ∷ 1 ∷ 2 ∷ 3 ∷ []) ++ 9 ∷ []) ≡ ok (hello, 9 ∷ [])
hello_read =
    read-encode_frame hello_codec hello (1 ∷ 2 ∷ 3 ∷ []) (0 ∷ 0 ∷ 0 ∷ 3 ∷ 1 ∷ 2 ∷ 3 ∷ []) (9 ∷ [])
      refl refl hello_encoded

abbrev request : V2Message
request =
    fetch_request (record { request_id = 1; offer_id = 9; source_device = 5; requester_device = 6 })

abbrev codec : Codec V2Message
codec = record { to_vec = λ m. ok (4 ∷ 5 ∷ []); from_slice = λ bytes. ok request }

request_encoded : encode_v2_frame codec request ≡ ok (0 ∷ 0 ∷ 0 ∷ 2 ∷ 4 ∷ 5 ∷ [])
unfolding wire_runs
request_encoded = refl

request_read : read_v2_frame codec ((0 ∷ 0 ∷ 0 ∷ 2 ∷ 4 ∷ 5 ∷ []) ++ 9 ∷ []) ≡ ok (request, 9 ∷ [])
request_read =
    read-encode_v2_frame codec request (4 ∷ 5 ∷ []) (0 ∷ 0 ∷ 0 ∷ 2 ∷ 4 ∷ 5 ∷ []) (9 ∷ []) refl refl
      request_encoded

request_encodes : ((frame : Bytes) × (encode_v2_frame codec request ≡ ok frame)) ↔ (
    (validate_v2_message request ≡ ok tt)
    × (payload : Bytes) × (codec.to_vec request ≡ ok payload)
    × (1 ≤ length payload)
    × (length payload ≤ v2_max_control_frame_bytes))
request_encodes = encode_v2_frame_iff codec request

-- a codec that gives a chunk of two entries more bytes than a frame holds
abbrev zeros : ℕ → Bytes
zeros zero = []
zeros (suc n) = 0 ∷ zeros n

abbrev large_pairs : V2Message → Bytes
large_pairs (manifest_chunk chunk) = if length chunk.entries == 2 then zeros 65537 else 4 ∷ 5 ∷ []
large_pairs _ = 4 ∷ 5 ∷ []

abbrev pair_codec : Codec V2Message
pair_codec = record { to_vec = λ m. ok (large_pairs m); from_slice = λ bytes. ok request }

abbrev two_chunks : List ManifestChunk
two_chunks =
    (record { request_id = 1; first_index = 0; entries = take 1 entries })
    ∷ (record { request_id = 1; first_index = 1; entries = drop 1 entries })
    ∷ []

entries_chunked : chunk_manifest pair_codec 1 entries ≡ ok two_chunks
unfolding wire_runs
entries_chunked = refl

entries_covered :
    (flat two_chunks ≡ entries)
    × ((end : ℕ) × Consecutive 0 two_chunks end)
    × All (IsChunk pair_codec 1) two_chunks
entries_covered = chunk_manifest-covers pair_codec 1 entries two_chunks entries_chunked
