-- ===== src/Protocol/Chunks.antt =====
-- `chunk_manifest`, `encode_manifest_chunks` and `encoded_manifest_bytes` of
-- crates/meshelf-protocol/src/v2.rs.
pub mod Laws
use meshelf.Base.{
  is_empty, ℕ, ◌+◌, Bool, true, false, Option, none, some, List, [], ◌∷◌, ◌++◌, Result, ok, err,
  ◌>>=◌, ◌>>◌, reject, map_err, ok_or, ltb, leb, if◌then◌else◌, length,
}
use meshelf.Core.Model.{ActivationId, checked_add_u32, checked_add_u64}
use meshelf.Protocol.Messages.{
  v2_max_control_frame_bytes, v2_max_manifest_bytes, ProtocolError, json, frame_too_large,
  v2_validation, manifest_index_overflow, encoded_size_overflow, encoded_manifest_too_large,
  ManifestEntry, ManifestChunk, V2Message, manifest_chunk,
}
use meshelf.Protocol.Manifest.{len_u32, validate_chunk, validate_manifest_entries}
use meshelf.Protocol.Frame.{Codec, Bytes, validate_len, encode_v2_frame}

-- the loop's variables
pub record Chunking : Type 0 where
  pub chunks : List ManifestChunk
  pub current : List ManifestEntry
  pub first_index : ℕ

abbrev pub chunk_of : ActivationId → ℕ → List ManifestEntry → ManifestChunk
chunk_of request_id first_index entries = record {
  request_id = request_id;
  first_index = first_index;
  entries = entries;
}

module _ (codec : Codec V2Message) where
  -- `serde_json::to_vec(&V2Message::ManifestChunk(…))?.len()`
  abbrev pub encoded_len : ManifestChunk → Result ProtocolError ℕ
  encoded_len chunk = do
    payload ← map_err json (codec.to_vec (manifest_chunk chunk))
    ok (length payload)

  -- `ManifestChunk::new`
  unfoldable pub new_chunk :
      ActivationId → ℕ → List ManifestEntry → Result ProtocolError ManifestChunk
  new_chunk request_id first_index entries = do
    validate_chunk (chunk_of request_id first_index entries)
    payload_len ← encoded_len (chunk_of request_id first_index entries)
    validate_len v2_max_control_frame_bytes payload_len
    ok (chunk_of request_id first_index entries)

  -- the total so far, and the chunks that follow
  unfoldable pub encoded_bytes_from : ℕ → List ManifestChunk → Result ProtocolError ℕ
  encoded_bytes_from total [] = ok total
  encoded_bytes_from total (chunk ∷ chunks) = do
    validate_chunk chunk
    encoded ← encoded_len chunk
    validate_len v2_max_control_frame_bytes encoded
    sum ← ok_or (v2_validation encoded_size_overflow) (checked_add_u64 total encoded)
    encoded_bytes_from sum chunks

  unfoldable pub encoded_manifest_bytes : List ManifestChunk → Result ProtocolError ℕ
  encoded_manifest_bytes chunks = do
    total ← encoded_bytes_from 0 chunks
    reject (ltb v2_max_manifest_bytes total) (v2_validation (encoded_manifest_too_large total))
    ok total

  module _ (request_id : ActivationId) where
    -- the rest of a round whose candidate is too large
    unfoldable pub close_chunk : ℕ → ManifestEntry → Chunking → Result ProtocolError Chunking
    close_chunk candidate_len entry state = do
      reject (is_empty state.current) (frame_too_large candidate_len v2_max_control_frame_bytes)
      chunk ← new_chunk request_id state.first_index state.current
      next_index ←
          ok_or (v2_validation manifest_index_overflow)
            (checked_add_u32 chunk.first_index (len_u32 chunk.entries))
      ok (record {
        chunks = state.chunks ++ chunk ∷ [];
        current = entry ∷ [];
        first_index = next_index;
      })

    unfoldable pub chunk_one : ManifestEntry → Chunking → Result ProtocolError Chunking
    chunk_one entry state = do
      candidate_len ←
          encoded_len (chunk_of request_id state.first_index (state.current ++ entry ∷ []))
      if leb candidate_len v2_max_control_frame_bytes
          then ok (record state { current = state.current ++ entry ∷ [] })
          else close_chunk candidate_len entry state

    unfoldable pub chunk_all : List ManifestEntry → Chunking → Result ProtocolError Chunking
    chunk_all [] state = ok state
    chunk_all (entry ∷ entries) state = do next ← chunk_one entry state; chunk_all entries next

    -- after the loop
    unfoldable pub last_chunk : Chunking → Result ProtocolError (List ManifestChunk)
    last_chunk state = if is_empty state.current then ok state.chunks else (do
      chunk ← new_chunk request_id state.first_index state.current
      ok (state.chunks ++ chunk ∷ []))

    unfoldable pub chunk_manifest : List ManifestEntry → Result ProtocolError (List ManifestChunk)
    chunk_manifest entries = do
      validate_manifest_entries entries
      if is_empty entries then ok [] else (do
        state ← chunk_all entries (record { chunks = []; current = []; first_index = 0 })
        chunks ← last_chunk state
        encoded_bytes ← encoded_manifest_bytes chunks
        reject (ltb v2_max_manifest_bytes encoded_bytes)
            (v2_validation (encoded_manifest_too_large encoded_bytes))
        ok chunks)

    unfoldable pub encode_each : List ManifestChunk → Result ProtocolError (List Bytes)
    encode_each [] = ok []
    encode_each (chunk ∷ chunks) = do
      frame ← encode_v2_frame codec (manifest_chunk chunk)
      frames ← encode_each chunks
      ok (frame ∷ frames)

    unfoldable pub encode_manifest_chunks : List ManifestEntry → Result ProtocolError (List Bytes)
    encode_manifest_chunks entries = do chunks ← chunk_manifest entries; encode_each chunks
