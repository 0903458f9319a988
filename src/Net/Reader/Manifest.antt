-- ===== src/Net/Reader/Manifest.antt =====
-- `read_manifest` of crates/meshelf-net/src/fetch_receiver.rs on the chunks that a sender cuts.
use meshelf.Base.{
  ℕ, ◌+◌, ◌≤◌, ◌≡◌, refl, sym, ap, ◌∙◌, true, false, some, List, [], ◌∷◌, ◌++◌, map, ok, arith, ltb,
  >>=-eq-ok, ok_or, All, length, is_empty, length-append,
}
use mathlib.Core.List.{append_assoc, append-nil}
use meshelf.Core.Model.{u32_max, u64_max, checked_add_u64}
use meshelf.Protocol.Chunks.{
  encoded_len, encoded_bytes_from, encoded_manifest_bytes, chunk_manifest,
}
use meshelf.Protocol.Chunks.Laws.{flat, Consecutive, IsChunk, chunk_manifest-covers}
use meshelf.Protocol.Frame.{Codec, validate_len}
use meshelf.Protocol.Manifest.{validate_chunk}
use meshelf.Protocol.Messages.{
  v2_max_manifest_bytes, v2_max_control_frame_bytes, v2_validation, encoded_size_overflow,
  ManifestEntry, ManifestChunk, ManifestEnd, FetchHeader, V2Message, manifest_chunk, manifest_end,
}
use meshelf.Protocol.Validate.{validate_v2_message}
use meshelf.Net.Errors.{Display}
use meshelf.Net.Plan.{ReceivePlan}
use meshelf.Net.Reader.{
  Arrival, frame, Stream, read_v2_cancellable, Reading, take_chunk, take_end, read_end, read_chunks,
  read_manifest,
}

abbrev pub frames_of : List ManifestChunk → Stream
frames_of = map (λ chunk. frame (manifest_chunk chunk))

module _ (display : Display) (codec : Codec V2Message) (header : FetchHeader) where
  take_chunk-fits :
      (chunk : ManifestChunk) (state : Reading) (size : ℕ)
      → IsChunk codec header.request_id chunk
      → encoded_len codec chunk ≡ ok size
      → chunk.first_index ≡ state.expected_index
      → state.expected_index + length chunk.entries ≤ header.manifest_entries
      → header.manifest_entries ≤ u32_max
      → (state.plan).manifest_encoded_bytes + size ≤ u64_max
      → take_chunk display codec header (manifest_chunk chunk) state
        ≡ ok (record {
          expected_index = state.expected_index + length chunk.entries;
          plan = record (state.plan) {
            manifest_encoded_bytes = (state.plan).manifest_encoded_bytes + size;
            entries = (state.plan).entries ++ chunk.entries;
          };
        })
  unfolding take_chunk validate_v2_message
  take_chunk-fits chunk state size fit sized first room small wide =
      rw (fit.valid, sized, fit.requested, first, fit.filled) (ground arith)

  read_valid :
      (message : V2Message) (stream : Stream)
      → validate_v2_message message ≡ ok tt
      → read_v2_cancellable display 0 0 (frame message ∷ stream) ≡ (ok message, stream)
  unfolding read_v2_cancellable
  read_valid message stream valid = rw valid refl

  read_chunks-step :
      (message : V2Message) (state next : Reading) (stream : Stream)
      → ltb state.expected_index header.manifest_entries ≡ true
      → validate_v2_message message ≡ ok tt
      → take_chunk display codec header message state ≡ ok next
      → read_chunks display codec header state (frame message ∷ stream)
        ≡ read_chunks display codec header next stream
  unfolding read_chunks
  read_chunks-step message state next stream more valid taken =
      ground (arith, read_valid message stream valid)

  read_chunks-end :
      (state : Reading) (stream : Stream)
      → ltb state.expected_index header.manifest_entries ≡ false
      → read_chunks display codec header state stream
        ≡ read_end display codec header state.plan stream
  unfolding read_chunks
  read_chunks-end state [] full = ground arith
  read_chunks-end state (arrival ∷ stream) full = ground arith

  filled-pos : {A : Type 0} (xs : List A) → is_empty xs ≡ false → 1 ≤ length xs
  filled-pos [] h = cc
  filled-pos (x ∷ xs) h = omega arith

  encoded_bytes_from-cons :
      (bytes : ℕ) (chunk : ManifestChunk) (chunks : List ManifestChunk) {total : ℕ}
      → encoded_bytes_from codec bytes (chunk ∷ chunks) ≡ ok total
      → (size : ℕ) × (encoded_len codec chunk ≡ ok size)
        × (bytes + size ≤ u64_max)
        × (encoded_bytes_from codec (bytes + size) chunks ≡ ok total)
  unfolding encoded_bytes_from
  encoded_bytes_from-cons bytes chunk chunks h =
      let (_, valid, h1) = >>=-eq-ok (validate_chunk chunk) _ h in
      let (size, sized, h2) = >>=-eq-ok (encoded_len codec chunk) _ h1 in
      let (_, small, h3) = >>=-eq-ok (validate_len v2_max_control_frame_bytes size) _ h2 in
      let (sum, added, h4) =
        >>=-eq-ok (ok_or (v2_validation encoded_size_overflow) (checked_add_u64 bytes size)) _ h3 in
      let fits : (bytes + size ≤ u64_max) × (sum ≡ bytes + size) = ground arith in
      (size, sized, fits.0, ap (λ n. encoded_bytes_from codec n chunks) (sym (fits.1)) ∙ h4)

  -- the loop over the frames of chunks that follow one another up to the announced count
  read_chunks-fits :
      (chunks : List ManifestChunk) (state : Reading) (last : Arrival) (stream : Stream) (end : ℕ)
      {total : ℕ}
      → header.manifest_entries ≤ u32_max
      → All (IsChunk codec header.request_id) chunks
      → Consecutive state.expected_index chunks end
      → state.expected_index + length (flat chunks) ≡ header.manifest_entries
      → encoded_bytes_from codec (state.plan).manifest_encoded_bytes chunks ≡ ok total
      → read_chunks display codec header state (frames_of chunks ++ last ∷ stream)
        ≡ read_end display codec header
            (record (state.plan) {
              manifest_encoded_bytes = total;
              entries = (state.plan).entries ++ flat chunks;
            })
            (last ∷ stream)
  unfolding flat validate_v2_message encoded_bytes_from
  read_chunks-fits [] state last stream end {total} small fits follow counted sized =
      let same : total ≡ (state.plan).manifest_encoded_bytes = ground arith in
      let all = append-nil (state.plan).entries in
      rw (same, all) (read_chunks-end state (last ∷ stream) (ground arith))
  read_chunks-fits (chunk ∷ chunks) state last stream end {total} small (fit, fits) (first, follow)
        counted sized =
      let (size, len, wide, rest) =
        encoded_bytes_from-cons (state.plan).manifest_encoded_bytes chunk chunks sized in
      let room = filled-pos chunk.entries fit.filled in
      let sizes = length-append chunk.entries (flat chunks) in
      let taken = take_chunk-fits chunk state size fit len first (omega arith) small wide in
      read_chunks-step (manifest_chunk chunk) state _ (frames_of chunks ++ last ∷ stream)
        (ground arith) fit.valid taken
      ∙ read_chunks-fits chunks _ last stream end small fits follow (omega arith) rest
      ∙ ap
          (λ all.
            read_end display codec header
              (record (state.plan) { manifest_encoded_bytes = total; entries = all })
              (last ∷ stream))
          (append_assoc (state.plan).entries chunk.entries (flat chunks))

  read_end-fits :
      (end : ManifestEnd) (plan : ReceivePlan) (stream : Stream)
      → end.request_id ≡ header.request_id
      → validate_v2_message (manifest_end end) ≡ ok tt
      → plan.manifest_encoded_bytes ≡ header.manifest_encoded_bytes
      → header.manifest_encoded_bytes ≤ v2_max_manifest_bytes
      → read_end display codec header plan (frame (manifest_end end) ∷ stream)
        ≡ (ok (record plan { manifest_end = some end }), stream)
  unfolding read_end take_end
  read_end-fits end plan stream requested valid same small =
      rw (read_valid (manifest_end end) stream valid, valid, requested, same) (ground arith)

  read_manifest-some :
      (plan : ReceivePlan) (stream : Stream)
      → 1 ≤ header.manifest_entries
      → read_manifest display codec header plan stream
        ≡ read_chunks display codec header (record { expected_index = 0; plan = plan }) stream
  unfolding read_manifest
  read_manifest-some plan stream h = ground arith

  -- read_manifest reads back the entries that chunk_manifest cut, from the frames of the chunks and
  -- of a valid end of the manifest: it stores the entries, the end and the encoded size in a fresh
  -- plan and leaves the rest of the stream. The header has the request, the size and the count of
  -- the entries, which are not none and fit a u32.
  pub read_manifest-chunk_manifest :
      (entries : List ManifestEntry) (chunks : List ManifestChunk) (end : ManifestEnd)
      (plan : ReceivePlan) (stream : Stream)
      → is_empty entries ≡ false
      → chunk_manifest codec header.request_id entries ≡ ok chunks
      → header.manifest_entries ≡ length entries
      → header.manifest_entries ≤ u32_max
      → encoded_manifest_bytes codec chunks ≡ ok header.manifest_encoded_bytes
      → end.request_id ≡ header.request_id
      → validate_v2_message (manifest_end end) ≡ ok tt
      → plan.entries ≡ []
      → plan.manifest_encoded_bytes ≡ 0
      → read_manifest display codec header plan
          (frames_of chunks ++ frame (manifest_end end) ∷ stream)
        ≡ (
          ok (record plan {
            entries = entries;
            manifest_end = some end;
            manifest_encoded_bytes = header.manifest_encoded_bytes;
          }),
          stream,
        )
  unfolding encoded_manifest_bytes
  read_manifest-chunk_manifest entries chunks end plan stream filled cut counted small sized
        requested valid fresh zero_bytes =
      let (covered, (last, follow), fits) =
        chunk_manifest-covers codec header.request_id entries chunks cut in
      let start : Reading = record { expected_index = 0; plan = plan } in
      let (total, summed, bounded) = >>=-eq-ok (encoded_bytes_from codec 0 chunks) _ sized in
      let agree : (total ≡ header.manifest_encoded_bytes)
          × (header.manifest_encoded_bytes ≤ v2_max_manifest_bytes) =
        ground arith in
      let all : plan.entries ++ flat chunks ≡ entries =
        ap (λ t. t ++ flat chunks) fresh ∙ covered in
      let some_entries = filled-pos entries filled in
      read_manifest-some plan (frames_of chunks ++ frame (manifest_end end) ∷ stream) (omega arith)
      ∙ read_chunks-fits chunks start (frame (manifest_end end)) stream last {total = total} small
          fits follow (omega (arith, ap length covered))
          (ap (λ n. encoded_bytes_from codec n chunks) zero_bytes ∙ summed)
      ∙ read_end-fits end _ stream requested valid (agree.0) (agree.1)
      ∙ ap
          (λ (p : ℕ × List ManifestEntry). (
            ok (record plan {
              manifest_encoded_bytes = p.0;
              entries = p.1;
              manifest_end = some end;
            }),
            stream,
          ))
          (ap (λ n. (n, plan.entries ++ flat chunks)) (agree.0)
            ∙ ap (λ t. (header.manifest_encoded_bytes, t)) all)
