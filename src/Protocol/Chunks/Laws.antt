-- ===== src/Protocol/Chunks/Laws.antt =====
-- What the chunks of a manifest carry, and the indices they begin at.
use mathlib.Core.List.{append_assoc, append-nil}
use meshelf.Base.{
  is_empty, ℕ, ◌+◌, ◌≤◌, ◌≡◌, refl, sym, ap, ◌∙◌, inl, inr, true, false, arith, List, [], ◌∷◌, ◌++◌,
  ok, ◌>>=◌, ◌>>◌, reject, Bool-cases, length, leb, ltb, length-append, >>=-eq-ok, All, All-append,
}
use meshelf.Core.Model.{ActivationId, max_offer_manifest_entries}
use meshelf.Protocol.Messages.{
  frame_too_large, encoded_manifest_too_large, v2_max_control_frame_bytes, v2_max_manifest_bytes,
  v2_validation, ManifestEntry, ManifestChunk, V2Message,
}
use meshelf.Protocol.Manifest.{validate_chunk, validate_manifest_entries}
use meshelf.Protocol.Manifest.Laws.{validate_manifest_entries_iff}
use meshelf.Protocol.Frame.{Codec, validate_len}
use meshelf.Protocol.Chunks.{
  Chunking, chunk_of, encoded_len, new_chunk, encoded_manifest_bytes, close_chunk, chunk_one,
  chunk_all, last_chunk, chunk_manifest,
}

is_empty-nil : {A : Type 0} (xs : List A) → is_empty xs ≡ true → xs ≡ []
is_empty-nil [] h = refl
is_empty-nil (x ∷ xs) h = absurd (ground arith)

-- the entries of the chunks, in order
unfoldable pub flat : List ManifestChunk → List ManifestEntry
flat [] = []
flat (chunk ∷ chunks) = chunk.entries ++ flat chunks

-- each chunk begins where the one before it ends
abbrev pub Consecutive : ℕ → List ManifestChunk → ℕ → Type 0
Consecutive start [] end = start ≡ end
Consecutive start (chunk ∷ chunks) end =
    (chunk.first_index ≡ start) × Consecutive (start + length chunk.entries) chunks end

flat-snoc :
    (chunks : List ManifestChunk) (chunk : ManifestChunk)
    → flat (chunks ++ chunk ∷ []) ≡ flat chunks ++ chunk.entries
unfolding flat
flat-snoc [] chunk = append-nil chunk.entries
flat-snoc (c ∷ chunks) chunk =
    ap (λ t. c.entries ++ t) (flat-snoc chunks chunk)
    ∙ sym (append_assoc c.entries (flat chunks) chunk.entries)

Consecutive-snoc :
    (start end : ℕ) (chunks : List ManifestChunk) (chunk : ManifestChunk)
    → Consecutive start chunks end
    → chunk.first_index ≡ end
    → Consecutive start (chunks ++ chunk ∷ []) (end + length chunk.entries)
Consecutive-snoc start end [] chunk h next = (next ∙ sym h, ap (λ n. n + length chunk.entries) h)
Consecutive-snoc start end (c ∷ chunks) chunk h next =
    (h.0, Consecutive-snoc (start + length c.entries) end chunks chunk h.1 next)

module _ (codec : Codec V2Message) (request_id : ActivationId) where
  -- a chunk that can be sent as one frame
  pub record IsChunk (chunk : ManifestChunk) : Type 0 where
    pub requested : chunk.request_id ≡ request_id
    pub valid : validate_chunk chunk ≡ ok tt
    pub filled : is_empty chunk.entries ≡ false
    pub size : ℕ
    pub encoded : encoded_len codec chunk ≡ ok size
    pub small : validate_len v2_max_control_frame_bytes size ≡ ok tt

  new_chunk-eq-ok :
      (first_index : ℕ) (entries : List ManifestEntry) (chunk : ManifestChunk)
      → is_empty entries ≡ false
      → new_chunk codec request_id first_index entries ≡ ok chunk
      → (chunk ≡ chunk_of request_id first_index entries) × IsChunk chunk
  unfolding new_chunk
  new_chunk-eq-ok first_index entries chunk filled h =
      let candidate = chunk_of request_id first_index entries in
      let (u, valid, h1) = >>=-eq-ok (validate_chunk candidate) _ h in
      let (size, encoded, h2) = >>=-eq-ok (encoded_len codec candidate) _ h1 in
      let (v, small, h3) = >>=-eq-ok (validate_len v2_max_control_frame_bytes size) _ h2 in
      let same : chunk ≡ candidate = ground arith in
      (
        same,
        rw same (record {
          requested = refl;
          valid = valid;
          filled = filled;
          size = size;
          encoded = encoded;
          small = small;
        }),
      )

  -- where the loop stands after the entries `done`
  record Chunked (done : List ManifestEntry) (state : Chunking) : Type 0 where
    covered : flat state.chunks ++ state.current ≡ done
    counted : Consecutive 0 state.chunks state.first_index
    fits : All IsChunk state.chunks

  -- a chunk more
  closed :
      (done : List ManifestEntry) (state : Chunking) (chunk : ManifestChunk)
      → Chunked done state
      → is_empty state.current ≡ false
      → new_chunk codec request_id state.first_index state.current ≡ ok chunk
      → (flat (state.chunks ++ chunk ∷ []) ≡ done)
        × Consecutive 0 (state.chunks ++ chunk ∷ []) (state.first_index + length state.current)
        × All IsChunk (state.chunks ++ chunk ∷ [])
        × (chunk ≡ chunk_of request_id state.first_index state.current)
  closed done state chunk h filled e =
      let (same, fit) = new_chunk-eq-ok state.first_index state.current chunk filled e in
      let entries = ap (λ c. c.entries) same in
      let first = ap (λ c. c.first_index) same in
      (
        flat-snoc state.chunks chunk ∙ ap (λ t. flat state.chunks ++ t) entries ∙ h.covered,
        rw (sym (ap length entries))
            (Consecutive-snoc 0 state.first_index state.chunks chunk h.counted first),
        All-append IsChunk state.chunks (chunk ∷ []) h.fits (fit, tt),
        same,
      )

  close_chunk-Chunked :
      (done : List ManifestEntry) (n : ℕ) (entry : ManifestEntry) (state state' : Chunking)
      → length done ≤ max_offer_manifest_entries
      → Chunked done state
      → close_chunk codec request_id n entry state ≡ ok state'
      → Chunked (done ++ entry ∷ []) state'
  unfolding close_chunk
  close_chunk-Chunked done n entry state state' few h e =
      let (u, some_entries, e1) =
        >>=-eq-ok (reject (is_empty state.current) (frame_too_large n v2_max_control_frame_bytes)) _
          e in
      let (chunk, new, e2) =
        >>=-eq-ok (new_chunk codec request_id state.first_index state.current) _ e1 in
      let (covered, counted, fits, same) = closed done state chunk h (ground arith) new in
      let sizes : length (flat state.chunks) + length state.current ≡ length done =
        sym (length-append (flat state.chunks) state.current) ∙ ap length h.covered in
      let next : state' ≡ record {
        chunks = state.chunks ++ chunk ∷ [];
        current = entry ∷ [];
        first_index = state.first_index + length state.current;
      } =
        ground (arith, ap (λ c. c.first_index) same, ap (λ c. length c.entries) same) in
      rw next
        (record { covered = ap (λ t. t ++ entry ∷ []) covered; counted = counted; fits = fits })

  chunk_one-Chunked :
      (done : List ManifestEntry) (entry : ManifestEntry) (state state' : Chunking)
      → length done ≤ max_offer_manifest_entries
      → Chunked done state
      → chunk_one codec request_id entry state ≡ ok state'
      → Chunked (done ++ entry ∷ []) state'
  unfolding chunk_one
  chunk_one-Chunked done entry state state' few h e =
      let (n, encoded, e1) =
        >>=-eq-ok
          (encoded_len codec (chunk_of request_id state.first_index (state.current ++ entry ∷ [])))
          _ e in
      elim (Bool-cases (leb n v2_max_control_frame_bytes)) [
        | inl p ↦
            let next : state' ≡ record state { current = state.current ++ entry ∷ [] } =
              ground arith in
            rw next (record {
              covered =
                  sym (append_assoc (flat state.chunks) state.current (entry ∷ []))
                  ∙ ap (λ t. t ++ entry ∷ []) h.covered;
              counted = h.counted;
              fits = h.fits;
            })
        | inr p ↦ close_chunk-Chunked done n entry state state' few h (ground arith)
      ]

  chunk_all-Chunked :
      (done entries : List ManifestEntry) (state state' : Chunking)
      → length done + length entries ≤ max_offer_manifest_entries
      → Chunked done state
      → chunk_all codec request_id entries state ≡ ok state'
      → Chunked (done ++ entries) state'
  unfolding chunk_all
  chunk_all-Chunked done [] state state' few h e =
      let same : state' ≡ state = ground arith in rw (same, append-nil done) h
  chunk_all-Chunked done (entry ∷ entries) state state' few h e =
      let (next, one, e1) = >>=-eq-ok (chunk_one codec request_id entry state) _ e in
      rw (sym (append_assoc done (entry ∷ []) entries)) (
        chunk_all-Chunked (done ++ entry ∷ []) entries next state'
          (omega (arith, few, length-append done (entry ∷ [])))
          (chunk_one-Chunked done entry state next (omega arith) h one) e1)

  last_chunk-covers :
      (done : List ManifestEntry) (state : Chunking) (chunks : List ManifestChunk)
      → Chunked done state
      → last_chunk codec request_id state ≡ ok chunks
      → (flat chunks ≡ done) × ((end : ℕ) × Consecutive 0 chunks end) × All IsChunk chunks
  unfolding last_chunk
  last_chunk-covers done state chunks h e = elim (Bool-cases (is_empty state.current)) [
    | inl p ↦
        let nil = is_empty-nil state.current p in
        let all : chunks ≡ state.chunks = ground arith in
        rw all (
          sym (append-nil (flat state.chunks))
              ∙ ap (λ t. flat state.chunks ++ t) (sym nil)
              ∙ h.covered,
          (_, h.counted),
          h.fits,
        )
    | inr p ↦
        let e1 : (new_chunk codec request_id state.first_index state.current >>= λ c.
        ok (state.chunks ++ c ∷ []))
            ≡ ok chunks =
          ground arith in
        let (chunk, new, e2) =
          >>=-eq-ok (new_chunk codec request_id state.first_index state.current) _ e1 in
        let (covered, counted, fits, same) = closed done state chunk h p new in
        let all : chunks ≡ state.chunks ++ chunk ∷ [] = ground arith in
        rw all (covered, (_, counted), fits)
  ]

  abbrev start_of_chunks : Chunking
  start_of_chunks = record { chunks = []; current = []; first_index = 0 }

  -- the steps of a manifest that is not empty
  pub chunk_manifest_steps :
      (entries : List ManifestEntry) (chunks : List ManifestChunk)
      → is_empty entries ≡ false
      → chunk_manifest codec request_id entries ≡ ok chunks
      → (state : Chunking) × (chunk_all codec request_id entries start_of_chunks ≡ ok state)
        × (last_chunk codec request_id state ≡ ok chunks)
        × (size : ℕ) × (encoded_manifest_bytes codec chunks ≡ ok size)
  unfolding chunk_manifest
  chunk_manifest_steps entries chunks some_entries e =
      let (_, valid, e1) = >>=-eq-ok (validate_manifest_entries entries) _ e in
      let e2 : (chunk_all codec request_id entries start_of_chunks >>= λ state.
      last_chunk codec request_id state >>= λ made.
      encoded_manifest_bytes codec made >>= λ encoded_bytes.
      reject (ltb v2_max_manifest_bytes encoded_bytes)
        (v2_validation (encoded_manifest_too_large encoded_bytes))
      >> ok made)
          ≡ ok chunks =
        ground arith in
      let (state, looped, e3) =
        >>=-eq-ok (chunk_all codec request_id entries start_of_chunks) _ e2 in
      let (made, last, e4) = >>=-eq-ok (last_chunk codec request_id state) _ e3 in
      let (size, sized, e5) = >>=-eq-ok (encoded_manifest_bytes codec made) _ e4 in
      let same : chunks ≡ made = ground arith in
      (state, looped, last ∙ ap ok (sym same), size, ap (encoded_manifest_bytes codec) same ∙ sized)

  -- When chunk_manifest succeeds, the chunks carry all entries in order, their indices are
  -- consecutive from 0, and each has an entry and is a valid chunk of the request whose encoding
  -- has between 1 byte and 64 KiB.
  pub chunk_manifest-covers :
      (entries : List ManifestEntry) (chunks : List ManifestChunk)
      → chunk_manifest codec request_id entries ≡ ok chunks
      → (flat chunks ≡ entries) × ((end : ℕ) × Consecutive 0 chunks end) × All IsChunk chunks
  unfolding chunk_manifest flat
  chunk_manifest-covers entries chunks e =
      let (u, valid, e1) = >>=-eq-ok (validate_manifest_entries entries) _ e in
      let few = ((validate_manifest_entries_iff entries).0 valid).0 in
      elim (Bool-cases (is_empty entries)) [
        | inl p ↦
            let none_left : chunks ≡ [] = ground arith in
            rw (none_left, is_empty-nil entries p) (refl, (0, refl), tt)
        | inr p ↦
            let (state, looped, last, _, _) = chunk_manifest_steps entries chunks p e in
            last_chunk-covers entries state chunks
              (chunk_all-Chunked [] entries start_of_chunks state (omega (arith, few))
                (record { covered = refl; counted = refl; fits = tt }) looped)
              last
      ]
