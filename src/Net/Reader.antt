-- ===== src/Net/Reader.antt =====
-- The readers of crates/meshelf-net/src/fetch_receiver.rs. A stream is the list of what its next
-- reads find; the list ends where nothing more arrives.
pub mod Manifest
mod Tests
use meshelf.Base.{
  ℕ, ◌+◌, Bool, true, false, not, ◌||◌, Option, none, some, List, [], ◌∷◌, ◌++◌, Result, ok, err,
  ◌>>=◌, ◌>>◌, reject, map_err, ok_or, ltb, ◌==◌, if◌then◌else◌, is_empty, length,
}
use meshelf.Base.Text.{Text, lit}
use meshelf.Core.Model.{u32_max, u64_max, checked_add_u32, checked_add_u64}
use meshelf.Protocol.Chunks.{encoded_len}
use meshelf.Protocol.Frame.{Codec}
use meshelf.Protocol.Messages.{
  v2_max_manifest_bytes, ProtocolError, ManifestChunk, ManifestEnd, FetchHeader, FetchAbort,
  FetchComplete, V2Message, manifest_chunk, manifest_end, fetch_complete, fetch_abort,
}
use meshelf.Protocol.Validate.{validate_v2_message}
use meshelf.Net.Errors.{
  ErrorKind, is_disconnect_io, NetError, timeout, ReceiveFailure, disconnected, local_cancelled,
  aborted, verification, protocol, Display,
}
use meshelf.Net.Errors
use meshelf.Net.Plan.{ReceivePlan}

-- the errors of `read_v2_frame_async`; an I/O error has a kind
pub data ReadError : Type 0 where
  io : ErrorKind → Text → ReadError
  other : ProtocolError → ReadError

-- what one read finds: a frame, an error, nothing in time, or the user's cancellation
pub data Arrival : Type 0 where
  frame : V2Message → Arrival
  broken : ReadError → Arrival
  late cancel : Arrival

abbrev pub Stream : Type 0
Stream = List Arrival

module _ (display : Display) where
  unfoldable pub protocol_read_failure : ReadError → (files bytes : ℕ) → ReceiveFailure
  protocol_read_failure (io kind text) files bytes =
      if is_disconnect_io kind
      then disconnected files bytes
      else ReceiveFailure.io (NetError.io kind text)
  protocol_read_failure (other error) files bytes =
      protocol files bytes (display.protocol_error error)

  -- `validate_v2_message(&message).map_err(…)`
  abbrev pub check_message : V2Message → (files bytes : ℕ) → Result ReceiveFailure (Unit {0})
  check_message message files bytes =
      map_err (λ e. protocol files bytes (display.protocol_error e)) (validate_v2_message message)

  unfoldable pub read_v2_cancellable :
      (files bytes : ℕ) → Stream → Result ReceiveFailure V2Message × Stream
  read_v2_cancellable files bytes [] =
      (err (ReceiveFailure.io (timeout (lit "read fetch control"))), [])
  read_v2_cancellable files bytes (frame message ∷ stream) =
      (do check_message message files bytes; ok message, stream)
  read_v2_cancellable files bytes (broken error ∷ stream) =
      (err (protocol_read_failure error files bytes), stream)
  read_v2_cancellable files bytes (late ∷ stream) =
      (err (ReceiveFailure.io (timeout (lit "read fetch control"))), stream)
  read_v2_cancellable files bytes (cancel ∷ stream) = (err (local_cancelled files bytes), stream)

abbrev pub manifest_invalid : ReceiveFailure
manifest_invalid = verification 0 0 (lit "invalid manifest")

unfoldable pub abort_failure : FetchAbort → ReceiveFailure
abort_failure abort = aborted abort.code abort.files_sent abort.bytes_sent

-- what `read_complete` makes of a message
unfoldable pub complete_of : V2Message → Result ReceiveFailure FetchComplete
complete_of (fetch_complete complete) = ok complete
complete_of (fetch_abort abort) = err (abort_failure abort)
complete_of _ = err (verification 0 0 (lit "expected fetch_complete"))

abbrev pub after_read :
    {A B : Type 0}
    → Result ReceiveFailure A × Stream
    → (A → Stream → Result ReceiveFailure B × Stream)
    → Result ReceiveFailure B × Stream
after_read (ok a, stream) next = next a stream
after_read (err e, stream) next = (err e, stream)

unfoldable pub read_complete : Display → Stream → Result ReceiveFailure FetchComplete × Stream
read_complete display stream =
    after_read (read_v2_cancellable display 0 0 stream)
      (λ message rest. (complete_of message, rest))

abbrev pub chunk_in : V2Message → Result ReceiveFailure ManifestChunk
chunk_in (manifest_chunk chunk) = ok chunk
chunk_in _ = err manifest_invalid

abbrev pub end_in : V2Message → Result ReceiveFailure ManifestEnd
end_in (manifest_end end) = ok end
end_in _ = err manifest_invalid

-- `u32::try_from(n)`
abbrev pub try_u32 : ℕ → Option ℕ
try_u32 n = if ltb u32_max n then none else some n

-- the variables of the loop of `read_manifest`
pub record Reading : Type 0 where
  pub expected_index : ℕ
  pub plan : ReceivePlan

module _ (display : Display) (codec : Codec V2Message) (header : FetchHeader) where
  -- a turn of the loop, after its frame was read
  unfoldable pub take_chunk : V2Message → Reading → Result ReceiveFailure Reading
  take_chunk message state = do
    check_message display message 0 0
    chunk ← chunk_in message
    reject
        (not (chunk.request_id == header.request_id)
          || not (chunk.first_index == state.expected_index)
          || is_empty chunk.entries)
        manifest_invalid
    count ← ok_or manifest_invalid (try_u32 (length chunk.entries))
    expected_index ← ok_or manifest_invalid (checked_add_u32 state.expected_index count)
    reject (ltb header.manifest_entries expected_index) manifest_invalid
    encoded ← map_err (λ _. manifest_invalid) (encoded_len codec chunk)
    encoded_bytes ←
        ok_or manifest_invalid (checked_add_u64 (state.plan).manifest_encoded_bytes encoded)
    ok (record {
      expected_index = expected_index;
      plan = record (state.plan) {
        manifest_encoded_bytes = encoded_bytes;
        entries = (state.plan).entries ++ chunk.entries;
      };
    })

  -- after the loop
  unfoldable pub take_end : V2Message → ReceivePlan → Result ReceiveFailure ReceivePlan
  take_end message plan = do
    check_message display message 0 0
    end ← end_in message
    reject (not (end.request_id == header.request_id)) manifest_invalid
    reject
        (ltb v2_max_manifest_bytes plan.manifest_encoded_bytes
          || not (plan.manifest_encoded_bytes == header.manifest_encoded_bytes))
        manifest_invalid
    ok (record plan { manifest_end = some end })

  unfoldable pub read_end : ReceivePlan → Stream → Result ReceiveFailure ReceivePlan × Stream
  read_end plan stream =
      after_read (read_v2_cancellable display 0 0 stream)
        (λ message rest. (take_end message plan, rest))

  -- Every turn reads once, so the loop goes no further than the stream. An error leaves it: what
  -- the loop changed of the plan is not used after one.
  unfoldable pub read_chunks : Reading → Stream → Result ReceiveFailure ReceivePlan × Stream
  read_chunks state [] =
      if ltb state.expected_index header.manifest_entries
      then (err (ReceiveFailure.io (timeout (lit "read fetch control"))), [])
      else read_end state.plan []
  read_chunks state (arrival ∷ stream) = elim (ltb state.expected_index header.manifest_entries) [
    | true ↦ after_read (read_v2_cancellable display 0 0 (arrival ∷ stream)) (λ message _.
        elim (take_chunk message state) [
          | ok next ↦ read_chunks next stream
          | err e ↦ (err e, stream)
        ])
    | false ↦ read_end state.plan (arrival ∷ stream)
  ]

  unfoldable pub read_manifest : ReceivePlan → Stream → Result ReceiveFailure ReceivePlan × Stream
  read_manifest plan stream =
      if header.manifest_entries == 0
      then (ok plan, stream)
      else read_chunks (record { expected_index = 0; plan = plan }) stream
