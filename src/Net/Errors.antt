-- ===== src/Net/Errors.antt =====
-- The errors of crates/meshelf-net/src: `NetError` of lib.rs, `ReceiveFailure` and
-- `SideEffectFailure` of fetch_receiver.rs. The texts that `to_string` makes of the errors of the
-- other crates are parameters.
use meshelf.Base.{ℕ, Bool, true, false, Option}
use meshelf.Base.Text.{Text}
use meshelf.Core.Records.{StoreError}
use meshelf.Protocol.Messages.{
  ProtocolError, FetchRefusalCode, FetchAdmissionCode, FetchReceiptCode, FetchAbortCode,
}

-- the kinds of `std::io::Error` that are told apart
pub data ErrorKind : Type 0 where
  unexpected_eof connection_reset broken_pipe connection_aborted not_connected other_kind :
      ErrorKind

unfoldable pub is_disconnect_io : ErrorKind → Bool
is_disconnect_io other_kind = false
is_disconnect_io _ = true

pub data NetError : Type 0 where
  io : ErrorKind → Text → NetError
  protocol : ProtocolError → NetError
  timeout : Text → NetError
  rejected : Text → NetError
  protocol_mismatch : (peer : Text) (version expected : ℕ) → NetError
  unavailable unexpected_message identity_mismatch unsafe_bind file_transfer offer_storage :
      Text → NetError
  fetch_service fetch_service_owned : Text → NetError
  fetch_refused :
      (code : FetchRefusalCode) (active_streams max_active_streams : ℕ) (detail : Option Text)
      → NetError
  fetch_admission_refused :
      (code : FetchAdmissionCode) (entries_reserved bytes_reserved : ℕ) (detail : Option Text)
      → NetError
  fetch_terminal :
      (code : FetchReceiptCode) (files_processed bytes_processed : ℕ) (detail : Option Text)
      → NetError
  fetch_aborted :
      (code : FetchAbortCode) (files_processed bytes_processed : ℕ) (detail : Option Text)
      → NetError
  fetch_local_io : (files_processed bytes_processed : ℕ) (detail : Option Text) → NetError
  handler_limit_closed : NetError

pub data ReceiveFailure : Type 0 where
  disconnected local_cancelled : (files bytes : ℕ) → ReceiveFailure
  aborted : (code : FetchAbortCode) (files bytes : ℕ) → ReceiveFailure
  verification protocol local_io : (files bytes : ℕ) (detail : Text) → ReceiveFailure
  io : NetError → ReceiveFailure

pub data SideEffectFailure : Type 0 where
  terminal uncertain : NetError → SideEffectFailure

-- `to_string` of the errors of the store and of the protocol
pub record Display : Type 0 where
  pub store_error : StoreError → Text
  pub protocol_error : ProtocolError → Text
