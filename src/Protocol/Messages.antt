-- ===== src/Protocol/Messages.antt =====
-- The messages of crates/meshelf-protocol/src/lib.rs and v2.rs, with the bounds of v2.rs. A
-- validation error holds what its message is made from.
use meshelf.Base.{ℕ, ◌+◌, ◌*◌, Bool, ◌&&◌, ◌||◌, not, Option, List, ◌==◌}
use meshelf.Base.Text.{Text}
use meshelf.Core.Model.{ActivationId, DeviceId, OfferId, max_text_bytes}
use meshelf.Core.Offer.{OfferDescriptor, OfferDescriptorError, descriptor_eq}

abbrev pub v2_protocol_version : ℕ
v2_protocol_version = 2

abbrev pub max_frame_bytes : ℕ
max_frame_bytes = max_text_bytes + 64 * 1024

abbrev pub v2_max_control_frame_bytes : ℕ
v2_max_control_frame_bytes = 64 * 1024

abbrev pub v2_max_manifest_bytes : ℕ
v2_max_manifest_bytes = 8 * 1024 * 1024

abbrev pub v2_max_relative_path_bytes : ℕ
v2_max_relative_path_bytes = 4096

abbrev pub v2_max_active_payload_streams : ℕ
v2_max_active_payload_streams = 2

abbrev pub v2_max_status_detail_bytes : ℕ
v2_max_status_detail_bytes = 512

pub data V2Detail : Type 0 where
  unsupported_version : ℕ → V2Detail
  descriptor : OfferDescriptorError → V2Detail
  source_changed_for_text expected_client_hello : V2Detail
  relative_path_too_large file_too_large component_too_large detail_too_large : ℕ → V2Detail
  encoded_manifest_too_large : ℕ → V2Detail
  empty_path_of_directory directory_with_bytes : V2Detail
  path_not_portable invalid_component control_character : V2Detail
  card_capacity stream_capacity manifest_index_overflow encoded_size_overflow : V2Detail
  entry_count_exceeds entry_count_not_u32 encoded_manifest_exceeds : V2Detail
  transfer_size_overflow transfer_size_exceeds reserved_entries_exceed reserved_bytes_exceed :
      V2Detail
  entry_index_exceeds file_size_exceeds sent_files_exceed sent_bytes_exceed : V2Detail
  received_files_exceed received_bytes_exceed : V2Detail

pub data ProtocolError : Type 0 where
  io json : Text → ProtocolError
  empty_frame length_overflow : ProtocolError
  frame_too_large : (bytes maximum : ℕ) → ProtocolError
  v2_validation : V2Detail → ProtocolError

pub record ClientHello : Type 0 where
  pub protocol_version : ℕ
  pub device_id : DeviceId
  pub device_name : Text
  pub nonce : Text
  pub capabilities : List Text
  pub public_key : List ℕ
  pub signature : List ℕ

pub record ServerHello : Type 0 where
  pub protocol_version : ℕ
  pub device_id : DeviceId
  pub device_name : Text
  pub accepted : Bool
  pub reason : Option Text
  pub capabilities : List Text
  pub public_key : List ℕ
  pub signature : List ℕ

pub data WireMessage : Type 0 where
  client_hello : ClientHello → WireMessage
  server_hello : ServerHello → WireMessage

pub data FileEntryKind : Type 0 where
  file directory : FileEntryKind

pub data OfferAckCode : Type 0 where
  stored duplicate refused_invalid refused_capacity refused_conflict : OfferAckCode

pub record OfferAnnouncement : Type 0 where
  pub protocol_version : ℕ
  pub offer_id : OfferId
  pub source_device : DeviceId
  pub target_device : DeviceId
  pub created_at_unix_ms : ℕ
  pub descriptor : OfferDescriptor

-- one offer announced again with other metadata; the target does not count
abbrev pub conflicts_with : OfferAnnouncement → OfferAnnouncement → Bool
conflicts_with this other =
    this.offer_id == other.offer_id
    && (not (this.source_device == other.source_device)
        || not (this.created_at_unix_ms == other.created_at_unix_ms)
        || not (descriptor_eq this.descriptor other.descriptor))

pub record OfferAck : Type 0 where
  pub offer_id : OfferId
  pub code : OfferAckCode
  pub live_entries : ℕ
  pub max_live_entries : ℕ
  pub pruned_entries : ℕ
  pub detail : Option Text

pub record FetchRequest : Type 0 where
  pub request_id : ActivationId
  pub offer_id : OfferId
  pub source_device : DeviceId
  pub requester_device : DeviceId

pub data FetchRefusalCode : Type 0 where
  unknown_offer not_announced_to_requester source_unavailable source_changed busy malformed :
      FetchRefusalCode
  unsupported : FetchRefusalCode

pub record FetchRefusal : Type 0 where
  pub request_id : ActivationId
  pub offer_id : OfferId
  pub code : FetchRefusalCode
  pub active_streams : ℕ
  pub max_active_streams : ℕ
  pub detail : Option Text

pub record FetchHeader : Type 0 where
  pub request_id : ActivationId
  pub offer_id : OfferId
  pub descriptor : OfferDescriptor
  pub manifest_entries : ℕ
  pub manifest_encoded_bytes : ℕ
  pub text_sha256 : Option (List ℕ)
  pub manifest_sha256 : Option (List ℕ)

pub record ManifestEntry : Type 0 where
  pub relative_path : Text
  pub kind : FileEntryKind
  pub byte_len : ℕ

pub record ManifestChunk : Type 0 where
  pub request_id : ActivationId
  pub first_index : ℕ
  pub entries : List ManifestEntry

pub record ManifestEnd : Type 0 where
  pub request_id : ActivationId
  pub entry_count : ℕ
  pub file_count : ℕ
  pub total_bytes : ℕ
  pub manifest_sha256 : List ℕ

pub data FetchAdmissionCode : Type 0 where
  accepted refused_busy invalid_manifest too_large insufficient_space : FetchAdmissionCode
  destination_unavailable allocation_failed unsupported_mode cancelled : FetchAdmissionCode

pub record FetchAdmission : Type 0 where
  pub request_id : ActivationId
  pub code : FetchAdmissionCode
  pub entries_reserved : ℕ
  pub bytes_reserved : ℕ
  pub detail : Option Text

pub record FileStart : Type 0 where
  pub request_id : ActivationId
  pub entry_index : ℕ
  pub byte_len : ℕ

pub record FileEnd : Type 0 where
  pub request_id : ActivationId
  pub entry_index : ℕ
  pub sha256 : List ℕ

pub record TextEnd : Type 0 where
  pub request_id : ActivationId
  pub sha256 : List ℕ

pub record FetchComplete : Type 0 where
  pub request_id : ActivationId
  pub files_sent : ℕ
  pub bytes_sent : ℕ
  pub content_set_sha256 : List ℕ

pub data FetchAbortCode : Type 0 where
  source_unavailable source_changed cancelled internal_error : FetchAbortCode

pub record FetchAbort : Type 0 where
  pub request_id : ActivationId
  pub code : FetchAbortCode
  pub files_sent : ℕ
  pub bytes_sent : ℕ
  pub detail : Option Text

pub data FetchReceiptCode : Type 0 where
  completed connection_lost cancelled verification_failed clipboard_failed : FetchReceiptCode
  uncertain_no_replay internal_error : FetchReceiptCode

pub record FetchReceipt : Type 0 where
  pub request_id : ActivationId
  pub offer_id : OfferId
  pub code : FetchReceiptCode
  pub files_received : ℕ
  pub bytes_received : ℕ
  pub detail : Option Text

pub data V2Message : Type 0 where
  offer_announcement : OfferAnnouncement → V2Message
  offer_ack : OfferAck → V2Message
  fetch_request : FetchRequest → V2Message
  fetch_refusal : FetchRefusal → V2Message
  fetch_header : FetchHeader → V2Message
  manifest_chunk : ManifestChunk → V2Message
  manifest_end : ManifestEnd → V2Message
  fetch_admission : FetchAdmission → V2Message
  file_start : FileStart → V2Message
  file_end : FileEnd → V2Message
  text_end : TextEnd → V2Message
  fetch_complete : FetchComplete → V2Message
  fetch_abort : FetchAbort → V2Message
  fetch_receipt : FetchReceipt → V2Message
