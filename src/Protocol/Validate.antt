-- ===== src/Protocol/Validate.antt =====
-- `validate_v2_message` of crates/meshelf-protocol/src/v2.rs, with the checks of the single messages.
use meshelf.Base.{
  Bool, true, false, ◌&&◌, ◌||◌, not, Option, none, some, Result, ok, ◌>>◌, reject, map_err, ltb,
  leb, ◌==◌,
}
use meshelf.Base.Text.{Text, byte_len}
use meshelf.Core.Model.{
  max_live_entries, max_offer_manifest_entries, max_offer_transfer_bytes, max_offer_file_bytes,
}
use meshelf.Core.Offer.{OfferDescriptor, is_text, validate}
use meshelf.Protocol.Messages.{
  v2_protocol_version, v2_max_manifest_bytes, v2_max_active_payload_streams,
  v2_max_status_detail_bytes, V2Detail, ProtocolError, v2_validation, unsupported_version,
  descriptor, source_changed_for_text, detail_too_large, card_capacity, stream_capacity,
  entry_count_exceeds, encoded_manifest_exceeds, transfer_size_exceeds, reserved_entries_exceed,
  reserved_bytes_exceed, entry_index_exceeds, file_size_exceeds, sent_files_exceed,
  sent_bytes_exceed, received_files_exceed, received_bytes_exceed, OfferAnnouncement, OfferAck,
  FetchRefusalCode, FetchRefusal, FetchHeader, ManifestEnd, FetchAdmission, FileStart,
  FetchComplete, FetchReceipt, V2Message, offer_announcement, offer_ack, fetch_request,
  fetch_refusal, fetch_header, manifest_chunk, manifest_end, fetch_admission, file_start, file_end,
  text_end, fetch_complete, fetch_abort, fetch_receipt,
}
use meshelf.Protocol.Manifest.{validate_chunk}

abbrev pub refuse : Bool → V2Detail → Result ProtocolError (Unit {0})
refuse bad detail = reject bad (v2_validation detail)

unfoldable pub validate_detail : Option Text → Result ProtocolError (Unit {0})
validate_detail none = ok tt
validate_detail (some detail) =
    refuse (ltb v2_max_status_detail_bytes (byte_len detail)) (detail_too_large (byte_len detail))

abbrev pub validate_descriptor : OfferDescriptor → Result ProtocolError (Unit {0})
validate_descriptor d = map_err (λ e. v2_validation (descriptor e)) (validate d)

unfoldable pub validate_announcement : OfferAnnouncement → Result ProtocolError (Unit {0})
validate_announcement value = do
  refuse (not (value.protocol_version == v2_protocol_version))
      (unsupported_version value.protocol_version)
  validate_descriptor value.descriptor

abbrev pub is_source_changed : FetchRefusalCode → Bool
is_source_changed FetchRefusalCode.source_changed = true
is_source_changed _ = false

-- `FetchRefusal::validate_for`
unfoldable pub validate_refusal_for :
    FetchRefusal → OfferDescriptor → Result ProtocolError (Unit {0})
validate_refusal_for refusal d = do
  validate_detail refusal.detail
  refuse (is_text d && is_source_changed refusal.code) source_changed_for_text
  ok tt

unfoldable pub validate_ack : OfferAck → Result ProtocolError (Unit {0})
validate_ack value = do
  refuse
      (ltb value.max_live_entries value.live_entries
        || not (value.max_live_entries == max_live_entries))
      card_capacity
  validate_detail value.detail

unfoldable pub validate_refusal : FetchRefusal → Result ProtocolError (Unit {0})
validate_refusal value = do
  refuse
      (ltb value.max_active_streams value.active_streams
        || not (value.max_active_streams == v2_max_active_payload_streams))
      stream_capacity
  validate_detail value.detail
  ok tt

unfoldable pub validate_header : FetchHeader → Result ProtocolError (Unit {0})
validate_header value = do
  validate_descriptor value.descriptor
  refuse (ltb max_offer_manifest_entries value.manifest_entries) entry_count_exceeds
  refuse (ltb v2_max_manifest_bytes value.manifest_encoded_bytes) encoded_manifest_exceeds
  ok tt

unfoldable pub validate_end : ManifestEnd → Result ProtocolError (Unit {0})
validate_end value = do
  refuse (ltb max_offer_manifest_entries value.entry_count) entry_count_exceeds
  refuse (ltb max_offer_transfer_bytes value.total_bytes) transfer_size_exceeds
  ok tt

unfoldable pub validate_admission : FetchAdmission → Result ProtocolError (Unit {0})
validate_admission value = do
  refuse (ltb max_offer_manifest_entries value.entries_reserved) reserved_entries_exceed
  refuse (ltb max_offer_transfer_bytes value.bytes_reserved) reserved_bytes_exceed
  validate_detail value.detail

unfoldable pub validate_file_start : FileStart → Result ProtocolError (Unit {0})
validate_file_start value = do
  refuse (leb max_offer_manifest_entries value.entry_index) entry_index_exceeds
  refuse (ltb max_offer_file_bytes value.byte_len) file_size_exceeds
  ok tt

unfoldable pub validate_complete : FetchComplete → Result ProtocolError (Unit {0})
validate_complete value = do
  refuse (ltb max_offer_manifest_entries value.files_sent) sent_files_exceed
  refuse (ltb max_offer_transfer_bytes value.bytes_sent) sent_bytes_exceed
  ok tt

unfoldable pub validate_receipt : FetchReceipt → Result ProtocolError (Unit {0})
validate_receipt value = do
  refuse (ltb max_offer_manifest_entries value.files_received) received_files_exceed
  refuse (ltb max_offer_transfer_bytes value.bytes_received) received_bytes_exceed
  validate_detail value.detail

unfoldable pub validate_v2_message : V2Message → Result ProtocolError (Unit {0})
validate_v2_message (offer_announcement value) = validate_announcement value
validate_v2_message (offer_ack value) = validate_ack value
validate_v2_message (fetch_request _) = ok tt
validate_v2_message (fetch_refusal value) = validate_refusal value
validate_v2_message (fetch_header value) = validate_header value
validate_v2_message (manifest_chunk value) = validate_chunk value
validate_v2_message (manifest_end value) = validate_end value
validate_v2_message (fetch_admission value) = validate_admission value
validate_v2_message (file_start value) = validate_file_start value
validate_v2_message (file_end _) = ok tt
validate_v2_message (text_end _) = ok tt
validate_v2_message (fetch_complete value) = validate_complete value
validate_v2_message (fetch_abort value) = validate_detail value.detail
validate_v2_message (fetch_receipt value) = validate_receipt value
