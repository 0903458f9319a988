-- ===== src/Core/Records.antt =====
-- crates/meshelf-core/src/store.rs: the rows of the offer store, what inserts them, and what the
-- operations report. A `StoreError` holds what its message is made from.
use meshelf.Base.{ℕ, Bool, false, Option, none, some, List, Result, ok, ◌>>◌, reject, map_err, ltb}
use meshelf.Base.Text.{Text, byte_len}
use meshelf.Core.Model.{ActivationId, DeviceId, OfferId, max_offer_attempt_detail_bytes}
use meshelf.Core.Offer.{
  CardAvailability, OfferDescriptor, OfferDescriptorError, OfferSource, OfferSourceError, validate,
  validate_for,
}
use meshelf.Core.Activation.{ActivationError}

pub data StoreError : Type 0 where
  -- what redb, serde_json or the file system report
  external : Text → StoreError
  descriptor_invalid : OfferDescriptorError → StoreError
  source_invalid : OfferSourceError → StoreError
  activation_invalid : ActivationError → StoreError
  source_conflict card_conflict source_missing card_missing journal_missing : StoreError
  attempt_detail_too_large too_many_recipients too_many_purged sequence_overflow : StoreError
  too_many_journal_entries too_many_cleaned candidate_not_in_flight too_many_body_records :
      StoreError
  staging_root_has_no_parent : StoreError
  cleanup_failed : List ActivationId → StoreError

pub record OfferSourceRecord : Type 0 where
  pub offer_id : OfferId
  pub descriptor : OfferDescriptor
  pub creation_sequence : ℕ
  pub announced_to : List DeviceId
  pub source : OfferSource

pub record OfferSourceInput : Type 0 where
  pub offer_id : OfferId
  pub descriptor : OfferDescriptor
  pub announced_to : List DeviceId
  pub source : OfferSource

unfoldable pub validate_source_input : OfferSourceInput → Result StoreError (Unit {0})
validate_source_input input = do
  map_err descriptor_invalid (validate input.descriptor)
  map_err source_invalid (validate_for input.source input.descriptor)

pub record OfferSourceInsert : Type 0 where
  pub entry : OfferSourceRecord
  pub inserted : Bool
  pub purged : ℕ

pub record OfferEligibilityUpdate : Type 0 where
  pub recipient_was_eligible : Bool
  pub offer_deleted : Bool
  pub remaining_recipients : ℕ

pub data OfferAttemptCode : Type 0 where
  completed source_unavailable source_changed busy cancelled clipboard_failed : OfferAttemptCode
  verification_failed uncertain_no_replay failed : OfferAttemptCode

pub record OfferAttemptStatus : Type 0 where
  pub code : OfferAttemptCode
  pub attempt_sequence : ℕ
  pub files_processed : ℕ
  pub bytes_processed : ℕ
  pub detail : Option Text

-- `detail.as_ref().is_some_and(|value| value.len() > MAX_OFFER_ATTEMPT_DETAIL_BYTES)`
abbrev pub detail_too_large : Option Text → Bool
detail_too_large none = false
detail_too_large (some value) = ltb max_offer_attempt_detail_bytes (byte_len value)

-- `OfferAttemptStatus::new`
unfoldable pub new_attempt :
    OfferAttemptCode
    → (attempt_sequence files_processed bytes_processed : ℕ) → Option Text
    → Result StoreError OfferAttemptStatus
new_attempt code attempt_sequence files_processed bytes_processed detail = do
  reject (detail_too_large detail) attempt_detail_too_large
  ok (record {
    code = code;
    attempt_sequence = attempt_sequence;
    files_processed = files_processed;
    bytes_processed = bytes_processed;
    detail = detail;
  })

pub record OfferCardRecord : Type 0 where
  pub source_device : DeviceId
  pub offer_id : OfferId
  pub descriptor : OfferDescriptor
  pub received_sequence : ℕ
  pub availability : CardAvailability
  pub last_attempt : Option OfferAttemptStatus

pub record OfferCardInput : Type 0 where
  pub source_device : DeviceId
  pub offer_id : OfferId
  pub descriptor : OfferDescriptor
  pub availability : CardAvailability

abbrev pub validate_card_input : OfferCardInput → Result StoreError (Unit {0})
validate_card_input input = map_err descriptor_invalid (validate input.descriptor)

pub record OfferCardInsert : Type 0 where
  pub entry : OfferCardRecord
  pub inserted : Bool
  pub purged : ℕ

pub record CleanupReport : Type 0 where
  pub journaled_entries : ℕ
  pub removed_entries : ℕ

pub record MigrationReport : Type 0 where
  pub v1_body_records_removed : ℕ
  pub partials_directory_removed : Bool
  pub completion_markers_removed : ℕ
