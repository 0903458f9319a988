-- ===== src/Core/Activation.antt =====
-- crates/meshelf-core/src/activation.rs: the activation journal's entries and the clipboard cache's
-- records.
use meshelf.Base.{ℕ, Bool, true, false, not, Result, ok, ◌>>◌, reject}
use meshelf.Core.Model.{ActivationId, DeviceId, OfferId}
use meshelf.Core.Offer.{HostPath}

pub data ActivationState : Type 0 where
  requested planning staging transferring verified publishing applying_clipboard completed failed :
      ActivationState
  cancelled uncertain_no_replay : ActivationState

abbrev pub is_uncertain_side_effect : ActivationState → Bool
is_uncertain_side_effect uncertain_no_replay = true
is_uncertain_side_effect applying_clipboard = true
is_uncertain_side_effect _ = false

pub data ActivationMode : Type 0 where
  clipboard save : ActivationMode

pub record ActivationJournalEntry : Type 0 where
  pub activation_id : ActivationId
  pub source_device : DeviceId
  pub offer_id : OfferId
  pub mode : ActivationMode
  pub staging_root : HostPath
  pub state : ActivationState
  pub reserved_entries : ℕ
  pub reserved_bytes : ℕ

pub data ActivationError : Type 0 where
  staging_root_not_absolute cache_path_not_absolute : ActivationError

abbrev pub validate_entry : ActivationJournalEntry → Result ActivationError (Unit {0})
validate_entry entry = do
  reject (not entry.staging_root.is_absolute) staging_root_not_absolute
  ok tt

pub data ClipboardCacheState : Type 0 where
  in_flight completed : ClipboardCacheState

pub record ClipboardCacheRecord : Type 0 where
  pub activation_id : ActivationId
  pub state : ClipboardCacheState
  pub payload_path : HostPath

abbrev pub validate_cache : ClipboardCacheRecord → Result ActivationError (Unit {0})
validate_cache entry = do reject (not entry.payload_path.is_absolute) cache_path_not_absolute; ok tt
