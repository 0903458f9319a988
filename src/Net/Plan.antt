-- ===== src/Net/Plan.antt =====
-- What a receiver knows of one fetch: `FetchActivation`, `ReceivePlan`, and `validate_header` of
-- crates/meshelf-net/src/fetch_receiver.rs.
use meshelf.Base.{
  ℕ, Bool, true, false, not, ◌&&◌, ◌||◌, Option, none, some, List, [], Result, ok, ◌>>◌, reject,
  ltb, ◌==◌, length,
}
use meshelf.Base.Text.{Text}
use meshelf.Core.Activation.{ActivationMode}
use meshelf.Core.Model.{ActivationId, DeviceId, OfferId, ContentKind}
use meshelf.Core.Model
use meshelf.Core.Offer.{HostPath, OfferDescriptor, text, file, folder, descriptor_eq, is_text}
use meshelf.Core.Records.{OfferCardRecord}
use meshelf.Protocol.Messages.{
  FetchAdmissionCode, invalid_manifest, FetchHeader, ManifestEntry, ManifestEnd,
}

-- the local action that allows one fetch
pub record FetchActivation : Type 0 where
  pub request_id : ActivationId
  pub source_device : DeviceId
  pub offer_id : OfferId
  pub mode : ActivationMode
  pub destination : Option HostPath

-- a file below the staging root, and whether its handle is open
pub record StagedFile : Type 0 where
  pub entry_index : ℕ
  pub path : HostPath
  pub file_open : Bool

pub record ReceivePlan : Type 0 where
  pub content_kind : ContentKind
  pub total_bytes : ℕ
  pub file_count : ℕ
  pub entries : List ManifestEntry
  pub manifest_end : Option ManifestEnd
  pub manifest_encoded_bytes : ℕ
  pub manifest_sha256 : Option (List ℕ)
  pub text : Option Text
  pub staged_files : List StagedFile

abbrev pub is_digest : Option (List ℕ) → Bool
is_digest none = false
is_digest (some hash) = length hash == 32

abbrev pub is_given : {A : Type 0} → Option A → Bool
is_given none = false
is_given (some _) = true

abbrev pub content_kind_of : OfferDescriptor → ContentKind
content_kind_of (text _ _ _) = Model.text
content_kind_of (file _ _) = Model.file
content_kind_of (folder _ _ _ _ _) = Model.folder

abbrev pub bytes_of : OfferDescriptor → ℕ
bytes_of (text utf8_bytes _ _) = utf8_bytes
bytes_of (file _ total_bytes) = total_bytes
bytes_of (folder _ total_bytes _ _ _) = total_bytes

abbrev pub files_of : OfferDescriptor → ℕ
files_of (text _ _ _) = 0
files_of (file _ _) = 1
files_of (folder _ _ _ file_count _) = file_count

-- the hashes and the sizes that do not go with the kind of the content
abbrev pub is_misshapen : FetchHeader → Bool
is_misshapen header = elim (is_text header.descriptor) [
  | true ↦
      not (header.manifest_entries == 0)
      || not (header.manifest_encoded_bytes == 0)
      || is_given header.manifest_sha256
      || not (is_digest header.text_sha256)
  | false ↦ is_given header.text_sha256 || not (is_digest header.manifest_sha256)
]

unfoldable pub validate_header :
    FetchHeader → OfferCardRecord → FetchActivation → Result FetchAdmissionCode ReceivePlan
validate_header header card activation = do
  reject
      (not (header.request_id == activation.request_id)
        || not (header.offer_id == activation.offer_id))
      invalid_manifest
  reject (not (descriptor_eq header.descriptor card.descriptor)) invalid_manifest
  reject (is_misshapen header) invalid_manifest
  ok (record {
    content_kind = content_kind_of header.descriptor;
    total_bytes = bytes_of header.descriptor;
    file_count = files_of header.descriptor;
    entries = [];
    manifest_end = none;
    manifest_encoded_bytes = 0;
    manifest_sha256 = header.manifest_sha256;
    text = none;
    staged_files = [];
  })

abbrev pub is_text_kind : ContentKind → Bool
is_text_kind Model.text = true
is_text_kind _ = false

unfoldable pub needs_filesystem_reservation : ContentKind → ℕ → Bool
needs_filesystem_reservation content_kind payload_bytes =
    not (is_text_kind content_kind) && ltb 0 payload_bytes
