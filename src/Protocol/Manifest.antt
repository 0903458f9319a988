-- ===== src/Protocol/Manifest.antt =====
-- The manifests of crates/meshelf-protocol/src/v2.rs: `ManifestEntry::validate`,
-- `validate_manifest_chunk` and `validate_manifest_entries`.
pub mod Laws
use meshelf.Base.{
  ℕ, ◌+◌, ◌%◌, ◌^◌, Bool, true, false, ◌&&◌, not, Option, none, some, List, [], ◌∷◌, Result, ok,
  err, ◌>>=◌, ◌>>◌, reject, ok_or, ltb, leb, ◌==◌, if◌then◌else◌, length,
}
use meshelf.Base.Text.{Text, byte_len}
use meshelf.Core.Model.{
  max_offer_file_bytes, max_offer_manifest_entries, max_offer_transfer_bytes, u32_max,
  checked_add_u32, checked_add_u64,
}
use meshelf.Protocol.Messages.{
  v2_max_relative_path_bytes, ProtocolError, v2_validation, relative_path_too_large, file_too_large,
  empty_path_of_directory, directory_with_bytes, manifest_index_overflow, entry_count_exceeds,
  entry_count_not_u32, transfer_size_overflow, transfer_size_exceeds, FileEntryKind, file,
  directory, ManifestEntry, ManifestChunk,
}
use meshelf.Protocol.Paths.{validate_relative_path}

abbrev pub is_file : FileEntryKind → Bool
is_file file = true
is_file directory = false

-- the check of the path: empty for the file of an offer of one file
abbrev pub validate_entry_path : ManifestEntry → Result ProtocolError (Unit {0})
validate_entry_path entry =
    if byte_len entry.relative_path == 0
    then reject (not (is_file entry.kind)) (v2_validation empty_path_of_directory)
    else validate_relative_path entry.relative_path

abbrev pub validate_entry_size : FileEntryKind → ℕ → Result ProtocolError (Unit {0})
validate_entry_size file bytes =
    reject (ltb max_offer_file_bytes bytes) (v2_validation (file_too_large bytes))
validate_entry_size directory bytes = reject (not (bytes == 0)) (v2_validation directory_with_bytes)

unfoldable pub validate_entry : ManifestEntry → Result ProtocolError (Unit {0})
validate_entry entry = do
  reject (ltb v2_max_relative_path_bytes (byte_len entry.relative_path))
      (v2_validation (relative_path_too_large (byte_len entry.relative_path)))
  validate_entry_path entry
  validate_entry_size entry.kind entry.byte_len

unfoldable pub validate_each : List ManifestEntry → Result ProtocolError (Unit {0})
validate_each [] = ok tt
validate_each (entry ∷ rest) = do validate_entry entry; validate_each rest

-- `filter(…).try_fold(0, checked_add)`, from a total so far
unfoldable pub file_bytes_from : ℕ → List ManifestEntry → Option ℕ
file_bytes_from total [] = some total
file_bytes_from total (entry ∷ rest) =
    if is_file entry.kind
    then elim (checked_add_u64 total entry.byte_len) [
      | none ↦ none
      | some sum ↦ file_bytes_from sum rest
    ]
    else file_bytes_from total rest

-- `entries.len() as u32`
abbrev pub len_u32 : List ManifestEntry → ℕ
len_u32 entries = length entries % 2 ^ 32

unfoldable pub validate_chunk : ManifestChunk → Result ProtocolError (Unit {0})
validate_chunk chunk = do
  end_index ←
      ok_or (v2_validation manifest_index_overflow)
        (checked_add_u32 chunk.first_index (len_u32 chunk.entries))
  reject (ltb max_offer_manifest_entries end_index) (v2_validation entry_count_exceeds)
  validate_each chunk.entries
  total_bytes ← ok_or (v2_validation transfer_size_overflow) (file_bytes_from 0 chunk.entries)
  reject (ltb max_offer_transfer_bytes total_bytes) (v2_validation transfer_size_exceeds)
  ok tt

-- the loop of `validate_manifest_entries`, from a total so far
unfoldable pub checked_bytes_from : ℕ → List ManifestEntry → Result ProtocolError ℕ
checked_bytes_from total [] = ok total
checked_bytes_from total (entry ∷ rest) = do
  validate_entry entry
  if is_file entry.kind
      then (do
        sum ← ok_or (v2_validation transfer_size_overflow) (checked_add_u64 total entry.byte_len)
        checked_bytes_from sum rest)
      else checked_bytes_from total rest

unfoldable pub validate_manifest_entries : List ManifestEntry → Result ProtocolError (Unit {0})
validate_manifest_entries entries = do
  reject (ltb u32_max (length entries)) (v2_validation entry_count_not_u32)
  reject (ltb max_offer_manifest_entries (length entries)) (v2_validation entry_count_exceeds)
  total_bytes ← checked_bytes_from 0 entries
  reject (ltb max_offer_transfer_bytes total_bytes) (v2_validation transfer_size_exceeds)
  ok tt
