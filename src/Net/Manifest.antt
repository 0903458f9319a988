-- ===== src/Net/Manifest.antt =====
-- `validate_manifest` of crates/meshelf-net/src/fetch_receiver.rs. `str::to_lowercase`, serde_json
-- and SHA-256 are parameters.
pub mod Tree
pub mod Tallied
pub mod Accepted
mod Tests
use meshelf.Base.{
  ℕ, zero, suc, ◌-◌, Bool, true, false, not, ◌||◌, Option, none, some, List, [], ◌∷◌, Result, ok,
  err, ◌>>=◌, ◌>>◌, reject, map_err, ok_or, ltb, ◌==◌, if◌then◌else◌, any, min, take, length,
}
use meshelf.Base.Text.{Text, byte_len, text_eq, split}
use meshelf.Core.Destination.{validate_relative_path}
use meshelf.Core.Destination.Laws.{join}
use meshelf.Core.Model.{
  max_offer_file_bytes, max_offer_transfer_bytes, u32_max, checked_add_u32, checked_add_u64,
}
use meshelf.Core.Offer.{OfferDescriptor, text, file, folder}
use meshelf.Protocol.Messages.{
  v2_max_relative_path_bytes, FileEntryKind, FetchHeader, FetchAdmissionCode, invalid_manifest,
  too_large, ManifestEntry, ManifestEnd,
}
use meshelf.Protocol.Messages
use meshelf.Protocol.Manifest.{is_file}
use meshelf.Net.Plan.{ReceivePlan}

-- what the libraries compute
pub record Libraries : Type 0 where
  pub to_lowercase : Text → Text
  pub entries_to_vec : List ManifestEntry → Option (List ℕ)
  pub sha256 : List ℕ → List ℕ

-- `==` of two lists of bytes is that of two texts
abbrev pub bytes_eq : List ℕ → List ℕ → Bool
bytes_eq = text_eq

-- a `HashSet<String>`
abbrev pub member : Text → List Text → Bool
member t = any (text_eq t)

-- the variables of the first loop
pub record Tally : Type 0 where
  pub seen : List Text
  pub directories : List Text
  pub files : List Text
  pub total_bytes : ℕ
  pub file_count : ℕ
  pub directory_count : ℕ

abbrev pub no_tally : Tally
no_tally = record {
  seen = [];
  directories = [];
  files = [];
  total_bytes = 0;
  file_count = 0;
  directory_count = 0;
}

-- `1..n`
unfoldable pub range_from : ℕ → ℕ → List ℕ
range_from start zero = []
range_from start (suc count) = start ∷ range_from (suc start) count

abbrev pub check_path : ManifestEntry → Result FetchAdmissionCode (Unit {0})
check_path entry =
    if byte_len entry.relative_path == 0
    then reject (not (is_file entry.kind)) invalid_manifest
    else map_err (λ _. invalid_manifest) (validate_relative_path entry.relative_path)

-- `u32::try_from(n).unwrap_or(u32::MAX)`
abbrev pub clamp_u32 : ℕ → ℕ
clamp_u32 n = min n u32_max

module _ (lib : Libraries) where
  abbrev pub folded : ManifestEntry → Text
  folded entry = lib.to_lowercase entry.relative_path

  unfoldable pub tally_kind :
      ManifestEntry → FileEntryKind → Tally → Result FetchAdmissionCode Tally
  tally_kind entry Messages.file tally = do
    reject (ltb max_offer_file_bytes entry.byte_len) too_large
    file_count ← ok_or too_large (checked_add_u32 tally.file_count 1)
    total_bytes ← ok_or too_large (checked_add_u64 tally.total_bytes entry.byte_len)
    ok (record tally {
      files = folded entry ∷ tally.files;
      total_bytes = total_bytes;
      file_count = file_count;
    })
  tally_kind entry Messages.directory tally = do
    reject (not (entry.byte_len == 0)) invalid_manifest
    directory_count ← ok_or too_large (checked_add_u32 tally.directory_count 1)
    ok (record tally {
      directories = folded entry ∷ tally.directories;
      directory_count = directory_count;
    })

  -- one turn of the first loop
  unfoldable pub tally_one : ManifestEntry → Tally → Result FetchAdmissionCode Tally
  tally_one entry tally = do
    reject (ltb v2_max_relative_path_bytes (byte_len entry.relative_path)) invalid_manifest
    check_path entry
    reject (member (folded entry) tally.seen) invalid_manifest
    tally_kind entry entry.kind (record tally { seen = folded entry ∷ tally.seen })

  unfoldable pub tally_all : List ManifestEntry → Tally → Result FetchAdmissionCode Tally
  tally_all [] tally = ok tally
  tally_all (entry ∷ entries) tally = do next ← tally_one entry tally; tally_all entries next

  -- the inner loop of the second one, over the ends of the parents
  unfoldable pub check_ends : Tally → List Text → List ℕ → Result FetchAdmissionCode (Unit {0})
  check_ends tally components [] = ok tt
  check_ends tally components (end ∷ ends) = do
    reject (member (join b'/' (take end components)) tally.files) invalid_manifest
    reject (not (member (join b'/' (take end components)) tally.directories)) invalid_manifest
    check_ends tally components ends

  abbrev pub components : ManifestEntry → List Text
  components entry = split b'/' (folded entry)

  abbrev pub ends : ManifestEntry → List ℕ
  ends entry = range_from 1 (length (components entry) - 1)

  unfoldable pub check_parents : Tally → List ManifestEntry → Result FetchAdmissionCode (Unit {0})
  check_parents tally [] = ok tt
  check_parents tally (entry ∷ entries) = do
    if byte_len entry.relative_path == 0
        then ok tt
        else check_ends tally (components entry) (ends entry)
    check_parents tally entries

-- `entries.len() != 1 || entries[0].kind != File || !entries[0].relative_path.is_empty()`
abbrev pub is_lone_file : List ManifestEntry → Bool
is_lone_file (entry ∷ []) = if is_file entry.kind then byte_len entry.relative_path == 0 else false
is_lone_file _ = false

-- the number of entries that the descriptor asks for
unfoldable pub expected_entries :
    OfferDescriptor → List ManifestEntry → Tally → Result FetchAdmissionCode ℕ
expected_entries (text _ _ _) entries tally = ok 0
expected_entries (file _ total_bytes) entries tally = do
  reject (not (is_lone_file entries) || not (tally.total_bytes == total_bytes)) invalid_manifest
  ok 1
expected_entries (folder _ total_bytes entry_count file_count directory_count) entries tally = do
  reject
      (not (tally.total_bytes == total_bytes)
        || not (tally.file_count == file_count)
        || not (tally.directory_count == directory_count))
      invalid_manifest
  ok entry_count

-- the totals that the sender closed the manifest with
abbrev pub end_differs : ManifestEnd → List ManifestEntry → Tally → List ℕ → Bool
end_differs end entries tally hash =
    not (end.entry_count == clamp_u32 (length entries))
    || not (end.file_count == tally.file_count)
    || not (end.total_bytes == tally.total_bytes)
    || not (bytes_eq end.manifest_sha256 hash)

unfoldable pub check_digest :
    Libraries → Option (List ℕ) → ReceivePlan → Tally → Result FetchAdmissionCode (Unit {0})
check_digest lib none plan tally = ok tt
check_digest lib (some hash) plan tally = do
  json ← ok_or invalid_manifest (lib.entries_to_vec plan.entries)
  reject (not (bytes_eq (lib.sha256 json) hash)) invalid_manifest
  end ← ok_or invalid_manifest plan.manifest_end
  reject (end_differs end plan.entries tally hash) invalid_manifest
  ok tt

-- the totals of a manifest that passed the two loops and the bound
unfoldable pub tally_manifest : Libraries → List ManifestEntry → Result FetchAdmissionCode Tally
tally_manifest lib entries = do
  tally ← tally_all lib entries no_tally
  check_parents lib tally entries
  reject (ltb max_offer_transfer_bytes tally.total_bytes) too_large
  ok tally

unfoldable pub validate_manifest :
    Libraries → FetchHeader → OfferDescriptor → ReceivePlan → Result FetchAdmissionCode (Unit {0})
validate_manifest lib header descriptor plan = do
  reject (not (length plan.entries == header.manifest_entries)) invalid_manifest
  tally ← tally_manifest lib plan.entries
  expected ← expected_entries descriptor plan.entries tally
  reject (not (clamp_u32 (length plan.entries) == expected)) invalid_manifest
  check_digest lib header.manifest_sha256 plan tally
