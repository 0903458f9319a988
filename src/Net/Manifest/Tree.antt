-- ===== src/Net/Manifest/Tree.antt =====
-- What an accepted manifest is: portable paths that form a tree up to letter case, with the announced
-- totals.
use meshelf.Base.{
  ℕ, suc, ◌≤◌, ◌<◌, ◌≡◌, ◌≢◌, ◌⊎◌, true, false, Option, none, some, List, [], ◌∷◌, if◌then◌else◌,
  All, Pairs, In, take, length,
}
use meshelf.Base.Text.{Text, byte_len}
use meshelf.Core.Destination.{relative_path}
use meshelf.Core.Destination.Laws.{join, IsSafe}
use meshelf.Core.Model.{max_offer_file_bytes, max_offer_transfer_bytes}
use meshelf.Core.Offer.{OfferDescriptor, text, file, folder}
use meshelf.Protocol.Messages.{
  v2_max_relative_path_bytes, FileEntryKind, FetchHeader, FetchAdmissionCode, invalid_manifest,
  too_large, ManifestEntry, ManifestEnd,
}
use meshelf.Protocol.Messages
use meshelf.Protocol.Manifest.{is_file}
use meshelf.Protocol.Manifest.Laws.{file_bytes}
use meshelf.Net.Plan.{ReceivePlan}
use meshelf.Net.Manifest.{Libraries, folded, components}

abbrev pub SizeFits : FileEntryKind → ℕ → Type 0
SizeFits Messages.file bytes = bytes ≤ max_offer_file_bytes
SizeFits Messages.directory bytes = bytes ≡ 0

-- a path of safe components, or the empty path of a file
abbrev pub PathFits : ManifestEntry → Type 0
PathFits entry =
    ((byte_len entry.relative_path ≡ 0) × (is_file entry.kind ≡ true))
    ⊎ All IsSafe (relative_path entry.relative_path)

pub record IsEntry (entry : ManifestEntry) : Type 0 where
  pub short : byte_len entry.relative_path ≤ v2_max_relative_path_bytes
  pub path : PathFits entry
  pub size : SizeFits entry.kind entry.byte_len

unfoldable pub files_in : List ManifestEntry → ℕ
files_in [] = 0
files_in (entry ∷ entries) =
    let rest = files_in entries in if is_file entry.kind then suc rest else rest

unfoldable pub directories_in : List ManifestEntry → ℕ
directories_in [] = 0
directories_in (entry ∷ entries) =
    let rest = directories_in entries in if is_file entry.kind then rest else suc rest

module _ (lib : Libraries) where
  -- some directory of the list has this case-folded path
  abbrev pub IsDirectory : List ManifestEntry → Text → Type 0
  IsDirectory entries path =
      (d : ManifestEntry) × In d entries × (is_file d.kind ≡ false) × (folded lib d ≡ path)

  abbrev pub Apart : ManifestEntry → ManifestEntry → Type 0
  Apart e f = folded lib f ≢ folded lib e

  -- the case-folded path of every proper ancestor is that of a directory of the list
  abbrev pub HasParents : List ManifestEntry → ManifestEntry → Type 0
  HasParents entries entry =
      byte_len entry.relative_path ≢ 0
      → (end : ℕ) → 1 ≤ end
      → end < length (components lib entry)
      → IsDirectory entries (join b'/' (take end (components lib entry)))

  -- Portable paths that form a tree up to letter case, no two of which differ only by it.
  pub record IsTree (entries : List ManifestEntry) : Type 0 where
    pub valid : All IsEntry entries
    pub apart : Pairs Apart entries
    pub parents : All (HasParents entries) entries
    pub bounded : file_bytes entries ≤ max_offer_transfer_bytes

  -- the entries that a descriptor announces
  abbrev pub Matches : OfferDescriptor → List ManifestEntry → Type 0
  Matches (text _ _ _) entries = entries ≡ []
  Matches (file _ total_bytes) entries =
      (entry : ManifestEntry) × (entries ≡ entry ∷ [])
      × (is_file entry.kind ≡ true)
      × (byte_len entry.relative_path ≡ 0)
      × (entry.byte_len ≡ total_bytes)
  Matches (folder _ total_bytes entry_count file_count directory_count) entries =
      (file_bytes entries ≡ total_bytes)
      × (length entries ≡ entry_count)
      × (files_in entries ≡ file_count)
      × (directories_in entries ≡ directory_count)

  -- the hash of the header is that of the entries, and of the end of the manifest
  abbrev pub IsSealed : Option (List ℕ) → ReceivePlan → Type 0
  IsSealed none plan = Unit
  IsSealed (some hash) plan =
      (json : List ℕ) × (end : ManifestEnd) × (lib.entries_to_vec plan.entries ≡ some json)
      × (lib.sha256 json ≡ hash)
      × (plan.manifest_end ≡ some end)
      × (end.total_bytes ≡ file_bytes plan.entries)
      × (end.manifest_sha256 ≡ hash)
