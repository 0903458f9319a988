-- ===== src/Net/Manifest/Tests.antt =====
-- A folder with one directory and one file in it.
use meshelf.Base.{map, ◌≡◌, refl, List, [], ◌∷◌, none, some, ok, err, arith}
use meshelf.Base.Text.{
  lit, byte_len, len_utf8, ends_with, strip_prefix, split_from, split, before_first, trim_end,
  upper,
}
use meshelf.Core.Destination.{
  device_stem, is_reserved, validate_component, validate_components, validate_relative_path,
}
use meshelf.Core.Model
use meshelf.Core.Offer.{OfferDescriptor, folder}
use meshelf.Protocol.Messages.{FileEntryKind, ManifestEntry, FetchHeader, invalid_manifest}
use meshelf.Net.Plan.{ReceivePlan}
use meshelf.Net.Manifest.{
  Libraries, range_from, tally_kind, tally_one, tally_all, check_ends, check_parents,
  expected_entries, check_digest, tally_manifest, validate_manifest,
}
use meshelf.Net.Manifest.Tree.{IsTree, Matches, IsSealed}
use meshelf.Net.Manifest.Accepted.{validate_manifest-IsTree}

manifest_runs : Unit {0}
unfolding byte_len len_utf8 ends_with strip_prefix split_from split before_first trim_end
    device_stem is_reserved validate_component validate_components validate_relative_path range_from
    tally_kind tally_one tally_all check_ends check_parents expected_entries check_digest
    tally_manifest validate_manifest
manifest_runs = tt

-- upper case in place of lower case: the theorem holds of any folding
abbrev libraries : Libraries
libraries = record {
  to_lowercase = map upper;
  entries_to_vec = λ entries. some (7 ∷ []);
  sha256 = λ bytes. 1 ∷ bytes;
}

abbrev directory_entry : ManifestEntry
directory_entry = record { relative_path = lit "d"; kind = FileEntryKind.directory; byte_len = 0 }

abbrev file_entry : ManifestEntry
file_entry = record { relative_path = lit "d/a"; kind = FileEntryKind.file; byte_len = 3 }

abbrev descriptor : OfferDescriptor
descriptor = folder (lit "photos") 3 2 1 1

abbrev header : FetchHeader
header = record {
  request_id = 1;
  offer_id = 9;
  descriptor = descriptor;
  manifest_entries = 2;
  manifest_encoded_bytes = 40;
  text_sha256 = none;
  manifest_sha256 = some (1 ∷ 7 ∷ []);
}

abbrev plan_of : List ManifestEntry → ReceivePlan
plan_of entries = record {
  content_kind = Model.folder;
  total_bytes = 3;
  file_count = 1;
  entries = entries;
  manifest_end = some (record {
    request_id = 1;
    entry_count = 2;
    file_count = 1;
    total_bytes = 3;
    manifest_sha256 = 1 ∷ 7 ∷ [];
  });
  manifest_encoded_bytes = 40;
  manifest_sha256 = some (1 ∷ 7 ∷ []);
  text = none;
  staged_files = [];
}

abbrev plan : ReceivePlan
plan = plan_of (directory_entry ∷ file_entry ∷ [])

folder_accepted : validate_manifest libraries header descriptor plan ≡ ok tt
unfolding manifest_runs
folder_accepted = refl

-- a file below a directory that is not listed
abbrev orphan : ManifestEntry
orphan = record { relative_path = lit "e/a"; kind = FileEntryKind.file; byte_len = 3 }

orphan_refused :
    validate_manifest libraries header descriptor (plan_of (directory_entry ∷ orphan ∷ []))
    ≡ err invalid_manifest
unfolding manifest_runs
orphan_refused = refl

-- a file below a directory that is listed in another letter case
abbrev capital : ManifestEntry
capital = record { relative_path = lit "D"; kind = FileEntryKind.directory; byte_len = 0 }

other_case_accepted :
    validate_manifest libraries header descriptor (plan_of (capital ∷ file_entry ∷ [])) ≡ ok tt
unfolding manifest_runs
other_case_accepted = refl

folder-IsTree :
    IsTree libraries plan.entries
    × Matches libraries descriptor plan.entries
    × IsSealed libraries header.manifest_sha256 plan
folder-IsTree =
    validate_manifest-IsTree libraries header descriptor plan (omega arith) folder_accepted
