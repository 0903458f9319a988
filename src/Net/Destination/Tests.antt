-- ===== src/Net/Destination/Tests.antt =====
-- Publications of a file whose name is taken, and of a long folder name.
use meshelf.Base.{◌≡◌, refl, if◌then◌else◌, none, ok}
use meshelf.Base.Text.{
  Text, lit, byte_len, len_utf8, text_eq, truncate, is_char_boundary, strip_prefix, before_first,
  trim_end, ends_with,
}
use meshelf.Core.Destination.{device_stem, is_reserved, validate_component}
use meshelf.Core.Model
use meshelf.Core.Offer.{back_to_boundary}
use meshelf.Net.Destination.{
  published, already_exists, Directory, truncate_utf8, checked_name, component_with_suffix,
  rsplit_dot, split_name, digits, before_extension, collision_candidate, publish_unique,
  publish_from, finalize_payload_without_overwrite,
}
use meshelf.Net.Destination.Free.{IsPublished, finalize_payload_without_overwrite-IsPublished}

destination_runs : Unit {0}
unfolding byte_len len_utf8 truncate is_char_boundary strip_prefix before_first trim_end ends_with
    device_stem is_reserved validate_component back_to_boundary truncate_utf8 checked_name
    component_with_suffix rsplit_dot split_name digits before_extension collision_candidate
    publish_unique publish_from finalize_payload_without_overwrite
destination_runs = tt

-- a directory that has the file
abbrev directory : Directory
directory = record {
  refusal = none;
  attempt = λ name. if text_eq name (lit "report.txt") then already_exists else published;
}

abbrev root_name : Text
root_name = lit "report.txt"

second_name :
    finalize_payload_without_overwrite directory root_name Model.file (lit "id")
    ≡ ok (lit "report (2).txt")
unfolding destination_runs
second_name = refl

names :
    (collision_candidate (lit "archive.tar.gz") Model.file 12 ≡ ok (lit "archive.tar (12).gz"))
    × (collision_candidate (lit ".profile") Model.file 3 ≡ ok (lit ".profile (3)"))
    × (collision_candidate (lit "photos.old") Model.folder 2 ≡ ok (lit "photos.old (2)"))
unfolding destination_runs
names = (refl, refl, refl)

second-IsPublished : IsPublished directory root_name Model.file (lit "id") (lit "report (2).txt")
second-IsPublished =
    finalize_payload_without_overwrite-IsPublished directory root_name Model.file (lit "id")
      (lit "report (2).txt") second_name
