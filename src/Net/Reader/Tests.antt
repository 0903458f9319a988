-- ===== src/Net/Reader/Tests.antt =====
-- The manifest of one folder, sent in one chunk.
use meshelf.Base.{◌≡◌, refl, List, [], ◌∷◌, ◌++◌, none, some, ok, arith}
use meshelf.Base.Text.{lit, byte_len, len_utf8, split_from, split, strip_prefix}
use meshelf.Core.Model
use meshelf.Core.Offer.{folder}
use meshelf.Protocol.Paths.{
  validate_path_component, validate_path_components, validate_relative_path,
}
use meshelf.Protocol.Manifest.{
  validate_entry, validate_each, file_bytes_from, validate_chunk, checked_bytes_from,
  validate_manifest_entries,
}
use meshelf.Protocol.Frame.{Codec, validate_len}
use meshelf.Protocol.Chunks.{
  new_chunk, encoded_bytes_from, encoded_manifest_bytes, chunk_one, chunk_all, last_chunk,
  chunk_manifest,
}
use meshelf.Protocol.Messages.{
  FileEntryKind, ManifestEntry, ManifestChunk, ManifestEnd, FetchHeader, V2Message, manifest_end,
}
use meshelf.Protocol.Validate.{validate_v2_message, validate_end}
use meshelf.Net.Errors.{Display}
use meshelf.Net.Plan.{ReceivePlan}
use meshelf.Net.Reader.{frame, late, read_manifest}
use meshelf.Net.Reader.Manifest.{frames_of, read_manifest-chunk_manifest}

reader_runs : Unit {0}
unfolding byte_len len_utf8 split_from split strip_prefix validate_path_component
    validate_path_components validate_relative_path validate_entry validate_each file_bytes_from
    validate_chunk checked_bytes_from validate_manifest_entries validate_len new_chunk
    encoded_bytes_from encoded_manifest_bytes chunk_one chunk_all last_chunk chunk_manifest
    validate_v2_message validate_end
reader_runs = tt

abbrev display : Display
display = record { store_error = λ e. lit "store"; protocol_error = λ e. lit "protocol" }

abbrev end : ManifestEnd
end = record {
  request_id = 1;
  entry_count = 2;
  file_count = 1;
  total_bytes = 12;
  manifest_sha256 = [];
}

abbrev codec : Codec V2Message
codec = record { to_vec = λ m. ok (4 ∷ 5 ∷ []); from_slice = λ bytes. ok (manifest_end end) }

abbrev entries : List ManifestEntry
entries =
    (record { relative_path = lit "photos"; kind = FileEntryKind.directory; byte_len = 0 })
    ∷ (record { relative_path = lit "photos/a.jpg"; kind = FileEntryKind.file; byte_len = 12 })
    ∷ []

abbrev header : FetchHeader
header = record {
  request_id = 1;
  offer_id = 9;
  descriptor = folder (lit "album") 12 2 1 1;
  manifest_entries = 2;
  manifest_encoded_bytes = 2;
  text_sha256 = none;
  manifest_sha256 = some [];
}

abbrev plan : ReceivePlan
plan = record {
  content_kind = Model.folder;
  total_bytes = 12;
  file_count = 1;
  entries = [];
  manifest_end = none;
  manifest_encoded_bytes = 0;
  manifest_sha256 = some [];
  text = none;
  staged_files = [];
}

abbrev chunks : List ManifestChunk
chunks = (record { request_id = 1; first_index = 0; entries = entries }) ∷ []

one_chunk : chunk_manifest codec 1 entries ≡ ok chunks
unfolding reader_runs
one_chunk = refl

one_chunk_sized : encoded_manifest_bytes codec chunks ≡ ok 2
unfolding reader_runs
one_chunk_sized = refl

end_valid : validate_v2_message (manifest_end end) ≡ ok tt
unfolding reader_runs
end_valid = refl

manifest_read :
    read_manifest display codec header plan
      (frames_of chunks ++ frame (manifest_end end) ∷ late ∷ [])
    ≡ (
      ok (record plan { entries = entries; manifest_end = some end; manifest_encoded_bytes = 2 }),
      late ∷ [],
    )
manifest_read =
    read_manifest-chunk_manifest display codec header entries chunks end plan (late ∷ []) refl
      one_chunk refl (omega arith) one_chunk_sized refl end_valid refl refl
