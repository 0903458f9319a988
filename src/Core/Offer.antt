-- ===== src/Core/Offer.antt =====
-- crates/meshelf-core/src/offer.rs: offer descriptors, their validation, the text preview, and the
-- sources behind them. Paths of the host are parameters: see `HostPath`.
pub mod Preview
pub mod Laws
mod Tests
use meshelf.Base.{
  ℕ, zero, suc, ◌+◌, min, Bool, true, false, not, ◌&&◌, ◌||◌, Option, none, some, List, [], ◌∷◌,
  ◌++◌, Result, ok, err, ◌>>=◌, ◌>>◌, reject, map_err, ltb, leb, ◌==◌, if◌then◌else◌, any, length,
}
use meshelf.Base.Text.{
  Text, lit, byte_len, is_control, text_eq, contains, ends_with, count_lines, is_char_boundary,
  truncate,
}
use meshelf.Core.Model.{
  max_text_bytes, max_offer_preview_bytes, max_offer_file_bytes, max_offer_transfer_bytes,
  max_offer_manifest_entries, max_offer_portable_component_bytes, u32_max, checked_add_u32,
}

pub data CardAvailability : Type 0 where
  available source_unavailable source_changed : CardAvailability

-- A path of the host: `is_absolute` of `std::path` depends on the host, so it comes with the path.
pub record HostPath : Type 0 where
  pub spelling : Text
  pub is_absolute : Bool

pub data OfferSource : Type 0 where
  text : (body : Text) → OfferSource
  file : (canonical_path : HostPath) (metadata_commitment : List ℕ) → OfferSource
  folder : (canonical_path : HostPath) (metadata_commitment : List ℕ) → OfferSource

pub data OfferSourceError : Type 0 where
  descriptor_mismatch : OfferSourceError
  text_too_large : (bytes maximum : ℕ) → OfferSourceError
  path_not_absolute : OfferSourceError
  metadata_commitment_wrong_length : OfferSourceError

pub data OfferDescriptor : Type 0 where
  text : (utf8_bytes line_count : ℕ) (preview : Text) → OfferDescriptor
  file : (root_name : Text) (total_bytes : ℕ) → OfferDescriptor
  folder :
      (root_name : Text) (total_bytes entry_count file_count directory_count : ℕ) → OfferDescriptor

pub data OfferDescriptorError : Type 0 where
  empty_text : OfferDescriptorError
  text_too_large : (bytes maximum : ℕ) → OfferDescriptorError
  text_byte_count_overflow : OfferDescriptorError
  line_count_overflow : OfferDescriptorError
  empty_line_count : OfferDescriptorError
  preview_too_large : (bytes maximum : ℕ) → OfferDescriptorError
  preview_contains_control : OfferDescriptorError
  empty_root_name : OfferDescriptorError
  root_name_is_path : OfferDescriptorError
  root_name_contains_control : OfferDescriptorError
  root_name_too_large : (bytes maximum : ℕ) → OfferDescriptorError
  file_too_large : (bytes maximum : ℕ) → OfferDescriptorError
  transfer_too_large : (bytes maximum : ℕ) → OfferDescriptorError
  too_many_entries : (entries maximum : ℕ) → OfferDescriptorError
  entry_count_mismatch : (entries files directories : ℕ) → OfferDescriptorError

-- `==` of two descriptors
abbrev pub descriptor_eq : OfferDescriptor → OfferDescriptor → Bool
descriptor_eq (text b l p) (text b' l' p') = b == b' && l == l' && text_eq p p'
descriptor_eq (file n t) (file n' t') = text_eq n n' && t == t'
descriptor_eq (folder n t e f d) (folder n' t' e' f' d') =
    text_eq n n' && t == t' && e == e' && f == f' && d == d'
descriptor_eq _ _ = false

unfoldable pub validate_root_name : Text → Result OfferDescriptorError (Unit {0})
validate_root_name root_name = do
  reject (byte_len root_name == 0) empty_root_name
  reject
      (text_eq root_name (lit ".")
        || text_eq root_name (lit "..")
        || contains b'/' root_name
        || contains b'\\' root_name)
      root_name_is_path
  reject (any is_control root_name) root_name_contains_control
  reject (ltb max_offer_portable_component_bytes (byte_len root_name))
      (root_name_too_large (byte_len root_name) max_offer_portable_component_bytes)
  ok tt

-- `file_count.checked_add(directory_count) != Some(entry_count)`
abbrev pub count_mismatch : ℕ → ℕ → ℕ → Bool
count_mismatch files directories entries = elim (checked_add_u32 files directories) [
  | none ↦ true
  | some sum ↦ not (sum == entries)
]

unfoldable pub validate : OfferDescriptor → Result OfferDescriptorError (Unit {0})
validate (text utf8_bytes line_count preview) = do
  reject (utf8_bytes == 0) empty_text
  reject (ltb max_text_bytes utf8_bytes) (text_too_large utf8_bytes max_text_bytes)
  reject (line_count == 0) empty_line_count
  reject (ltb max_offer_preview_bytes (byte_len preview))
      (preview_too_large (byte_len preview) max_offer_preview_bytes)
  reject (any is_control preview) preview_contains_control
  ok tt
validate (file root_name total_bytes) = do
  validate_root_name root_name
  reject (ltb max_offer_file_bytes total_bytes) (file_too_large total_bytes max_offer_file_bytes)
  ok tt
validate (folder root_name total_bytes entry_count file_count directory_count) = do
  validate_root_name root_name
  reject (ltb max_offer_manifest_entries entry_count)
      (too_many_entries entry_count max_offer_manifest_entries)
  reject (ltb max_offer_transfer_bytes total_bytes)
      (transfer_too_large total_bytes max_offer_transfer_bytes)
  reject (count_mismatch file_count directory_count entry_count)
      (entry_count_mismatch entry_count file_count directory_count)
  ok tt

-- one round of the loop of `preview`
unfoldable pub push_normalized : Text → ℕ → Text
push_normalized normalized c =
    if c == b'\n' || c == b'\r'
    then (if ends_with b' ' normalized then normalized else normalized ++ b' ' ∷ [])
    else if not (is_control c)
    then normalized ++ c ∷ []
    else normalized

unfoldable pub normalize_from : Text → Text → Text
normalize_from normalized [] = normalized
normalize_from normalized (c ∷ s) = normalize_from (push_normalized normalized c) s

-- `while !normalized.is_char_boundary(end) { end -= 1; }`: 0 is a boundary
unfoldable pub back_to_boundary : Text → ℕ → ℕ
back_to_boundary s zero = zero
back_to_boundary s (suc end) =
    let rest = back_to_boundary s end in if is_char_boundary s (suc end) then suc end else rest

unfoldable pub preview : Text → Text
preview body =
    let normalized = normalize_from [] body in
    truncate normalized
      (back_to_boundary normalized (min (byte_len normalized) max_offer_preview_bytes))

-- `OfferDescriptor::text`
unfoldable pub of_text : Text → Result OfferDescriptorError OfferDescriptor
of_text body = do
  reject (byte_len body == 0) empty_text
  reject (ltb max_text_bytes (byte_len body)) (text_too_large (byte_len body) max_text_bytes)
  reject (ltb u32_max (count_lines body)) line_count_overflow
  reject (ltb u32_max (byte_len body)) text_byte_count_overflow
  let descriptor = OfferDescriptor.text (byte_len body) (count_lines body) (preview body)
  validate descriptor
  ok descriptor

abbrev pub is_text : OfferDescriptor → Bool
is_text (text _ _ _) = true
is_text _ = false

-- the arm of `validate_for` for files and folders
abbrev validate_path_source : HostPath → List ℕ → Result OfferSourceError (Unit {0})
validate_path_source canonical_path metadata_commitment = do
  reject (not canonical_path.is_absolute) path_not_absolute
  reject (not (length metadata_commitment == 32)) metadata_commitment_wrong_length
  ok tt

unfoldable pub validate_for : OfferSource → OfferDescriptor → Result OfferSourceError (Unit {0})
validate_for (text body) (text utf8_bytes line_count shown) = do
  reject (ltb max_text_bytes (byte_len body)) (text_too_large (byte_len body) max_text_bytes)
  expected ← map_err (λ _. descriptor_mismatch) (of_text body)
  if descriptor_eq expected (text utf8_bytes line_count shown)
      then ok tt
      else err descriptor_mismatch
validate_for (file canonical_path metadata_commitment) (file _ _) =
    validate_path_source canonical_path metadata_commitment
validate_for (folder canonical_path metadata_commitment) (folder _ _ _ _ _) =
    validate_path_source canonical_path metadata_commitment
validate_for _ _ = err descriptor_mismatch
