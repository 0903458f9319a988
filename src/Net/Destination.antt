-- ===== src/Net/Destination.antt =====
-- The names of published files and folders: crates/meshelf-net/src/destination.rs. A root name is one
-- component, as the first candidate's check asks; what a publication under a name meets in the
-- directory is a parameter.
pub mod Free
mod Digits
mod Tests
use meshelf.Base.{
  ℕ, zero, suc, ◌+◌, ◌-◌, ◌/◌, ◌%◌, Bool, true, false, Option, none, some, List, [], ◌∷◌, ◌++◌,
  Result, ok, err, ◌>>=◌, ◌>>◌, reject, map_err, ok_or, ltb, leb, ◌==◌, if◌then◌else◌, is_empty,
}
use meshelf.Base.Text.{Text, lit, byte_len, text_eq, truncate}
use meshelf.Core.Destination.{DestinationError, validate_component}
use meshelf.Core.Model.{ContentKind, max_offer_portable_component_bytes, checked_add_u64}
use meshelf.Core.Model
use meshelf.Core.Offer.{back_to_boundary}

-- the errors, as what their messages are made from
pub data PublishError : Type 0 where
  generated_component : DestinationError → PublishError
  length_overflow nothing_left : PublishError
  suffix_too_long : ℕ → PublishError
  attempt_failed : Text → PublishError

unfoldable pub truncate_utf8 : Text → ℕ → Text
truncate_utf8 value max_bytes =
    if leb (byte_len value) max_bytes
    then value
    else truncate value (back_to_boundary value max_bytes)

-- a name that passed the check
unfoldable pub checked_name : Text → Result PublishError Text
checked_name name = do map_err generated_component (validate_component name); ok name

unfoldable pub component_with_suffix : Text → Text → Result PublishError Text
component_with_suffix component suffix = do
  reject (leb max_offer_portable_component_bytes (byte_len suffix))
      (suffix_too_long (byte_len suffix))
  let short = truncate_utf8 component (max_offer_portable_component_bytes - byte_len suffix)
  reject (is_empty short) nothing_left
  checked_name (short ++ suffix)

-- what stands before and after the last dot
unfoldable pub rsplit_dot : Text → Option (Text × Text)
rsplit_dot [] = none
rsplit_dot (c ∷ s) = elim (rsplit_dot s) [
  | some (before, after) ↦ some (c ∷ before, after)
  | none ↦ if c == b'.' then some ([], s) else none
]

-- `file_stem` and `extension` of a path of one component, where it has an extension
unfoldable pub split_name : Text → Option (Text × Text)
split_name name = elim (rsplit_dot name) [
  | none ↦ none
  | some (before, after) ↦
      if text_eq name (lit "..")
      then none
      else if is_empty before
      then none
      else some (before, after)
]

-- decimal digits; a usize has at most 20
unfoldable pub digits : ℕ → ℕ → Text
digits zero n = []
digits (suc fuel) n =
    let before = digits fuel (n / 10) in
    if ltb n 10 then (b'0' + n) ∷ [] else before ++ (b'0' + n % 10) ∷ []

abbrev pub collision_suffix : ℕ → Text
collision_suffix index = lit " (" ++ digits 20 index ++ lit ")"

abbrev pub extension_of : ContentKind → Text → Option (Text × Text)
extension_of Model.file name = split_name name
extension_of _ name = none

-- the candidate of a file whose extension stays at the end
unfoldable pub before_extension : Text → Text → Text × Text → Result PublishError Text
before_extension root_name suffix (stem, extension) = do
  with_dot ← ok_or length_overflow (checked_add_u64 (byte_len suffix) 1)
  fixed_bytes ← ok_or length_overflow (checked_add_u64 with_dot (byte_len extension))
  let short = truncate_utf8 stem (max_offer_portable_component_bytes - fixed_bytes)
  if ltb max_offer_portable_component_bytes fixed_bytes
      then component_with_suffix root_name suffix
      else if is_empty short
      then component_with_suffix root_name suffix
      else checked_name (short ++ suffix ++ b'.' ∷ extension)

abbrev pub numbered : Text → Text → Option (Text × Text) → Result PublishError Text
numbered root_name suffix none = component_with_suffix root_name suffix
numbered root_name suffix (some parts) = before_extension root_name suffix parts

unfoldable pub collision_candidate : Text → ContentKind → ℕ → Result PublishError Text
collision_candidate root_name content_kind index =
    if index == 1
    then checked_name root_name
    else numbered root_name (collision_suffix index) (extension_of content_kind root_name)

-- how `finalize_payload` ends under a name: it never replaces what is there
pub data Attempt : Type 0 where
  published already_exists : Attempt
  failed : Text → Attempt

-- the directory: whether it is one, and what each attempt meets
pub record Directory : Type 0 where
  pub refusal : Option Text
  pub attempt : Text → Attempt

-- `require_directory`
abbrev pub required : Option Text → Result PublishError (Unit {0})
required none = ok tt
required (some e) = err (attempt_failed e)

module _ (directory : Directory) (root_name : Text) (content_kind : ContentKind) where
  abbrev pub last_attempt : Text → Attempt → Result PublishError Text
  last_attempt name published = ok name
  last_attempt name already_exists = err (attempt_failed (lit "already exists"))
  last_attempt name (failed e) = err (attempt_failed e)

  -- after the loop, with a new message's identifier
  unfoldable pub publish_unique : Text → Result PublishError Text
  publish_unique message_id = do
    name ← component_with_suffix root_name (b'.' ∷ message_id)
    last_attempt name (directory.attempt name)

  -- the loop: so many turns are left from this index on
  unfoldable pub publish_from : Text → ℕ → ℕ → Result PublishError Text
  publish_from message_id zero index = publish_unique message_id
  publish_from message_id (suc count) index = do
    name ← collision_candidate root_name content_kind index
    elim (directory.attempt name) [
      | published ↦ ok name
      | already_exists ↦ publish_from message_id count (suc index)
      | failed e ↦ err (attempt_failed e)
    ]

  unfoldable pub finalize_payload_without_overwrite : Text → Result PublishError Text
  finalize_payload_without_overwrite message_id = do
    required directory.refusal
    publish_from message_id 9999 1
