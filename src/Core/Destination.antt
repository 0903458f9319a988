-- ===== src/Core/Destination.antt =====
-- crates/meshelf-core/src/destination.rs: portable names of files and relative paths.
pub mod Laws
mod Tests
use meshelf.Base.{
  ℕ, Bool, true, false, ◌&&◌, ◌||◌, Option, none, some, List, [], ◌∷◌, Result, ok, err, ◌>>=◌, ◌>>◌,
  reject, ltb, ◌==◌, if◌then◌else◌, any,
}
use meshelf.Base.Text.{
  Text, lit, byte_len, is_control, text_eq, contains, starts_with, ends_with, strip_prefix, split,
  before_first, trim_end, to_ascii_uppercase,
}
use meshelf.Core.Model.{max_offer_portable_component_bytes}

-- the messages of the `String` errors, without the name that they repeat
pub data DestinationError : Type 0 where
  unsafe_component : Text → DestinationError
  platform_reserved : Text → DestinationError
  empty_or_too_long : DestinationError
  unsafe_path : Text → DestinationError

abbrev pub is_forbidden : ℕ → Bool
is_forbidden c = is_control c || any (λ d. d == c) (lit "<>:\"/\\|?*")

-- "1" to "9", "¹", "²" and "³"
abbrev pub is_device_number : Text → Bool
is_device_number (c ∷ []) = any (λ d. d == c) (lit "123456789¹²³")
is_device_number _ = false

unfoldable pub device_stem : Text → Text
device_stem component = to_ascii_uppercase (trim_end (before_first b'.' component))

-- `strip_prefix("COM").or_else(|| strip_prefix("LPT"))`
abbrev pub numbered_device_suffix : Text → Option Text
numbered_device_suffix stem = elim (strip_prefix (lit "COM") stem) [
  | none ↦ strip_prefix (lit "LPT") stem
  | some suffix ↦ some suffix
]

unfoldable pub is_reserved : Text → Bool
is_reserved stem =
    text_eq stem (lit "CON")
    || text_eq stem (lit "PRN")
    || text_eq stem (lit "AUX")
    || text_eq stem (lit "NUL")
    || elim (numbered_device_suffix stem) [ none ↦ false | some suffix ↦ is_device_number suffix ]

unfoldable pub validate_component : Text → Result DestinationError (Unit {0})
validate_component component = do
  reject
      (byte_len component == 0
        || text_eq component (lit ".")
        || text_eq component (lit "..")
        || ltb max_offer_portable_component_bytes (byte_len component)
        || any is_forbidden component)
      (unsafe_component component)
  reject
      (is_reserved (device_stem component) || ends_with b' ' component || ends_with b'.' component)
      (platform_reserved component)
  ok tt

-- `for component in path.split('/') { validate_component(component)?; }`
unfoldable pub validate_components : List Text → Result DestinationError (Unit {0})
validate_components [] = ok tt
validate_components (component ∷ rest) = do validate_component component; validate_components rest

unfoldable pub validate_relative_path : Text → Result DestinationError (Unit {0})
validate_relative_path path = do
  reject (byte_len path == 0 || ltb 4096 (byte_len path)) empty_or_too_long
  reject (starts_with b'/' path || starts_with b'\\' path || contains b'\\' path) (unsafe_path path)
  validate_components (split b'/' path)

-- the components that `relative_path` collects into a host path
unfoldable pub relative_path : Text → List Text
relative_path = split b'/'
