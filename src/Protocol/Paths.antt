-- ===== src/Protocol/Paths.antt =====
-- `validate_relative_path` of crates/meshelf-protocol/src/v2.rs, the check that the wire makes.
pub mod Agreement
use meshelf.Base.{ℕ, Bool, ◌||◌, List, [], ◌∷◌, Result, ok, ◌>>=◌, ◌>>◌, reject, ltb, ◌==◌, any}
use meshelf.Base.Text.{Text, lit, byte_len, is_control, text_eq, contains, starts_with, split}
use meshelf.Core.Model.{max_offer_portable_component_bytes}
use meshelf.Protocol.Messages.{
  ProtocolError, v2_validation, path_not_portable, invalid_component, component_too_large,
  control_character,
}

-- one round of the loop
unfoldable pub validate_path_component : Text → Result ProtocolError (Unit {0})
validate_path_component component = do
  reject (byte_len component == 0 || text_eq component (lit ".") || text_eq component (lit ".."))
      (v2_validation invalid_component)
  reject (ltb max_offer_portable_component_bytes (byte_len component))
      (v2_validation (component_too_large (byte_len component)))
  reject (any is_control component) (v2_validation control_character)
  ok tt

unfoldable pub validate_path_components : List Text → Result ProtocolError (Unit {0})
validate_path_components [] = ok tt
validate_path_components (component ∷ rest) = do
  validate_path_component component
  validate_path_components rest

unfoldable pub validate_relative_path : Text → Result ProtocolError (Unit {0})
validate_relative_path path = do
  reject (starts_with b'/' path || contains b'\\' path) (v2_validation path_not_portable)
  validate_path_components (split b'/' path)
