-- ===== src/Protocol/Paths/Agreement.antt =====
-- The destination's check of a relative path (crates/meshelf-core/src/destination.rs) beside the
-- wire's.
use meshelf.Base.{◌≡◌, refl, false, List, [], ◌∷◌, arith, ok, any}
use meshelf.Base.Text.{Text, is_control, split}
use meshelf.Core.Destination
use meshelf.Core.Destination.{is_forbidden}
use meshelf.Protocol.Paths.{
  validate_path_component, validate_path_components, validate_relative_path,
}

any-control : (s : Text) → any is_forbidden s ≡ false → any is_control s ≡ false
any-control [] h = refl
any-control (c ∷ s) h = ground (arith, any-control s)

component-agrees :
    (component : Text)
    → Destination.validate_component component ≡ ok tt
    → validate_path_component component ≡ ok tt
unfolding Destination.validate_component validate_path_component
component-agrees component h = ground (arith, any-control component)

components-agree :
    (components : List Text)
    → Destination.validate_components components ≡ ok tt
    → validate_path_components components ≡ ok tt
unfolding Destination.validate_components validate_path_components
components-agree [] h = refl
components-agree (component ∷ rest) h =
    ground (arith, component-agrees component, components-agree rest)

-- Every relative path that the destination's check accepts passes the wire's check.
pub destination-validate_relative_path :
    (path : Text)
    → Destination.validate_relative_path path ≡ ok tt
    → validate_relative_path path ≡ ok tt
unfolding Destination.validate_relative_path validate_relative_path
destination-validate_relative_path path h = ground (arith, components-agree (split b'/' path))
