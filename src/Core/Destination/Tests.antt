-- ===== src/Core/Destination/Tests.antt =====
-- Names of the crate's own tests, and the theorems at concrete inputs.
use meshelf.Base.{◌≡◌, refl, ◌↔◌, All, ok}
use meshelf.Base.Text.{
  lit, byte_len, len_utf8, ends_with, strip_prefix, split_from, split, before_first, trim_end,
  to_ascii_uppercase,
}
use meshelf.Core.Destination.{
  device_stem, is_reserved, validate_component, validate_components, validate_relative_path,
  relative_path,
}
use meshelf.Core.Destination.Laws.{
  IsSafe, join, validate_relative_path-IsSafe, validate_component-upper,
}

names : Unit {0}
unfolding len_utf8 byte_len ends_with strip_prefix split_from split before_first trim_end
    device_stem is_reserved validate_component validate_components validate_relative_path
names = tt

nested_path : validate_relative_path (lit "photos/2026/a.jpg") ≡ ok tt
unfolding names
nested_path = refl

nested_path-IsSafe :
    All IsSafe (relative_path (lit "photos/2026/a.jpg"))
    × (join b'/' (relative_path (lit "photos/2026/a.jpg")) ≡ lit "photos/2026/a.jpg")
nested_path-IsSafe = validate_relative_path-IsSafe (lit "photos/2026/a.jpg") nested_path

device-upper :
    (validate_component (to_ascii_uppercase (lit "com1.txt")) ≡ ok tt)
    ↔ (validate_component (lit "com1.txt") ≡ ok tt)
device-upper = validate_component-upper (lit "com1.txt")
