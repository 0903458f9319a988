-- ===== src/Net/Detail.antt =====
-- `safe_detail` of crates/meshelf-net/src/fetch_receiver.rs: an error's text, shortened for an
-- attempt and a receipt. `String::truncate` panics where its index is inside a character; `none`
-- stands for that panic.
pub mod Laws
mod Tests
use meshelf.Base.{ℕ, ◌||◌, Option, none, some, map, ltb, ◌==◌, if◌then◌else◌}
use meshelf.Base.Text.{Text, byte_len, is_char_boundary, truncate}

-- `replace(['\n', '\r'], " ")`
abbrev pub flatten : ℕ → ℕ
flatten c = if c == b'\n' || c == b'\r' then b' ' else c

-- `String::truncate`: an index beyond the text changes nothing
unfoldable pub truncate_checked : ℕ → Text → Option Text
truncate_checked new_len detail =
    if ltb (byte_len detail) new_len
    then some detail
    else if is_char_boundary detail new_len
    then some (truncate detail new_len)
    else none

unfoldable pub safe_detail : Text → Option Text
safe_detail detail = truncate_checked 256 (map flatten detail)
