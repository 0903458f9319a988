-- ===== src/Net/Detail/Tests.antt =====
-- A detail that panics: 255 bytes of ASCII and a character of two bytes.
use meshelf.Base.{ℕ, zero, suc, ◌≤◌, ◌<◌, ◌≡◌, refl, ◌⊎◌, true, false, none, some, [], ◌∷◌, ◌++◌}
use meshelf.Base.Text.{Text, lit, len_utf8, byte_len, is_char_boundary}
use meshelf.Net.Detail.{truncate_checked, safe_detail}
use meshelf.Net.Detail.Laws.{IsFlat, safe_detail_outcome}

repeat : ℕ → ℕ → Text
repeat zero c = []
repeat (suc n) c = c ∷ repeat n c

abbrev long : Text
long = repeat 255 b'a' ++ lit "é"

long_panics : safe_detail long ≡ none
unfolding repeat safe_detail truncate_checked byte_len len_utf8 is_char_boundary
long_panics = refl

short_detail : safe_detail (lit "two\nlines") ≡ some (lit "two lines")
unfolding safe_detail truncate_checked byte_len len_utf8 is_char_boundary
short_detail = refl

long_outcome :
    ((safe_detail long ≡ none) × (256 < byte_len long) × (is_char_boundary long 256 ≡ false))
    ⊎ (short : Text) × (safe_detail long ≡ some short)
      × (byte_len short ≤ 256)
      × IsFlat short
      × ((byte_len long ≤ 256) ⊎ (is_char_boundary long 256 ≡ true))
long_outcome = safe_detail_outcome long
