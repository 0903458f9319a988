-- ===== src/Core/Offer/Tests.antt =====
-- The offers of the crate's own tests, and the theorems at concrete inputs.
use meshelf.Base.{ℕ, zero, suc, ◌+◌, ◌≤◌, ◌<◌, ◌≡◌, refl, ◌↔◌, arith, [], ◌∷◌, ok, err}
use meshelf.Core.Model.{max_offer_preview_bytes, max_text_bytes}
use meshelf.Core.Offer
use meshelf.Core.Offer.Preview.{IsPlain, preview_bounds, preview_near}
use meshelf.Core.Offer.Laws.{IsWellFormed, validate_iff, of_text_iff, validate_for-text_iff}
use meshelf.Base.Text.{
  Text, lit, byte_len, len_utf8, ends_with, count_lines, is_char_boundary, truncate,
}
use meshelf.Core.Offer.{
  text, file, folder, validate_root_name, validate, push_normalized, normalize_from,
  back_to_boundary, preview, of_text, validate_for, too_many_entries, empty_text,
}

offers : Unit {0}
unfolding len_utf8 byte_len ends_with count_lines is_char_boundary truncate validate_root_name
    validate push_normalized normalize_from back_to_boundary preview of_text validate_for
offers = tt

-- "a\n\r🙂\u{7}b"
abbrev sample : Text
sample = b'a' ∷ b'\n' ∷ b'\r' ∷ 0x1f642 ∷ 7 ∷ b'b' ∷ []

preview-sample : preview sample ≡ b'a' ∷ b' ' ∷ 0x1f642 ∷ b'b' ∷ []
unfolding offers
preview-sample = refl

sample_descriptor : of_text sample ≡ ok (text 9 2 (b'a' ∷ b' ' ∷ 0x1f642 ∷ b'b' ∷ []))
unfolding offers
sample_descriptor = refl

zero_byte_file : validate (file (lit "empty.txt") 0) ≡ ok tt
unfolding offers
zero_byte_file = refl

too_many : validate (folder (lit "folder") 0 4097 4097 0) ≡ err (too_many_entries 4097 4096)
unfolding offers
too_many = refl

of_text-empty : of_text [] ≡ err empty_text
unfolding offers
of_text-empty = refl

sample_bounds : (byte_len (preview sample) ≤ max_offer_preview_bytes) × IsPlain (preview sample)
sample_bounds = preview_bounds sample

abbrev repeated : ℕ → ℕ → Text
repeated zero c = []
repeated (suc n) c = c ∷ repeated n c

-- 281 bytes, with no boundary at 256
abbrev long : Text
long = b'a' ∷ repeated 70 0x1f642

long_normalized : max_offer_preview_bytes ≤ byte_len (normalize_from [] long)
unfolding offers
long_normalized = omega arith

long_near : max_offer_preview_bytes ≤ byte_len (preview long) + 3
long_near = preview_near long long_normalized

folder_validate :
    (validate (folder (lit "photos") 5000 3 2 1) ≡ ok tt)
    ↔ IsWellFormed (folder (lit "photos") 5000 3 2 1)
folder_validate = validate_iff (folder (lit "photos") 5000 3 2 1)

of_text-sample :
    (of_text sample ≡ ok (text (byte_len sample) (count_lines sample) (preview sample)))
    ↔ ((0 < byte_len sample) × (byte_len sample ≤ max_text_bytes))
of_text-sample = of_text_iff sample

sample_source :
    (validate_for (Offer.OfferSource.text sample) (text 9 2 (preview sample)) ≡ ok tt)
    ↔ (of_text sample ≡ ok (text 9 2 (preview sample)))
sample_source = validate_for-text_iff sample (text 9 2 (preview sample))
