-- ===== src/Core/Offer/Laws.antt =====
-- What `OfferDescriptor::validate`, `OfferDescriptor::text` and `OfferSource::validate_for` accept
-- (crates/meshelf-core/src/offer.rs).
use meshelf.Base.{
  ◌+◌, ◌≤◌, ◌<◌, ◌≡◌, ◌≢◌, ◌↔◌, inl, inr, true, false, [], ◌∷◌, arith, ok, Result-cases,
}
use meshelf.Base.Text.{Text, lit, byte_len, is_control, contains, count_lines}
use meshelf.Base.Text.Laws.{text_eq_iff, len_utf8_bounds, any-false, All-of_any-false}
use meshelf.Core.Model.{
  max_text_bytes, max_offer_preview_bytes, max_offer_file_bytes, max_offer_transfer_bytes,
  max_offer_manifest_entries, max_offer_portable_component_bytes,
}
use meshelf.Core.Offer.{
  OfferDescriptor, text, file, folder, OfferSource, descriptor_eq, validate_root_name, validate,
  preview, of_text, validate_for,
}
use meshelf.Core.Offer.Preview.{IsPlain, preview_bounds}

pub descriptor_eq_iff : (d e : OfferDescriptor) → (descriptor_eq d e ≡ true) ↔ (d ≡ e)
descriptor_eq_iff (text b l p) (text b' l' p') = ground (arith, text_eq_iff p p')
descriptor_eq_iff (file n t) (file n' t') = ground (arith, text_eq_iff n n')
descriptor_eq_iff (folder n t e f d) (folder n' t' e' f' d') = ground (arith, text_eq_iff n n')
descriptor_eq_iff (text _ _ _) (file _ _) = ground arith
descriptor_eq_iff (text _ _ _) (folder _ _ _ _ _) = ground arith
descriptor_eq_iff (file _ _) (text _ _ _) = ground arith
descriptor_eq_iff (file _ _) (folder _ _ _ _ _) = ground arith
descriptor_eq_iff (folder _ _ _ _ _) (text _ _ _) = ground arith
descriptor_eq_iff (folder _ _ _ _ _) (file _ _) = ground arith

-- A base name: not empty, no path, no control character, at most 255 bytes.
pub record IsRootName (n : Text) : Type 0 where
  pub some_bytes : byte_len n ≢ 0
  pub not_dot : n ≢ lit "."
  pub not_dots : n ≢ lit ".."
  pub no_slash : contains b'/' n ≡ false
  pub no_backslash : contains b'\\' n ≡ false
  pub plain : IsPlain n
  pub short : byte_len n ≤ max_offer_portable_component_bytes

abbrev pub IsWellFormed : OfferDescriptor → Type 0
IsWellFormed (text utf8_bytes line_count shown) =
    (0 < utf8_bytes)
    × (utf8_bytes ≤ max_text_bytes)
    × (0 < line_count)
    × (byte_len shown ≤ max_offer_preview_bytes)
    × IsPlain shown
IsWellFormed (file root_name total_bytes) =
    IsRootName root_name × (total_bytes ≤ max_offer_file_bytes)
IsWellFormed (folder root_name total_bytes entry_count file_count directory_count) =
    IsRootName root_name
    × (entry_count ≤ max_offer_manifest_entries)
    × (total_bytes ≤ max_offer_transfer_bytes)
    × (file_count + directory_count ≡ entry_count)

validate_root_name_sound : (n : Text) → validate_root_name n ≡ ok tt → IsRootName n
unfolding validate_root_name
validate_root_name_sound n h = record {
  some_bytes = λ e. ground arith;
  not_dot = λ e. ground (arith, text_eq_iff n (lit "."));
  not_dots = λ e. ground (arith, text_eq_iff n (lit ".."));
  no_slash = ground arith;
  no_backslash = ground arith;
  plain = All-of_any-false is_control n (ground arith);
  short = ground arith;
}

validate_root_name_complete : (n : Text) → IsRootName n → validate_root_name n ≡ ok tt
unfolding validate_root_name
validate_root_name_complete n h = ground (
  arith,
  text_eq_iff n (lit "."),
  text_eq_iff n (lit ".."),
  any-false is_control n h.plain,
  h.some_bytes,
  h.not_dot,
  h.not_dots,
)

validate_sound : (d : OfferDescriptor) → validate d ≡ ok tt → IsWellFormed d
unfolding validate
validate_sound (text b l p) h =
    (ground arith, ground arith, ground arith, ground arith, All-of_any-false _ p (ground arith))
validate_sound (file n t) h = (validate_root_name_sound n (ground arith), ground arith)
validate_sound (folder n t e f d) h =
    (validate_root_name_sound n (ground arith), ground arith, ground arith, ground arith)

validate_complete : (d : OfferDescriptor) → IsWellFormed d → validate d ≡ ok tt
unfolding validate
validate_complete (text b l p) h = ground (arith, any-false is_control p h.4)
validate_complete (file n t) h = ground (arith, validate_root_name_complete n h.0)
validate_complete (folder n t e f d) h = ground (arith, validate_root_name_complete n h.0)

-- OfferDescriptor::validate accepts a descriptor exactly when it is within the bounds of its kind.
pub validate_iff : (d : OfferDescriptor) → (validate d ≡ ok tt) ↔ IsWellFormed d
validate_iff d = (validate_sound d, validate_complete d)

count_lines_bounds :
    (s : Text) → (count_lines s ≤ byte_len s) × (0 < byte_len s → 0 < count_lines s)
unfolding count_lines byte_len
count_lines_bounds [] = (omega arith, λ h. h)
count_lines_bounds (c ∷ []) = (omega (arith, len_utf8_bounds c), λ h. omega arith)
count_lines_bounds (c ∷ d ∷ s) =
    let (le, pos) = count_lines_bounds (d ∷ s) in
    let more : 0 < count_lines (d ∷ s) = pos (omega (arith, len_utf8_bounds d)) in
    (ground (arith, le, len_utf8_bounds c), λ h. ground (arith, more))

-- OfferDescriptor::text gives the descriptor of the text's bytes, lines and preview exactly when
-- the text has between 1 byte and 1 MiB; none of its other checks ever refuses one.
pub of_text_iff :
    (body : Text)
    → (of_text body ≡ ok (text (byte_len body) (count_lines body) (preview body)))
      ↔ ((0 < byte_len body) × (byte_len body ≤ max_text_bytes))
unfolding of_text
of_text_iff body = (
  λ h. (ground arith, ground arith),
  λ h.
      let (shown, plain) = preview_bounds body in
      let (le, pos) = count_lines_bounds body in
      let (lo, hi) = h in
      let accepted =
        validate_complete (text (byte_len body) (count_lines body) (preview body))
          (lo, hi, pos lo, shown, plain) in
      ground (arith, accepted, le),
)

pub of_text-eq-ok :
    (body : Text) (d : OfferDescriptor)
    → of_text body ≡ ok d
    → (d ≡ text (byte_len body) (count_lines body) (preview body)) × (validate d ≡ ok tt)
unfolding of_text
of_text-eq-ok body d h =
    elim (Result-cases (validate (text (byte_len body) (count_lines body) (preview body)))) [
      | inl (u, e) ↦ (ground arith, ground arith)
      | inr (x, e) ↦ absurd (ground arith)
    ]

of_text-size :
    (body : Text) (d : OfferDescriptor) → of_text body ≡ ok d → byte_len body ≤ max_text_bytes
unfolding of_text
of_text-size body d h = ground arith

-- A text source fits a descriptor exactly when the descriptor is the one that OfferDescriptor::text
-- makes from the text.
pub validate_for-text_iff :
    (body : Text) (d : OfferDescriptor)
    → (validate_for (OfferSource.text body) d ≡ ok tt) ↔ (of_text body ≡ ok d)
unfolding validate_for
validate_for-text_iff body (text b l p) = elim (Result-cases (of_text body)) [
  | inl (e, made) ↦
      let same = descriptor_eq_iff e (text b l p) in
      let size = of_text-size body e made in (λ h. ground (arith, same), λ h. ground (arith, same))
  | inr (x, made) ↦ (λ h. ground arith, λ h. ground arith)
]
validate_for-text_iff body (file n t) =
    (λ h. cc, λ h. let (shape, _) = of_text-eq-ok body (file n t) h in cc)
validate_for-text_iff body (folder n t e f d) =
    (λ h. cc, λ h. let (shape, _) = of_text-eq-ok body (folder n t e f d) h in cc)
