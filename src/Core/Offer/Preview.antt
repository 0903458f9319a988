-- ===== src/Core/Offer/Preview.antt =====
-- `OfferDescriptor::preview` (crates/meshelf-core/src/offer.rs): its bound, its characters, how
-- little it cuts, and that a preview is its own preview.
use meshelf.Base.{
  ℕ, zero, suc, ◌+◌, ◌-◌, ◌≤◌, min, ◌≡◌, refl, sym, ◌∙◌, inl, inr, true, false, ◌||◌, [], ◌∷◌, ◌++◌,
  arith, leb, ◌==◌, Bool-cases, All, All-append,
}
use mathlib.Core.List.{append_assoc, append-nil}
use meshelf.Base.Text.{Text, byte_len, len_utf8, is_control, is_char_boundary, ends_with}
use meshelf.Base.Text.Laws.{
  byte_len-truncate-le, byte_len-truncate, truncate_all, truncate-All, is_char_boundary_end,
  is_char_boundary-cons, len_utf8_bounds,
}
use meshelf.Core.Model.{max_offer_preview_bytes}
use meshelf.Core.Offer.{push_normalized, normalize_from, back_to_boundary, preview}

abbrev pub IsPlain : Text → Type 0
IsPlain = All (λ c. is_control c ≡ false)

back_to_boundary-le : (s : Text) (i : ℕ) → back_to_boundary s i ≤ i
unfolding back_to_boundary
back_to_boundary-le s zero = omega arith
back_to_boundary-le s (suc i) = ground (arith, back_to_boundary-le s i)

back_to_boundary-boundary : (s : Text) (i : ℕ) → is_char_boundary s (back_to_boundary s i) ≡ true
unfolding back_to_boundary is_char_boundary
back_to_boundary-boundary [] zero = refl
back_to_boundary-boundary (c ∷ s) zero = refl
back_to_boundary-boundary [] (suc i) = back_to_boundary-boundary [] i
back_to_boundary-boundary (c ∷ s) (suc i) = elim (Bool-cases (is_char_boundary (c ∷ s) (suc i))) [
  | inl e ↦ rw e e
  | inr e ↦ rw e (back_to_boundary-boundary (c ∷ s) i)
]

-- the loop stops at the first boundary that it meets
back_to_boundary-ge :
    (s : Text) (i j : ℕ) → j ≤ i → is_char_boundary s j ≡ true → j ≤ back_to_boundary s i
unfolding back_to_boundary
back_to_boundary-ge s zero j h b = h
back_to_boundary-ge s (suc i) j h b = elim (Bool-cases (is_char_boundary s (suc i))) [
  | inl e ↦ rw e h
  | inr e ↦ rw e (back_to_boundary-ge s i j (ground arith) b)
]

back_to_boundary_self : (s : Text) (i : ℕ) → is_char_boundary s i ≡ true → back_to_boundary s i ≡ i
back_to_boundary_self s i b =
    omega (arith, back_to_boundary-ge s i i (omega arith) b, back_to_boundary-le s i)

-- A position inside a text has a boundary at most three bytes before it.
boundary_near :
    (s : Text) (i : ℕ)
    → i ≤ byte_len s
    → (j : ℕ) × (j ≤ i) × (i ≤ j + 3) × (is_char_boundary s j ≡ true)
unfolding byte_len is_char_boundary
boundary_near [] i h = (0, omega arith, omega arith, refl)
boundary_near (c ∷ s) i h = elim (Bool-cases (leb (len_utf8 c) i)) [
  | inl e ↦
      let (j, le, near, b) = boundary_near s (i - len_utf8 c) (ground arith) in
      (len_utf8 c + j, ground arith, ground arith, is_char_boundary-cons c s _ j refl b)
  | inr e ↦ (0, omega arith, ground (arith, len_utf8_bounds c), refl)
]

back_to_boundary_near : (s : Text) (i : ℕ) → i ≤ byte_len s → i ≤ back_to_boundary s i + 3
back_to_boundary_near s i h =
    let (j, le, near, b) = boundary_near s i h in omega (arith, back_to_boundary-ge s i j le b)

push_normalized-IsPlain : (done : Text) (c : ℕ) → IsPlain done → IsPlain (push_normalized done c)
unfolding push_normalized
push_normalized-IsPlain done c h = elim (Bool-cases (c == b'\n' || c == b'\r')) [
  | inl e ↦ elim (Bool-cases (ends_with b' ' done)) [
    | inl x ↦ rw (e, x) h
    | inr x ↦ rw (e, x) (All-append _ done (b' ' ∷ []) h (refl, tt))
  ]
  | inr e ↦ elim (Bool-cases (is_control c)) [
    | inl x ↦ rw (e, x) h
    | inr x ↦ rw (e, x) (All-append _ done (c ∷ []) h (x, tt))
  ]
]

push_normalized_plain :
    (done : Text) (c : ℕ) → is_control c ≡ false → push_normalized done c ≡ done ++ c ∷ []
unfolding push_normalized
push_normalized_plain done c h = ground arith

normalize_from-IsPlain : (done s : Text) → IsPlain done → IsPlain (normalize_from done s)
unfolding normalize_from
normalize_from-IsPlain done [] h = h
normalize_from-IsPlain done (c ∷ s) h =
    normalize_from-IsPlain (push_normalized done c) s (push_normalized-IsPlain done c h)

normalize_from_plain : (done s : Text) → IsPlain s → normalize_from done s ≡ done ++ s
unfolding normalize_from
normalize_from_plain done [] h = sym (append-nil done)
normalize_from_plain done (c ∷ s) h =
    rw (push_normalized_plain done c h.0)
      (normalize_from_plain (done ++ c ∷ []) s h.1 ∙ append_assoc done (c ∷ []) s)

-- The preview of every text has at most 256 bytes and holds no control character.
pub preview_bounds :
    (s : Text) → (byte_len (preview s) ≤ max_offer_preview_bytes) × IsPlain (preview s)
unfolding preview
preview_bounds s =
    let t = normalize_from [] s in
    let end = min (byte_len t) max_offer_preview_bytes in
    (
      omega (arith, byte_len-truncate-le t (back_to_boundary t end), back_to_boundary-le t end),
      truncate-All _ t _ (normalize_from-IsPlain [] s tt),
    )

-- Where the normalised text has at least 256 bytes, the preview has at least 253: the cut at a
-- character boundary loses at most three.
pub preview_near :
    (s : Text)
    → max_offer_preview_bytes ≤ byte_len (normalize_from [] s)
    → max_offer_preview_bytes ≤ byte_len (preview s) + 3
unfolding preview
preview_near s h =
    let t = normalize_from [] s in
    let end = min (byte_len t) max_offer_preview_bytes in
    omega (
      arith,
      byte_len-truncate t (back_to_boundary t end) (back_to_boundary-boundary t end),
      back_to_boundary_near t end (omega arith),
    )

-- A plain text that fits is its own preview.
pub preview_plain : (s : Text) → IsPlain s → byte_len s ≤ max_offer_preview_bytes → preview s ≡ s
unfolding preview
preview_plain s p h =
    let e : min (byte_len s) max_offer_preview_bytes ≡ byte_len s = omega arith in
    let b = back_to_boundary_self s (byte_len s) (is_char_boundary_end s (byte_len s) refl) in
    rw (normalize_from_plain [] s p, e, b) (truncate_all s (byte_len s) (omega arith))

-- A preview is its own preview.
pub preview-preview : (s : Text) → preview (preview s) ≡ preview s
preview-preview s = let (b, p) = preview_bounds s in preview_plain (preview s) p b
