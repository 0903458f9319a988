-- ===== src/Net/Detail/Laws.antt =====
-- When the shortening of a detail panics, and what it gives otherwise.
use meshelf.Base.{
  ℕ, zero, suc, ◌-◌, ◌≤◌, ◌<◌, ◌≡◌, refl, sym, ◌∙◌, ◌⊎◌, inl, inr, ◌≢◌, true, false, none, some, [],
  ◌∷◌, map, arith, ltb, ◌==◌, Bool-cases, All,
}
use meshelf.Base.Text.{Text, len_utf8, byte_len, is_char_boundary, truncate}
use meshelf.Base.Text.Laws.{byte_len-truncate-le, is_char_boundary_end, truncate-All}
use meshelf.Net.Detail.{flatten, truncate_checked, safe_detail}

len_utf8-flatten : (c : ℕ) → len_utf8 (flatten c) ≡ len_utf8 c
unfolding len_utf8
len_utf8-flatten c = ground arith

byte_len-flatten : (s : Text) → byte_len (map flatten s) ≡ byte_len s
unfolding byte_len
byte_len-flatten [] = refl
byte_len-flatten (c ∷ s) = omega (arith, len_utf8-flatten c, byte_len-flatten s)

is_char_boundary-flatten :
    (s : Text) (i : ℕ) → is_char_boundary (map flatten s) i ≡ is_char_boundary s i
unfolding is_char_boundary
is_char_boundary-flatten s zero = refl
is_char_boundary-flatten [] (suc i) = refl
is_char_boundary-flatten (c ∷ s) (suc i) =
    rw (len_utf8-flatten c, is_char_boundary-flatten s (suc i - len_utf8 c)) refl

-- one line
abbrev pub IsFlat : Text → Type 0
IsFlat = All (λ c. (c ≢ b'\n') × (c ≢ b'\r'))

flatten-IsFlat : (s : Text) → IsFlat (map flatten s)
flatten-IsFlat [] = tt
flatten-IsFlat (c ∷ s) = (((λ e. ground arith), λ e. ground arith), flatten-IsFlat s)

-- safe_detail gives one line of at most 256 bytes, of any detail of at most 256 bytes or with a
-- character boundary at byte 256; of every other detail it gives nothing, which stands for a panic.
pub safe_detail_outcome :
    (detail : Text)
    → ((safe_detail detail ≡ none)
        × (256 < byte_len detail)
        × (is_char_boundary detail 256 ≡ false))
      ⊎ (short : Text) × (safe_detail detail ≡ some short)
        × (byte_len short ≤ 256)
        × IsFlat short
        × ((byte_len detail ≤ 256) ⊎ (is_char_boundary detail 256 ≡ true))
unfolding safe_detail truncate_checked
safe_detail_outcome detail =
    let flat = map flatten detail in
    let size = byte_len-flatten detail in
    let boundary = is_char_boundary-flatten detail 256 in
    let strict : ltb (byte_len flat) 256 ≡ false
        → is_char_boundary flat 256 ≡ false
        → 256 < byte_len detail =
      λ large inside. elim (Bool-cases (byte_len flat == 256)) [
        | inl e ↦ let ends = is_char_boundary_end flat 256 (ground arith) in absurd (ground arith)
        | inr e ↦ ground (arith, size)
      ] in
    elim (Bool-cases (ltb (byte_len flat) 256)) [
      | inl small ↦
          rw small
            (inr (flat, refl, ground (arith, size), flatten-IsFlat detail, inl (ground arith)))
      | inr large ↦ rw large (elim (Bool-cases (is_char_boundary flat 256)) [
        | inl fits ↦ rw fits (
            inr (
              truncate flat 256,
              refl,
              byte_len-truncate-le flat 256,
              truncate-All _ flat 256 (flatten-IsFlat detail),
              inr (sym boundary ∙ fits),
            ))
        | inr inside ↦ rw inside (inl (refl, strict large inside, sym boundary ∙ inside))
      ])
    ]
