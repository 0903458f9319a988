-- ===== src/Base/Text/Laws.antt =====
-- Lengths, and what a truncation keeps.
use Prim.Native.Nat.{ℕ, zero, suc, ◌+◌, ◌-◌, ◌≤◌}
use mathlib.Core.Path.{◌≡◌, refl}
use mathlib.Core.Logic.{◌↔◌, inl, inr}
use mathlib.Core.Bool.{Bool, true, false}
use mathlib.Core.List.{[], ◌∷◌, ◌++◌}
use native.Mathlib.Omega.{arith}
use meshelf.Base.Tests.{leb, Bool-cases}
use meshelf.Base.Lists.{All, any}
use meshelf.Base.Text.{Text, len_utf8, byte_len, text_eq, is_char_boundary, truncate}

pub len_utf8_bounds : (c : ℕ) → (1 ≤ len_utf8 c) × (len_utf8 c ≤ 4)
unfolding len_utf8
len_utf8_bounds c = ground arith

pub text_eq_iff : (s t : Text) → (text_eq s t ≡ true) ↔ (s ≡ t)
text_eq_iff [] [] = ground arith
text_eq_iff [] (d ∷ t) = ground arith
text_eq_iff (c ∷ s) [] = ground arith
text_eq_iff (c ∷ s) (d ∷ t) = ground (arith, text_eq_iff s t)

pub byte_len-append : (s t : Text) → byte_len (s ++ t) ≡ byte_len s + byte_len t
unfolding byte_len
byte_len-append [] t = omega arith
byte_len-append (c ∷ s) t = omega (arith, byte_len-append s t)

pub byte_len-truncate-le : (s : Text) (i : ℕ) → byte_len (truncate s i) ≤ i
unfolding byte_len truncate
byte_len-truncate-le [] i = omega arith
byte_len-truncate-le (c ∷ s) i = elim (Bool-cases (leb (len_utf8 c) i)) [
  | inl e ↦ rw e (ground (arith, byte_len-truncate-le s (i - len_utf8 c)))
  | inr e ↦ rw e (omega arith)
]

pub truncate_all : (s : Text) (i : ℕ) → byte_len s ≤ i → truncate s i ≡ s
unfolding byte_len truncate
truncate_all [] i h = refl
truncate_all (c ∷ s) i h = ground (arith, truncate_all s (i - len_utf8 c))

pub truncate-All : (P : ℕ → Type 0) (s : Text) (i : ℕ) → All P s → All P (truncate s i)
unfolding truncate
truncate-All P [] i h = tt
truncate-All P (c ∷ s) i h = elim (Bool-cases (leb (len_utf8 c) i)) [
  | inl e ↦ rw e (h.0, truncate-All P s (i - len_utf8 c) h.1)
  | inr e ↦ rw e tt
]

-- A cut at a boundary keeps as many bytes as it says.
pub byte_len-truncate :
    (s : Text) (i : ℕ) → is_char_boundary s i ≡ true → byte_len (truncate s i) ≡ i
unfolding byte_len truncate is_char_boundary
byte_len-truncate [] zero h = refl
byte_len-truncate [] (suc i) h = cc
byte_len-truncate (c ∷ s) zero h = omega (arith, byte_len-truncate-le (c ∷ s) 0)
byte_len-truncate (c ∷ s) (suc i) h = ground (arith, byte_len-truncate s (suc i - len_utf8 c))

pub is_char_boundary_end : (s : Text) (i : ℕ) → i ≡ byte_len s → is_char_boundary s i ≡ true
unfolding byte_len is_char_boundary
is_char_boundary_end [] zero h = refl
is_char_boundary_end (c ∷ s) zero h = refl
is_char_boundary_end [] (suc i) h = absurd (omega arith)
is_char_boundary_end (c ∷ s) (suc i) h = ground (arith, is_char_boundary_end s (suc i - len_utf8 c))

pub is_char_boundary-cons :
    (c : ℕ) (s : Text) (i j : ℕ)
    → i ≡ len_utf8 c + j
    → is_char_boundary s j ≡ true
    → is_char_boundary (c ∷ s) i ≡ true
unfolding is_char_boundary
is_char_boundary-cons c s zero j e b = refl
is_char_boundary-cons c s (suc i) j e b =
    let rest : suc i - len_utf8 c ≡ j = omega arith in rw rest (ground arith)

-- No character is a control character, as the source tests it.
pub any-false : (p : ℕ → Bool) (s : Text) → All (λ c. p c ≡ false) s → any p s ≡ false
any-false p [] h = refl
any-false p (c ∷ s) h = ground (arith, any-false p s h.1)

pub All-of_any-false : (p : ℕ → Bool) (s : Text) → any p s ≡ false → All (λ c. p c ≡ false) s
All-of_any-false p [] h = tt
All-of_any-false p (c ∷ s) h = (ground arith, All-of_any-false p s (ground arith))
