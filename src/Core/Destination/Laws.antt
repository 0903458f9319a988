-- ===== src/Core/Destination/Laws.antt =====
-- The portable-name policy under a change of letter case, and the components of an accepted path.
use meshelf.Base.{
  ℕ, ◌≤◌, ◌≡◌, refl, ◌≢◌, ◌↔◌, inl, inr, false, List, [], ◌∷◌, ◌++◌, arith, ok, ◌==◌, Bool-cases,
  ==_iff, >>=-eq-ok, All, any,
}
use mathlib.Core.List.{append_assoc}
use meshelf.Base.Text.{
  Text, lit, byte_len, len_utf8, text_eq, ends_with, split, split_from, before_first, trim_end,
  keep_end, upper, to_ascii_uppercase,
}
use meshelf.Base.Text.Laws.{text_eq_iff, All-of_any-false, any-false}
use meshelf.Core.Model.{max_offer_portable_component_bytes}
use meshelf.Core.Destination.{
  is_forbidden, is_reserved, device_stem, validate_component, validate_components,
  validate_relative_path, relative_path,
}

-- the pieces, with the separator between them
abbrev pub join_more : ℕ → List Text → Text
join_more sep [] = []
join_more sep (p ∷ ps) = sep ∷ (p ++ join_more sep ps)

abbrev pub join : ℕ → List Text → Text
join sep [] = []
join sep (p ∷ ps) = p ++ join_more sep ps

split_from-cons :
    (piece : Text) (sep : ℕ) (s : Text)
    → (h : Text) × (t : List Text) × (split_from piece sep s ≡ h ∷ t)
unfolding split_from
split_from-cons piece sep [] = (piece, [], refl)
split_from-cons piece sep (c ∷ s) = elim (Bool-cases (c == sep)) [
  | inl e ↦ (piece, split_from [] sep s, rw e)
  | inr e ↦ rw e (split_from-cons (piece ++ c ∷ []) sep s)
]

join_more-split_from :
    (piece : Text) (sep : ℕ) (s : Text)
    → join_more sep (split_from piece sep s) ≡ sep ∷ join sep (split_from piece sep s)
join_more-split_from piece sep s = let (h, t, e) = split_from-cons piece sep s in rw e

join-split_from :
    (piece : Text) (sep : ℕ) (s : Text) → join sep (split_from piece sep s) ≡ piece ++ s
unfolding split_from
join-split_from piece sep [] = refl
join-split_from piece sep (c ∷ s) = elim (Bool-cases (c == sep)) [
  | inl e ↦
      let same = (==_iff c sep).0 e in
      rw (e, join_more-split_from [] sep s, join-split_from [] sep s, same)
  | inr e ↦ rw (e, join-split_from (piece ++ c ∷ []) sep s) (append_assoc piece (c ∷ []) s)
]

-- Nothing is lost by a split.
pub join-split : (sep : ℕ) (s : Text) → join sep (split sep s) ≡ s
unfolding split
join-split sep s = join-split_from [] sep s

-- A component that means one file below its directory, on every host.
pub record IsSafe (c : Text) : Type 0 where
  pub some_bytes : byte_len c ≢ 0
  pub not_dot : c ≢ lit "."
  pub not_dots : c ≢ lit ".."
  pub short : byte_len c ≤ max_offer_portable_component_bytes
  pub allowed : All (λ d. is_forbidden d ≡ false) c
  pub no_device : is_reserved (device_stem c) ≡ false
  pub no_space_end : ends_with b' ' c ≡ false
  pub no_dot_end : ends_with b'.' c ≡ false

pub validate_component_sound : (c : Text) → validate_component c ≡ ok tt → IsSafe c
unfolding validate_component
validate_component_sound c h = record {
  some_bytes = λ e. ground arith;
  not_dot = λ e. ground (arith, text_eq_iff c (lit "."));
  not_dots = λ e. ground (arith, text_eq_iff c (lit ".."));
  short = ground arith;
  allowed = All-of_any-false is_forbidden c (ground arith);
  no_device = ground arith;
  no_space_end = ground arith;
  no_dot_end = ground arith;
}

validate_component_complete : (c : Text) → IsSafe c → validate_component c ≡ ok tt
unfolding validate_component
validate_component_complete c h = ground (
  arith,
  text_eq_iff c (lit "."),
  text_eq_iff c (lit ".."),
  any-false is_forbidden c h.allowed,
  h.some_bytes,
  h.not_dot,
  h.not_dots,
)

pub validate_component_iff : (c : Text) → (validate_component c ≡ ok tt) ↔ IsSafe c
validate_component_iff c = (validate_component_sound c, validate_component_complete c)

validate_components_sound : (cs : List Text) → validate_components cs ≡ ok tt → All IsSafe cs
unfolding validate_components
validate_components_sound [] h = tt
validate_components_sound (c ∷ cs) h =
    let (u, here, later) = >>=-eq-ok (validate_component c) (λ _. validate_components cs) h in
    (validate_component_sound c here, validate_components_sound cs later)

-- The components of a path that validate_relative_path accepts are all safe portable names, and the
-- path is exactly these components with slashes between them.
pub validate_relative_path-IsSafe :
    (path : Text)
    → validate_relative_path path ≡ ok tt
    → All IsSafe (relative_path path) × (join b'/' (relative_path path) ≡ path)
unfolding validate_relative_path relative_path
validate_relative_path-IsSafe path h =
    (validate_components_sound (split b'/' path) (ground arith), join-split b'/' path)

-- Letter case.
upper_facts :
    (c : ℕ)
    → (upper (upper c) ≡ upper c)
      × (len_utf8 (upper c) ≡ len_utf8 c)
      × (is_forbidden (upper c) ≡ is_forbidden c)
unfolding len_utf8
upper_facts c = (ground arith, ground arith, ground arith)

byte_len-upper : (s : Text) → byte_len (to_ascii_uppercase s) ≡ byte_len s
unfolding byte_len
byte_len-upper [] = refl
byte_len-upper (c ∷ s) = omega (arith, (upper_facts c).1, byte_len-upper s)

any_forbidden-upper : (s : Text) → any is_forbidden (to_ascii_uppercase s) ≡ any is_forbidden s
any_forbidden-upper [] = refl
any_forbidden-upper (c ∷ s) = rw ((upper_facts c).2, any_forbidden-upper s)

-- a character that is no letter
module _ (d : ℕ) (plain : (c : ℕ) → (upper c == d) ≡ (c == d)) where
  ends_with-upper : (s : Text) → ends_with d (to_ascii_uppercase s) ≡ ends_with d s
  unfolding ends_with
  ends_with-upper [] = refl
  ends_with-upper (c ∷ []) = plain c
  ends_with-upper (c ∷ c' ∷ s) = ends_with-upper (c' ∷ s)

  before_first-upper :
      (s : Text) → before_first d (to_ascii_uppercase s) ≡ to_ascii_uppercase (before_first d s)
  unfolding before_first
  before_first-upper [] = refl
  before_first-upper (c ∷ s) = ground (arith, plain c, before_first-upper s)

dot_plain : (c : ℕ) → (upper c == b'.') ≡ (c == b'.')
dot_plain c = ground arith

space_plain : (c : ℕ) → (upper c == b' ') ≡ (c == b' ')
space_plain c = ground arith

keep_end-upper :
    (c : ℕ) (t : Text)
    → keep_end (upper c) (to_ascii_uppercase t) ≡ to_ascii_uppercase (keep_end c t)
keep_end-upper c [] = ground (arith, dot_plain c, space_plain c)
keep_end-upper c (d ∷ t) = refl

trim_end-upper : (s : Text) → trim_end (to_ascii_uppercase s) ≡ to_ascii_uppercase (trim_end s)
unfolding trim_end
trim_end-upper [] = refl
trim_end-upper (c ∷ s) = rw (trim_end-upper s) (keep_end-upper c (trim_end s))

upper-upper : (s : Text) → to_ascii_uppercase (to_ascii_uppercase s) ≡ to_ascii_uppercase s
upper-upper [] = refl
upper-upper (c ∷ s) = rw ((upper_facts c).0, upper-upper s)

device_stem-upper : (s : Text) → device_stem (to_ascii_uppercase s) ≡ device_stem s
unfolding device_stem
device_stem-upper s = rw (before_first-upper b'.' dot_plain s, trim_end-upper, upper-upper)

text_eq-upper_dots :
    (s : Text)
    → (text_eq (to_ascii_uppercase s) (lit ".") ≡ text_eq s (lit "."))
      × (text_eq (to_ascii_uppercase s) (lit "..") ≡ text_eq s (lit ".."))
text_eq-upper_dots [] = (refl, refl)
text_eq-upper_dots (c ∷ []) = rw (dot_plain c) (refl, refl)
text_eq-upper_dots (c ∷ d ∷ []) = rw (dot_plain c, dot_plain d) (refl, refl)
text_eq-upper_dots (c ∷ d ∷ e ∷ s) = rw (dot_plain c, dot_plain d) (refl, refl)

-- validate_component accepts a name exactly when it accepts its upper-case form.
pub validate_component-upper :
    (c : Text)
    → (validate_component (to_ascii_uppercase c) ≡ ok tt) ↔ (validate_component c ≡ ok tt)
unfolding validate_component
validate_component-upper c =
    let (dot, dots) = text_eq-upper_dots c in
    rw
      (
        byte_len-upper c,
        dot,
        dots,
        any_forbidden-upper c,
        device_stem-upper c,
        ends_with-upper b' ' space_plain c,
        ends_with-upper b'.' dot_plain c,
      )
      (λ h. ground arith, λ h. ground arith)
