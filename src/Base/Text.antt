-- ===== src/Base/Text.antt =====
-- Rust's `str` as the list of its characters' code points, with lengths and positions in bytes of
-- UTF-8, and the methods of the standard library that the program calls.
pub mod Laws
use Prim.Native.Nat.{ℕ, zero, suc, ◌+◌, ◌-◌, min}
use Prim.Native.Char.{code}
use Prim.Native.String
use Prim.Native.String.{String}
use mathlib.Core.Bool.{Bool, true, false, ◌&&◌, ◌||◌}
use mathlib.Core.Option.{Option, none, some}
use mathlib.Core.List.{List, [], ◌∷◌, ◌++◌, map, reverse}
use meshelf.Base.Tests.{ltb, leb, ◌==◌, if◌then◌else◌}
use meshelf.Base.Lists.{any}

abbrev pub Text : Type 0
Text = List ℕ

-- a literal of the source
abbrev pub lit : String → Text
lit String.[] = []
lit (String.◌∷◌ c s) = code c ∷ lit s

-- `char::len_utf8`
unfoldable pub len_utf8 : ℕ → ℕ
len_utf8 c = if ltb c 0x80 then 1 else if ltb c 0x800 then 2 else if ltb c 0x10000 then 3 else 4

-- `str::len`
unfoldable pub byte_len : Text → ℕ
byte_len [] = 0
byte_len (c ∷ s) = len_utf8 c + byte_len s

-- `char::is_control`: the general category Cc
abbrev pub is_control : ℕ → Bool
is_control c = ltb c 0x20 || (leb 0x7f c && leb c 0x9f)

-- `==` of two texts
abbrev pub text_eq : Text → Text → Bool
text_eq [] [] = true
text_eq (c ∷ s) (d ∷ t) = c == d && text_eq s t
text_eq _ _ = false

-- `contains` and `starts_with` of one character
abbrev pub contains : ℕ → Text → Bool
contains c = any (λ d. d == c)

abbrev pub starts_with : ℕ → Text → Bool
starts_with c [] = false
starts_with c (d ∷ _) = d == c

-- `ends_with` of one character
unfoldable pub ends_with : ℕ → Text → Bool
ends_with c [] = false
ends_with c (d ∷ []) = d == c
ends_with c (_ ∷ d ∷ s) = ends_with c (d ∷ s)

-- `str::strip_prefix`
unfoldable pub strip_prefix : Text → Text → Option Text
strip_prefix [] s = some s
strip_prefix (_ ∷ _) [] = none
strip_prefix (p ∷ ps) (c ∷ s) = let rest = strip_prefix ps s in if p == c then rest else none

-- `split` at one character, given the first piece so far: never empty
unfoldable pub split_from : Text → ℕ → Text → List Text
split_from piece sep [] = piece ∷ []
split_from piece sep (c ∷ s) =
    let closed = piece ∷ split_from [] sep s in
    let longer = split_from (piece ++ c ∷ []) sep s in if c == sep then closed else longer

unfoldable pub split : ℕ → Text → List Text
unfolding split_from
split sep s = split_from [] sep s

-- `split(sep).next()`
unfoldable pub before_first : ℕ → Text → Text
before_first sep [] = []
before_first sep (c ∷ s) = let rest = before_first sep s in if c == sep then [] else c ∷ rest

-- `trim_end_matches([' ', '.'])`
abbrev pub keep_end : ℕ → Text → Text
keep_end c [] = if c == b' ' || c == b'.' then [] else c ∷ []
keep_end c (d ∷ t) = c ∷ d ∷ t

unfoldable pub trim_end : Text → Text
trim_end [] = []
trim_end (c ∷ s) = keep_end c (trim_end s)

-- `to_ascii_uppercase`
abbrev pub upper : ℕ → ℕ
upper c = if leb b'a' c && leb c b'z' then c - 32 else c

abbrev pub to_ascii_uppercase : Text → Text
to_ascii_uppercase = map upper

-- `lines().count()`: a last line that is empty is not counted
unfoldable pub count_lines : Text → ℕ
count_lines [] = 0
count_lines (c ∷ []) = 1
count_lines (c ∷ d ∷ s) = let rest = count_lines (d ∷ s) in if c == b'\n' then suc rest else rest

-- `is_char_boundary(index)`: the start of a character, or the end of the text
unfoldable pub is_char_boundary : Text → ℕ → Bool
is_char_boundary s zero = true
is_char_boundary [] (suc i) = false
is_char_boundary (c ∷ s) (suc i) =
    let rest = is_char_boundary s (suc i - len_utf8 c) in
    if ltb (suc i) (len_utf8 c) then false else rest

-- `truncate(index)`, at a boundary: the characters that end at or before it
unfoldable pub truncate : Text → ℕ → Text
truncate [] i = []
truncate (c ∷ s) i =
    let rest = c ∷ truncate s (i - len_utf8 c) in if leb (len_utf8 c) i then rest else []
