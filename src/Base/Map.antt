-- ===== src/Base/Map.antt =====
-- Ordered maps as lists of rows: the tables of the database, read in ascending key order, and the
-- standard library's maps.
pub mod Laws
use Prim.Native.Nat.{ℕ, ◌≤◌}
use Prim.Native.String.{String, compare as str_compare}
use Prim.Native.Nat.{Ordering}
use mathlib.Core.Path.{◌≡◌, refl}
use mathlib.Core.Logic.{◌≢◌, ◌↔◌}
use mathlib.Core.Bool.{Bool, true, false, ◌&&◌, ◌||◌}
use mathlib.Core.Option.{Option, none, some}
use mathlib.Core.List.{List, [], ◌∷◌}
use native.Mathlib.Omega.{arith}
use text.Mathlib.Text.{◌==◌ as str_eq}
use text.Mathlib.TextEquality.{eq_iff}
use meshelf.Base.Tests.{leb, ltb, ==_iff, ◌==◌, if◌then◌else◌}
use meshelf.Base.Lists.{All, Pairs}

-- What a table or a sort asks of its keys. No law of `key_leb` is needed by the proofs.
pub record Key (K : Type 0) : Type 0 where
  pub eqb : K → K → Bool
  pub eqb_iff : (a b : K) → (eqb a b ≡ true) ↔ (a ≡ b)
  pub key_leb : K → K → Bool

instance abbrev pub nat_key : Key ℕ
nat_key = record { eqb = ◌==◌; eqb_iff = ==_iff; key_leb = leb }

abbrev pub pair_eqb : ℕ × ℕ → ℕ × ℕ → Bool
pair_eqb (a, b) (c, d) = a == c && b == d

abbrev pub pair_leb : ℕ × ℕ → ℕ × ℕ → Bool
pair_leb (a, b) (c, d) = ltb a c || (a == c && leb b d)

pub pair_eqb_iff : (p q : ℕ × ℕ) → (pair_eqb p q ≡ true) ↔ (p ≡ q)
pair_eqb_iff (a, b) (c, d) = ground arith

instance abbrev pub pair_key : Key (ℕ × ℕ)
pair_key = record { eqb = pair_eqb; eqb_iff = pair_eqb_iff; key_leb = pair_leb }

abbrev pub text_leb : String → String → Bool
text_leb s t = elim (str_compare s t) [ Ordering.gt ↦ false | _ ↦ true ]

instance abbrev pub text_key : Key String
text_key = record { eqb = str_eq; eqb_iff = eq_iff; key_leb = text_leb }

abbrev pub Map : Type 0 → Type 0 → Type 0
Map K V = List (K × V)

module _ {K V : Type 0} ⦃key : Key K⦄ where
  unfoldable pub lookup : K → Map K V → Option V
  lookup k [] = none
  lookup k ((j, v) ∷ m) = if key.eqb j k then some v else lookup k m

  unfoldable pub erase : K → Map K V → Map K V
  erase k [] = []
  erase k ((j, v) ∷ m) = let rest = erase k m in if key.eqb j k then rest else (j, v) ∷ rest

  -- the row, before the first greater key
  unfoldable pub place : K → V → Map K V → Map K V
  place k v [] = (k, v) ∷ []
  place k v ((j, w) ∷ m) = if key.key_leb k j then (k, v) ∷ (j, w) ∷ m else (j, w) ∷ place k v m

  unfoldable pub insert : K → V → Map K V → Map K V
  unfolding place erase
  insert k v m = place k v (erase k m)

-- No key stands twice.
module _ {K V : Type 0} where
  abbrev pub Absent : K → Map K V → Type 0
  Absent k = All (λ e. e.0 ≢ k)

  abbrev pub Distinct : Map K V → Type 0
  Distinct = Pairs (λ e f. f.0 ≢ e.0)
