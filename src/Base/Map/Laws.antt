-- ===== src/Base/Map/Laws.antt =====
-- What can be read after a change of a map, and what keeps its keys distinct.
use Prim.Native.Nat.{◌+◌, ◌≤◌}
use mathlib.Core.Path.{◌≡◌, refl, subst}
use mathlib.Core.Logic.{◌≢◌, inl, inr}
use mathlib.Core.Bool.{true}
use mathlib.Core.Option.{none, some}
use mathlib.Core.List.{[], ◌∷◌}
use native.Mathlib.Omega.{arith}
use meshelf.Base.Tests.{if◌then◌else◌, Bool-cases}
use meshelf.Base.Lists.{All, All-In, All-map2, Pairs, In, length}
use meshelf.Base.Map.{Key, Map, lookup, erase, place, insert, Absent, Distinct}

pub eqb_refl : {K : Type 0} ⦃key : Key K⦄ (k : K) → key.eqb k k ≡ true
eqb_refl ⦃key⦄ k = (key.eqb_iff k k).1 refl

module _ {K V : Type 0} ⦃key : Key K⦄ where
  pub lookup-erase :
      (k j : K) (m : Map K V) → lookup j (erase k m) ≡ (if key.eqb k j then none else lookup j m)
  unfolding lookup erase
  lookup-erase k j [] = ground arith
  lookup-erase k j ((i, v) ∷ m) =
      ground (arith, key.eqb_iff i k, key.eqb_iff i j, key.eqb_iff k j, lookup-erase k j m)

  lookup-place_ne : (k j : K) (v : V) (m : Map K V) → k ≢ j → lookup j (place k v m) ≡ lookup j m
  unfolding lookup place
  lookup-place_ne k j v [] h = ground (arith, key.eqb_iff k j)
  lookup-place_ne k j v ((i, w) ∷ m) h = ground (arith, key.eqb_iff k j, lookup-place_ne k j v m h)

  lookup-place_self :
      (k : K) (v : V) (m : Map K V) → lookup k m ≡ none → lookup k (place k v m) ≡ some v
  unfolding lookup place
  lookup-place_self k v [] h = ground (arith, eqb_refl k)
  lookup-place_self k v ((i, w) ∷ m) h = ground (arith, eqb_refl k, lookup-place_self k v m)

  pub lookup-insert :
      (k j : K) (v : V) (m : Map K V)
      → lookup j (insert k v m) ≡ (if key.eqb k j then some v else lookup j m)
  unfolding insert
  lookup-insert k j v m = elim (Bool-cases (key.eqb k j)) [
    | inl same ↦
        let e = (key.eqb_iff k j).0 same in
        rw (← e, eqb_refl k)
          (lookup-place_self k v (erase k m) (ground (arith, lookup-erase k k m, eqb_refl k)))
    | inr other ↦
        ground (arith, key.eqb_iff k j, lookup-place_ne k j v (erase k m), lookup-erase k j m)
  ]

  pub lookup-insert_self : (k : K) (v : V) (m : Map K V) → lookup k (insert k v m) ≡ some v
  lookup-insert_self k v m = ground (arith, lookup-insert k k v m, eqb_refl k)

  pub lookup-eq-none : (k : K) (m : Map K V) → lookup k m ≡ none → Absent k m
  unfolding lookup
  lookup-eq-none k [] h = tt
  lookup-eq-none k ((j, v) ∷ m) h = elim (Bool-cases (key.eqb j k)) [
    | inl e ↦ absurd (ground arith)
    | inr e ↦ (λ p. cc ((key.eqb_iff j k).1 p), lookup-eq-none k m (ground arith))
  ]

  pub erase-All : (P : K × V → Type 0) (k : K) (m : Map K V) → All P m → All P (erase k m)
  unfolding erase
  erase-All P k [] h = tt
  erase-All P k ((j, v) ∷ m) h = elim (Bool-cases (key.eqb j k)) [
    | inl e ↦ rw e (erase-All P k m h.1)
    | inr e ↦ rw e (h.0, erase-All P k m h.1)
  ]

  pub erase-Distinct : (k : K) (m : Map K V) → Distinct m → Distinct (erase k m)
  unfolding erase
  erase-Distinct k [] h = tt
  erase-Distinct k ((j, v) ∷ m) h = elim (Bool-cases (key.eqb j k)) [
    | inl e ↦ rw e (erase-Distinct k m h.1)
    | inr e ↦ rw e (erase-All (λ e. e.0 ≢ j) k m h.0, erase-Distinct k m h.1)
  ]

  pub erase_missing : (k : K) (m : Map K V) → Absent k m → erase k m ≡ m
  unfolding erase
  erase_missing k [] h = refl
  erase_missing k ((j, v) ∷ m) h = ground (arith, key.eqb_iff j k, erase_missing k m h.1)

  pub length-erase :
      (k : K) (m : Map K V) {v : V}
      → Distinct m
      → lookup k m ≡ some v
      → length (erase k m) + 1 ≡ length m
  unfolding erase lookup
  length-erase k [] {v} d h = cc
  length-erase k ((j, w) ∷ m) {v} d h = elim (Bool-cases (key.eqb j k)) [
    | inl e ↦
        let same = (key.eqb_iff j k).0 e in rw (e, erase_missing k m (rw same at d.0)) (omega arith)
    | inr e ↦ rw e (omega (arith, length-erase k m {v = v} d.1 (ground arith)))
  ]

  pub erase-Absent : (k : K) (m : Map K V) → Absent k (erase k m)
  unfolding erase
  erase-Absent k [] = tt
  erase-Absent k ((j, v) ∷ m) = elim (Bool-cases (key.eqb j k)) [
    | inl e ↦ rw e (erase-Absent k m)
    | inr e ↦ rw e ((λ p. cc ((key.eqb_iff j k).1 p)), erase-Absent k m)
  ]

  pub place-All :
      (P : K × V → Type 0) (k : K) (v : V) (m : Map K V) → P (k, v) → All P m → All P (place k v m)
  unfolding place
  place-All P k v [] p h = (p, tt)
  place-All P k v ((j, w) ∷ m) p h = elim (Bool-cases (key.key_leb k j)) [
    | inl e ↦ rw e (p, h)
    | inr e ↦ rw e (h.0, place-All P k v m p h.1)
  ]

  place-Distinct : (k : K) (v : V) (m : Map K V) → Absent k m → Distinct m → Distinct (place k v m)
  unfolding place
  place-Distinct k v [] a d = (tt, tt)
  place-Distinct k v ((j, w) ∷ m) a d = elim (Bool-cases (key.key_leb k j)) [
    | inl e ↦ rw e (a, d)
    | inr e ↦
        rw e (
          place-All (λ e. e.0 ≢ j) k v m (λ p. a.0 (ground arith)) d.0,
          place-Distinct k v m a.1 d.1,
        )
  ]

  pub length-place : (k : K) (v : V) (m : Map K V) → length (place k v m) ≡ length m + 1
  unfolding place
  length-place k v [] = omega arith
  length-place k v ((j, w) ∷ m) = ground (arith, length-place k v m)

  pub insert-Distinct : (k : K) (v : V) (m : Map K V) → Distinct m → Distinct (insert k v m)
  unfolding insert
  insert-Distinct k v m d = place-Distinct k v _ (erase-Absent k m) (erase-Distinct k m d)

  pub insert-All :
      (P : K × V → Type 0) (k : K) (v : V) (m : Map K V) → P (k, v) → All P m → All P (insert k v m)
  unfolding insert
  insert-All P k v m p h = place-All P k v _ p (erase-All P k m h)

  pub insert_missing : (k : K) (v : V) (m : Map K V) → Absent k m → insert k v m ≡ place k v m
  unfolding insert
  insert_missing k v m a = rw (erase_missing k m a)

  -- A relation between rows, whichever stands first.
  pub erase-Pairs :
      (R : K × V → K × V → Type 0) (k : K) (m : Map K V) → Pairs R m → Pairs R (erase k m)
  unfolding erase
  erase-Pairs R k [] h = tt
  erase-Pairs R k ((j, v) ∷ m) h = elim (Bool-cases (key.eqb j k)) [
    | inl e ↦ rw e (erase-Pairs R k m h.1)
    | inr e ↦ rw e (erase-All (R (j, v)) k m h.0, erase-Pairs R k m h.1)
  ]

  pub place-Pairs :
      (R : K × V → K × V → Type 0) (turn : (e f : K × V) → R e f → R f e) (k : K) (v : V)
      (m : Map K V)
      → All (R (k, v)) m
      → Pairs R m
      → Pairs R (place k v m)
  unfolding place
  place-Pairs R turn k v [] a h = (tt, tt)
  place-Pairs R turn k v ((j, w) ∷ m) a h = elim (Bool-cases (key.key_leb k j)) [
    | inl e ↦ rw e (a, h)
    | inr e ↦
        rw e (
          place-All (R (j, w)) k v m (turn (k, v) (j, w) a.0) h.0,
          place-Pairs R turn k v m a.1 h.1,
        )
  ]

  -- Every row of a map with distinct keys is found under its key.
  pub Distinct-lookup : (m : Map K V) → Distinct m → All (λ e. lookup e.0 m ≡ some e.1) m
  unfolding lookup
  Distinct-lookup [] d = tt
  Distinct-lookup ((j, v) ∷ m) d = (
    ground (arith, eqb_refl j),
    All-map2 (λ e (p : e.0 ≢ j) (q : lookup e.0 m ≡ some e.1). ground (arith, key.eqb_iff j e.0)) m
        d.0 (Distinct-lookup m d.1),
  )

  pub lookup-In : (k : K) (v : V) (m : Map K V) → lookup k m ≡ some v → In (k, v) m
  unfolding lookup
  lookup-In k v [] h = cc
  lookup-In k v ((j, w) ∷ m) h = elim (Bool-cases (key.eqb j k)) [
    | inl e ↦ let same = (key.eqb_iff j k).0 e in inl (ground arith)
    | inr e ↦ inr (lookup-In k v m (ground arith))
  ]

  pub length-erase-le : (k : K) (m : Map K V) → length (erase k m) ≤ length m
  unfolding erase
  length-erase-le k [] = omega arith
  length-erase-le k ((j, v) ∷ m) = ground (arith, length-erase-le k m)

  -- A row is related to all rows with other keys.
  pub Pairs-erase :
      (R : K × V → K × V → Type 0) (turn : (e f : K × V) → R e f → R f e) (k : K) (v : V)
      (m : Map K V)
      → lookup k m ≡ some v
      → Pairs R m
      → All (R (k, v)) (erase k m)
  unfolding lookup erase
  Pairs-erase R turn k v [] found h = tt
  Pairs-erase R turn k v ((j, w) ∷ m) found h = elim (Bool-cases (key.eqb j k)) [
    | inl e ↦
        let same : ◌≡◌ {A = K × V} (j, w) (k, v) = ground (arith, key.eqb_iff j k) in
        rw e (erase-All (R (k, v)) k m (subst (λ x. All (R x) m) same h.0))
    | inr e ↦
        let later : lookup k m ≡ some v = ground arith in
        rw e (
          turn (j, w) (k, v) (All-In (R (j, w)) (k, v) m h.0 (lookup-In k v m later)),
          Pairs-erase R turn k v m later h.1,
        )
  ]
