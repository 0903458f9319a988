-- ===== src/Base/Sort.antt =====
-- `sort_by_key`: a stable sort by a Boolean order, as an insertion sort.
use Prim.Native.Nat.{suc}
use mathlib.Core.Path.{◌≡◌, refl}
use mathlib.Core.Logic.{inl, inr}
use mathlib.Core.Bool.{Bool, true, false}
use mathlib.Core.List.{List, [], ◌∷◌, Perm}
use mathlib.Core.List.Perm
use native.Mathlib.Omega.{arith}
use meshelf.Base.Tests.{if◌then◌else◌, Bool-cases}
use meshelf.Base.Lists.{All, All-map, Pairs, In, length}

module _ {A : Type 0} (before : A → A → Bool) where
  -- in front of the first element that does not stand before it
  unfoldable pub sort_in : A → List A → List A
  sort_in x [] = x ∷ []
  sort_in x (y ∷ ys) = if before x y then x ∷ y ∷ ys else y ∷ sort_in x ys

  unfoldable pub sort : List A → List A
  unfolding sort_in
  sort [] = []
  sort (x ∷ xs) = sort_in x (sort xs)

  sort_in-perm : (x : A) (ys : List A) → Perm (sort_in x ys) (x ∷ ys)
  unfolding sort_in
  sort_in-perm x [] = Perm.refl (x ∷ [])
  sort_in-perm x (y ∷ ys) = elim (Bool-cases (before x y)) [
    | inl e ↦ rw e (Perm.refl (x ∷ y ∷ ys))
    | inr e ↦ rw e (Perm.trans (Perm.cons y (sort_in-perm x ys)) (Perm.swap x y ys))
  ]

  -- A sort keeps every element, as often as it stands in the list.
  pub sort-perm : (xs : List A) → Perm (sort xs) xs
  unfolding sort
  sort-perm [] = Perm.refl []
  sort-perm (x ∷ xs) = Perm.trans (sort_in-perm x (sort xs)) (Perm.cons x (sort-perm xs))

  sort_in-All : (P : A → Type 0) (x : A) (ys : List A) → P x → All P ys → All P (sort_in x ys)
  unfolding sort_in
  sort_in-All P x [] p h = (p, tt)
  sort_in-All P x (y ∷ ys) p h = elim (Bool-cases (before x y)) [
    | inl e ↦ rw e (p, h)
    | inr e ↦ rw e (h.0, sort_in-All P x ys p h.1)
  ]

  pub sort-All : (P : A → Type 0) (xs : List A) → All P xs → All P (sort xs)
  unfolding sort
  sort-All P [] h = tt
  sort-All P (x ∷ xs) h = sort_in-All P x (sort xs) h.0 (sort-All P xs h.1)

  length-sort_in : (x : A) (ys : List A) → length (sort_in x ys) ≡ suc (length ys)
  unfolding sort_in
  length-sort_in x [] = refl
  length-sort_in x (y ∷ ys) = ground (arith, length-sort_in x ys)

  pub length-sort : (xs : List A) → length (sort xs) ≡ length xs
  unfolding sort
  length-sort [] = refl
  length-sort (x ∷ xs) = omega (arith, length-sort_in x (sort xs), length-sort xs)

  sort_in-In : (z x : A) (ys : List A) → In z (x ∷ ys) → In z (sort_in x ys)
  unfolding sort_in
  sort_in-In z x [] i = i
  sort_in-In z x (y ∷ ys) i = elim (Bool-cases (before x y)) [
    | inl e ↦ rw e i
    | inr e ↦ rw e (elim i [
      | inl here ↦ inr (sort_in-In z x ys (inl here))
      | inr (inl next) ↦ inl next
      | inr (inr later) ↦ inr (sort_in-In z x ys (inr later))
    ])
  ]

  pub sort-In : (z : A) (xs : List A) → In z xs → In z (sort xs)
  unfolding sort
  sort-In z [] i = elim i [ ]
  sort-In z (x ∷ xs) (inl e) = sort_in-In z x (sort xs) (inl e)
  sort-In z (x ∷ xs) (inr i) = sort_in-In z x (sort xs) (inr (sort-In z xs i))

  -- A relation between the elements that does not depend on their order.
  module _ (R : A → A → Type 0) (turn : (x y : A) → R x y → R y x) where
    sort_in-Pairs : (x : A) (ys : List A) → All (R x) ys → Pairs R ys → Pairs R (sort_in x ys)
    unfolding sort_in
    sort_in-Pairs x [] a h = (tt, tt)
    sort_in-Pairs x (y ∷ ys) a h = elim (Bool-cases (before x y)) [
      | inl e ↦ rw e (a, h)
      | inr e ↦ rw e (sort_in-All (R y) x ys (turn x y a.0) h.0, sort_in-Pairs x ys a.1 h.1)
    ]

    pub sort-Pairs : (xs : List A) → Pairs R xs → Pairs R (sort xs)
    unfolding sort
    sort-Pairs [] h = tt
    sort-Pairs (x ∷ xs) h = sort_in-Pairs x (sort xs) (sort-All (R x) xs h.0) (sort-Pairs xs h.1)

  -- Sorted by any order that `before` respects.
  module _ (R : A → A → Type 0) (turns : (x y z : A) → R x y → R y z → R x z)
      (fits : (x y : A) → before x y ≡ true → R x y)
      (else_fits : (x y : A) → before x y ≡ false → R y x) where
    sort_in-IsSorted : (x : A) (ys : List A) → Pairs R ys → Pairs R (sort_in x ys)
    unfolding sort_in
    sort_in-IsSorted x [] h = (tt, tt)
    sort_in-IsSorted x (y ∷ ys) h = elim (Bool-cases (before x y)) [
      | inl e ↦
          let le = fits x y e in rw e ((le, All-map (λ z (p : R y z). turns x y z le p) ys h.0), h)
      | inr e ↦ rw e (sort_in-All (R y) x ys (else_fits x y e) h.0, sort_in-IsSorted x ys h.1)
    ]

    pub sort-IsSorted : (xs : List A) → Pairs R (sort xs)
    unfolding sort
    sort-IsSorted [] = tt
    sort-IsSorted (x ∷ xs) = sort_in-IsSorted x (sort xs) (sort-IsSorted xs)
