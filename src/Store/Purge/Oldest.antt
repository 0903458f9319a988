-- ===== src/Store/Purge/Oldest.antt =====
-- Which rows a purge takes, and what can be read of the others.
use meshelf.Base.{
  ℕ, ◌≤◌, ◌≡◌, refl, subst, inl, inr, Bool, true, false, List, [], ◌∷◌, map, none, some, arith,
  if◌then◌else◌, Bool-cases, All-In, All-take, Pairs, In, In-take-drop, Pairs-take-drop, any, take,
}
use meshelf.Base.Map.{Key, Map, lookup, erase, Distinct}
use meshelf.Base.Map.Laws.{lookup-erase, Distinct-lookup, lookup-In, eqb_refl}
use meshelf.Base.Sort.{sort, sort-All, sort-In, sort-IsSorted}
use meshelf.Store.Purge.{row_before, target, oldest, remove_all}

abbrev pub listed : {K : Type 0} ⦃key : Key K⦄ → K → List K → Bool
listed ⦃key⦄ j = any (λ k. key.eqb k j)

module _ {K V : Type 0} ⦃key : Key K⦄ where
  -- Every row that is not listed stays as it is.
  pub lookup-remove_all :
      (j : K) (ks : List K) (m : Map K V)
      → lookup j (remove_all ks m) ≡ (if listed j ks then none else lookup j m)
  unfolding remove_all
  lookup-remove_all j [] m = refl
  lookup-remove_all j (k ∷ ks) m =
      ground (arith, lookup-remove_all j ks (erase k m), lookup-erase k j m)

  listed-keys :
      (j : K) (m : Map K V) → listed j (map (λ e. e.0) m) ≡ true → (e : K × V) × In e m × (e.0 ≡ j)
  listed-keys j [] h = absurd (cc)
  listed-keys j (e ∷ m) h = elim (Bool-cases (key.eqb e.0 j)) [
    | inl same ↦ (e, inl refl, (key.eqb_iff e.0 j).0 same)
    | inr other ↦ let (f, i, p) = listed-keys j m (ground arith) in (f, inr i, p)
  ]

  In-listed : (e : K × V) (m : Map K V) → In e m → listed e.0 (map (λ e. e.0) m) ≡ true
  In-listed e [] i = elim i [ ]
  In-listed e (f ∷ m) (inl p) = rw (← p, eqb_refl e.0)
  In-listed e (f ∷ m) (inr i) = ground (arith, In-listed e m i)

  module _ (sequence : V → ℕ) (rows : Map K V) where
    abbrev sorted : Map K V
    sorted = sort (row_before sequence) rows

    sorted-IsSorted : Pairs (λ e f. sequence e.1 ≤ sequence f.1) sorted
    sorted-IsSorted =
        sort-IsSorted (row_before sequence) _ (λ e f g h k. omega arith) (λ e f h. ground arith)
          (λ e f h. ground arith) rows

    -- A row that a purge takes is no newer than any row that stays.
    pub oldest_first :
        (j k : K) (v w : V)
        → Distinct rows
        → lookup j rows ≡ some v
        → lookup j (remove_all (oldest sequence rows) rows) ≡ none
        → lookup k (remove_all (oldest sequence rows) rows) ≡ some w
        → sequence v ≤ sequence w
    unfolding oldest
    oldest_first j k v w d found gone stays =
        let n = target rows in
        let keys : List K = map (λ e. e.0) (take n sorted) in
        let taken : listed j keys ≡ true = ground (arith, lookup-remove_all j keys rows) in
        let left : listed k keys ≡ false = ground (arith, lookup-remove_all k keys rows) in
        let here : lookup k rows ≡ some w = ground (arith, lookup-remove_all k keys rows) in
        let (e, i, same) = listed-keys j (take n sorted) taken in
        let value =
          All-In _ e (take n sorted)
            (All-take _ n sorted (sort-All (row_before sequence) _ rows (Distinct-lookup rows d)))
            i in
        let place = sort-In (row_before sequence) (k, w) rows (lookup-In k w rows here) in
        elim (In-take-drop (k, w) n sorted place) [
          | inl front ↦ absurd (ground (arith, In-listed (k, w) (take n sorted) front))
          | inr back ↦
              let le = Pairs-take-drop _ e (k, w) n sorted sorted-IsSorted i back in
              let value' : lookup j rows ≡ some e.1 =
                subst (λ i. lookup i rows ≡ some e.1) same value in
              ground (arith, le)
        ]
