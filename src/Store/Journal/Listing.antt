-- ===== src/Store/Journal/Listing.antt =====
-- What the loop of `startup_cleanup` (crates/meshelf-store/src/v2.rs) lists for removal and for
-- recording.
use meshelf.Base.{
  ◌≡◌, refl, subst, ◌≢◌, inl, inr, Bool, true, false, ◌&&◌, not, arith, All, List, [], ◌∷◌, map,
  Option, none, some, Bool-cases, if◌then◌else◌, any,
}
use meshelf.Base.Map.{nat_key, lookup, Distinct}
use meshelf.Core.Model.{ActivationId}
use meshelf.Core.Activation.{is_uncertain_side_effect, ActivationJournalEntry}
use meshelf.Store.Journal.Laws.{IsJournalRow}
use meshelf.Store.Purge.Oldest.{listed}
use meshelf.Store.Journal.{
  JournalRows, done, not_found, refused, Trees, is_recorded, Sweep, sweep_one, sweep,
}

abbrev pub removes : Trees → ActivationJournalEntry → Bool
removes trees e =
    not (is_uncertain_side_effect e.state)
    && elim (trees e) [ done ↦ true | not_found ↦ true | refused ↦ false ]

abbrev pub records : ActivationJournalEntry → Bool
records e = is_uncertain_side_effect e.state && not (is_recorded e.state)

pub listed-removed :
    (trees : Trees) (id : ActivationId) (entries : List ActivationJournalEntry)
    → listed id (sweep trees entries).removed
      ≡ any (λ e. nat_key.eqb e.activation_id id && removes trees e) entries
unfolding sweep sweep_one
listed-removed trees id [] = refl
listed-removed trees id (e ∷ entries) = ground (arith, listed-removed trees id entries)

pub listed-recorded :
    (trees : Trees) (id : ActivationId) (entries : List ActivationJournalEntry)
    → listed id (sweep trees entries).record_uncertain
      ≡ any (λ e. nat_key.eqb e.activation_id id && records e) entries
unfolding sweep sweep_one
listed-recorded trees id [] = refl
listed-recorded trees id (e ∷ entries) = ground (arith, listed-recorded trees id entries)

recorded_after :
    (trees : Trees) (e : ActivationJournalEntry) (rest : Sweep)
    → (sweep_one (trees e) e rest).record_uncertain
      ≡ (if records e then e.activation_id ∷ rest.record_uncertain else rest.record_uncertain)
unfolding sweep_one
recorded_after trees e rest = ground arith

pub sweep-recorded :
    (trees : Trees) (P : ActivationId → Type 0) (entries : List ActivationJournalEntry)
    → All (λ e. records e ≡ true → P e.activation_id) entries
    → All P (sweep trees entries).record_uncertain
unfolding sweep
sweep-recorded trees P [] h = tt
sweep-recorded trees P (e ∷ entries) h =
    let rest = sweep-recorded trees P entries h.1 in
    rw (recorded_after trees e (sweep trees entries))
      (elim (Bool-cases (records e)) [ inl p ↦ rw p (h.0 p, rest) | inr p ↦ rw p rest ])

abbrev pub found_test : (ActivationJournalEntry → Bool) → Option ActivationJournalEntry → Bool
found_test test none = false
found_test test (some e) = test e

module _ (id : ActivationId) (test : ActivationJournalEntry → Bool) where
  any-absent :
      (rows : JournalRows)
      → All IsJournalRow rows
      → All (λ e. e.0 ≢ id) rows
      → any (λ e. nat_key.eqb e.activation_id id && test e) (map (λ e. e.1) rows) ≡ false
  any-absent [] fit apart = refl
  any-absent (e ∷ rows) fit apart = ground (
    arith,
    any-absent rows fit.1 apart.1,
    fit.0.keyed,
    apart.0,
    nat_key.eqb_iff e.1.activation_id id,
  )

  -- the entry of an activation decides what is listed for it
  pub any-lookup :
      (rows : JournalRows)
      → All IsJournalRow rows
      → Distinct rows
      → any (λ e. nat_key.eqb e.activation_id id && test e) (map (λ e. e.1) rows)
        ≡ found_test test (lookup id rows)
  unfolding lookup
  any-lookup [] fit apart = refl
  any-lookup (e ∷ rows) fit apart = elim (Bool-cases (nat_key.eqb e.0 id)) [
    | inl p ↦
        let same : e.0 ≡ id = (nat_key.eqb_iff e.0 id).0 p in
        let gone = any-absent rows fit.1 (subst (λ i. All (λ f. f.0 ≢ i) rows) same apart.0) in
        ground (arith, gone, fit.0.keyed)
    | inr p ↦ ground (arith, any-lookup rows fit.1 apart.1, fit.0.keyed)
  ]
