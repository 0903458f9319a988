-- ===== src/Store/Journal/Fate.antt =====
-- The fate of every entry of the journal in a cleanup without faults of the database
-- (`startup_cleanup`, crates/meshelf-store/src/v2.rs).
use meshelf.Base.{
  ◌≤◌, ◌≡◌, refl, sym, ap, ◌∙◌, subst, ◌≢◌, inl, inr, true, arith, All, All-map2, map, Option, none,
  some, ok, Bool-cases, if◌then◌else◌, length,
}
use meshelf.Base.Map.{nat_key, lookup}
use meshelf.Base.Map.Laws.{Distinct-lookup}
use meshelf.Core.Model.{ActivationId, u32_max}
use meshelf.Core.Activation.{
  ActivationState, uncertain_no_replay, is_uncertain_side_effect, ActivationJournalEntry,
}
use meshelf.Store.Database.{no_faults, RedbV2Store}
use meshelf.Store.Journal.Laws.{IsJournalRow, IsJournal, get_activation_journal_calm}
use meshelf.Store.Journal.Cleanup.{All-values}
use meshelf.Store.Purge.{remove_all}
use meshelf.Store.Purge.Oldest.{lookup-remove_all}
use meshelf.Store.Journal.{
  JournalRows, Removal, done, not_found, refused, Trees, is_recorded, Sweep, sweep, record_all,
  startup_cleanup, get_activation_journal,
}
use meshelf.Store.Journal.Calm.{
  marked, calm_updates, calm_cleanup, record_all_calm, remove_swept_calm, calm_count,
}
use meshelf.Store.Journal.Listing.{
  removes, records, listed-removed, listed-recorded, sweep-recorded, found_test, any-lookup,
}

-- what a cleanup makes of an entry, given how the removal of its tree ends
abbrev pub fate : Removal → ActivationJournalEntry → Option ActivationJournalEntry
fate removal entry =
    if is_uncertain_side_effect entry.state
    then some (record entry { state = uncertain_no_replay })
    else elim removal [ done ↦ none | not_found ↦ none | refused ↦ some entry ]

abbrev pub fate_of : Trees → Option ActivationJournalEntry → Option ActivationJournalEntry
fate_of trees none = none
fate_of trees (some entry) = fate (trees entry) entry

recorded-state : (state : ActivationState) → is_recorded state ≡ true → uncertain_no_replay ≡ state
recorded-state state h = ground arith

same_entry :
    (entry : ActivationJournalEntry)
    → is_recorded entry.state ≡ true
    → ◌≡◌ {A = ActivationJournalEntry} (record entry { state = uncertain_no_replay }) entry
same_entry entry h = ap (λ s. record entry { state = s }) (recorded-state entry.state h)

-- the two writes of a cleanup, one after the other
written :
    (trees : Trees) (entry : Option ActivationJournalEntry)
    → (if found_test records entry
        then marked (if found_test (removes trees) entry then none else entry)
        else if found_test (removes trees) entry
        then none
        else entry)
      ≡ fate_of trees entry
written trees none = refl
written trees (some entry) = elim (Bool-cases (is_recorded entry.state)) [
  | inl p ↦ let same = same_entry entry p in ground (arith, recorded-state entry.state p)
  | inr p ↦ ground arith
]

module _ (trees : Trees) (store : RedbV2Store) (h : IsJournal store.activation_journal)
    (few : length (map (λ e. e.1) store.activation_journal) ≤ u32_max) where
  abbrev rows : JournalRows
  rows = store.activation_journal

  abbrev swept : Sweep
  swept = sweep trees (map (λ e. e.1) rows)

  abbrev left : RedbV2Store
  left = record store { activation_journal = remove_all swept.removed rows }

  left-lookup :
      (id : ActivationId)
      → lookup id left.activation_journal
        ≡ (if found_test (removes trees) (lookup id rows) then none else lookup id rows)
  left-lookup id =
      let listing =
        listed-removed trees id (map (λ e. e.1) rows)
        ∙ any-lookup id (removes trees) rows h.fits h.distinct in
      rw (sym listing) (lookup-remove_all id swept.removed rows)

  abbrev IsLeft : ActivationId → Type 0
  IsLeft i = lookup i left.activation_journal ≢ none

  present : All IsLeft swept.record_uncertain
  present = sweep-recorded trees IsLeft (map (λ e. e.1) rows) (
      All-values (λ e. records e ≡ true → IsLeft e.activation_id) rows
        (All-map2 {R = λ e. records e.1 ≡ true → IsLeft e.1.activation_id}
          (λ e (fit : IsJournalRow e) (read : lookup e.0 rows ≡ some e.1) (r : records e.1 ≡ true)
              (gone : lookup e.1.activation_id left.activation_journal ≡ none).
            let here : lookup e.1.activation_id rows ≡ some e.1 =
              subst (λ i. lookup i rows ≡ some e.1) fit.keyed read in
            absurd (ground (arith, left-lookup e.1.activation_id)))
          rows h.fits (Distinct-lookup rows h.distinct)))

  cleaned :
      (startup_cleanup trees calm_cleanup store).1
      ≡ (record_all calm_updates swept.record_uncertain left).1
  unfolding startup_cleanup
  cleaned =
      let recorded = (record_all_calm swept.record_uncertain left present).0 in
      rw (calm_count store few, remove_swept_calm swept.removed store, recorded) refl

-- Where the database reports no fault, on a valid journal with at most 2^32 - 1 entries,
-- startup_cleanup makes of each activation exactly its fate: an uncertain entry is recorded as
-- uncertain_no_replay, an entry whose staging tree was removed or not found is gone, one whose
-- removal was refused stays, and an activation without an entry has none.
pub startup_cleanup-fate :
    (trees : Trees) (store : RedbV2Store) (id : ActivationId)
    → IsJournal store.activation_journal
    → length (map (λ e. e.1) store.activation_journal) ≤ u32_max
    → get_activation_journal no_faults id (startup_cleanup trees calm_cleanup store).1
      ≡ ok (fate_of trees (lookup id store.activation_journal))
startup_cleanup-fate trees store id h few =
    let rows = store.activation_journal in
    let entries = map (λ e. e.1) rows in
    let before = left trees store h few in
    let ids = (sweep trees entries).record_uncertain in
    let listing = listed-recorded trees id entries ∙ any-lookup id records rows h.fits h.distinct in
    let read = (record_all_calm ids before (present trees store h few)).1 id in
    let all : lookup id (record_all calm_updates ids before).1.activation_journal
        ≡ fate_of trees (lookup id rows) =
      read ∙ rw (listing, left-lookup trees store h few id) (written trees (lookup id rows)) in
    rw (cleaned trees store h few)
      (get_activation_journal_calm id (record_all calm_updates ids before).1 ∙ ap ok all)
