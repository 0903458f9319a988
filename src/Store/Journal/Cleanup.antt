-- ===== src/Store/Journal/Cleanup.antt =====
-- `startup_cleanup` of crates/meshelf-store/src/v2.rs: what it keeps, whatever the database and the
-- file system report.
use meshelf.Base.{
  ◌≡◌, refl, ap, ◌∙◌, subst, inl, inr, true, false, arith, All, All-map2, List, [], ◌∷◌, map, some,
  ok, Bool-cases, Result-cases,
}
use meshelf.Base.Map.{nat_key, lookup}
use meshelf.Base.Map.Laws.{lookup-insert, Distinct-lookup}
use meshelf.Core.Model.{ActivationId}
use meshelf.Core.Activation.{
  uncertain_no_replay, is_uncertain_side_effect, ActivationMode, ActivationJournalEntry,
}
use meshelf.Store.Database.{Faults, RedbV2Store}
use meshelf.Store.Purge.{remove_all}
use meshelf.Store.Purge.Oldest.{listed, lookup-remove_all}
use meshelf.Store.Journal.{
  JournalRows, update_rows, update_activation_state, activation_journal_entries, Trees, sweep_one,
  sweep, CleanupFaults, removal_rows, remove_swept, record_all, counted_entries, startup_cleanup,
}
use meshelf.Store.Journal.Laws.{
  IsJournalRow, IsJournal, update_rows-eq-ok, update_activation_state-IsJournal,
}
use meshelf.Store.Purge.Bounds.{remove_all-All, remove_all-Pairs}

-- the store holds an uncertain entry of this activation, with this mode
record Guarded (id : ActivationId) (mode : ActivationMode) (store : RedbV2Store) : Type 0 where
  entry : ActivationJournalEntry
  found : lookup id store.activation_journal ≡ some entry
  uncertain : is_uncertain_side_effect entry.state ≡ true
  same_mode : entry.mode ≡ mode

module _ (id : ActivationId) (mode : ActivationMode) where
  update-Guarded :
      (db : Faults) (j : ActivationId) (store : RedbV2Store)
      → Guarded id mode store
      → Guarded id mode (update_activation_state db j uncertain_no_replay store).1
  unfolding update_activation_state
  update-Guarded db j store h =
      let rows = store.activation_journal in
      elim (Result-cases (update_rows db j uncertain_no_replay rows)) [
        | inr (x, e) ↦ rw e h
        | inl ((u, rows'), e) ↦
            let (entry, found, same) = update_rows-eq-ok db j uncertain_no_replay rows rows' e in
            let row = record entry { state = uncertain_no_replay } in
            rw (e, same)
              (elim (Bool-cases (nat_key.eqb j id)) [
                | inl p ↦
                    let here : entry ≡ h.entry = ground (arith, nat_key.eqb_iff j id, h.found) in
                    (record {
                      entry = row;
                      found = ground (arith, lookup-insert j id row rows);
                      uncertain = refl;
                      same_mode = ap (λ e. e.mode) here ∙ h.same_mode;
                    })
                | inr p ↦ (record {
                  entry = h.entry;
                  found = ground (arith, lookup-insert j id row rows, h.found);
                  uncertain = h.uncertain;
                  same_mode = h.same_mode;
                })
              ])
      ]

  remove_swept-Guarded :
      (db : Faults) (ids : List ActivationId) (store : RedbV2Store)
      → listed id ids ≡ false
      → Guarded id mode store
      → Guarded id mode (remove_swept db ids store).1
  unfolding remove_swept removal_rows
  remove_swept-Guarded db [] store out h = h
  remove_swept-Guarded db (j ∷ ids) store out h =
      let rows = store.activation_journal in
      elim (Result-cases (removal_rows db (j ∷ ids) rows)) [
        | inr (x, e) ↦ rw e h
        | inl ((u, rows'), e) ↦
            let same : rows' ≡ remove_all (j ∷ ids) rows = ground arith in
            rw (e, same)
              (record {
                entry = h.entry;
                found = ground (arith, lookup-remove_all id (j ∷ ids) rows, h.found);
                uncertain = h.uncertain;
                same_mode = h.same_mode;
              })
      ]

-- an entry that is uncertain is never swept away
sweep-keeps :
    (trees : Trees) (id : ActivationId) (entries : List ActivationJournalEntry)
    → All (λ e. e.activation_id ≡ id → is_uncertain_side_effect e.state ≡ true) entries
    → listed id (sweep trees entries).removed ≡ false
unfolding sweep sweep_one
sweep-keeps trees id [] h = refl
sweep-keeps trees id (e ∷ entries) h =
    ground (arith, sweep-keeps trees id entries h.1, h.0, nat_key.eqb_iff e.activation_id id)

pub All-values :
    (P : ActivationJournalEntry → Type 0) (rows : JournalRows)
    → All (λ e. P e.1) rows
    → All P (map (λ e. e.1) rows)
All-values P [] h = tt
All-values P (e ∷ rows) h = (h.0, All-values P rows h.1)

counted_entries-eq-ok :
    (db : Faults) (store : RedbV2Store) (entries : List ActivationJournalEntry)
    → counted_entries db store ≡ ok entries
    → entries ≡ map (λ e. e.1) store.activation_journal
unfolding counted_entries activation_journal_entries
counted_entries-eq-ok db store entries e = ground arith

-- what every step of a cleanup preserves, the cleanup preserves
module _ (P : RedbV2Store → Type 0)
    (updates : (db : Faults) (j : ActivationId) (store : RedbV2Store)
      → P store
      → P (update_activation_state db j uncertain_no_replay store).1) where
  record_all-keeps :
      (dbs : ActivationId → Faults) (ids : List ActivationId) (store : RedbV2Store)
      → P store
      → P (record_all dbs ids store).1
  unfolding record_all
  record_all-keeps dbs [] store h = h
  record_all-keeps dbs (j ∷ ids) store h =
      let next = updates (dbs j) j store h in
      elim (Result-cases (update_activation_state (dbs j) j uncertain_no_replay store).0) [
        | inl (u, e) ↦ rw e (record_all-keeps dbs ids _ next)
        | inr (x, e) ↦ rw e next
      ]

  pub startup_cleanup-keeps :
      (trees : Trees) (db : CleanupFaults) (store : RedbV2Store)
      → P store
      → P
          (remove_swept db.removing
            (sweep trees (map (λ e. e.1) store.activation_journal)).removed
            store).1
      → P (startup_cleanup trees db store).1
  unfolding startup_cleanup
  startup_cleanup-keeps trees db store h removed =
      let entries = map (λ e. e.1) store.activation_journal in
      let swept = sweep trees entries in
      elim (Result-cases (counted_entries db.reading store)) [
        | inr (x, e) ↦ rw e h
        | inl (read, e) ↦
            let same = counted_entries-eq-ok db.reading store read e in
            let recorded = record_all-keeps db.updating swept.record_uncertain _ removed in
            rw (e, same)
              (elim (Result-cases (remove_swept db.removing swept.removed store).0) [
                | inr (x, p) ↦ rw p removed
                | inl (u, p) ↦
                    elim (Result-cases
                      (record_all db.updating swept.record_uncertain
                        (remove_swept db.removing swept.removed store).1).0) [
                          | inr (x, q) ↦ rw (p, q) recorded
                          | inl (v, q) ↦ rw (p, q) recorded
                        ]
              ])
      ]

cleanup-Guarded :
    (trees : Trees) (db : CleanupFaults) (store : RedbV2Store) (id : ActivationId)
    (mode : ActivationMode)
    → IsJournal store.activation_journal
    → Guarded id mode store
    → Guarded id mode (startup_cleanup trees db store).1
cleanup-Guarded trees db store id mode h g =
    let rows = store.activation_journal in
    let Kept = λ (e : ActivationJournalEntry).
      e.activation_id ≡ id → is_uncertain_side_effect e.state ≡ true in
    let kept : All (λ e. Kept e.1) rows =
      All-map2 {R = λ e. Kept e.1}
        (λ e (fit : IsJournalRow e) (read : lookup e.0 rows ≡ some e.1)
            (p : e.1.activation_id ≡ id).
          let here : lookup id rows ≡ some e.1 =
            subst (λ i. lookup i rows ≡ some e.1) (fit.keyed ∙ p) read in
          let same : e.1 ≡ g.entry = ground (arith, g.found) in
          ap (λ e. is_uncertain_side_effect e.state) same ∙ g.uncertain)
        rows h.fits (Distinct-lookup rows h.distinct) in
    startup_cleanup-keeps (Guarded id mode) (update-Guarded id mode) trees db store g (
      remove_swept-Guarded id mode db.removing _ store
        (sweep-keeps trees id (map (λ e. e.1) rows) (All-values Kept rows kept)) g)

-- Whatever the database and the file system report, startup_cleanup on a valid journal leaves for
-- each uncertain entry an uncertain entry of the same activation and mode.
pub startup_cleanup-keeps-uncertain :
    (trees : Trees) (db : CleanupFaults) (store : RedbV2Store) (id : ActivationId)
    (entry : ActivationJournalEntry)
    → IsJournal store.activation_journal
    → lookup id store.activation_journal ≡ some entry
    → is_uncertain_side_effect entry.state ≡ true
    → (entry' : ActivationJournalEntry) × (lookup id
          (startup_cleanup trees db store).1.activation_journal
        ≡ some entry')
      × (is_uncertain_side_effect entry'.state ≡ true)
      × (entry'.mode ≡ entry.mode)
startup_cleanup-keeps-uncertain trees db store id entry h found uncertain =
    let g : Guarded id entry.mode (startup_cleanup trees db store).1 =
      cleanup-Guarded trees db store id entry.mode h
        (record { entry = entry; found = found; uncertain = uncertain; same_mode = refl }) in
    (g.entry, g.found, g.uncertain, g.same_mode)

pub remove_swept-IsJournal :
    (db : Faults) (ids : List ActivationId) (store : RedbV2Store)
    → IsJournal store.activation_journal
    → IsJournal (remove_swept db ids store).1.activation_journal
unfolding remove_swept removal_rows
remove_swept-IsJournal db [] store h = h
remove_swept-IsJournal db (j ∷ ids) store h =
    let rows = store.activation_journal in
    elim (Result-cases (removal_rows db (j ∷ ids) rows)) [
      | inr (x, e) ↦ rw e h
      | inl ((u, rows'), e) ↦
          let same : rows' ≡ remove_all (j ∷ ids) rows = ground arith in
          rw (e, same)
            (record {
              distinct = remove_all-Pairs _ (j ∷ ids) rows h.distinct;
              fits = remove_all-All IsJournalRow (j ∷ ids) rows h.fits;
            })
    ]

-- Whatever the database and the file system report, startup_cleanup keeps the journal valid: one
-- row an activation, under its identifier, with an absolute staging root.
pub startup_cleanup-IsJournal :
    (trees : Trees) (db : CleanupFaults) (store : RedbV2Store)
    → IsJournal store.activation_journal
    → IsJournal (startup_cleanup trees db store).1.activation_journal
startup_cleanup-IsJournal trees db store h =
    startup_cleanup-keeps (λ s. IsJournal s.activation_journal)
      (λ db j s. update_activation_state-IsJournal db j uncertain_no_replay s) trees db store h
      (remove_swept-IsJournal db.removing _ store h)
