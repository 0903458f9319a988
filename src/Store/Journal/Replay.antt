-- ===== src/Store/Journal/Replay.antt =====
-- `has_uncertain_side_effect` of crates/meshelf-store/src/v2.rs across a cleanup.
use meshelf.Base.{
  ◌≡◌, refl, ap, ◌∙◌, inl, inr, true, arith, All-In, In, List, [], ◌∷◌, map, any, some, Result, ok,
  err, Bool-cases,
}
use meshelf.Base.Map.{nat_key, lookup}
use meshelf.Base.Map.Laws.{lookup-In, Distinct-lookup}
use meshelf.Core.Model.{ActivationId}
use meshelf.Core.Activation.{
  uncertain_no_replay, is_uncertain_side_effect, ActivationJournalEntry, in_flight,
}
use meshelf.Core.Records.{StoreError}
use meshelf.Store.Database.{Faults, no_faults, called_each_calm, decode, RedbV2Store}
use meshelf.Store.Journal.{
  JournalRows, write_journal, update_rows, update_activation_state, activation_journal_entries,
  Trees, CleanupFaults, removal_rows, remove_swept, startup_cleanup, is_clipboard, is_side_effect,
  has_uncertain_side_effect,
}
use meshelf.Store.Journal.Laws.{IsJournal}
use meshelf.Store.Cache.{get_clipboard_cache}
use meshelf.Store.Journal.Cleanup.{startup_cleanup-keeps, startup_cleanup-keeps-uncertain}

get_clipboard_cache_same :
    (store store' : RedbV2Store)
    → store'.clipboard_cache ≡ store.clipboard_cache
    → get_clipboard_cache no_faults in_flight store' ≡ get_clipboard_cache no_faults in_flight store
unfolding get_clipboard_cache
get_clipboard_cache_same store store' h = rw h refl

write_journal-cache :
    {A : Type 0} (store : RedbV2Store) (r : Result StoreError (A × JournalRows))
    → (write_journal store r).1.clipboard_cache ≡ store.clipboard_cache
write_journal-cache store (ok (a, rows)) = refl
write_journal-cache store (err e) = refl

remove_swept-cache :
    (db : Faults) (ids : List ActivationId) (store : RedbV2Store)
    → (remove_swept db ids store).1.clipboard_cache ≡ store.clipboard_cache
unfolding remove_swept
remove_swept-cache db [] store = refl
remove_swept-cache db (j ∷ ids) store =
    write_journal-cache store (removal_rows db (j ∷ ids) store.activation_journal)

update-cache :
    (db : Faults) (j : ActivationId) (store : RedbV2Store)
    → (update_activation_state db j uncertain_no_replay store).1.clipboard_cache
      ≡ store.clipboard_cache
unfolding update_activation_state
update-cache db j store =
    write_journal-cache store (update_rows db j uncertain_no_replay store.activation_journal)

cleanup-cache :
    (trees : Trees) (db : CleanupFaults) (store : RedbV2Store)
    → (startup_cleanup trees db store).1.clipboard_cache ≡ store.clipboard_cache
cleanup-cache trees db store =
    startup_cleanup-keeps (λ s. s.clipboard_cache ≡ store.clipboard_cache)
      (λ db j s h. update-cache db j s ∙ h) trees db store refl
      (remove_swept-cache db.removing _ store)

any-values :
    (rows : JournalRows)
    → any is_side_effect (map (λ e. e.1) rows) ≡ true
    → (e : ActivationId × ActivationJournalEntry) × In e rows × (is_side_effect e.1 ≡ true)
any-values [] h = absurd (ground arith)
any-values (e ∷ rows) h = elim (Bool-cases (is_side_effect e.1)) [
  | inl p ↦ (e, inl refl, p)
  | inr p ↦ let (f, i, q) = any-values rows (ground arith) in (f, inr i, q)
]

In-values :
    (rows : JournalRows) (e : ActivationId × ActivationJournalEntry)
    → In e rows
    → is_side_effect e.1 ≡ true
    → any is_side_effect (map (λ e. e.1) rows) ≡ true
In-values [] e i h = absurd i
In-values (f ∷ rows) e (inl p) h =
    let here = ap (λ g. is_side_effect g.1) p in ground (arith, here, h)
In-values (f ∷ rows) e (inr i) h = ground (arith, In-values rows e i h)

entries_calm :
    (store : RedbV2Store)
    → activation_journal_entries no_faults store ≡ ok (map (λ e. e.1) store.activation_journal)
unfolding activation_journal_entries
entries_calm store = rw (called_each_calm decode store.activation_journal) refl

pub entry-has_uncertain :
    (store : RedbV2Store) (id : ActivationId) (entry : ActivationJournalEntry)
    → lookup id store.activation_journal ≡ some entry
    → is_side_effect entry ≡ true
    → has_uncertain_side_effect no_faults no_faults store ≡ ok true
unfolding has_uncertain_side_effect
entry-has_uncertain store id entry found effect =
    let any_entry =
      In-values store.activation_journal (id, entry)
        (lookup-In id entry store.activation_journal found) effect in
    rw (entries_calm store, any_entry) refl

-- A clipboard side effect that is uncertain before startup_cleanup is uncertain after it, whatever
-- the database and the file system report to the cleanup; the journal is valid, and the question is
-- asked without faults.
pub startup_cleanup-has_uncertain :
    (trees : Trees) (db : CleanupFaults) (store : RedbV2Store)
    → IsJournal store.activation_journal
    → has_uncertain_side_effect no_faults no_faults store ≡ ok true
    → has_uncertain_side_effect no_faults no_faults (startup_cleanup trees db store).1 ≡ ok true
unfolding has_uncertain_side_effect
startup_cleanup-has_uncertain trees db store h before =
    let after = (startup_cleanup trees db store).1 in
    let cache = get_clipboard_cache_same store after (cleanup-cache trees db store) in
    let rows = store.activation_journal in
    elim (Bool-cases (any is_side_effect (map (λ e. e.1) rows))) [
      | inl p ↦
          let (e, here, effect) = any-values rows p in
          let found =
            All-In (λ e. lookup e.0 rows ≡ some e.1) e rows (Distinct-lookup rows h.distinct)
              here in
          let uncertain : is_uncertain_side_effect e.1.state ≡ true = ground arith in
          let (entry, read, kept, mode) =
            startup_cleanup-keeps-uncertain trees db store e.0 e.1 h found uncertain in
          let still : is_side_effect entry ≡ true =
            ground (arith, effect, kept, ap is_clipboard mode) in
          let any_after =
            In-values after.activation_journal (e.0, entry)
              (lookup-In e.0 entry after.activation_journal read) still in
          rw (entries_calm after, any_after) refl
      | inr p ↦ ground (arith, cache, entries_calm store, entries_calm after)
    ]
