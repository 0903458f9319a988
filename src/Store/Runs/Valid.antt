-- ===== src/Store/Runs/Valid.antt =====
-- The invariant of the four tables of crates/meshelf-store/src/v2.rs along a run.
use meshelf.Base.{◌≡◌, refl, inl, inr, List, [], ◌∷◌, Result, ok, err, Option-cases, arith}
use meshelf.Core.Activation.{ActivationState, uncertain_no_replay, ActivationJournalEntry}
use meshelf.Core.Model.{ActivationId}
use meshelf.Core.Offer.{HostPath}
use meshelf.Core.Records.{StoreError}
use meshelf.Store.Database.{Faults, RedbV2Store, Outcome, empty_store}
use meshelf.Base.Map.{nat_key, erase}
use meshelf.Store.Rows.{IsShelf-empty}
use meshelf.Store.Sources.{
  SourceRows, insert_source_rows, remove_refusal_rows, write_sources, insert_offer_source,
  remove_explicit_refusal,
}
use meshelf.Store.Sources.Laws.{IsSources, insert_offer_source-IsSources}
use meshelf.Store.Sources.Refusal.{remove_explicit_refusal-IsSources}
use meshelf.Store.Cards.{
  CardRows, write_cards, insert_card_rows, attempt_rows, insert_offer_card, record_offer_attempt,
}
use meshelf.Store.Cards.Laws.{IsCards, insert_offer_card-IsCards}
use meshelf.Store.Cards.Attempt.{record_offer_attempt-IsCards}
use meshelf.Store.Cache.{
  CacheRows, set_rows, clear_rows, promote_rows, write_cache, set_clipboard_cache,
  clear_clipboard_cache, promote_clipboard_cache,
}
use meshelf.Store.Cache.Laws.{IsCache, writes-IsCache, written-IsCache, clear-IsCache}
use meshelf.Platform.Filesystem.{Directories}
use meshelf.Store.Journal.{
  JournalRows, write_journal, journal_rows, update_rows, remove_rows, removal_rows,
  journal_activation, prepare_staging, after_journal, after_ancestry, make_staging,
  staging_ancestry, update_activation_state, remove_activation_journal, remove_swept,
}
use meshelf.Store.Journal.Laws.{
  IsJournal, erase-IsJournal, journal_activation-IsJournal, update_activation_state-IsJournal,
}
use meshelf.Store.Journal.Cleanup.{startup_cleanup-keeps, remove_swept-IsJournal}
use meshelf.Store.Runs.{
  Operation, source_inserted, refusal_removed, card_inserted, attempt_made, staging_prepared,
  state_updated, activation_removed, cache_set, cache_cleared, cache_promoted, cleaned, run,
  run_all,
}

pub record IsStore (store : RedbV2Store) : Type 0 where
  pub sources : IsSources store.offer_sources
  pub cards : IsCards store.offer_cards
  pub journal : IsJournal store.activation_journal
  pub cache : IsCache store.clipboard_cache

-- a transaction over one table leaves the others
write_sources-IsStore :
    {A : Type 0} (store : RedbV2Store) (r : Result StoreError (A × SourceRows))
    → IsStore store
    → IsSources (write_sources store r).1.offer_sources
    → IsStore (write_sources store r).1
write_sources-IsStore store (ok (a, rows)) h new = record {
  sources = new;
  cards = h.cards;
  journal = h.journal;
  cache = h.cache;
}
write_sources-IsStore store (err e) h new = h

write_cards-IsStore :
    {A : Type 0} (store : RedbV2Store) (r : Result StoreError (A × CardRows))
    → IsStore store
    → IsCards (write_cards store r).1.offer_cards
    → IsStore (write_cards store r).1
write_cards-IsStore store (ok (a, rows)) h new = record {
  sources = h.sources;
  cards = new;
  journal = h.journal;
  cache = h.cache;
}
write_cards-IsStore store (err e) h new = h

write_journal-IsStore :
    {A : Type 0} (store : RedbV2Store) (r : Result StoreError (A × JournalRows))
    → IsStore store
    → IsJournal (write_journal store r).1.activation_journal
    → IsStore (write_journal store r).1
write_journal-IsStore store (ok (a, rows)) h new = record {
  sources = h.sources;
  cards = h.cards;
  journal = new;
  cache = h.cache;
}
write_journal-IsStore store (err e) h new = h

write_cache-IsStore :
    {A : Type 0} (store : RedbV2Store) (r : Result StoreError (A × CacheRows))
    → IsStore store
    → IsCache (write_cache store r).1.clipboard_cache
    → IsStore (write_cache store r).1
write_cache-IsStore store (ok (a, rows)) h new = record {
  sources = h.sources;
  cards = h.cards;
  journal = h.journal;
  cache = new;
}
write_cache-IsStore store (err e) h new = h

update-IsStore :
    (db : Faults) (id : ActivationId) (state : ActivationState) (store : RedbV2Store)
    → IsStore store
    → IsStore (update_activation_state db id state store).1
unfolding update_activation_state
update-IsStore db id state store h =
    write_journal-IsStore store (update_rows db id state store.activation_journal) h
      (update_activation_state-IsJournal db id state store h.journal)

written-IsJournal :
    {A : Type 0} (store : RedbV2Store) (r : Result StoreError (A × JournalRows))
    → IsJournal store.activation_journal
    → ((a : A) (rows : JournalRows) → r ≡ ok (a, rows) → IsJournal rows)
    → IsJournal (write_journal store r).1.activation_journal
written-IsJournal store (ok (a, rows)) h new = new a rows refl
written-IsJournal store (err e) h new = h

remove-IsStore :
    (db : Faults) (id : ActivationId) (store : RedbV2Store)
    → IsStore store
    → IsStore (remove_activation_journal db id store).1
unfolding remove_activation_journal remove_rows
remove-IsStore db id store h =
    write_journal-IsStore store (remove_rows db id store.activation_journal) h (
      written-IsJournal store (remove_rows db id store.activation_journal) h.journal (λ u rows e.
        let same : rows ≡ erase id store.activation_journal = ground arith in
        rw same (erase-IsJournal id store.activation_journal h.journal)))

remove_swept-IsStore :
    (db : Faults) (ids : List ActivationId) (store : RedbV2Store)
    → IsStore store
    → IsStore (remove_swept db ids store).1
unfolding remove_swept
remove_swept-IsStore db [] store h = h
remove_swept-IsStore db (id ∷ ids) store h =
    write_journal-IsStore store (removal_rows db (id ∷ ids) store.activation_journal) h
      (remove_swept-IsJournal db (id ∷ ids) store h.journal)

journal-IsStore :
    (db : Faults) (entry : ActivationJournalEntry) (store : RedbV2Store)
    → IsStore store
    → IsStore (journal_activation db entry store).1
unfolding journal_activation
journal-IsStore db entry store h =
    write_journal-IsStore store (journal_rows db entry store.activation_journal) h
      (journal_activation-IsJournal db entry store h.journal)

after_journal-IsStore :
    (fs : Directories) (root : HostPath) (made : List HostPath) (outcome : Outcome (Unit {0}))
    → IsStore outcome.1
    → IsStore ((after_journal fs root made outcome).1).0
unfolding after_journal make_staging
after_journal-IsStore fs root made (ok _, store) h = elim (Option-cases (fs.create_dir root)) [
  | inl e ↦ rw (e, make_staging) h
  | inr (x, e) ↦ rw (e, make_staging) h
]
after_journal-IsStore fs root made (err e, store) h = h

prepare-IsStore :
    (fs : Directories) (db : Faults) (entry : ActivationJournalEntry) (store : RedbV2Store)
    → IsStore store
    → IsStore ((prepare_staging fs db entry store []).1).0
unfolding prepare_staging after_ancestry
prepare-IsStore fs db entry store h = walked (staging_ancestry fs entry [])
  where
    walked :
        (outcome : Result StoreError (Unit {0}) × List HostPath)
        → IsStore ((after_ancestry fs db entry store outcome).1).0
    walked (err e, made) = h
    walked (ok _, made) =
        after_journal-IsStore fs entry.staging_root made (journal_activation db entry store)
          (journal-IsStore db entry store h)

run-IsStore :
    (db : Faults) (operation : Operation) (store : RedbV2Store)
    → IsStore store
    → IsStore (run db operation store)
unfolding run insert_offer_source remove_explicit_refusal insert_offer_card record_offer_attempt
    set_clipboard_cache clear_clipboard_cache promote_clipboard_cache remove_activation_journal
run-IsStore db (source_inserted input apart) store h =
    write_sources-IsStore store (insert_source_rows db input store.offer_sources) h
      (insert_offer_source-IsSources db input store apart h.sources)
run-IsStore db (refusal_removed id recipient) store h =
    write_sources-IsStore store (remove_refusal_rows db id recipient store.offer_sources) h
      (remove_explicit_refusal-IsSources db id recipient store h.sources)
run-IsStore db (card_inserted input) store h =
    write_cards-IsStore store (insert_card_rows db input store.offer_cards) h
      (insert_offer_card-IsCards db input store h.cards)
run-IsStore db (attempt_made source id status) store h =
    write_cards-IsStore store (attempt_rows db (source, id) status store.offer_cards) h
      (record_offer_attempt-IsCards db (source, id) status store h.cards)
run-IsStore db (staging_prepared fs entry) store h = prepare-IsStore fs db entry store h
run-IsStore db (state_updated id state) store h = update-IsStore db id state store h
run-IsStore db (activation_removed id) store h = remove-IsStore db id store h
run-IsStore db (cache_set row) store h =
    write_cache-IsStore store (set_rows db row store.clipboard_cache) h
      ((writes-IsCache db row row.state store h.cache).0)
run-IsStore db (cache_cleared state) store h =
    write_cache-IsStore store (clear_rows db state store.clipboard_cache) h (
      written-IsCache store (clear_rows db state store.clipboard_cache) h.cache
        (λ u rows e. clear-IsCache db state store.clipboard_cache {u = u} rows h.cache e))
run-IsStore db (cache_promoted row) store h =
    write_cache-IsStore store (promote_rows db row store.clipboard_cache) h
      ((writes-IsCache db row row.state store h.cache).2)
run-IsStore db (cleaned trees faults) store h =
    startup_cleanup-keeps IsStore (λ db j s. update-IsStore db j uncertain_no_replay s) trees faults
      store h (remove_swept-IsStore faults.removing _ store h)

-- the store of a new installation
empty-IsStore : IsStore empty_store
empty-IsStore = record {
  sources = IsShelf-empty _ _;
  cards = IsShelf-empty _ _;
  journal = record { distinct = tt; fits = tt };
  cache = record { distinct = tt; fits = tt };
}

run_all-IsStore :
    (operations : List (Faults × Operation)) (store : RedbV2Store)
    → IsStore store
    → IsStore (run_all operations store)
unfolding run_all
run_all-IsStore [] store h = h
run_all-IsStore ((db, operation) ∷ rest) store h =
    run_all-IsStore rest (run db operation store) (run-IsStore db operation store h)

-- Every sequence of the store's operations on a new store, whatever the database and the file
-- system report to each, keeps all four tables valid: at most ten offers and ten cards with
-- distinct keys and sequence numbers and valid contents, one journal row an activation, one cache
-- row a slot. The recipients of each inserted source are distinct.
pub every_run-IsStore :
    (operations : List (Faults × Operation)) → IsStore (run_all operations empty_store)
every_run-IsStore operations = run_all-IsStore operations empty_store empty-IsStore
