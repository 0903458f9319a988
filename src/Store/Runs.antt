-- ===== src/Store/Runs.antt =====
-- Runs of the store of crates/meshelf-store/src/v2.rs: its operations in any order, each with what
-- the database and the file system report to it. A restart is a cleanup at the start.
pub mod Valid
mod Tests
use meshelf.Base.{
  ℕ, ◌≡◌, refl, inl, inr, List, [], ◌∷◌, Result, ok, err, Result-cases, Option-cases, Pairs, ◌≢◌,
  arith,
}
use meshelf.Core.Activation.{
  ActivationState, uncertain_no_replay, ActivationJournalEntry, ClipboardCacheState,
  ClipboardCacheRecord,
}
use meshelf.Core.Model.{ActivationId, DeviceId, OfferId}
use meshelf.Core.Offer.{HostPath}
use meshelf.Core.Records.{StoreError, OfferSourceInput, OfferCardInput, OfferAttemptStatus}
use meshelf.Store.Database.{Faults, RedbV2Store, Outcome, empty_store}
use meshelf.Base.Map.{nat_key, erase}
use meshelf.Store.Rows.{IsShelf-empty}
use meshelf.Store.Sources.{
  SourceRows, insert_source_rows, remove_refusal_rows, write_sources, insert_offer_source,
  remove_explicit_refusal,
}
use meshelf.Store.Sources.Laws.{IsSources, insert_offer_source-IsSources}
use meshelf.Store.Sources.Refusal.{remove_explicit_refusal-IsSources}
use meshelf.Store.Cards.{
  CardRows, write_cards, insert_card_rows, attempt_rows, insert_offer_card, record_offer_attempt,
}
use meshelf.Store.Cards.Laws.{IsCards, insert_offer_card-IsCards}
use meshelf.Store.Cards.Attempt.{record_offer_attempt-IsCards}
use meshelf.Store.Cache.{
  CacheRows, set_rows, clear_rows, promote_rows, write_cache, set_clipboard_cache,
  clear_clipboard_cache, promote_clipboard_cache,
}
use meshelf.Store.Cache.Laws.{IsCache, writes-IsCache, written-IsCache, clear-IsCache}
use meshelf.Platform.Filesystem.{Directories}
use meshelf.Store.Journal.{
  JournalRows, write_journal, journal_rows, update_rows, remove_rows, removal_rows, Trees,
  CleanupFaults, journal_activation, prepare_staging, after_journal, make_staging, staging_ancestry,
  update_activation_state, remove_activation_journal, remove_swept, startup_cleanup,
}
use meshelf.Store.Journal.Laws.{
  IsJournal, erase-IsJournal, journal_activation-IsJournal, update_activation_state-IsJournal,
}
use meshelf.Store.Journal.Cleanup.{startup_cleanup-keeps, remove_swept-IsJournal}

-- the operations that change the store
pub data Operation : Type 0 where
  -- the recipients are a set: each stands once
  source_inserted : (input : OfferSourceInput) → Pairs (λ a b. b ≢ a) input.announced_to → Operation
  refusal_removed : OfferId → DeviceId → Operation
  card_inserted : OfferCardInput → Operation
  attempt_made : DeviceId → OfferId → OfferAttemptStatus → Operation
  staging_prepared : Directories → ActivationJournalEntry → Operation
  state_updated : ActivationId → ActivationState → Operation
  activation_removed : ActivationId → Operation
  cache_set : ClipboardCacheRecord → Operation
  cache_cleared : ClipboardCacheState → Operation
  cache_promoted : ClipboardCacheRecord → Operation
  cleaned : Trees → CleanupFaults → Operation

-- the store after an operation; the cleanup has faults of its own
unfoldable pub run : Faults → Operation → RedbV2Store → RedbV2Store
run db (source_inserted input _) store = (insert_offer_source db input store).1
run db (refusal_removed id recipient) store = (remove_explicit_refusal db id recipient store).1
run db (card_inserted input) store = (insert_offer_card db input store).1
run db (attempt_made source id status) store = (record_offer_attempt db source id status store).1
run db (staging_prepared fs entry) store = ((prepare_staging fs db entry store []).1).0
run db (state_updated id state) store = (update_activation_state db id state store).1
run db (activation_removed id) store = (remove_activation_journal db id store).1
run db (cache_set row) store = (set_clipboard_cache db row store).1
run db (cache_cleared state) store = (clear_clipboard_cache db state store).1
run db (cache_promoted row) store = (promote_clipboard_cache db row store).1
run db (cleaned trees faults) store = (startup_cleanup trees faults store).1

unfoldable pub run_all : List (Faults × Operation) → RedbV2Store → RedbV2Store
run_all [] store = store
run_all ((db, operation) ∷ rest) store = run_all rest (run db operation store)
