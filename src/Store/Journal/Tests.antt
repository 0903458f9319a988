-- ===== src/Store/Journal/Tests.antt =====
-- The journal at concrete inputs: a transfer, and a clipboard write that a restart interrupted.
use meshelf.Base.{
  All, List, ◌++◌, length, map, ◌≤◌, arith, [], ◌∷◌, ◌≡◌, refl, true, none, some, ok,
}
use meshelf.Base.Text.{lit}
use meshelf.Base.Map.{nat_key, lookup, erase, place, insert}
use meshelf.Core.Offer.{HostPath}
use meshelf.Core.Activation.{
  ActivationState, is_uncertain_side_effect, clipboard, save, ActivationJournalEntry,
}
use meshelf.Store.Database.{called_each, Faults, commit, no_faults, RedbV2Store, empty_store}
use meshelf.Store.Cache.{get_clipboard_cache}
use meshelf.Platform.Filesystem.{
  Directories, missing, directory, make_directory, ensure_directory, ensure_each,
  ensure_directory_tree,
}
use meshelf.Platform.Filesystem.Laws.{WasMissing}
use meshelf.Store.Journal.{
  after_ancestry, after_journal, make_staging, staging_ancestry, prepare_staging,
  journal_activation, journal_rows, get_activation_journal, done, Trees, CleanupFaults,
  activation_journal_entries, has_uncertain_side_effect, startup_cleanup,
}
use meshelf.Store.Journal.Laws.{IsJournal, above, Prepared, prepare_staging_write_ahead}
use meshelf.Store.Journal.Laws
use meshelf.Store.Journal.Calm.{calm_cleanup}
use meshelf.Store.Journal.Fate.{fate_of, startup_cleanup-fate}
use meshelf.Core.Model.{u32_max}
use meshelf.Store.Journal.Cleanup.{startup_cleanup-keeps-uncertain}
use meshelf.Store.Journal.Replay.{startup_cleanup-has_uncertain}

journal_runs : Unit {0}
unfolding lookup erase place insert called_each journal_rows journal_activation
    get_activation_journal activation_journal_entries get_clipboard_cache has_uncertain_side_effect
    make_directory ensure_directory ensure_each ensure_directory_tree staging_ancestry make_staging
    after_journal after_ancestry prepare_staging
journal_runs = tt

abbrev root : HostPath
root = record { spelling = lit "/staging/1"; is_absolute = true }

abbrev transfer : ActivationJournalEntry
transfer = record {
  activation_id = 1;
  source_device = 5;
  offer_id = 9;
  mode = save;
  staging_root = root;
  state = ActivationState.transferring;
  reserved_entries = 1;
  reserved_bytes = 12;
}

abbrev interrupted : ActivationJournalEntry
interrupted = record {
  activation_id = 2;
  source_device = 5;
  offer_id = 9;
  mode = clipboard;
  staging_root = root;
  state = ActivationState.applying_clipboard;
  reserved_entries = 1;
  reserved_bytes = 1;
}

abbrev journaled : RedbV2Store
journaled =
    (journal_activation no_faults interrupted
      (journal_activation no_faults transfer empty_store).1).1

empty-IsJournal : IsJournal empty_store.activation_journal
empty-IsJournal = record { distinct = tt; fits = tt }

journaled-IsJournal : IsJournal journaled.activation_journal
journaled-IsJournal =
    Laws.journal_activation-IsJournal no_faults interrupted
      (journal_activation no_faults transfer empty_store).1
      (Laws.journal_activation-IsJournal no_faults transfer empty_store empty-IsJournal)

abbrev no_commit : Faults
no_commit commit = some (lit "disk full")
no_commit _ = none

abbrev staging : HostPath
staging = record { spelling = lit "/staging"; is_absolute = true }

-- the directory above the staging root is missing
abbrev directories : Directories
directories = record {
  parent = λ p. some staging;
  prefixes = λ p. p ∷ [];
  inspect = λ p. missing;
  create_dir = λ p. none;
  inspect_created = λ p. ok directory;
  describe = λ e. lit "tree";
}

transfer_prepared :
    (prepare_staging directories no_faults transfer empty_store []).1.1 ≡ root ∷ staging ∷ []
unfolding journal_runs
transfer_prepared = refl

-- a write that fails leaves the directory above
transfer_refused :
    (prepare_staging directories no_commit transfer empty_store []).1 ≡ (empty_store, staging ∷ [])
unfolding journal_runs
transfer_refused = refl

transfer_staged :
    (new : List HostPath) × All (WasMissing directories (above directories transfer)) new
    × Prepared directories no_faults transfer empty_store
        (staging_ancestry directories transfer []).0
        (new ++ [])
        (prepare_staging directories no_faults transfer empty_store [])
transfer_staged = prepare_staging_write_ahead directories no_faults transfer empty_store []

abbrev trees : Trees
trees _ = done

abbrev calm : CleanupFaults
calm = record { reading = no_faults; removing = no_faults; updating = λ id. no_faults }

interrupted_found : lookup 2 journaled.activation_journal ≡ some interrupted
unfolding journal_runs
interrupted_found = refl

interrupted_kept :
    (entry' : ActivationJournalEntry) × (lookup 2
        (startup_cleanup trees calm journaled).1.activation_journal
      ≡ some entry')
    × (is_uncertain_side_effect entry'.state ≡ true)
    × (entry'.mode ≡ interrupted.mode)
interrupted_kept =
    startup_cleanup-keeps-uncertain trees calm journaled 2 interrupted journaled-IsJournal
      interrupted_found refl

uncertain_before : has_uncertain_side_effect no_faults no_faults journaled ≡ ok true
unfolding journal_runs
uncertain_before = refl

uncertain_after :
    has_uncertain_side_effect no_faults no_faults (startup_cleanup trees calm journaled).1 ≡ ok true
uncertain_after =
    startup_cleanup-has_uncertain trees calm journaled journaled-IsJournal uncertain_before

few_journaled : length (map (λ e. e.1) journaled.activation_journal) ≤ u32_max
unfolding journal_runs
few_journaled = omega arith

transfer_fate :
    get_activation_journal no_faults 1 (startup_cleanup trees calm_cleanup journaled).1
    ≡ ok (fate_of trees (lookup 1 journaled.activation_journal))
transfer_fate = startup_cleanup-fate trees journaled 1 journaled-IsJournal few_journaled
