-- ===== src/Store/Journal.antt =====
-- The activation journal: `journal_activation` to `has_uncertain_side_effect` of
-- crates/meshelf-store/src/v2.rs. What the file system answers is a parameter, one answer for each
-- removal of a staging tree.
pub mod Laws
pub mod Cleanup
pub mod Replay
pub mod Calm
pub mod Listing
pub mod Fate
mod Tests
use meshelf.Base.{
  is_empty, ℕ, Bool, true, false, not, ◌&&◌, ◌||◌, List, [], ◌∷◌, ◌++◌, map, Option, none, some,
  Result, ok, err, ◌>>=◌, ◌>>◌, reject, map_err, ltb, if◌then◌else◌, any, length,
}
use meshelf.Base.Map.{Map, nat_key, lookup, erase, insert}
use meshelf.Base.Text.{Text, lit}
use meshelf.Core.Model.{ActivationId, u32_max}
use meshelf.Core.Offer.{HostPath}
use meshelf.Core.Activation.{
  ActivationState, uncertain_no_replay, is_uncertain_side_effect, ActivationMode, clipboard, save,
  ActivationJournalEntry, validate_entry, in_flight,
}
use meshelf.Core.Records.{
  StoreError, external, activation_invalid, journal_missing, too_many_journal_entries,
  too_many_cleaned, staging_root_has_no_parent, cleanup_failed, CleanupReport,
}
use meshelf.Store.Database.{
  decoded, Faults, called, called_each, RedbV2Store, Outcome, and_then, begin_write, begin_read,
  open_table, get, iter, decode, encode, remove, commit,
}
use meshelf.Store.Database
use meshelf.Platform.Filesystem.{TreeError, Directories, ensure_directory_tree}
use meshelf.Store.Purge.{remove_all}
use meshelf.Store.Cache.{get_clipboard_cache}

abbrev pub JournalRows : Type 0
JournalRows = Map ActivationId ActivationJournalEntry

abbrev pub write_journal :
    {A : Type 0} → RedbV2Store → Result StoreError (A × JournalRows) → Outcome A
write_journal store (ok (a, rows)) = (ok a, record store { activation_journal = rows })
write_journal store (err e) = (err e, store)

unfoldable pub journal_rows :
    Faults → ActivationJournalEntry → JournalRows → Result StoreError (Unit {0} × JournalRows)
journal_rows db entry rows = do
  map_err activation_invalid (validate_entry entry)
  called db encode
  called db begin_write
  called db open_table
  called db Database.insert
  called db commit
  ok (tt, insert entry.activation_id entry rows)

unfoldable pub journal_activation :
    Faults → ActivationJournalEntry → RedbV2Store → Outcome (Unit {0})
journal_activation db entry store =
    write_journal store (journal_rows db entry store.activation_journal)

unfoldable pub get_activation_journal :
    Faults → ActivationId → RedbV2Store → Result StoreError (Option ActivationJournalEntry)
get_activation_journal db activation_id store = do
  called db begin_read
  called db open_table
  called db get
  decoded db (lookup activation_id store.activation_journal)

abbrev pub ancestry_outcome :
    Directories
    → Result TreeError (Unit {0}) × List HostPath
    → Result StoreError (Unit {0}) × List HostPath
ancestry_outcome fs (ok _, made) = (ok tt, made)
ancestry_outcome fs (err e, made) =
    (err (external (lit "staging ancestry failed: " ++ fs.describe e)), made)

-- with the directories made so far, before and after
unfoldable pub staging_ancestry :
    Directories
    → ActivationJournalEntry
    → List HostPath
    → Result StoreError (Unit {0}) × List HostPath
staging_ancestry fs entry made = elim (fs.parent entry.staging_root) [
  | none ↦ (err staging_root_has_no_parent, made)
  | some parent ↦ ancestry_outcome fs (ensure_directory_tree fs parent made)
]

-- what `prepare_staging` returns: the result, the store, and the directories made so far
abbrev pub Staged : Type 0
Staged = Result StoreError (Unit {0}) × (RedbV2Store × List HostPath)

unfoldable pub make_staging : Directories → HostPath → RedbV2Store → List HostPath → Staged
make_staging fs root store made = elim (fs.create_dir root) [
  | none ↦ (ok tt, (store, root ∷ made))
  | some error ↦ (err (external (lit "staging creation failed: " ++ error)), (store, made))
]

-- only a journaled activation gets its directory
unfoldable pub after_journal : Directories → HostPath → List HostPath → Outcome (Unit {0}) → Staged
after_journal fs root made (ok _, journaled) = make_staging fs root journaled made
after_journal fs root made (err e, unchanged) = (err e, (unchanged, made))

unfoldable pub after_ancestry :
    Directories
    → Faults
    → ActivationJournalEntry
    → RedbV2Store
    → Result StoreError (Unit {0}) × List HostPath
    → Staged
after_ancestry fs db entry store (err e, made) = (err e, (store, made))
after_ancestry fs db entry store (ok _, made) =
    after_journal fs entry.staging_root made (journal_activation db entry store)

unfoldable pub prepare_staging :
    Directories → Faults → ActivationJournalEntry → RedbV2Store → List HostPath → Staged
prepare_staging fs db entry store made =
    after_ancestry fs db entry store (staging_ancestry fs entry made)

unfoldable pub update_rows :
    Faults
    → ActivationId
    → ActivationState
    → JournalRows
    → Result StoreError (Unit {0} × JournalRows)
update_rows db activation_id state rows = do
  called db begin_write
  called db open_table
  called db get
  elim (lookup activation_id rows) [
    | none ↦ err journal_missing
    | some entry ↦ do
      called db decode
      called db encode
      called db Database.insert
      called db commit
      ok (tt, insert activation_id (record entry { state = state }) rows)
  ]

unfoldable pub update_activation_state :
    Faults → ActivationId → ActivationState → RedbV2Store → Outcome (Unit {0})
update_activation_state db activation_id state store =
    write_journal store (update_rows db activation_id state store.activation_journal)

unfoldable pub remove_rows :
    Faults → ActivationId → JournalRows → Result StoreError (Unit {0} × JournalRows)
remove_rows db activation_id rows = do
  called db begin_write
  called db open_table
  called db remove
  called db commit
  ok (tt, erase activation_id rows)

unfoldable pub remove_activation_journal : Faults → ActivationId → RedbV2Store → Outcome (Unit {0})
remove_activation_journal db activation_id store =
    write_journal store (remove_rows db activation_id store.activation_journal)

unfoldable pub activation_journal_entries :
    Faults → RedbV2Store → Result StoreError (List ActivationJournalEntry)
activation_journal_entries db store = do
  called db begin_read
  called db open_table
  called db iter
  called_each db decode store.activation_journal
  ok (map (λ e. e.1) store.activation_journal)

-- how `remove_owned_tree` ends
pub data Removal : Type 0 where
  done not_found refused : Removal

abbrev pub Trees : Type 0
Trees = ActivationJournalEntry → Removal

abbrev pub is_recorded : ActivationState → Bool
is_recorded uncertain_no_replay = true
is_recorded _ = false

pub record Sweep : Type 0 where
  pub removed : List ActivationId
  pub failures : List ActivationId
  pub record_uncertain : List ActivationId

-- One turn of the loop over the entries, before what the later turns add. The tree of an uncertain
-- entry is removed too, and how that ends is ignored.
unfoldable pub sweep_one : Removal → ActivationJournalEntry → Sweep → Sweep
sweep_one removal entry rest =
    if is_uncertain_side_effect entry.state
    then if is_recorded entry.state
      then rest
      else record rest { record_uncertain = entry.activation_id ∷ rest.record_uncertain }
    else elim removal [
      | done ↦ record rest { removed = entry.activation_id ∷ rest.removed }
      | not_found ↦ record rest { removed = entry.activation_id ∷ rest.removed }
      | refused ↦ record rest { failures = entry.activation_id ∷ rest.failures }
    ]

unfoldable pub sweep : Trees → List ActivationJournalEntry → Sweep
sweep trees [] = record { removed = []; failures = []; record_uncertain = [] }
sweep trees (entry ∷ entries) = sweep_one (trees entry) entry (sweep trees entries)

-- the calls on the database: the transactions of one cleanup can fail apart
pub record CleanupFaults : Type 0 where
  pub reading : Faults
  pub removing : Faults
  pub updating : ActivationId → Faults

unfoldable pub removal_rows :
    Faults → List ActivationId → JournalRows → Result StoreError (Unit {0} × JournalRows)
removal_rows db ids rows = do
  called db begin_write
  called db open_table
  called_each db remove ids
  called db commit
  ok (tt, remove_all ids rows)

unfoldable pub remove_swept : Faults → List ActivationId → RedbV2Store → Outcome (Unit {0})
remove_swept db [] store = (ok tt, store)
remove_swept db (id ∷ ids) store =
    write_journal store (removal_rows db (id ∷ ids) store.activation_journal)

unfoldable pub record_all :
    (ActivationId → Faults) → List ActivationId → RedbV2Store → Outcome (Unit {0})
record_all dbs [] store = (ok tt, store)
record_all dbs (id ∷ ids) store =
    and_then (update_activation_state (dbs id) id uncertain_no_replay store)
      (λ _ updated. record_all dbs ids updated)

unfoldable pub cleanup_report :
    List ActivationJournalEntry → Sweep → Result StoreError CleanupReport
cleanup_report entries swept = do
  reject (not (is_empty swept.failures)) (cleanup_failed swept.failures)
  reject (ltb u32_max (length swept.removed)) too_many_cleaned
  ok (record { journaled_entries = length entries; removed_entries = length swept.removed })

unfoldable pub counted_entries :
    Faults → RedbV2Store → Result StoreError (List ActivationJournalEntry)
counted_entries db store = do
  entries ← activation_journal_entries db store
  reject (ltb u32_max (length entries)) too_many_journal_entries
  ok entries

unfoldable pub startup_cleanup : Trees → CleanupFaults → RedbV2Store → Outcome CleanupReport
startup_cleanup trees db store =
    and_then (counted_entries db.reading store, store)
      (λ entries read.
        let swept = sweep trees entries in
        and_then (remove_swept db.removing swept.removed read) (λ _ removed.
          and_then (record_all db.updating swept.record_uncertain removed)
            (λ _ recorded. (cleanup_report entries swept, recorded))))

abbrev pub is_clipboard : ActivationMode → Bool
is_clipboard clipboard = true
is_clipboard save = false

abbrev pub is_side_effect : ActivationJournalEntry → Bool
is_side_effect entry = is_clipboard entry.mode && is_uncertain_side_effect entry.state

abbrev pub is_some : {A : Type 0} → Option A → Bool
is_some none = false
is_some (some _) = true

-- `||` reads the cache only when no entry decides
unfoldable pub has_uncertain_side_effect : Faults → Faults → RedbV2Store → Result StoreError Bool
has_uncertain_side_effect journal_db cache_db store = do
  entries ← activation_journal_entries journal_db store
  if any is_side_effect entries
      then ok true
      else (do cached ← get_clipboard_cache cache_db in_flight store; ok (is_some cached))
