-- ===== src/Store/Journal/Calm.antt =====
-- The steps of `startup_cleanup` (crates/meshelf-store/src/v2.rs) where the database reports no fault.
use meshelf.Base.{
  ◌≤◌, ◌≡◌, refl, ◌∙◌, ◌≢◌, inl, inr, arith, All, All-map, List, [], ◌∷◌, map, Option, none, some,
  ok, Option-cases, if◌then◌else◌, length,
}
use meshelf.Base.Map.{nat_key, lookup, insert}
use meshelf.Base.Map.Laws.{lookup-insert}
use meshelf.Core.Model.{ActivationId, u32_max}
use meshelf.Core.Activation.{uncertain_no_replay, ActivationJournalEntry}
use meshelf.Store.Database.{Faults, no_faults, called_each_calm, remove, decode, RedbV2Store}
use meshelf.Store.Purge.{remove_all}
use meshelf.Store.Purge.Oldest.{listed}
use meshelf.Store.Journal.{
  update_rows, update_activation_state, CleanupFaults, removal_rows, remove_swept, record_all,
  counted_entries, activation_journal_entries,
}

abbrev pub marked : Option ActivationJournalEntry → Option ActivationJournalEntry
marked none = none
marked (some entry) = some (record entry { state = uncertain_no_replay })

abbrev pub calm_cleanup : CleanupFaults
calm_cleanup = record { reading = no_faults; removing = no_faults; updating = λ id. no_faults }

abbrev pub calm_updates : ActivationId → Faults
calm_updates id = no_faults

update_calm :
    (id : ActivationId) (store : RedbV2Store) (entry : ActivationJournalEntry)
    → lookup id store.activation_journal ≡ some entry
    → update_activation_state no_faults id uncertain_no_replay store ≡ (
      ok tt,
      record store {
        activation_journal =
            insert id (record entry { state = uncertain_no_replay }) store.activation_journal;
      },
    )
unfolding update_activation_state update_rows
update_calm id store entry found = rw found refl

marked-marked : (e : Option ActivationJournalEntry) → marked (marked e) ≡ marked e
marked-marked none = refl
marked-marked (some entry) = refl

pub record_all_calm :
    (ids : List ActivationId) (store : RedbV2Store)
    → All (λ i. lookup i store.activation_journal ≢ none) ids
    → ((record_all calm_updates ids store).0 ≡ ok tt)
      × ((j : ActivationId)
          → lookup j (record_all calm_updates ids store).1.activation_journal ≡ (
              if listed j ids
              then marked (lookup j store.activation_journal)
              else lookup j store.activation_journal))
unfolding record_all
record_all_calm [] store h = (refl, λ j. refl)
record_all_calm (id ∷ ids) store h = elim (Option-cases (lookup id store.activation_journal)) [
  | inl missing ↦ absurd (h.0 missing)
  | inr (entry, found) ↦
      let rows = store.activation_journal in
      let row : ActivationJournalEntry = record entry { state = uncertain_no_replay } in
      let next : RedbV2Store = record store { activation_journal = insert id row rows } in
      let there : All (λ i. lookup i next.activation_journal ≢ none) ids =
        All-map {Q = λ i. lookup i (insert id row rows) ≢ none}
          (λ i (p : lookup i rows ≢ none) (q : lookup i (insert id row rows) ≡ none).
            absurd (p (ground (arith, lookup-insert id i row rows))))
          ids h.1 in
      let (finished, read) = record_all_calm ids next there in
      rw (update_calm id store entry found) (
        finished,
        λ j. read j ∙ ground (arith, lookup-insert id j row rows, nat_key.eqb_iff id j, found),
      )
]

pub remove_swept_calm :
    (ids : List ActivationId) (store : RedbV2Store)
    → remove_swept no_faults ids store
      ≡ (ok tt, record store { activation_journal = remove_all ids store.activation_journal })
unfolding remove_swept removal_rows remove_all
remove_swept_calm [] store = refl
remove_swept_calm (id ∷ ids) store = rw (called_each_calm remove (id ∷ ids)) refl

pub calm_count :
    (store : RedbV2Store)
    → length (map (λ e. e.1) store.activation_journal) ≤ u32_max
    → counted_entries no_faults store ≡ ok (map (λ e. e.1) store.activation_journal)
unfolding counted_entries activation_journal_entries
calm_count store few = rw (called_each_calm decode store.activation_journal) (ground arith)
