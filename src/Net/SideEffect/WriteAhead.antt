-- ===== src/Net/SideEffect/WriteAhead.antt =====
-- The journal and the clipboard in `apply_side_effect` (crates/meshelf-net/src/fetch_receiver.rs),
-- across a crash.
use meshelf.Base.{
  ◌≡◌, refl, ap, ◌∙◌, inl, inr, ◌⊎◌, Bool, true, false, Option, none, some, [], ◌∷◌, ok, arith, All,
  All-map, Result-cases,
}
use meshelf.Base.Actions.{◌>>◌, Ends, Ends-bind, Ends-state}
use meshelf.Base.Map.{nat_key, lookup}
use meshelf.Base.Map.Laws.{lookup-insert_self}
use meshelf.Base.Text.{Text}
use meshelf.Core.Activation.{
  ActivationMode, clipboard, save, applying_clipboard, ActivationJournalEntry,
}
use meshelf.Core.Model.{ActivationId}
use meshelf.Core.Offer.{HostPath, OfferDescriptor, is_text}
use meshelf.Store.Cache.{set_rows, set_clipboard_cache}
use meshelf.Store.Database.{no_faults, RedbV2Store}
use meshelf.Store.Journal.{
  update_rows, update_activation_state, Trees, CleanupFaults, startup_cleanup,
  has_uncertain_side_effect,
}
use meshelf.Store.Journal.Laws.{IsJournal, update_rows-eq-ok, update_activation_state-IsJournal}
use meshelf.Store.Journal.Replay.{entry-has_uncertain, startup_cleanup-has_uncertain}
use meshelf.Net.Errors.{Display}
use meshelf.Net.Plan.{FetchActivation}
use meshelf.Net.SideEffect.{
  set_text, set_files, World, Surroundings, Effect, on_store, native, mark_clipboard_application,
  apply_text, candidate, unset_candidate, apply_files, apply_shape, apply_side_effect,
}
use meshelf.Net.SideEffect.Marked.{
  IsMarked, AllMarked, Ahead, write_cache-journal, cache-Ahead, files_answered-Ahead,
  unset_candidate-Ahead, native-Ahead, text_answered-Ahead,
}

module _ (display : Display) (around : Surroundings) (activation : FetchActivation) where
  abbrev id : ActivationId
  id = activation.request_id

  -- what prepare_staging leaves before the clipboard is written
  pub record IsJournaled (world : World) : Type 0 where
    pub valid : IsJournal world.store.activation_journal
    pub entry : ActivationJournalEntry
    pub found : lookup id world.store.activation_journal ≡ some entry
    pub clip : entry.mode ≡ clipboard
    pub logged : AllMarked id world

  -- every native call so far found the mark, and the mark is still there if there was a new one
  abbrev pub IsAhead : World → World → Type 0
  IsAhead before after =
      AllMarked id after × (IsMarked id after.store ⊎ (after.calls ≡ before.calls))

  marking-IsMarked :
      (world : World)
      → IsJournaled world
      → (update_activation_state around.marking id applying_clipboard world.store).0 ≡ ok tt
      → IsMarked id (update_activation_state around.marking id applying_clipboard world.store).1
  unfolding update_activation_state
  marking-IsMarked world h e =
      let rows = world.store.activation_journal in
      elim (Result-cases (update_rows around.marking id applying_clipboard rows)) [
        | inl ((u, rows'), f) ↦
            let (entry, found, same) =
              update_rows-eq-ok around.marking id applying_clipboard rows rows' f in
            let known : entry ≡ h.entry = ground (arith, h.found) in
            let valid =
              update_activation_state-IsJournal around.marking id applying_clipboard world.store
                h.valid in
            let row : ActivationJournalEntry = record entry { state = applying_clipboard } in
            let marked : IsMarked id (record world.store { activation_journal = rows' }) = record {
              valid = rw f at valid;
              entry = row;
              found = rw same (lookup-insert_self id row rows);
              clip = ap (λ x. x.mode) known ∙ h.clip;
              state = refl;
            } in
            rw f marked
        | inr (x, f) ↦ absurd (ground arith)
      ]

  after_mark :
      (next : Effect (Unit {0})) (world : World)
      → ((w : World) → Ahead id w → Ends (Ahead id) (λ _. Unit) (next w))
      → IsJournaled world
      → IsAhead world (◌>>◌ (mark_clipboard_application display around activation) next world).1
  unfolding mark_clipboard_application
  after_mark next world rest h =
      elim (Result-cases
        ((update_activation_state around.marking id applying_clipboard world.store).0)) [
          | inr (x, e) ↦ rw e (h.logged, inr refl)
          | inl (u, e) ↦
              let marked = marking-IsMarked world h e in
              let after : World = record world {
                store =
                    (update_activation_state around.marking id applying_clipboard world.store).1;
              } in
              let (done, logged) =
                Ends-state (Ahead id) (λ _. Unit) (next after) (rest after (marked, h.logged)) in
              rw e (logged, inl done)
        ]

  apply_text-Ahead :
      (text : Option Text) (world : World)
      → IsJournaled world
      → IsAhead world (apply_text display around activation text world).1
  unfolding apply_text
  apply_text-Ahead none world h = (h.logged, inr refl)
  apply_text-Ahead (some text) world h =
      after_mark _ world
        (λ w k.
          Ends-bind (Ahead id) (λ _. Unit) _ (native (set_text text) around.set_text w) _
            (native-Ahead display around activation (set_text text) around.set_text w k)
            (λ answer after done _.
              text_answered-Ahead display around activation answer after done))
        h

  apply_files-Ahead :
      (path : HostPath) (world : World)
      → IsJournaled world
      → IsAhead world (apply_files display around activation path world).1
  unfolding apply_files set_clipboard_cache
  apply_files-Ahead path world h =
      after_mark _ world
        (λ w k.
          Ends-bind (Ahead id) (λ _. Unit) _
            (on_store
              (set_clipboard_cache around.setting (candidate display around activation path))
              (unset_candidate display around activation around.remove_candidate) w)
            _
            (cache-Ahead id
              (set_clipboard_cache around.setting (candidate display around activation path)) _ w
              (write_cache-journal w.store (
                set_rows around.setting (candidate display around activation path)
                  w.store.clipboard_cache))
              (unset_candidate-Ahead display around activation around.remove_candidate) k)
            (λ _ after done _.
              Ends-bind (Ahead id) (λ _. Unit) _
                (native (set_files (path ∷ [])) around.set_files after) _
                (native-Ahead display around activation (set_files (path ∷ [])) around.set_files
                  after done)
                (λ answer end kept _.
                  files_answered-Ahead display around activation path answer end kept)))
        h

  apply_shape-Ahead :
      (shape : Bool) (mode : ActivationMode) (text : Option Text) (published : Option HostPath)
      (world : World)
      → IsJournaled world
      → IsAhead world (apply_shape display around activation shape mode text published world).1
  unfolding apply_shape
  apply_shape-Ahead true clipboard text none world h = apply_text-Ahead text world h
  apply_shape-Ahead true save text none world h = (h.logged, inr refl)
  apply_shape-Ahead true clipboard text (some path) world h = apply_files-Ahead path world h
  apply_shape-Ahead true save text (some path) world h = (h.logged, inr refl)
  apply_shape-Ahead false clipboard text (some path) world h = apply_files-Ahead path world h
  apply_shape-Ahead false save text (some path) world h = (h.logged, inr refl)
  apply_shape-Ahead false clipboard text none world h = (h.logged, inr refl)
  apply_shape-Ahead false save text none world h = (h.logged, inr refl)

  marked-has_uncertain :
      (store : RedbV2Store) (trees : Trees) (db : CleanupFaults)
      → IsMarked id store
      → has_uncertain_side_effect no_faults no_faults (startup_cleanup trees db store).1 ≡ ok true
  marked-has_uncertain store trees db m =
      startup_cleanup-has_uncertain trees db store m.valid
        (entry-has_uncertain store id m.entry m.found (rw (m.clip, m.state) refl))

  -- A crash cannot make a clipboard write unnoticed: at each native call that apply_side_effect
  -- makes, and after it returns where it made one, a cleanup of the store followed by
  -- has_uncertain_side_effect without faults answers yes, whatever the databases and the file
  -- system report to apply_side_effect and to the cleanup. The journal is valid and holds the
  -- activation as a clipboard activation, and no native call was made before.
  pub apply_side_effect_write_ahead :
      (descriptor : OfferDescriptor) (text : Option Text) (published : Option HostPath)
      (world : World) (trees : Trees) (db : CleanupFaults)
      → IsJournaled world
      → world.calls ≡ []
      → All
          (λ c.
            has_uncertain_side_effect no_faults no_faults (startup_cleanup trees db c.at).1
            ≡ ok true)
          (apply_side_effect display around activation descriptor text published world).1.calls
        × ((has_uncertain_side_effect no_faults no_faults
                (startup_cleanup trees db
                  (apply_side_effect display around activation descriptor text published
                    world).1.store).1
              ≡ ok true)
            ⊎ ((apply_side_effect display around activation descriptor text published world).1.calls
                ≡ []))
  unfolding apply_side_effect
  apply_side_effect_write_ahead descriptor text published world trees db h quiet =
      let after =
        (apply_shape display around activation (is_text descriptor) activation.mode text published
          world).1 in
      let (logged, ahead) =
        apply_shape-Ahead (is_text descriptor) activation.mode text published world h in
      (
        All-map (λ c m. marked-has_uncertain c.at trees db m) after.calls logged,
        elim ahead [
          | inl m ↦ inl (marked-has_uncertain after.store trees db m)
          | inr same ↦ inr (same ∙ quiet)
        ],
      )
