-- ===== src/Net/SideEffect/Tests.antt =====
-- A text and a file on their way to the clipboard.
use meshelf.Base.{◌≡◌, refl, ◌⊎◌, true, false, [], ◌∷◌, none, some, ok, All}
use meshelf.Base.Map.{nat_key, lookup, erase, place, insert}
use meshelf.Base.Text.{lit}
use meshelf.Core.Activation.{ActivationJournalEntry, ActivationState, clipboard}
use meshelf.Core.Offer.{HostPath, file}
use meshelf.Store.Cache.{set_clipboard_cache, set_rows, promote_clipboard_cache, promote_rows}
use meshelf.Store.Database.{no_faults, empty_store}
use meshelf.Store.Journal.{
  Trees, refused, CleanupFaults, update_activation_state, update_rows, startup_cleanup,
  has_uncertain_side_effect,
}
use meshelf.Net.Errors.{Display}
use meshelf.Net.Plan.{FetchActivation}
use meshelf.Net.SideEffect.{
  World, Surroundings, mark_clipboard_application, apply_text, text_answered, apply_files,
  files_answered, files_refused, remove_replaced, unset_candidate, apply_shape, apply_side_effect,
}
use meshelf.Net.SideEffect.WriteAhead.{IsJournaled, apply_side_effect_write_ahead}

effect_runs : Unit {0}
unfolding lookup erase place insert update_rows update_activation_state set_rows set_clipboard_cache
    promote_rows promote_clipboard_cache mark_clipboard_application apply_text text_answered
    apply_files files_answered files_refused remove_replaced unset_candidate apply_shape
    apply_side_effect
effect_runs = tt

abbrev display : Display
display = record { store_error = λ e. lit "store"; protocol_error = λ e. lit "protocol" }

abbrev entry : ActivationJournalEntry
entry = record {
  activation_id = 2;
  source_device = 5;
  offer_id = 9;
  mode = clipboard;
  staging_root = record { spelling = lit "/staging/2"; is_absolute = true };
  state = ActivationState.publishing;
  reserved_entries = 1;
  reserved_bytes = 1;
}

abbrev world : World
world = record {
  store = record empty_store { activation_journal = (2, entry) ∷ [] };
  cleanup_blocked = false;
  uncertain_clipboard = false;
  calls = [];
}

abbrev activation : FetchActivation
activation = record {
  request_id = 2;
  source_device = 5;
  offer_id = 9;
  mode = clipboard;
  destination = none;
}

-- the clipboard does not know whether it took the files
abbrev around : Surroundings
around = record {
  marking = no_faults;
  setting = no_faults;
  clearing = no_faults;
  promoting = no_faults;
  set_text = none;
  set_files = some (record { message = lit "timed out"; is_uncertain = true });
  remove_candidate = none;
  remove_previous = none;
  same_path = λ p q. false;
}

abbrev path : HostPath
path = record { spelling = lit "/cache/candidate-2"; is_absolute = true }

world-IsJournaled : IsJournaled display around activation world
unfolding effect_runs
world-IsJournaled = record {
  valid = record { distinct = (tt, tt); fits = (record { keyed = refl; absolute = refl }, tt) };
  entry = entry;
  found = refl;
  clip = refl;
  logged = tt;
}

abbrev trees : Trees
trees _ = refused

abbrev faults : CleanupFaults
faults = record { reading = no_faults; removing = no_faults; updating = λ id. no_faults }

after_files : World
unfolding effect_runs
after_files =
    (apply_side_effect display around activation (file (lit "a.txt") 12) none (some path) world).1

files_doubted : after_files.uncertain_clipboard ≡ true
unfolding effect_runs after_files
files_doubted = refl

files_ahead :
    All
      (λ c.
        has_uncertain_side_effect no_faults no_faults (startup_cleanup trees faults c.at).1
        ≡ ok true)
      (apply_side_effect display around activation
        (file (lit "a.txt") 12)
        none
        (some path)
        world).1.calls
    × ((has_uncertain_side_effect no_faults no_faults
            (startup_cleanup trees faults
              (apply_side_effect display around activation
                (file (lit "a.txt") 12)
                none
                (some path)
                world).1.store).1
          ≡ ok true)
        ⊎ ((apply_side_effect display around activation
              (file (lit "a.txt") 12)
              none
              (some path)
              world).1.calls
            ≡ []))
files_ahead =
    apply_side_effect_write_ahead display around activation (file (lit "a.txt") 12) none (some path)
      world trees faults world-IsJournaled refl
