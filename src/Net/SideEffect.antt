-- ===== src/Net/SideEffect.antt =====
-- `mark_clipboard_application` and `apply_side_effect` of crates/meshelf-net/src/fetch_receiver.rs:
-- the native clipboard, between the journal and the clipboard cache. What the clipboard and the file
-- system answer are parameters; each call is logged with the store of that moment, which is what a
-- crash at that moment leaves.
pub mod Marked
pub mod WriteAhead
mod Tests
use meshelf.Base.{
  Bool, true, false, Option, none, some, List, [], ◌∷◌, ◌++◌, Result, ok, err, if◌then◌else◌,
}
use meshelf.Base.Actions.{Action, ◌>>=◌, ◌>>◌, pure}
use meshelf.Base.Text.{Text, lit}
use meshelf.Core.Activation.{
  ActivationMode, clipboard, save, applying_clipboard, in_flight, ClipboardCacheRecord,
}
use meshelf.Core.Offer.{HostPath, OfferDescriptor, is_text}
use meshelf.Core.Records.{StoreError}
use meshelf.Store.Database.{Faults, RedbV2Store, Outcome}
use meshelf.Store.Cache.{set_clipboard_cache, clear_clipboard_cache, promote_clipboard_cache}
use meshelf.Store.Journal.{update_activation_state}
use meshelf.Net.Errors.{
  NetError, fetch_service_owned, rejected, SideEffectFailure, terminal, uncertain, Display,
}
use meshelf.Net.Plan.{FetchActivation}

-- crates/meshelf-core/src/receiver.rs
pub record ClipboardError : Type 0 where
  pub message : Text
  pub is_uncertain : Bool

pub data NativeCall : Type 0 where
  set_text : Text → NativeCall
  set_files : List HostPath → NativeCall

pub record Logged : Type 0 where
  pub call : NativeCall
  pub at : RedbV2Store

-- the receiver's state, and the log of the native calls, the last one first
pub record World : Type 0 where
  pub store : RedbV2Store
  pub cleanup_blocked : Bool
  pub uncertain_clipboard : Bool
  pub calls : List Logged

-- what one activation meets: the faults of its four transactions, the clipboard's answers, how the
-- removals of the two cache objects fail, and `==` of paths
pub record Surroundings : Type 0 where
  pub marking : Faults
  pub setting : Faults
  pub clearing : Faults
  pub promoting : Faults
  pub set_text : Option ClipboardError
  pub set_files : Option ClipboardError
  pub remove_candidate : Option Text
  pub remove_previous : Option Text
  pub same_path : HostPath → HostPath → Bool

abbrev pub Effect : Type 0 → Type 0
Effect = Action World SideEffectFailure

abbrev pub owned : Text → NetError
owned = fetch_service_owned

abbrev pub fail : {A : Type 0} → SideEffectFailure → Effect A
fail failure world = (err failure, world)

abbrev pub block_cleanup : World → World
block_cleanup world = record world { cleanup_blocked = true }

abbrev pub doubt_clipboard : World → World
doubt_clipboard world = record world { uncertain_clipboard = true }

-- an operation of the store, and what its error becomes
abbrev pub stored_outcome :
    {A : Type 0}
    → Outcome A
    → (StoreError → World → Result SideEffectFailure A × World)
    → World
    → Result SideEffectFailure A × World
stored_outcome (ok a, store) failed world = (ok a, record world { store = store })
stored_outcome (err e, store) failed world = failed e (record world { store = store })

abbrev pub on_store :
    {A : Type 0}
    → (RedbV2Store → Outcome A)
    → (StoreError → World → Result SideEffectFailure A × World)
    → Effect A
on_store operation failed world = stored_outcome (operation world.store) failed world

-- a call of the clipboard with this answer
abbrev pub native : NativeCall → Option ClipboardError → Effect (Option ClipboardError)
native call answer world =
    (ok answer, record world { calls = record { call = call; at = world.store } ∷ world.calls })

unfoldable pub classify_clipboard_failure : ClipboardError → SideEffectFailure
classify_clipboard_failure error =
    if error.is_uncertain then uncertain (owned error.message) else terminal (owned error.message)

module _ (display : Display) (around : Surroundings) (activation : FetchActivation) where
  unfoldable pub mark_clipboard_application : Effect (Unit {0})
  mark_clipboard_application =
      on_store (update_activation_state around.marking activation.request_id applying_clipboard)
        (λ e. fail (terminal (owned (display.store_error e))))

  -- after `set_text`
  unfoldable pub text_answered : Option ClipboardError → Effect (Unit {0})
  text_answered none world = (ok tt, world)
  text_answered (some error) world = (
    err (classify_clipboard_failure error),
    if error.is_uncertain then doubt_clipboard world else world,
  )

  unfoldable pub apply_text : Option Text → Effect (Unit {0})
  apply_text none = fail (terminal (owned (lit "text payload was not retained")))
  apply_text (some text) = do
    mark_clipboard_application
    answer ← native (set_text text) around.set_text
    text_answered answer

  abbrev pub candidate : HostPath → ClipboardCacheRecord
  candidate path = record {
    activation_id = activation.request_id;
    state = in_flight;
    payload_path = path;
  }

  -- the error of `set_clipboard_cache`, after its candidate was removed or not
  unfoldable pub unset_candidate : Option Text → StoreError → Effect (Unit {0})
  unset_candidate none e world = (err (terminal (owned (display.store_error e))), world)
  unset_candidate (some cleanup_error) e world = (
    err (
        terminal
          (owned (display.store_error e ++ lit "; candidate cleanup failed: " ++ cleanup_error))),
    block_cleanup world,
  )

  -- what the failed cleanups after `set_files` add to the detail
  abbrev pub cache_cleanup_detail : Result StoreError (Unit {0}) → Text
  cache_cleanup_detail (ok _) = []
  cache_cleanup_detail (err e) = lit "; cache index cleanup failed: " ++ display.store_error e

  abbrev pub path_cleanup_detail : Option Text → Text
  path_cleanup_detail none = []
  path_cleanup_detail (some e) = lit "; candidate cleanup failed: " ++ e

  abbrev pub blocked_by : Result StoreError (Unit {0}) → Option Text → World → World
  blocked_by (ok _) none world = world
  blocked_by _ _ world = block_cleanup world

  unfoldable pub files_refused : ClipboardError → Effect (Unit {0})
  files_refused error world =
      let (cleared, store) = clear_clipboard_cache around.clearing in_flight world.store in
      let detail =
        (error.message ++ cache_cleanup_detail cleared)
        ++ path_cleanup_detail around.remove_candidate in
      (
        err (terminal (owned detail)),
        blocked_by cleared around.remove_candidate (record world { store = store }),
      )

  -- after `promote_clipboard_cache`
  unfoldable pub remove_replaced : HostPath → Option ClipboardCacheRecord → Effect (Unit {0})
  remove_replaced path none world = (ok tt, record world { uncertain_clipboard = false })
  remove_replaced path (some previous) world =
      if around.same_path previous.payload_path path
      then (ok tt, record world { uncertain_clipboard = false })
      else elim around.remove_previous [
        | none ↦ (ok tt, record world { uncertain_clipboard = false })
        | some e ↦ (err (uncertain (owned e)), doubt_clipboard world)
      ]

  -- after `set_files`
  unfoldable pub files_answered : HostPath → Option ClipboardError → Effect (Unit {0})
  files_answered path none = do
    previous ←
        on_store (promote_clipboard_cache around.promoting (candidate path))
          (λ e. fail (uncertain (owned (display.store_error e))))
    remove_replaced path previous
  files_answered path (some error) =
      if error.is_uncertain
      then (λ world. (err (uncertain (owned error.message)), doubt_clipboard world))
      else files_refused error

  unfoldable pub apply_files : HostPath → Effect (Unit {0})
  apply_files path = do
    mark_clipboard_application
    on_store (set_clipboard_cache around.setting (candidate path))
        (unset_candidate around.remove_candidate)
    answer ← native (set_files (path ∷ [])) around.set_files
    files_answered path answer

  -- the arms of the match, by whether the descriptor is one of a text
  unfoldable pub apply_shape :
      Bool → ActivationMode → Option Text → Option HostPath → Effect (Unit {0})
  apply_shape true clipboard text none = apply_text text
  apply_shape true save text none =
      fail (terminal (rejected (lit "text save activation is unsupported")))
  apply_shape _ clipboard text (some path) = apply_files path
  apply_shape _ save text (some path) = pure tt
  apply_shape _ _ text none =
      fail (terminal (owned (lit "activation side-effect shape is invalid")))

  unfoldable pub apply_side_effect :
      OfferDescriptor → Option Text → Option HostPath → Effect (Unit {0})
  apply_side_effect descriptor text published =
      apply_shape (is_text descriptor) activation.mode text published
