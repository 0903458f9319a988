-- ===== src/Net/SideEffect/Marked.antt =====
-- What keeps the mark of an activation that is about to write the clipboard.
use meshelf.Base.{
  ◌≡◌, refl, inl, inr, Bool, true, false, Option, none, some, Result, ok, err, All, if◌then◌else◌,
  Bool-cases, Option-cases, Result-cases,
}
use meshelf.Base.Actions.{Ends, Ends-bind}
use meshelf.Base.Map.{nat_key, lookup}
use meshelf.Base.Text.{Text}
use meshelf.Core.Activation.{
  clipboard, applying_clipboard, ActivationJournalEntry, in_flight, ClipboardCacheRecord,
}
use meshelf.Core.Model.{ActivationId}
use meshelf.Core.Offer.{HostPath}
use meshelf.Core.Records.{StoreError}
use meshelf.Store.Cache.{
  CacheRows, write_cache, clear_rows, promote_rows, clear_clipboard_cache, promote_clipboard_cache,
}
use meshelf.Store.Database.{RedbV2Store, Outcome}
use meshelf.Store.Journal.Laws.{IsJournal}
use meshelf.Net.Errors.{SideEffectFailure, Display}
use meshelf.Net.Plan.{FetchActivation}
use meshelf.Net.SideEffect.{
  ClipboardError, NativeCall, World, Surroundings, Effect, on_store, native, text_answered,
  candidate, unset_candidate, files_refused, remove_replaced, files_answered, blocked_by,
}

-- a valid journal in which the activation is about to write the clipboard
pub record IsMarked (id : ActivationId) (store : RedbV2Store) : Type 0 where
  pub valid : IsJournal store.activation_journal
  pub entry : ActivationJournalEntry
  pub found : lookup id store.activation_journal ≡ some entry
  pub clip : entry.mode ≡ clipboard
  pub state : entry.state ≡ applying_clipboard

abbrev pub AllMarked : ActivationId → World → Type 0
AllMarked id world = All (λ c. IsMarked id c.at) world.calls

-- from the mark on
abbrev pub Ahead : ActivationId → World → Type 0
Ahead id world = IsMarked id world.store × AllMarked id world

pub write_cache-journal :
    {A : Type 0} (store : RedbV2Store) (r : Result StoreError (A × CacheRows))
    → (write_cache store r).1.activation_journal ≡ store.activation_journal
write_cache-journal store (ok (a, rows)) = refl
write_cache-journal store (err e) = refl

same-IsMarked :
    (id : ActivationId) (store store' : RedbV2Store)
    → store'.activation_journal ≡ store.activation_journal
    → IsMarked id store
    → IsMarked id store'
same-IsMarked id store store' same h = record {
  valid = rw same h.valid;
  entry = h.entry;
  found = rw same h.found;
  clip = h.clip;
  state = h.state;
}

module _ (id : ActivationId) where
  -- a transaction on the cache, and what follows its error
  pub cache-Ahead :
      {A : Type 0} (operation : RedbV2Store → Outcome A)
      (failed : StoreError → World → Result SideEffectFailure A × World) (world : World)
      → (operation world.store).1.activation_journal ≡ world.store.activation_journal
      → ((e : StoreError) (w : World) → Ahead id w → Ends (Ahead id) (λ _. Unit) (failed e w))
      → Ahead id world
      → Ends (Ahead id) (λ _. Unit) (on_store operation failed world)
  cache-Ahead operation failed world same rest (marked, logged) =
      let after = same-IsMarked id world.store (operation world.store).1 same marked in
      elim (Result-cases ((operation world.store).0)) [
        | inl (a, e) ↦ rw e ((after, logged), tt)
        | inr (x, e) ↦
            rw e (rest x (record world { store = (operation world.store).1 }) (after, logged))
      ]

module _ (display : Display) (around : Surroundings) (activation : FetchActivation) where
  abbrev pub id : ActivationId
  id = activation.request_id

  pub choose-Ends :
      (b : Bool) (f g : Effect (Unit {0})) (world : World)
      → Ends (Ahead id) (λ _. Unit) (f world)
      → Ends (Ahead id) (λ _. Unit) (g world)
      → Ends (Ahead id) (λ _. Unit) ((if b then f else g) world)
  choose-Ends true f g world h k = h
  choose-Ends false f g world h k = k

  pub blocked_by-Ahead :
      (cleared : Result StoreError (Unit {0})) (removed : Option Text) (world : World)
      → Ahead id world
      → Ahead id (blocked_by display around activation cleared removed world)
  blocked_by-Ahead (ok _) none world h = h
  blocked_by-Ahead (ok _) (some e) world h = h
  blocked_by-Ahead (err x) none world h = h
  blocked_by-Ahead (err x) (some e) world h = h

  pub files_refused-Ahead :
      (error : ClipboardError) (world : World)
      → Ahead id world
      → Ends (Ahead id) (λ _. Unit) (files_refused display around activation error world)
  unfolding files_refused clear_clipboard_cache
  files_refused-Ahead error world (marked, logged) =
      let cleared = clear_clipboard_cache around.clearing in_flight world.store in
      let same =
        write_cache-journal world.store
          (clear_rows around.clearing in_flight world.store.clipboard_cache) in
      blocked_by-Ahead cleared.0 around.remove_candidate (record world { store = cleared.1 })
        (same-IsMarked id world.store cleared.1 same marked, logged)

  pub remove_replaced-Ahead :
      (path : HostPath) (previous : Option ClipboardCacheRecord) (world : World)
      → Ahead id world
      → Ends (Ahead id) (λ _. Unit) (remove_replaced display around activation path previous world)
  unfolding remove_replaced
  remove_replaced-Ahead path none world h = (h, tt)
  remove_replaced-Ahead path (some previous) world h =
      elim (Bool-cases (around.same_path previous.payload_path path)) [
        | inl e ↦ rw e (h, tt)
        | inr e ↦ rw e (elim (Option-cases around.remove_previous) [
          | inl f ↦ rw f (h, tt)
          | inr (x, f) ↦ rw f h
        ])
      ]

  pub files_answered-Ahead :
      (path : HostPath) (answer : Option ClipboardError) (world : World)
      → Ahead id world
      → Ends (Ahead id) (λ _. Unit) (files_answered display around activation path answer world)
  unfolding files_answered promote_clipboard_cache
  files_answered-Ahead path none world h =
      Ends-bind (Ahead id) (λ _. Unit) _
        (on_store
          (promote_clipboard_cache around.promoting (candidate display around activation path)) _
          world)
        _
        (cache-Ahead id
          (promote_clipboard_cache around.promoting (candidate display around activation path)) _
          world
          (write_cache-journal world.store (
            promote_rows around.promoting (candidate display around activation path)
              world.store.clipboard_cache))
          (λ e w k. k) h)
        (λ previous after k _. remove_replaced-Ahead path previous after k)
  files_answered-Ahead path (some error) world h =
      choose-Ends error.is_uncertain _ (files_refused display around activation error) world h
        (files_refused-Ahead error world h)

  pub unset_candidate-Ahead :
      (removed : Option Text) (e : StoreError) (world : World)
      → Ahead id world
      → Ends (Ahead id) (λ _. Unit) (unset_candidate display around activation removed e world)
  unfolding unset_candidate
  unset_candidate-Ahead none e world h = h
  unset_candidate-Ahead (some x) e world h = h

  pub native-Ahead :
      (call : NativeCall) (answer : Option ClipboardError) (world : World)
      → Ahead id world
      → Ends (Ahead id) (λ _. Unit) (native call answer world)
  native-Ahead call answer world (marked, logged) = ((marked, (marked, logged)), tt)

  pub text_answered-Ahead :
      (answer : Option ClipboardError) (world : World)
      → Ahead id world
      → Ends (Ahead id) (λ _. Unit) (text_answered display around activation answer world)
  unfolding text_answered
  text_answered-Ahead none world h = (h, tt)
  text_answered-Ahead (some error) world h = elim (Bool-cases error.is_uncertain) [
    | inl e ↦ rw e h
    | inr e ↦ rw e h
  ]
