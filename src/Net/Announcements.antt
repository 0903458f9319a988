-- ===== src/Net/Announcements.antt =====
-- The announcements of offers: `OfferCardStore` and `OfferAnnouncementHandler` of
-- crates/meshelf-net/src/lib.rs. The handler works on any store of cards; the last definition is
-- the database, which the program wraps in the store of Control.Notifying.
pub mod Interface
pub mod RedbCards
pub mod Outcome
pub mod Stored
mod Tests
use meshelf.Base.{
  ℕ, Bool, true, false, not, Option, none, some, List, [], ◌∷◌, ◌++◌, Result, ok, err, reject,
  map_err, ok_or, ltb, ◌==◌, if◌then◌else◌, length,
}
use meshelf.Base.Actions.{Action, ◌>>=◌, ◌>>◌, lift, pure}
use meshelf.Base.Text.{Text, lit}
use meshelf.Core.Model.{DeviceId, OfferId, max_live_entries, u32_max}
use meshelf.Core.Offer.{OfferDescriptor, descriptor_eq, available}
use meshelf.Core.Records.{StoreError, OfferCardRecord, OfferCardInput, OfferCardInsert}
use meshelf.Protocol.Messages.{
  ProtocolError, OfferAckCode, stored, duplicate, refused_invalid, refused_conflict,
  OfferAnnouncement, OfferAck,
}
use meshelf.Protocol.Validate.{validate_announcement}
use meshelf.Store.Cards
use meshelf.Store.Database.{Faults, no_faults, RedbV2Store}
use meshelf.Net.Errors.{NetError, offer_storage, Display}

-- the trait: operations on a state that is the store's own
pub record OfferCardStore (S : Type 0) : Type 0 where
  pub get_offer_card : DeviceId → OfferId → Action S StoreError (Option OfferCardRecord)
  pub read_offer_shelf : Action S StoreError (List OfferCardRecord)
  pub insert_offer_card : OfferCardInput → Action S StoreError OfferCardInsert

abbrev pub ack : OfferId → OfferAckCode → (live_entries pruned_entries : ℕ) → Option Text → OfferAck
ack offer_id code live_entries pruned_entries detail = record {
  offer_id = offer_id;
  code = code;
  live_entries = live_entries;
  max_live_entries = max_live_entries;
  pruned_entries = pruned_entries;
  detail = detail;
}

-- the answer to an offer that is stored already
abbrev pub again_ack : OfferAnnouncement → OfferCardRecord → ℕ → OfferAck
again_ack announcement existing live_entries =
    if descriptor_eq existing.descriptor announcement.descriptor
    then ack announcement.offer_id duplicate live_entries 0 none
    else ack announcement.offer_id refused_conflict live_entries 0
        (some (lit "offer ID is already stored with a different descriptor"))

abbrev pub card_of : DeviceId → OfferAnnouncement → OfferCardInput
card_of authenticated_source announcement = record {
  source_device = authenticated_source;
  offer_id = announcement.offer_id;
  descriptor = announcement.descriptor;
  availability = available;
}

-- an operation of the store whose errors are told as texts
abbrev pub told_outcome : {S A : Type 0} → Display → Result StoreError A × S → Result NetError A × S
told_outcome display (ok value, after) = (ok value, after)
told_outcome display (err e, after) = (err (offer_storage (display.store_error e)), after)

abbrev pub told : {S A : Type 0} → Display → Action S StoreError A → Action S NetError A
told display operation state = told_outcome display (operation state)

module _ {S : Type 0} (display : Display) (store : OfferCardStore S) where
  unfoldable pub live_count : Action S NetError ℕ
  live_count = do
    cards ← told display store.read_offer_shelf
    lift (reject (ltb u32_max (length cards)) (offer_storage (lit "offer card count exceeds u32")))
    pure (length cards)

  -- the insertion of an offer that is not stored
  unfoldable pub add_offer : DeviceId → OfferAnnouncement → Action S NetError OfferAck
  add_offer authenticated_source announcement = do
    inserted ← told display (store.insert_offer_card (card_of authenticated_source announcement))
    live_entries ← live_count
    pure (
        ack announcement.offer_id (if inserted.inserted then stored else duplicate) live_entries
          inserted.purged none)

  -- after the lookup of the offer
  unfoldable pub answer_offer :
      DeviceId → OfferAnnouncement → ℕ → Option OfferCardRecord → Action S NetError OfferAck
  answer_offer authenticated_source announcement live_entries (some card) =
      pure (again_ack announcement card live_entries)
  answer_offer authenticated_source announcement live_entries none =
      add_offer authenticated_source announcement

  -- what the handler does while it holds its lock
  unfoldable pub locked_sync : DeviceId → OfferAnnouncement → Action S NetError OfferAck
  locked_sync authenticated_source announcement = do
    live_entries ← live_count
    existing ← told display (store.get_offer_card authenticated_source announcement.offer_id)
    answer_offer authenticated_source announcement live_entries existing

  abbrev pub refuse : OfferAnnouncement → ℕ → Text → Action S NetError OfferAck
  refuse announcement live_entries detail =
      pure (ack announcement.offer_id refused_invalid live_entries 0 (some detail))

  -- `poisoned`: a thread panicked while it held the handler's lock
  unfoldable pub valid_sync : Bool → DeviceId → OfferAnnouncement → Action S NetError OfferAck
  valid_sync poisoned authenticated_source announcement = do
    lift (reject poisoned (offer_storage (lit "offer card lock is poisoned")))
    locked_sync authenticated_source announcement

  -- after the validation
  unfoldable pub checked_sync :
      Bool
      → DeviceId
      → OfferAnnouncement
      → ℕ
      → Result ProtocolError (Unit {0})
      → Action S NetError OfferAck
  checked_sync poisoned authenticated_source announcement live_entries (err e) =
      refuse announcement live_entries
        (lit "invalid offer announcement: " ++ display.protocol_error e)
  checked_sync poisoned authenticated_source announcement live_entries (ok _) =
      valid_sync poisoned authenticated_source announcement

  -- after the cards were counted
  unfoldable pub addressed_sync :
      Bool → DeviceId → DeviceId → OfferAnnouncement → ℕ → Action S NetError OfferAck
  addressed_sync poisoned authenticated_source listener_device announcement live_entries =
      if not (announcement.source_device == authenticated_source)
      then refuse announcement live_entries
          (lit "source device does not match authenticated client")
      else if not (announcement.target_device == listener_device)
      then refuse announcement live_entries (lit "target device does not match listener")
      else checked_sync poisoned authenticated_source announcement live_entries
          (validate_announcement announcement)

  unfoldable pub handle_sync :
      Bool → DeviceId → DeviceId → OfferAnnouncement → Action S NetError OfferAck
  handle_sync poisoned authenticated_source listener_device announcement = do
    live_entries ← live_count
    addressed_sync poisoned authenticated_source listener_device announcement live_entries

-- a database with what its next operations meet; after those, nothing fails
abbrev pub Database : Type 0
Database = List Faults × RedbV2Store

abbrev pub next_faults : List Faults → Faults
next_faults [] = no_faults
next_faults (db ∷ _) = db

abbrev pub later_faults : List Faults → List Faults
later_faults [] = []
later_faults (_ ∷ dbs) = dbs

-- `impl OfferCardStore for RedbV2Store`
abbrev pub redb_cards : OfferCardStore Database
redb_cards = record {
  get_offer_card = λ source_device offer_id (dbs, store). (
    Cards.get_offer_card (next_faults dbs) source_device offer_id store,
    (later_faults dbs, store),
  );
  read_offer_shelf =
      λ (dbs, store). (Cards.read_offer_shelf (next_faults dbs) store, (later_faults dbs, store));
  insert_offer_card = λ input (dbs, store).
      let (result, after) = Cards.insert_offer_card (next_faults dbs) input store in
      (result, (later_faults dbs, after));
}
