-- ===== src/Store/Cards.antt =====
-- The offers that peers announced to this device: `insert_offer_card`, `get_offer_card`,
-- `read_offer_shelf` and `record_offer_attempt` of crates/meshelf-store/src/v2.rs.
pub mod Laws
pub mod Reads
pub mod Attempt
mod Tests
use meshelf.Base.{
  ℕ, Bool, true, false, not, List, [], ◌∷◌, map, Option, none, some, Result, ok, err, ◌>>=◌, ◌>>◌,
  reject, leb, if◌then◌else◌,
}
use meshelf.Base.Map.{Map, pair_key, lookup, insert}
use meshelf.Base.Sort.{sort}
use meshelf.Core.Model.{DeviceId, OfferId}
use meshelf.Core.Offer.{CardAvailability, descriptor_eq}
use meshelf.Core.Offer
use meshelf.Core.Records.{
  StoreError, card_conflict, card_missing, attempt_detail_too_large, OfferCardRecord,
  OfferCardInput, OfferCardInsert, OfferAttemptCode, OfferAttemptStatus, detail_too_large,
  validate_card_input,
}
use meshelf.Core.Records
use meshelf.Store.Database.{
  decoded, Faults, called, called_each, RedbV2Store, begin_write, begin_read, open_table, get, iter,
  decode, encode, commit,
}
use meshelf.Store.Database
use meshelf.Store.Purge.{purge_oldest, next_sequence}

abbrev pub CardKey : Type 0
CardKey = DeviceId × OfferId

abbrev pub CardRows : Type 0
CardRows = Map CardKey OfferCardRecord

abbrev pub sequence : OfferCardRecord → ℕ
sequence row = row.received_sequence

abbrev pub key_of : OfferCardInput → CardKey
key_of input = (input.source_device, input.offer_id)

unfoldable pub purge_oldest_cards : Faults → CardRows → Result StoreError (ℕ × CardRows)
purge_oldest_cards = purge_oldest sequence

unfoldable pub next_card_sequence : Faults → CardRows → Result StoreError ℕ
next_card_sequence = next_sequence sequence

-- the row that an insertion writes
abbrev pub new_card : OfferCardInput → ℕ → OfferCardRecord
new_card input received_sequence = record {
  source_device = input.source_device;
  offer_id = input.offer_id;
  descriptor = input.descriptor;
  received_sequence = received_sequence;
  availability = input.availability;
  last_attempt = none;
}

-- the branch of a card that is there already
unfoldable pub again_card :
    Faults
    → OfferCardInput
    → OfferCardRecord
    → CardRows
    → Result StoreError (OfferCardInsert × CardRows)
again_card db input row rows = do
  called db decode
  reject (not (descriptor_eq row.descriptor input.descriptor)) card_conflict
  called db commit
  ok (record { entry = row; inserted = false; purged = 0 }, rows)

unfoldable pub add_card :
    Faults → OfferCardInput → CardRows → Result StoreError (OfferCardInsert × CardRows)
add_card db input rows = do
  (purged, kept) ← purge_oldest_cards db rows
  received_sequence ← next_card_sequence db kept
  called db encode
  called db Database.insert
  called db commit
  ok (
    record { entry = new_card input received_sequence; inserted = true; purged = purged },
    insert (key_of input) (new_card input received_sequence) kept,
  )

unfoldable pub insert_card_rows :
    Faults → OfferCardInput → CardRows → Result StoreError (OfferCardInsert × CardRows)
insert_card_rows db input rows = do
  validate_card_input input
  called db begin_write
  called db open_table
  called db get
  elim (lookup (key_of input) rows) [
    | some row ↦ again_card db input row rows
    | none ↦ add_card db input rows
  ]

abbrev pub write_cards :
    {A : Type 0}
    → RedbV2Store
    → Result StoreError (A × CardRows)
    → Result StoreError A × RedbV2Store
write_cards store (ok (a, rows)) = (ok a, record store { offer_cards = rows })
write_cards store (err e) = (err e, store)

unfoldable pub insert_offer_card :
    Faults → OfferCardInput → RedbV2Store → Result StoreError OfferCardInsert × RedbV2Store
insert_offer_card db input store = write_cards store (insert_card_rows db input store.offer_cards)

unfoldable pub get_offer_card :
    Faults → DeviceId → OfferId → RedbV2Store → Result StoreError (Option OfferCardRecord)
get_offer_card db source_device offer_id store = do
  called db begin_read
  called db open_table
  called db get
  decoded db (lookup (source_device, offer_id) store.offer_cards)

-- the order of `sort_by_key(|record| Reverse(record.received_sequence))`
abbrev pub newest_card_first : OfferCardRecord → OfferCardRecord → Bool
newest_card_first v w = leb (sequence w) (sequence v)

unfoldable pub read_offer_shelf : Faults → RedbV2Store → Result StoreError (List OfferCardRecord)
read_offer_shelf db store = do
  called db begin_read
  called db open_table
  called db iter
  called_each db decode store.offer_cards
  ok (sort newest_card_first (map (λ e. e.1) store.offer_cards))

-- the availability after an attempt
abbrev pub availability_after : OfferAttemptCode → CardAvailability → CardAvailability
availability_after Records.source_unavailable _ = Offer.source_unavailable
availability_after Records.source_changed _ = Offer.source_changed
availability_after _ before = before

abbrev pub attempted : OfferAttemptStatus → OfferCardRecord → OfferCardRecord
attempted status row = record row {
  availability = availability_after status.code row.availability;
  last_attempt = some status;
}

unfoldable pub attempt_rows :
    Faults → CardKey → OfferAttemptStatus → CardRows → Result StoreError (Unit {0} × CardRows)
attempt_rows db k status rows = do
  reject (detail_too_large status.detail) attempt_detail_too_large
  called db begin_write
  called db open_table
  called db get
  elim (lookup k rows) [
    | none ↦ err card_missing
    | some row ↦ do
      called db decode
      called db encode
      called db Database.insert
      called db commit
      ok (tt, insert k (attempted status row) rows)
  ]

unfoldable pub record_offer_attempt :
    Faults
    → DeviceId
    → OfferId
    → OfferAttemptStatus
    → RedbV2Store
    → Result StoreError (Unit {0}) × RedbV2Store
record_offer_attempt db source_device offer_id status store =
    write_cards store (attempt_rows db (source_device, offer_id) status store.offer_cards)
