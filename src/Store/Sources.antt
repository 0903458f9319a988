-- ===== src/Store/Sources.antt =====
-- The offers that this device announced: `insert_offer_source`, `get_offer_source`,
-- `remove_explicit_refusal` and `read_offer_sources` of crates/meshelf-store/src/v2.rs. An operation
-- returns its result beside the store, which an error leaves as it was before the transaction.
pub mod Laws
pub mod Reads
pub mod Refusal
mod Tests
use meshelf.Base.{
  is_empty, ℕ, suc, Bool, true, false, not, List, [], ◌∷◌, map, Option, none, some, Result, ok, err,
  ◌>>=◌, ◌>>◌, reject, ltb, leb, ◌==◌, if◌then◌else◌, any, length,
}
use meshelf.Base.Map.{Map, nat_key, lookup, erase, insert}
use meshelf.Base.Sort.{sort}
use meshelf.Core.Model.{DeviceId, OfferId, u32_max}
use meshelf.Core.Offer.{descriptor_eq}
use meshelf.Core.Records.{
  StoreError, source_conflict, source_missing, too_many_recipients, OfferSourceRecord,
  OfferSourceInput, OfferSourceInsert, OfferEligibilityUpdate, validate_source_input,
}
use meshelf.Store.Database.{
  decoded, Faults, called, called_each, RedbV2Store, begin_write, begin_read, open_table, get, iter,
  decode, encode, remove, commit,
}
use meshelf.Store.Database
use meshelf.Store.Purge.{purge_oldest, next_sequence}

abbrev pub SourceRows : Type 0
SourceRows = Map OfferId OfferSourceRecord

abbrev pub sequence : OfferSourceRecord → ℕ
sequence row = row.creation_sequence

unfoldable pub purge_oldest_sources : Faults → SourceRows → Result StoreError (ℕ × SourceRows)
purge_oldest_sources = purge_oldest sequence

unfoldable pub next_source_sequence : Faults → SourceRows → Result StoreError ℕ
next_source_sequence = next_sequence sequence

-- the row that an insertion writes
abbrev pub new_source : OfferSourceInput → ℕ → OfferSourceRecord
new_source input creation_sequence = record {
  offer_id = input.offer_id;
  descriptor = input.descriptor;
  creation_sequence = creation_sequence;
  announced_to = input.announced_to;
  source = input.source;
}

-- the branch of an offer that is there already
unfoldable pub again_source :
    Faults
    → OfferSourceInput
    → OfferSourceRecord
    → SourceRows
    → Result StoreError (OfferSourceInsert × SourceRows)
again_source db input row rows = do
  called db decode
  reject (not (descriptor_eq row.descriptor input.descriptor)) source_conflict
  called db commit
  ok (record { entry = row; inserted = false; purged = 0 }, rows)

unfoldable pub add_source :
    Faults → OfferSourceInput → SourceRows → Result StoreError (OfferSourceInsert × SourceRows)
add_source db input rows = do
  (purged, kept) ← purge_oldest_sources db rows
  creation_sequence ← next_source_sequence db kept
  called db encode
  called db Database.insert
  called db commit
  ok (
    record { entry = new_source input creation_sequence; inserted = true; purged = purged },
    insert input.offer_id (new_source input creation_sequence) kept,
  )

unfoldable pub insert_source_rows :
    Faults → OfferSourceInput → SourceRows → Result StoreError (OfferSourceInsert × SourceRows)
insert_source_rows db input rows = do
  validate_source_input input
  called db begin_write
  called db open_table
  called db get
  elim (lookup input.offer_id rows) [
    | some row ↦ again_source db input row rows
    | none ↦ add_source db input rows
  ]

-- the end of a write transaction over the table
abbrev pub write_sources :
    {A : Type 0}
    → RedbV2Store
    → Result StoreError (A × SourceRows)
    → Result StoreError A × RedbV2Store
write_sources store (ok (a, rows)) = (ok a, record store { offer_sources = rows })
write_sources store (err e) = (err e, store)

unfoldable pub insert_offer_source :
    Faults → OfferSourceInput → RedbV2Store → Result StoreError OfferSourceInsert × RedbV2Store
insert_offer_source db input store =
    write_sources store (insert_source_rows db input store.offer_sources)

unfoldable pub get_offer_source :
    Faults → OfferId → RedbV2Store → Result StoreError (Option OfferSourceRecord)
get_offer_source db offer_id store = do
  called db begin_read
  called db open_table
  called db get
  decoded db (lookup offer_id store.offer_sources)

-- `HashSet::remove`: whether the device was there, and the set without it
abbrev pub has_member : DeviceId → List DeviceId → Bool
has_member d = any (λ e. e == d)

unfoldable pub without : DeviceId → List DeviceId → List DeviceId
without d [] = []
without d (e ∷ devices) = let rest = without d devices in if e == d then rest else e ∷ rest

-- `u32::try_from(record.announced_to.len())`
abbrev pub count_recipients : List DeviceId → Result StoreError ℕ
count_recipients devices = do
  reject (ltb u32_max (length devices)) too_many_recipients
  ok (length devices)

-- the three outcomes, given whether the recipient was eligible and who is left
unfoldable pub refuse_rows :
    Faults
    → OfferId
    → OfferSourceRecord
    → Bool
    → List DeviceId
    → SourceRows
    → Result StoreError (OfferEligibilityUpdate × SourceRows)
refuse_rows db offer_id row false left rows = do
  remaining ← count_recipients left
  called db commit
  ok (
    record {
      recipient_was_eligible = false;
      offer_deleted = false;
      remaining_recipients = remaining;
    },
    rows,
  )
refuse_rows db offer_id row true left rows =
    if is_empty left
    then (do
      called db remove
      called db commit
      ok (
        record { recipient_was_eligible = true; offer_deleted = true; remaining_recipients = 0 },
        erase offer_id rows,
      ))
    else (do
      remaining ← count_recipients left
      called db encode
      called db Database.insert
      called db commit
      ok (
        record {
          recipient_was_eligible = true;
          offer_deleted = false;
          remaining_recipients = remaining;
        },
        insert offer_id (record row { announced_to = left }) rows,
      ))

unfoldable pub remove_refusal_rows :
    Faults
    → OfferId
    → DeviceId
    → SourceRows
    → Result StoreError (OfferEligibilityUpdate × SourceRows)
remove_refusal_rows db offer_id recipient rows = do
  called db begin_write
  called db open_table
  called db get
  elim (lookup offer_id rows) [
    | none ↦ err source_missing
    | some row ↦ do
      called db decode
      refuse_rows db offer_id row (has_member recipient row.announced_to)
          (without recipient row.announced_to) rows
  ]

-- also `remove_eligible_recipient`, which only calls it
unfoldable pub remove_explicit_refusal :
    Faults
    → OfferId
    → DeviceId
    → RedbV2Store
    → Result StoreError OfferEligibilityUpdate × RedbV2Store
remove_explicit_refusal db offer_id recipient store =
    write_sources store (remove_refusal_rows db offer_id recipient store.offer_sources)

-- the order of `sort_by_key(|record| Reverse(record.creation_sequence))`
abbrev pub newest_source_first : OfferSourceRecord → OfferSourceRecord → Bool
newest_source_first v w = leb (sequence w) (sequence v)

unfoldable pub read_offer_sources :
    Faults → RedbV2Store → Result StoreError (List OfferSourceRecord)
read_offer_sources db store = do
  called db begin_read
  called db open_table
  called db iter
  called_each db decode store.offer_sources
  ok (sort newest_source_first (map (λ e. e.1) store.offer_sources))
