-- ===== src/Store/Cards/Laws.antt =====
-- What an insertion of an offer card does (crates/meshelf-store/src/v2.rs), and the invariant of the
-- shelf.
use meshelf.Base.{
  ◌+◌, ◌≤◌, ◌≡◌, refl, inl, inr, true, false, Option, none, some, arith, ok, Result-cases,
  Option-cases,
}
use meshelf.Base.Map.{pair_key, lookup, insert}
use meshelf.Core.Model.{u64_max}
use meshelf.Core.Offer.{validate}
use meshelf.Core.Records.{
  OfferAttemptStatus, detail_too_large, OfferCardRecord, OfferCardInput, OfferCardInsert,
  validate_card_input,
}
use meshelf.Store.Database.{Faults, RedbV2Store}
use meshelf.Store.Purge.{oldest, remove_all, purge_oldest, next_sequence, maximum}
use meshelf.Store.Purge.Bounds.{purge_oldest-eq-ok, next_sequence-eq-ok, length-purged}
use meshelf.Store.Purge.Oldest.{lookup-remove_all}
use meshelf.Store.Rows.{IsShelf, purged-IsShelf, insert-IsShelf}
use meshelf.Store.Cards.{
  CardKey, CardRows, key_of, sequence, purge_oldest_cards, next_card_sequence, new_card, again_card,
  add_card, insert_card_rows, insert_offer_card,
}

-- the key of a row, as its fields give it
abbrev pub key_in : OfferCardRecord → CardKey
key_in row = (row.source_device, row.offer_id)

-- the detail of the last attempt is within its bound
abbrev pub IsShort : Option OfferAttemptStatus → Type 0
IsShort none = Unit
IsShort (some status) = detail_too_large status.detail ≡ false

pub record IsCardRow (e : CardKey × OfferCardRecord) : Type 0 where
  pub keyed : key_in e.1 ≡ e.0
  pub described : validate e.1.descriptor ≡ ok tt
  pub counted : e.1.received_sequence ≤ u64_max
  pub attempt : IsShort e.1.last_attempt

abbrev pub IsCards : CardRows → Type 0
IsCards = IsShelf sequence IsCardRow

-- the rows that a purge leaves
abbrev pub kept_cards : CardRows → CardRows
kept_cards rows = remove_all (oldest sequence rows) rows

-- the row that an insertion adds to these rows
abbrev pub added_card : OfferCardInput → CardRows → OfferCardRecord
added_card input rows = new_card input (maximum sequence (kept_cards rows) + 1)

add_card-eq-ok :
    (db : Faults) (input : OfferCardInput) (rows : CardRows) {r : OfferCardInsert}
    {rows' : CardRows}
    → add_card db input rows ≡ ok (r, rows')
    → (rows' ≡ insert (key_of input) (added_card input rows) (kept_cards rows))
      × (maximum sequence (kept_cards rows) + 1 ≤ u64_max)
      × (r.inserted ≡ true)
unfolding add_card purge_oldest_cards next_card_sequence
add_card-eq-ok db input rows h = elim (Result-cases (purge_oldest sequence db rows)) [
  | inl ((n, kept), p) ↦
      let (_, same) = purge_oldest-eq-ok sequence db rows p in
      elim (Result-cases (next_sequence sequence db kept)) [
        | inl (s, q) ↦
            let (next, room) = next_sequence-eq-ok sequence db kept q in
            (ground arith, ground arith, ground arith)
        | inr (e, q) ↦ absurd (ground arith)
      ]
  | inr (e, p) ↦ absurd (ground arith)
]

validate_card_input-eq-ok :
    (input : OfferCardInput) → validate_card_input input ≡ ok tt → validate input.descriptor ≡ ok tt
validate_card_input-eq-ok input h = elim (Result-cases (validate input.descriptor)) [
  | inl (u, p) ↦ p
  | inr (e, p) ↦ absurd (ground arith)
]

module _ (db : Faults) (input : OfferCardInput) (rows : CardRows) where
  -- The three ways in which the transaction can end well.
  pub data Inserted : OfferCardInsert → CardRows → Type 0 where
    again :
        (row : OfferCardRecord) (r : OfferCardInsert) (rows' : CardRows)
        → lookup (key_of input) rows ≡ some row
        → r ≡ record { entry = row; inserted = false; purged = 0 }
        → rows' ≡ rows
        → Inserted r rows'
    added :
        (r : OfferCardInsert) (rows' : CardRows)
        → lookup (key_of input) rows ≡ none
        → validate_card_input input ≡ ok tt
        → rows' ≡ insert (key_of input) (added_card input rows) (kept_cards rows)
        → maximum sequence (kept_cards rows) + 1 ≤ u64_max
        → r.inserted ≡ true
        → Inserted r rows'

  pub insert_card_rows-Inserted :
      (r : OfferCardInsert) (rows' : CardRows)
      → insert_card_rows db input rows ≡ ok (r, rows')
      → Inserted r rows'
  unfolding insert_card_rows again_card
  insert_card_rows-Inserted r rows' h = elim (Option-cases (lookup (key_of input) rows)) [
    | inl new ↦
        let (same, room, new_row) =
          add_card-eq-ok db input rows {r = r} {rows' = rows'} (ground arith) in
        added r rows' new (ground arith) same room new_row
    | inr (row, found) ↦ again row r rows' found (ground arith) (ground arith)
  ]

module _ (input : OfferCardInput) (rows : CardRows) where
  -- a new offer is still new after the purge
  new_after_purge :
      lookup (key_of input) rows ≡ none → lookup (key_of input) (kept_cards rows) ≡ none
  new_after_purge new = ground (arith, lookup-remove_all (key_of input) (oldest sequence rows) rows)

  added-IsCards :
      lookup (key_of input) rows ≡ none
      → validate_card_input input ≡ ok tt
      → maximum sequence (kept_cards rows) + 1 ≤ u64_max
      → IsCards rows
      → IsCards (insert (key_of input) (added_card input rows) (kept_cards rows))
  added-IsCards new valid room h =
      insert-IsShelf sequence IsCardRow (kept_cards rows) (purged-IsShelf sequence IsCardRow rows h)
        (key_of input) (added_card input rows) (new_after_purge new)
        (omega (arith, length-purged sequence rows h.distinct, h.live)) refl
        (record {
          keyed = refl;
          described = validate_card_input-eq-ok input valid;
          counted = room;
          attempt = tt;
        })

  Inserted-IsCards :
      (db : Faults) {r : OfferCardInsert} {rows' : CardRows}
      → Inserted db input rows r rows'
      → IsCards rows
      → IsCards rows'
  Inserted-IsCards db (again row r rows' found e same) h = rw same h
  Inserted-IsCards db (added r rows' new valid same room _) h =
      rw same (added-IsCards new valid room h)

-- Whatever the database reports, insert_offer_card keeps the shelf of cards valid: at most ten
-- cards, distinct keys and sequence numbers, a valid descriptor in each.
pub insert_offer_card-IsCards :
    (db : Faults) (input : OfferCardInput) (store : RedbV2Store)
    → IsCards store.offer_cards
    → IsCards (insert_offer_card db input store).1.offer_cards
unfolding insert_offer_card
insert_offer_card-IsCards db input store h =
    elim (Result-cases (insert_card_rows db input store.offer_cards)) [
      | inl ((r, rows'), e) ↦ rw e (
          Inserted-IsCards input store.offer_cards db
            (insert_card_rows-Inserted db input store.offer_cards r rows' e) h)
      | inr (x, e) ↦ rw e h
    ]
