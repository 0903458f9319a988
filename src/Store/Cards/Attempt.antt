-- ===== src/Store/Cards/Attempt.antt =====
-- What the record of an attempt changes (`record_offer_attempt`).
use meshelf.Base.{
  ◌≤◌, ◌⊎◌, err, true, sym, ◌≡◌, refl, ap, ◌∙◌, ◌≢◌, ◌↔◌, inl, inr, false, none, some, arith, ok,
  Result-cases, Option-cases, Bool-cases, All-In,
}
use meshelf.Base.Map.{pair_key, pair_eqb_iff, lookup, insert}
use meshelf.Base.Map.Laws.{lookup-insert, lookup-insert_self, lookup-In}
use meshelf.Core.Offer.{CardAvailability, available}
use meshelf.Base.Text.{Text, byte_len}
use meshelf.Core.Records.{
  StoreError, attempt_detail_too_large, card_missing, OfferAttemptCode, OfferAttemptStatus,
  OfferCardRecord, detail_too_large,
}
use meshelf.Store.Database.{Outcome, Faults, no_faults, RedbV2Store}
use meshelf.Store.Rows.{replace-IsShelf}
use meshelf.Store.Cards.{
  CardKey, CardRows, sequence, availability_after, attempted, attempt_rows, record_offer_attempt,
  get_offer_card,
}
use meshelf.Store.Cards.Laws.{IsCards, IsCardRow}
use meshelf.Store.Cards.Reads.{get_offer_card_calm}

attempt_rows-eq-ok :
    (db : Faults) (k : CardKey) (status : OfferAttemptStatus) (rows rows' : CardRows)
    → attempt_rows db k status rows ≡ ok (tt, rows')
    → (row : OfferCardRecord) × (lookup k rows ≡ some row)
      × (detail_too_large status.detail ≡ false)
      × (rows' ≡ insert k (attempted status row) rows)
unfolding attempt_rows
attempt_rows-eq-ok db k status rows rows' e = elim (Option-cases (lookup k rows)) [
  | inl missing ↦ absurd (ground arith)
  | inr (row, found) ↦ (row, found, ground arith, ground arith)
]

availability_after-back :
    (code : OfferAttemptCode) (a : CardAvailability)
    → availability_after code a ≡ available
    → a ≡ available
availability_after-back code a h = ground arith

availability-back :
    (status : OfferAttemptStatus) (row : OfferCardRecord)
    → (attempted status row).availability ≡ available
    → row.availability ≡ available
availability-back status row = availability_after-back status.code row.availability

-- Whatever the database reports, record_offer_attempt keeps the shelf of cards valid.
pub record_offer_attempt-IsCards :
    (db : Faults) (k : CardKey) (status : OfferAttemptStatus) (store : RedbV2Store)
    → IsCards store.offer_cards
    → IsCards (record_offer_attempt db k.0 k.1 status store).1.offer_cards
unfolding record_offer_attempt
record_offer_attempt-IsCards db k status store h =
    elim (Result-cases (attempt_rows db k status store.offer_cards)) [
      | inl ((u, rows'), e) ↦
          let (row, found, short, same) =
            attempt_rows-eq-ok db k status store.offer_cards rows' e in
          let fit =
            All-In IsCardRow (k, row) store.offer_cards h.fits
              (lookup-In k row store.offer_cards found) in
          rw (e, same)
            (replace-IsShelf sequence IsCardRow store.offer_cards h k row (attempted status row)
              found refl
              (record {
                keyed = fit.keyed;
                described = fit.described;
                counted = fit.counted;
                attempt = short;
              }))
      | inr (x, e) ↦ rw e h
    ]

-- the detail has at most 512 bytes
abbrev pub FitsDetail : OfferAttemptStatus → Type 0
FitsDetail status = (detail : Text) → status.detail ≡ some detail → byte_len detail ≤ 512

-- after the answer ok, the card reads back with this attempt as its last one
abbrev pub IsRecorded : CardKey → OfferAttemptStatus → Outcome (Unit {0}) → Type 0
IsRecorded k status outcome =
    (outcome.0 ≡ ok tt)
    × (row : OfferCardRecord) × (get_offer_card no_faults k.0 k.1 outcome.1 ≡ ok (some row))
    × (row.last_attempt ≡ some status)

detail_fits :
    (status : OfferAttemptStatus) → detail_too_large status.detail ≡ false → FitsDetail status
detail_fits status h detail same =
    let small : detail_too_large (some detail) ≡ false = ap detail_too_large (sym same) ∙ h in
    ground arith

detail_overflows :
    (status : OfferAttemptStatus) → detail_too_large status.detail ≡ true → ¬ (FitsDetail status)
detail_overflows status h fits = elim (Option-cases status.detail) [
  | inl gone ↦ (let large = rw gone at h in absurd (ground arith))
  | inr (detail, same) ↦
      let bound = fits detail same in
      let large : detail_too_large (some detail) ≡ true = ap detail_too_large (sym same) ∙ h in
      absurd (ground arith)
]

-- the card is stored
abbrev pub IsStored : CardKey → RedbV2Store → Type 0
IsStored k store =
    (row : OfferCardRecord) × (get_offer_card no_faults k.0 k.1 store ≡ ok (some row))

record_offer_attempt_cases :
    (k : CardKey) (status : OfferAttemptStatus) (store : RedbV2Store)
    → (IsRecorded k status (record_offer_attempt no_faults k.0 k.1 status store)
        × FitsDetail status
        × IsStored k store)
      ⊎ ((x : StoreError) × (record_offer_attempt no_faults k.0 k.1 status store ≡ (err x, store)))
        × (FitsDetail status → get_offer_card no_faults k.0 k.1 store ≡ ok none)
unfolding record_offer_attempt attempt_rows
record_offer_attempt_cases k status store = elim (Bool-cases (detail_too_large status.detail)) [
  | inl e ↦
      inr ((attempt_detail_too_large, rw e refl), λ fits. absurd (detail_overflows status e fits))
  | inr e ↦ elim (Option-cases (lookup k store.offer_cards)) [
    | inl missing ↦
        inr (
          (card_missing, rw (e, missing) refl),
          λ fits. get_offer_card_calm k store ∙ ap ok missing,
        )
    | inr (row, found) ↦
        let rows' = insert k (attempted status row) store.offer_cards in
        let after : RedbV2Store = record store { offer_cards = rows' } in
        let read =
          get_offer_card_calm k after
          ∙ ap ok (lookup-insert_self k (attempted status row) store.offer_cards) in
        inl (
          rw (e, found) (refl, attempted status row, read, refl),
          detail_fits status e,
          (row, get_offer_card_calm k store ∙ ap ok found),
        )
  ]
]

-- Without faults, an attempt is answered with ok and its card then reads back with it as the last
-- attempt, exactly when its detail has at most 512 bytes and its card is stored; otherwise the
-- answer is an error and the store is as it was.
pub record_offer_attempt_iff :
    (k : CardKey) (status : OfferAttemptStatus) (store : RedbV2Store)
    → (IsRecorded k status (record_offer_attempt no_faults k.0 k.1 status store)
        ↔ (FitsDetail status × IsStored k store))
      × (¬ (IsRecorded k status (record_offer_attempt no_faults k.0 k.1 status store))
          → (x : StoreError) × (record_offer_attempt no_faults k.0 k.1 status store
              ≡ (err x, store)))
record_offer_attempt_iff k status store = elim (record_offer_attempt_cases k status store) [
  | inl (made, fits, stored) ↦
      ((λ _. (fits, stored), λ _. made), λ none_made. absurd (none_made made))
  | inr ((x, refused), gone) ↦ (
    (
      λ made. (let said = ap (λ r. r.0) (sym refused) ∙ made.0 in absurd (ground arith)),
      λ (fits, (row, read)). (let clash = sym (gone fits) ∙ read in absurd (ground arith)),
    ),
    λ _. (x, refused),
  )
]

-- Without faults, recording an attempt whose detail fits on a stored card leaves every other card
-- and this card's descriptor and sequence number, stores the attempt, and never makes a card
-- available that was not.
pub record_offer_attempt_effect :
    (k : CardKey) (status : OfferAttemptStatus) (store : RedbV2Store) (row : OfferCardRecord)
    → get_offer_card no_faults k.0 k.1 store ≡ ok (some row)
    → detail_too_large status.detail ≡ false
    → ((j : CardKey)
        → j ≢ k
        → get_offer_card no_faults j.0 j.1 (record_offer_attempt no_faults k.0 k.1 status store).1
          ≡ get_offer_card no_faults j.0 j.1 store)
      × (row' : OfferCardRecord) × (get_offer_card no_faults k.0 k.1
            (record_offer_attempt no_faults k.0 k.1 status store).1
          ≡ ok (some row'))
      × (row'.descriptor ≡ row.descriptor)
      × (row'.received_sequence ≡ row.received_sequence)
      × (row'.last_attempt ≡ some status)
      × (row'.availability ≡ available → row.availability ≡ available)
unfolding record_offer_attempt attempt_rows
record_offer_attempt_effect k status store row read fits =
    let found : lookup k store.offer_cards ≡ some row =
      ground (arith, get_offer_card_calm k store) in
    let rows' = insert k (attempted status row) store.offer_cards in
    let after : RedbV2Store = record store { offer_cards = rows' } in
    let read_after = λ (j : CardKey).
      get_offer_card_calm j after
      ∙ ap ok (lookup-insert k j (attempted status row) store.offer_cards) in
    rw (found, fits)
      (
        (λ j other. ground (arith, read_after j, get_offer_card_calm j store, pair_eqb_iff k j)),
        attempted status row,
        ground (arith, read_after k, pair_eqb_iff k k),
        refl,
        refl,
        refl,
        λ p. availability-back status row p,
      )
