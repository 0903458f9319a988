-- ===== src/Net/Announcements/Outcome.antt =====
-- What an acknowledgement of the handler over the program's store says of the offer.
use meshelf.Base.{
  ℕ, ◌≡◌, refl, sym, ap, subst, ◌∙◌, inl, inr, ltb, ◌⊎◌, Bool, true, false, Option, none, some,
  Result, ok, err, arith, Bool-cases, Result-cases, if◌then◌else◌, length, ◌==◌,
}
use meshelf.Base.Actions.{bind_outcome-eq-ok}
use meshelf.Base.Map.{pair_key, lookup}
use meshelf.Base.Map.Laws.{lookup-insert_self}
use meshelf.Core.Model.{u32_max, DeviceId}
use meshelf.Core.Offer.{descriptor_eq, available}
use meshelf.Core.Records.{StoreError, OfferCardRecord, OfferCardInsert}
use meshelf.Protocol.Messages.{
  ProtocolError, OfferAnnouncement, OfferAck, OfferAckCode, stored, duplicate, refused_invalid,
  refused_conflict,
}
use meshelf.Protocol.Validate.{validate_announcement}
use meshelf.Store.Cards.{CardRows, read_offer_shelf, insert_offer_card, insert_card_rows}
use meshelf.Store.Cards.Laws.{
  Inserted, again, added, insert_card_rows-Inserted, added_card, kept_cards,
}
use meshelf.Store.Database.{Faults, RedbV2Store}
use meshelf.Net.Errors.{Display, NetError}
use meshelf.Net.Announcements.{
  card_of, told, told_outcome, live_count, add_offer, answer_offer, locked_sync, valid_sync,
  checked_sync, addressed_sync, handle_sync, Database, next_faults, later_faults, redb_cards,
}
use meshelf.Net.Announcements.RedbCards.{get_offer_card-eq-ok}

-- The offer of an announcement, as the store has it.
abbrev pub card_at : DeviceId → OfferAnnouncement → RedbV2Store → Option OfferCardRecord
card_at source announcement store = lookup (source, announcement.offer_id) store.offer_cards

-- from the device that the connection proved, to this device, and valid
abbrev pub IsAddressed : DeviceId → DeviceId → OfferAnnouncement → Type 0
IsAddressed source listener announcement =
    (announcement.source_device ≡ source)
    × (announcement.target_device ≡ listener)
    × (validate_announcement announcement ≡ ok tt)

-- The acknowledgements of an offer that is not refused as invalid, with the store before and after.
pub data Acked (source : DeviceId) (announcement : OfferAnnouncement) (before after : RedbV2Store)
    : OfferAckCode → Type 0 where
  repeated :
      (card : OfferCardRecord)
      → card_at source announcement before ≡ some card
      → descriptor_eq card.descriptor announcement.descriptor ≡ true
      → after ≡ before
      → Acked source announcement before after duplicate
  conflicting :
      (card : OfferCardRecord)
      → card_at source announcement before ≡ some card
      → descriptor_eq card.descriptor announcement.descriptor ≡ false
      → after ≡ before
      → Acked source announcement before after refused_conflict
  kept :
      (card : OfferCardRecord)
      → card_at source announcement before ≡ none
      → card_at source announcement after ≡ some card
      → card.descriptor ≡ announcement.descriptor
      → card.availability ≡ available
      → Acked source announcement before after stored

-- What an acknowledgement says of the offer: that it is stored, was stored, or meets another one; or
-- that it was not addressed to this store, which is then unchanged.
abbrev pub Settled :
    DeviceId → DeviceId → OfferAnnouncement → (before after : RedbV2Store) → OfferAckCode → Type 0
Settled source listener announcement before after code =
    (IsAddressed source listener announcement × Acked source announcement before after code)
    ⊎ ((¬ (IsAddressed source listener announcement)) × (code ≡ refused_invalid) × (after ≡ before))

module _ (display : Display) where
  told_outcome-result :
      {A : Type 0} (result : Result StoreError A) (state : Database) {value : A}
      → (told_outcome display (result, state)).0 ≡ ok value
      → result ≡ ok value
  told_outcome-result (ok v) state h = ground arith
  told_outcome-result (err e) state h = cc

  told_outcome-state :
      {A : Type 0} (result : Result StoreError A) (state : Database)
      → (told_outcome display (result, state)).1 ≡ state
  told_outcome-state (ok v) state = refl
  told_outcome-state (err e) state = refl

  live_count-store : (state : Database) → ((live_count display redb_cards state).1).1 ≡ state.1
  unfolding live_count
  live_count-store (dbs, store) = elim (Result-cases (read_offer_shelf (next_faults dbs) store)) [
    | inl (cards, e) ↦
        rw e
          (elim (Bool-cases (ltb u32_max (length cards))) [ inl p ↦ rw p refl | inr p ↦ rw p refl ])
    | inr (x, e) ↦ rw e refl
  ]

  module _ (source : DeviceId) (announcement : OfferAnnouncement) where
    Acked-along :
        {before after after' : RedbV2Store} {code code' : OfferAckCode}
        → Acked source announcement before after code
        → after' ≡ after
        → code' ≡ code
        → Acked source announcement before after' code'
    Acked-along h same_store same_code = rw (same_store, same_code) h

    -- the end of an action that only answers
    answered :
        {answer answer' : OfferAck} {mid end : Database}
        → ◌≡◌ {A = Result NetError OfferAck × Database} (ok answer, mid) (ok answer', end)
        → (answer' ≡ answer) × (end ≡ mid)
    answered h = (ground (arith, ap (λ p. p.0) h), sym (ap (λ p. p.1) h))

    Inserted-Acked :
        (db : Faults) (store : RedbV2Store) {r : OfferCardInsert} {rows : CardRows}
        → Inserted db (card_of source announcement) store.offer_cards r rows
        → card_at source announcement store ≡ none
        → Acked source announcement store
            (record store { offer_cards = rows })
            (if r.inserted then stored else duplicate)
    Inserted-Acked db store (again row r rows found same unchanged) new = absurd (ground arith)
    Inserted-Acked db store (added r rows new valid same room inserted) _ =
        let row = added_card (card_of source announcement) store.offer_cards in
        let there : lookup (source, announcement.offer_id) rows ≡ some row =
          rw same (
            lookup-insert_self (source, announcement.offer_id) row
              (kept_cards store.offer_cards)) in
        rw inserted (kept row new there refl refl)

    insert-Acked :
        (db : Faults) (store : RedbV2Store) {r : OfferCardInsert}
        → card_at source announcement store ≡ none
        → (insert_offer_card db (card_of source announcement) store).0 ≡ ok r
        → Acked source announcement store
            (insert_offer_card db (card_of source announcement) store).1
            (if r.inserted then stored else duplicate)
    unfolding insert_offer_card
    insert-Acked db store {r} new h =
        elim (Result-cases (insert_card_rows db (card_of source announcement) store.offer_cards)) [
          | inl ((r', rows), e) ↦
              let same : r' ≡ r = ground arith in
              let i =
                insert_card_rows-Inserted db (card_of source announcement) store.offer_cards r' rows
                  e in
              rw (e, sym same) (Inserted-Acked db store i new)
          | inr (x, e) ↦ absurd (ground arith)
        ]

    add_offer-Acked :
        (state end : Database) {answer : OfferAck}
        → card_at source announcement state.1 ≡ none
        → add_offer display redb_cards source announcement state ≡ (ok answer, end)
        → Acked source announcement state.1 end.1 answer.code
    unfolding add_offer
    add_offer-Acked (dbs, store) end {answer} new h =
        let input = card_of source announcement in
        let (inserted, done, h1) =
          bind_outcome-eq-ok (told display (redb_cards.insert_offer_card input) (dbs, store)) _ h in
        let mid = (told display (redb_cards.insert_offer_card input) (dbs, store)).1 in
        let (live, counted, h2) = bind_outcome-eq-ok (live_count display redb_cards mid) _ h1 in
        let (said, left) = answered h2 in
        let (result, after) = insert_offer_card (next_faults dbs) input store in
        let moved = told_outcome-state result (later_faults dbs, after) in
        Acked-along
          (insert-Acked (next_faults dbs) store new
            (told_outcome-result result (later_faults dbs, after) done))
          (ap (λ d. d.1) left ∙ live_count-store mid ∙ ap (λ d. d.1) moved) (ap (λ r. r.code) said)

    -- after the lookup
    found-Acked :
        (existing : Option OfferCardRecord) (live : ℕ) (state end : Database) {answer : OfferAck}
        → existing ≡ card_at source announcement state.1
        → answer_offer display redb_cards source announcement live existing state ≡ (ok answer, end)
        → Acked source announcement state.1 end.1 answer.code
    unfolding answer_offer
    found-Acked none live state end new h = add_offer-Acked state end (sym new) h
    found-Acked (some card) live state end found h =
        let (said, left) = answered h in
        let code = ap (λ r. r.code) said in
        let same = ap (λ d. d.1) left in
        elim (Bool-cases (descriptor_eq card.descriptor announcement.descriptor)) [
          | inl e ↦ Acked-along (repeated card (sym found) e refl) same (code ∙ rw e refl)
          | inr e ↦ Acked-along (conflicting card (sym found) e refl) same (code ∙ rw e refl)
        ]

    locked_sync-Acked :
        (state end : Database) {answer : OfferAck}
        → locked_sync display redb_cards source announcement state ≡ (ok answer, end)
        → Acked source announcement state.1 end.1 answer.code
    unfolding locked_sync
    locked_sync-Acked state end {answer} h =
        let (live, counted, h1) = bind_outcome-eq-ok (live_count display redb_cards state) _ h in
        let counting = (live_count display redb_cards state).1 in
        let operation = redb_cards.get_offer_card source announcement.offer_id in
        let (existing, done, h2) = bind_outcome-eq-ok (told display operation counting) _ h1 in
        let result = told_outcome-result (operation counting).0 (operation counting).1 done in
        let moved =
          ap (λ d. d.1) (told_outcome-state (operation counting).0 (operation counting).1) in
        let same = moved ∙ live_count-store state in
        subst (λ store. Acked source announcement store end.1 answer.code) same
          (found-Acked existing live (told display operation counting).1 end
            (get_offer_card-eq-ok (next_faults (counting.0)) source announcement.offer_id counting.1
                result
              ∙ ap (λ store. card_at source announcement store) (sym moved))
            h2)

    valid_sync-Acked :
        (poisoned : Bool) (state end : Database) {answer : OfferAck}
        → valid_sync display redb_cards poisoned source announcement state ≡ (ok answer, end)
        → Acked source announcement state.1 end.1 answer.code
    unfolding valid_sync
    valid_sync-Acked true state end h = absurd (ground (arith, ap (λ p. p.0) h))
    valid_sync-Acked false state end h = locked_sync-Acked state end h

    checked_sync-Settled :
        (listener : DeviceId) (poisoned : Bool) (live : ℕ) (valid : Result ProtocolError (Unit {0}))
        (state end : Database) {answer : OfferAck}
        → announcement.source_device ≡ source
        → announcement.target_device ≡ listener
        → validate_announcement announcement ≡ valid
        → checked_sync display redb_cards poisoned source announcement live valid state
          ≡ (ok answer, end)
        → Settled source listener announcement state.1 end.1 answer.code
    unfolding checked_sync
    checked_sync-Settled listener poisoned live (ok _) state end from to valid h =
        inl ((from, to, valid), valid_sync-Acked poisoned state end h)
    checked_sync-Settled listener poisoned live (err e) state end from to valid h =
        let (said, left) = answered h in
        inr
          ((λ fits. let clash = fits.2 in ground arith), ap (λ r. r.code) said, ap (λ d. d.1) left)

    addressed_sync-Settled :
        (listener : DeviceId) (poisoned : Bool) (live : ℕ) (state end : Database)
        {answer : OfferAck}
        → addressed_sync display redb_cards poisoned source listener announcement live state
          ≡ (ok answer, end)
        → Settled source listener announcement state.1 end.1 answer.code
    unfolding addressed_sync
    addressed_sync-Settled listener poisoned live state end {answer} h =
        elim (Bool-cases (announcement.source_device == source)) [
          | inr e ↦
              let (said, left) = answered (rw e at h) in
              inr (
                (λ fits. let clash = fits.0 in ground arith),
                ap (λ r. r.code) said,
                ap (λ d. d.1) left,
              )
          | inl e ↦ elim (Bool-cases (announcement.target_device == listener)) [
            | inr f ↦
                let (said, left) = answered (rw (e, f) at h) in
                inr (
                  (λ fits. let clash = fits.1 in ground arith),
                  ap (λ r. r.code) said,
                  ap (λ d. d.1) left,
                )
            | inl f ↦
                checked_sync-Settled listener poisoned live (validate_announcement announcement)
                  state end (ground arith) (ground arith) refl (rw (e, f) at h)
          ]
        ]

  -- Whatever the database reports, an acknowledgement of handle_sync tells what happened:
  -- refused_invalid exactly when the announcement is not addressed from this source to this
  -- listener or not valid, and then the store is as it was; stored when a new card with the
  -- announcement's descriptor is in the store, duplicate or refused_conflict when a card of this
  -- offer with the same descriptor or with another was there already, and then the store is as it
  -- was.
  pub handle_sync-Settled :
      (poisoned : Bool) (source listener : DeviceId) (announcement : OfferAnnouncement)
      (state end : Database) {answer : OfferAck}
      → handle_sync display redb_cards poisoned source listener announcement state
        ≡ (ok answer, end)
      → Settled source listener announcement state.1 end.1 answer.code
  unfolding handle_sync
  handle_sync-Settled poisoned source listener announcement state end {answer} h =
      let (live, counted, h1) = bind_outcome-eq-ok (live_count display redb_cards state) _ h in
      subst (λ store. Settled source listener announcement store end.1 answer.code)
        (live_count-store state)
        (addressed_sync-Settled source announcement listener poisoned live
          (live_count display redb_cards state).1 end h1)
