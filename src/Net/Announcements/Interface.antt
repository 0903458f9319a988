-- ===== src/Net/Announcements/Interface.antt =====
-- What the handler of announcements asks of a store of cards, that the program's store gives it,
-- and what the handler then promises of its acknowledgements.
use meshelf.Base.{
  ℕ, ◌+◌, ◌≤◌, ◌≡◌, refl, inl, inr, Bool, true, false, Option, none, some, Result, ok, err, arith,
  Bool-cases, Option-cases, ltb, ◌==◌, length,
}
use meshelf.Base.Actions.{Ends, Ends-bind}
use meshelf.Base.Text.{Text, lit, byte_len, len_utf8}
use meshelf.Base.Text.Laws.{byte_len-append}
use meshelf.Core.Model.{DeviceId, OfferId, max_live_entries, u32_max}
use meshelf.Core.Offer.{descriptor_eq}
use meshelf.Core.Records.{StoreError, OfferCardRecord, OfferCardInput}
use meshelf.Protocol.Messages.{
  OfferAnnouncement, OfferAck, OfferAckCode, duplicate, refused_conflict, ProtocolError,
  v2_max_status_detail_bytes,
}
use meshelf.Protocol.Validate.{validate_announcement, validate_ack, validate_detail}
use meshelf.Net.Errors.{Display}
use meshelf.Net.Announcements.{
  OfferCardStore, told_outcome, ack, again_ack, card_of, told, live_count, add_offer, answer_offer,
  locked_sync, valid_sync, checked_sync, addressed_sync, handle_sync,
}

-- The laws: an invariant that every operation keeps, and under which the shelf is full at ten.
pub record IsCardStore {S : Type 0} (store : OfferCardStore S) (Keeps : S → Type 0) : Type 0 where
  pub shelf :
      (state : S)
      → Keeps state
      → Ends Keeps (λ cards. length cards ≤ max_live_entries) (store.read_offer_shelf state)
  pub card :
      (source_device : DeviceId) (offer_id : OfferId) (state : S)
      → Keeps state
      → Ends Keeps (λ _. Unit) (store.get_offer_card source_device offer_id state)
  pub insertion :
      (input : OfferCardInput) (state : S)
      → Keeps state
      → Ends Keeps (λ _. Unit) (store.insert_offer_card input state)

-- an acknowledgement of this offer that the protocol accepts
abbrev pub IsAck : OfferAnnouncement → OfferAck → Type 0
IsAck announcement answer =
    (answer.offer_id ≡ announcement.offer_id) × (validate_ack answer ≡ ok tt)

-- the text of a validation error fits in an acknowledgement
abbrev pub IsTellable : Display → OfferAnnouncement → Type 0
IsTellable display announcement =
    (e : ProtocolError)
    → validate_announcement announcement ≡ err e
    → byte_len (display.protocol_error e) + 28 ≤ v2_max_status_detail_bytes

ack-IsAck :
    (announcement : OfferAnnouncement) (code : OfferAckCode) (live_entries pruned_entries : ℕ)
    (detail : Option Text)
    → live_entries ≤ max_live_entries
    → validate_detail detail ≡ ok tt
    → IsAck announcement (ack announcement.offer_id code live_entries pruned_entries detail)
unfolding validate_ack
ack-IsAck announcement code live_entries pruned_entries detail small valid =
    (refl, rw valid (ground arith))

no_detail : validate_detail none ≡ ok tt
unfolding validate_detail
no_detail = refl

prefix : byte_len (lit "invalid offer announcement: ") ≡ 28
unfolding byte_len len_utf8
prefix = refl

-- the details that the handler itself writes
literal_details :
    (validate_detail (some (lit "offer ID is already stored with a different descriptor")) ≡ ok tt)
    × (validate_detail (some (lit "source device does not match authenticated client")) ≡ ok tt)
    × (validate_detail (some (lit "target device does not match listener")) ≡ ok tt)
unfolding validate_detail byte_len len_utf8
literal_details = (refl, refl, refl)

detail_fits :
    (detail : Text)
    → byte_len detail ≤ v2_max_status_detail_bytes
    → validate_detail (some detail) ≡ ok tt
unfolding validate_detail
detail_fits detail h = ground arith

module _ {S : Type 0} (display : Display) (store : OfferCardStore S) {Keeps : S → Type 0}
    (laws : IsCardStore store Keeps) where
  told-Ends :
      {A : Type 0} (P : A → Type 0) (outcome : Result StoreError A × S)
      → Ends Keeps P outcome
      → Ends Keeps P (told_outcome display outcome)
  told-Ends P (ok value, after) h = h
  told-Ends P (err e, after) h = h

  live_count-Ends :
      (state : S)
      → Keeps state
      → Ends Keeps (λ n. n ≤ max_live_entries) (live_count display store state)
  unfolding live_count
  live_count-Ends state keeps =
      Ends-bind Keeps _ _ (told display store.read_offer_shelf state) _
        (told-Ends _ _ (laws.shelf state keeps))
        (λ cards after kept few.
          let fits : ltb u32_max (length cards) ≡ false = ground arith in rw fits (kept, few))

  add_offer-Ends :
      (source : DeviceId) (announcement : OfferAnnouncement) (state : S)
      → Keeps state
      → Ends Keeps (IsAck announcement) (add_offer display store source announcement state)
  unfolding add_offer
  add_offer-Ends source announcement state keeps =
      Ends-bind Keeps (λ _. Unit) _
        (told display (store.insert_offer_card (card_of source announcement)) state) _
        (told-Ends _ _ (laws.insertion (card_of source announcement) state keeps))
        (λ inserted after kept _.
          Ends-bind Keeps _ _ (live_count display store after) _ (live_count-Ends after kept)
            (λ live end done few.
              (done, ack-IsAck announcement _ live inserted.purged none few no_detail)))

  again_ack-IsAck :
      (announcement : OfferAnnouncement) (card : OfferCardRecord) (live : ℕ)
      → live ≤ max_live_entries
      → IsAck announcement (again_ack announcement card live)
  again_ack-IsAck announcement card live few =
      elim (Bool-cases (descriptor_eq card.descriptor announcement.descriptor)) [
        | inl e ↦ rw e (ack-IsAck announcement duplicate live 0 none few no_detail)
        | inr e ↦ rw e (ack-IsAck announcement refused_conflict live 0 _ few (literal_details.0))
      ]

  locked_sync-Ends :
      (source : DeviceId) (announcement : OfferAnnouncement) (state : S)
      → Keeps state
      → Ends Keeps (IsAck announcement) (locked_sync display store source announcement state)
  unfolding locked_sync answer_offer
  locked_sync-Ends source announcement state keeps =
      Ends-bind Keeps _ _ (live_count display store state) _ (live_count-Ends state keeps)
        (λ live after kept few.
          Ends-bind Keeps (λ _. Unit) _
            (told display (store.get_offer_card source announcement.offer_id) after) _
            (told-Ends _ _ (laws.card source announcement.offer_id after kept))
            (λ existing end done _. elim (Option-cases existing) [
              | inl e ↦ rw e (add_offer-Ends source announcement end done)
              | inr (card, e) ↦ rw e (done, again_ack-IsAck announcement card live few)
            ]))

  valid_sync-Ends :
      (poisoned : Bool) (source : DeviceId) (announcement : OfferAnnouncement) (state : S)
      → Keeps state
      → Ends Keeps
          (IsAck announcement)
          (valid_sync display store poisoned source announcement state)
  unfolding valid_sync
  valid_sync-Ends true source announcement state keeps = keeps
  valid_sync-Ends false source announcement state keeps =
      locked_sync-Ends source announcement state keeps

  checked_sync-Ends :
      (poisoned : Bool) (source : DeviceId) (announcement : OfferAnnouncement) (live : ℕ)
      (valid : Result ProtocolError (Unit {0})) (state : S)
      → ((e : ProtocolError)
          → valid ≡ err e
          → byte_len (display.protocol_error e) + 28 ≤ v2_max_status_detail_bytes)
      → live ≤ max_live_entries
      → Keeps state
      → Ends Keeps
          (IsAck announcement)
          (checked_sync display store poisoned source announcement live valid state)
  unfolding checked_sync
  checked_sync-Ends poisoned source announcement live (ok _) state tell few keeps =
      valid_sync-Ends poisoned source announcement state keeps
  checked_sync-Ends poisoned source announcement live (err error) state tell few keeps = (
    keeps,
    ack-IsAck announcement _ live 0 _ few (
        detail_fits _ (
          omega (
            arith,
            tell error refl,
            byte_len-append (lit "invalid offer announcement: ") (display.protocol_error error),
            prefix,
          ))),
  )

  -- On every store of cards that keeps an invariant, under which it lists at most ten cards,
  -- handle_sync keeps the invariant and acknowledges only with this offer's identifier and in a
  -- form that the protocol's validation accepts; a validation error of the announcement is told in
  -- a text that fits.
  pub handle_sync-IsAck :
      (poisoned : Bool) (source listener : DeviceId) (announcement : OfferAnnouncement) (state : S)
      → IsTellable display announcement
      → Keeps state
      → Ends Keeps
          (IsAck announcement)
          (handle_sync display store poisoned source listener announcement state)
  unfolding handle_sync addressed_sync
  handle_sync-IsAck poisoned source listener announcement state tell keeps =
      Ends-bind Keeps _ _ (live_count display store state) _ (live_count-Ends state keeps)
        (λ live after kept few. elim (Bool-cases (announcement.source_device == source)) [
          | inr e ↦ rw e (kept, ack-IsAck announcement _ live 0 _ few (literal_details.1))
          | inl e ↦ elim (Bool-cases (announcement.target_device == listener)) [
            | inr f ↦ rw (e, f) (kept, ack-IsAck announcement _ live 0 _ few (literal_details.2))
            | inl f ↦
                rw (e, f)
                  (checked_sync-Ends poisoned source announcement live
                    (validate_announcement announcement) after tell few kept)
          ]
        ])
