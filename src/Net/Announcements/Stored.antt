-- ===== src/Net/Announcements/Stored.antt =====
-- The announcement of a new offer, on a database without faults.
use meshelf.Base.{
  ◌+◌, ◌≡◌, refl, ap, ◌∙◌, false, true, none, some, [], ok, arith, length, ltb, ◌==◌,
}
use meshelf.Base.Map.{pair_key}
use meshelf.Base.Map.Laws.{lookup-insert_self}
use meshelf.Core.Model.{DeviceId, u32_max}
use meshelf.Protocol.Messages.{OfferAnnouncement, OfferAck, stored}
use meshelf.Store.Cards.{sequence, get_offer_card}
use meshelf.Store.Cards.Laws.{IsCards, added_card, kept_cards, insert_offer_card-IsCards}
use meshelf.Store.Cards.Reads.{
  CanAdd, with_card, insert_card_new, get_offer_card_calm, read_offer_shelf_sorted,
}
use meshelf.Store.Database.{no_faults, RedbV2Store}
use meshelf.Store.Purge.{target}
use meshelf.Store.Purge.Count.{length-insert_purged}
use meshelf.Net.Errors.{Display}
use meshelf.Net.Announcements.{
  ack, card_of, live_count, add_offer, answer_offer, locked_sync, valid_sync, checked_sync,
  addressed_sync, handle_sync, redb_cards,
}
use meshelf.Net.Announcements.Outcome.{IsAddressed}
use meshelf.Net.Announcements.RedbCards.{read_offer_shelf-eq-ok}

-- the acknowledgement of a new offer
abbrev pub stored_ack : DeviceId → OfferAnnouncement → RedbV2Store → OfferAck
stored_ack source announcement store =
    ack announcement.offer_id stored
      (length (with_card (card_of source announcement) store).offer_cards)
      (target store.offer_cards) none

module _ (display : Display) where
  live_count_calm :
      (store : RedbV2Store)
      → IsCards store.offer_cards
      → live_count display redb_cards ([], store) ≡ (ok (length store.offer_cards), ([], store))
  unfolding live_count
  live_count_calm store shelf =
      let (cards, read, _, _) = read_offer_shelf_sorted store in
      let size = read_offer_shelf-eq-ok no_faults store read in
      let fits : ltb u32_max (length cards) ≡ false = ground (arith, shelf.live) in
      rw (read, fits, size) refl

  module _ (source : DeviceId) (announcement : OfferAnnouncement) (store : RedbV2Store)
      (can : CanAdd (card_of source announcement) store) where
    with_card-IsCards : IsCards (with_card (card_of source announcement) store).offer_cards
    with_card-IsCards =
        let made = insert_card_new (card_of source announcement) store can in
        rw (ap (λ r. r.1) made) at
          (insert_offer_card-IsCards no_faults (card_of source announcement) store can.0)

    add_offer_calm : add_offer display redb_cards source announcement ([], store) ≡ (
      ok (stored_ack source announcement store),
      ([], with_card (card_of source announcement) store),
    )
    unfolding add_offer
    add_offer_calm =
        rw
          (
            insert_card_new (card_of source announcement) store can,
            live_count_calm (with_card (card_of source announcement) store) with_card-IsCards,
          )
          refl

    locked_sync_calm : locked_sync display redb_cards source announcement ([], store) ≡ (
      ok (stored_ack source announcement store),
      ([], with_card (card_of source announcement) store),
    )
    unfolding locked_sync answer_offer
    locked_sync_calm =
        rw
          (
            live_count_calm store can.0,
            get_offer_card_calm (source, announcement.offer_id) store,
            can.2,
          )
          add_offer_calm

    -- Without faults, a valid announcement from this source to this listener, of an offer whose
    -- card is not stored, is acknowledged as stored; the acknowledgement gives the number of cards
    -- after the insertion and the number of purged cards, which together are one more than the
    -- cards before; and the card then reads back. The shelf of cards is valid and its sequence
    -- numbers are not used up.
    pub handle_sync_stores :
        (listener : DeviceId)
        → IsAddressed source listener announcement
        → (handle_sync display redb_cards false source listener announcement ([], store) ≡ (
          ok (stored_ack source announcement store),
          ([], with_card (card_of source announcement) store),
        ))
          × (get_offer_card no_faults source announcement.offer_id
                (with_card (card_of source announcement) store)
              ≡ ok (some (added_card (card_of source announcement) store.offer_cards)))
          × ((stored_ack source announcement store).live_entries
                + (stored_ack source announcement store).pruned_entries
              ≡ length store.offer_cards + 1)
    unfolding handle_sync addressed_sync checked_sync valid_sync
    handle_sync_stores listener (from, to, valid) =
        let here : (announcement.source_device == source) ≡ true = ground arith in
        let there : (announcement.target_device == listener) ≡ true = ground arith in
        (
          rw (live_count_calm store can.0, valid, here, there) locked_sync_calm,
          get_offer_card_calm (source, announcement.offer_id)
                (with_card (card_of source announcement) store)
              ∙ ap ok (
                  lookup-insert_self (source, announcement.offer_id)
                    (added_card (card_of source announcement) store.offer_cards)
                    (kept_cards store.offer_cards)),
          length-insert_purged sequence (source, announcement.offer_id)
              (added_card (card_of source announcement) store.offer_cards) store.offer_cards
              (can.0).distinct can.2,
        )
