-- ===== src/Net/Announcements/Tests.antt =====
-- An announcement of a file, on an empty store.
use meshelf.Base.{◌+◌, length, ◌≡◌, refl, false, [], some, ok, arith}
use meshelf.Base.Actions.{Ends}
use meshelf.Base.Map.{pair_key, lookup, erase, place, insert}
use meshelf.Base.Text.{lit, byte_len, len_utf8}
use meshelf.Core.Offer.{file, validate_root_name, validate}
use meshelf.Protocol.Messages.{OfferAnnouncement}
use meshelf.Protocol.Validate.{validate_announcement}
use meshelf.Store.Cards.{get_offer_card}
use meshelf.Store.Cards.Laws.{added_card}
use meshelf.Store.Cards.Reads.{CanAdd, with_card}
use meshelf.Store.Database.{no_faults, empty_store}
use meshelf.Store.Purge.{remove_all, oldest, maximum}
use meshelf.Store.Rows.{IsShelf-empty}
use meshelf.Net.Errors.{Display}
use meshelf.Net.Announcements.{card_of, handle_sync, redb_cards, Database}
use meshelf.Net.Announcements.Interface.{IsAck, IsTellable, handle_sync-IsAck}
use meshelf.Net.Announcements.Outcome.{IsAddressed, Settled, handle_sync-Settled}
use meshelf.Net.Announcements.RedbCards.{KeepsCards, redb_cards-IsCardStore}
use meshelf.Net.Announcements.Stored.{stored_ack, handle_sync_stores}

announcement_runs : Unit {0}
unfolding byte_len len_utf8 lookup erase place insert validate_root_name validate
    validate_announcement remove_all oldest maximum
announcement_runs = tt

abbrev display : Display
display = record { store_error = λ e. lit "store"; protocol_error = λ e. lit "protocol" }

abbrev announcement : OfferAnnouncement
announcement = record {
  protocol_version = 2;
  offer_id = 9;
  source_device = 5;
  target_device = 6;
  created_at_unix_ms = 0;
  descriptor = file (lit "a.txt") 12;
}

abbrev database : Database
database = ([], empty_store)

addressed : IsAddressed 5 6 announcement
unfolding announcement_runs
addressed = (refl, refl, refl)

can_add : CanAdd (card_of 5 announcement) empty_store
unfolding announcement_runs
can_add = (IsShelf-empty _ _, refl, refl, omega arith)

tellable : IsTellable display announcement
unfolding announcement_runs
tellable e h = omega arith

answer_valid :
    Ends KeepsCards
      (IsAck announcement)
      (handle_sync display redb_cards false 5 6 announcement database)
answer_valid =
    handle_sync-IsAck display redb_cards redb_cards-IsCardStore false 5 6 announcement database
      tellable (IsShelf-empty _ _)

offer_stored :
    (handle_sync display redb_cards false 5 6 announcement ([], empty_store) ≡ (
      ok (stored_ack 5 announcement empty_store),
      ([], with_card (card_of 5 announcement) empty_store),
    ))
    × (get_offer_card no_faults 5 9 (with_card (card_of 5 announcement) empty_store)
        ≡ ok (some (added_card (card_of 5 announcement) [])))
    × ((stored_ack 5 announcement empty_store).live_entries
          + (stored_ack 5 announcement empty_store).pruned_entries
        ≡ length empty_store.offer_cards + 1)
offer_stored = handle_sync_stores display 5 announcement empty_store can_add 6 addressed

offer-Settled :
    Settled 5 6 announcement empty_store
      (with_card (card_of 5 announcement) empty_store)
      (stored_ack 5 announcement empty_store).code
offer-Settled =
    handle_sync-Settled display false 5 6 announcement database
      ([], with_card (card_of 5 announcement) empty_store) (offer_stored.0)
