-- ===== src/Store/Cards/Tests.antt =====
-- The shelf of cards at concrete inputs: two cards, an attempt, and the eleventh card.
use meshelf.Base.{
  err, ℕ, zero, suc, ◌≤◌, ◌<◌, ◌≡◌, refl, ◌≢◌, ◌↔◌, true, false, List, [], map, none, some, arith,
  ok, Pairs,
}
use mathlib.Core.List.{Perm}
use meshelf.Base.Text.{lit, byte_len, len_utf8}
use meshelf.Base.Map.{pair_key, lookup, erase, place, insert}
use meshelf.Base.Sort.{sort_in, sort}
use meshelf.Core.Model.{OfferId}
use meshelf.Core.Offer.{file, available, validate_root_name, validate}
use meshelf.Core.Records.{
  StoreError, OfferCardRecord, OfferCardInput, OfferAttemptStatus, OfferAttemptCode,
  detail_too_large,
}
use meshelf.Store.Database.{called_each, no_faults, RedbV2Store, empty_store}
use meshelf.Store.Purge.{remove_all, oldest, purge_oldest, maximum, next_sequence, target}
use meshelf.Store.Rows.{IsShelf-empty}
use meshelf.Store.Cards.{
  CardKey, sequence, purge_oldest_cards, next_card_sequence, again_card, add_card, insert_card_rows,
  insert_offer_card, get_offer_card, attempt_rows, record_offer_attempt, read_offer_shelf,
}
use meshelf.Store.Cards.Laws.{IsCards, IsCardRow, insert_offer_card-IsCards, added_card}
use meshelf.Store.Cards.Reads.{
  CanAdd, insert_card_new, insert_card_purges_oldest, read_offer_shelf_sorted, with_card,
}
use meshelf.Store.Cards.Attempt.{
  FitsDetail, IsRecorded, IsStored, record_offer_attempt_iff, record_offer_attempt_effect,
}

card_runs : Unit {0}
unfolding byte_len len_utf8 lookup erase place insert sort_in sort validate_root_name validate
    called_each remove_all oldest purge_oldest maximum next_sequence purge_oldest_cards
    next_card_sequence again_card add_card insert_card_rows insert_offer_card get_offer_card
    attempt_rows record_offer_attempt
card_runs = tt

abbrev card : OfferId → OfferCardInput
card id = record {
  source_device = 5;
  offer_id = id;
  descriptor = file (lit "a.txt") 12;
  availability = available;
}

-- the store after the cards n, …, 1, the first of them last
abbrev shelf : ℕ → RedbV2Store
shelf zero = empty_store
shelf (suc n) = (insert_offer_card no_faults (card (suc n)) (shelf n)).1

shelf-IsCards : (n : ℕ) → IsCards (shelf n).offer_cards
shelf-IsCards zero = IsShelf-empty sequence IsCardRow
shelf-IsCards (suc n) =
    insert_offer_card-IsCards no_faults (card (suc n)) (shelf n) (shelf-IsCards n)

second_card-CanAdd : CanAdd (card 2) (shelf 1)
unfolding card_runs
second_card-CanAdd = (shelf-IsCards 1, refl, refl, omega arith)

second_card_new : insert_offer_card no_faults (card 2) (shelf 1) ≡ (
  ok (record {
    entry = added_card (card 2) (shelf 1).offer_cards;
    inserted = true;
    purged = target (shelf 1).offer_cards;
  }),
  with_card (card 2) (shelf 1),
)
second_card_new = insert_card_new (card 2) (shelf 1) second_card-CanAdd

eleventh_card-CanAdd : CanAdd (card 11) (shelf 10)
unfolding card_runs
eleventh_card-CanAdd = (shelf-IsCards 10, refl, refl, omega arith)

card_before : get_offer_card no_faults 5 1 (shelf 10) ≡ ok (some (added_card (card 1) []))
unfolding card_runs
card_before = refl

card_after :
    get_offer_card no_faults 5 1 (insert_offer_card no_faults (card 11) (shelf 10)).1 ≡ ok none
unfolding card_runs
card_after = refl

newer_card_after :
    get_offer_card no_faults 5 2 (insert_offer_card no_faults (card 11) (shelf 10)).1
    ≡ ok (some (added_card (card 2) (shelf 1).offer_cards))
unfolding card_runs
newer_card_after = refl

other_key : ◌≢◌ {A = CardKey} (5, 2) (5, 11)
other_key p = absurd (ground (arith, p))

eleventh_card_purges_oldest :
    ((added_card (card 1) []).received_sequence
      ≤ (added_card (card 2) (shelf 1).offer_cards).received_sequence)
    × ((added_card (card 2) (shelf 1).offer_cards).received_sequence
        < (added_card (card 11) (shelf 10).offer_cards).received_sequence)
eleventh_card_purges_oldest =
    insert_card_purges_oldest (card 11) (shelf 10) (5, 1) (5, 2) (added_card (card 1) [])
      (added_card (card 2) (shelf 1).offer_cards) eleventh_card-CanAdd other_key card_before
      card_after newer_card_after

two_cards_sorted :
    (cards : List OfferCardRecord) × (read_offer_shelf no_faults (shelf 2) ≡ ok cards)
    × Perm cards (map (λ e. e.1) (shelf 2).offer_cards)
    × Pairs (λ a b. b.received_sequence ≤ a.received_sequence) cards
two_cards_sorted = read_offer_shelf_sorted (shelf 2)

abbrev attempt : OfferAttemptStatus
attempt = record {
  code = OfferAttemptCode.source_changed;
  attempt_sequence = 1;
  files_processed = 0;
  bytes_processed = 0;
  detail = some (lit "changed");
}

attempt-IsRecorded :
    (IsRecorded (5, 1) attempt (record_offer_attempt no_faults 5 1 attempt (shelf 2))
      ↔ (FitsDetail attempt × IsStored (5, 1) (shelf 2)))
    × (¬ (IsRecorded (5, 1) attempt (record_offer_attempt no_faults 5 1 attempt (shelf 2)))
        → (x : StoreError) × (record_offer_attempt no_faults 5 1 attempt (shelf 2)
            ≡ (err x, shelf 2)))
attempt-IsRecorded = record_offer_attempt_iff (5, 1) attempt (shelf 2)

attempt_read : get_offer_card no_faults 5 1 (shelf 2) ≡ ok (some (added_card (card 1) []))
unfolding card_runs
attempt_read = refl

attempt_fits : detail_too_large attempt.detail ≡ false
unfolding card_runs
attempt_fits = refl

attempt_effect :
    ((j : CardKey)
      → j ≢ (5, 1)
      → get_offer_card no_faults j.0 j.1 (record_offer_attempt no_faults 5 1 attempt (shelf 2)).1
        ≡ get_offer_card no_faults j.0 j.1 (shelf 2))
    × (row' : OfferCardRecord) × (get_offer_card no_faults 5 1
          (record_offer_attempt no_faults 5 1 attempt (shelf 2)).1
        ≡ ok (some row'))
    × (row'.descriptor ≡ (added_card (card 1) []).descriptor)
    × (row'.received_sequence ≡ (added_card (card 1) []).received_sequence)
    × (row'.last_attempt ≡ some attempt)
    × (row'.availability ≡ available → (added_card (card 1) []).availability ≡ available)
attempt_effect =
    record_offer_attempt_effect (5, 1) attempt (shelf 2) (added_card (card 1) []) attempt_read
      attempt_fits
