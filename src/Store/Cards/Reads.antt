-- ===== src/Store/Cards/Reads.antt =====
-- What can be read after an insertion of an offer card, and how the shelf is listed.
use meshelf.Base.{
  ◌+◌, ◌≤◌, ◌<◌, ◌≡◌, refl, ◌≢◌, true, List, map, none, some, arith, ok, All-In, Pairs,
}
use mathlib.Core.List.{Perm}
use meshelf.Base.Map.{pair_key, pair_eqb_iff, lookup, insert}
use meshelf.Base.Map.Laws.{lookup-insert, lookup-In}
use meshelf.Base.Sort.{sort, sort-perm, sort-IsSorted}
use meshelf.Core.Model.{u64_max}
use meshelf.Core.Records.{OfferCardRecord, OfferCardInput, validate_card_input}
use meshelf.Store.Database.{no_faults, called_each_calm, decode, RedbV2Store}
use meshelf.Store.Purge.{target, maximum}
use meshelf.Store.Purge.Bounds.{purge_oldest_calm, next_sequence_calm, maximum-bound}
use meshelf.Store.Purge.Oldest.{oldest_first}
use meshelf.Store.Cards.{
  CardKey, key_of, sequence, purge_oldest_cards, next_card_sequence, add_card, insert_card_rows,
  insert_offer_card, get_offer_card, newest_card_first, read_offer_shelf,
}
use meshelf.Store.Cards.Laws.{IsCards, kept_cards, added_card}

-- the store after the insertion of a new card
abbrev pub with_card : OfferCardInput → RedbV2Store → RedbV2Store
with_card input store = record store {
  offer_cards =
      insert (key_of input) (added_card input store.offer_cards) (kept_cards store.offer_cards);
}

-- a new card with a valid descriptor, and a sequence number that is left
abbrev pub CanAdd : OfferCardInput → RedbV2Store → Type 0
CanAdd input store =
    IsCards store.offer_cards
    × (validate_card_input input ≡ ok tt)
    × (lookup (key_of input) store.offer_cards ≡ none)
    × (maximum sequence (kept_cards store.offer_cards) + 1 ≤ u64_max)

pub insert_card_new :
    (input : OfferCardInput) (store : RedbV2Store)
    → CanAdd input store
    → insert_offer_card no_faults input store ≡ (
      ok (record {
        entry = added_card input store.offer_cards;
        inserted = true;
        purged = target store.offer_cards;
      }),
      with_card input store,
    )
unfolding insert_offer_card insert_card_rows add_card purge_oldest_cards next_card_sequence
insert_card_new input store (shelf, valid, new, room) =
    rw
      (
        valid,
        new,
        purge_oldest_calm sequence store.offer_cards (omega (arith, shelf.live)),
        next_sequence_calm sequence (kept_cards store.offer_cards) room,
      )
      refl

pub get_offer_card_calm :
    (k : CardKey) (store : RedbV2Store)
    → get_offer_card no_faults k.0 k.1 store ≡ ok (lookup k store.offer_cards)
unfolding get_offer_card
get_offer_card_calm k store = ground arith

-- Without faults, on a valid shelf, a card that the insertion of a new card purges is no newer than
-- any other card that is still there, and the new card is newer than that one.
pub insert_card_purges_oldest :
    (input : OfferCardInput) (store : RedbV2Store) (j k : CardKey) (v w : OfferCardRecord)
    → CanAdd input store
    → k ≢ key_of input
    → get_offer_card no_faults j.0 j.1 store ≡ ok (some v)
    → get_offer_card no_faults j.0 j.1 (insert_offer_card no_faults input store).1 ≡ ok none
    → get_offer_card no_faults k.0 k.1 (insert_offer_card no_faults input store).1 ≡ ok (some w)
    → (v.received_sequence ≤ w.received_sequence)
      × (w.received_sequence < (added_card input store.offer_cards).received_sequence)
insert_card_purges_oldest input store j k v w can other was gone stays =
    let before = store.offer_cards in
    let row = added_card input before in
    let after = with_card input store in
    let gone' : get_offer_card no_faults j.0 j.1 after ≡ ok none =
      rw (insert_card_new input store can) at gone in
    let stays' : get_offer_card no_faults k.0 k.1 after ≡ ok (some w) =
      rw (insert_card_new input store can) at stays in
    let read = lookup-insert (key_of input) k row (kept_cards before) in
    let there : lookup k (kept_cards before) ≡ some w =
      ground (arith, get_offer_card_calm k after, read, pair_eqb_iff (key_of input) k) in
    let bound =
      All-In (λ e. sequence e.1 ≤ maximum sequence (kept_cards before)) (k, w) (kept_cards before)
        (maximum-bound sequence (kept_cards before)) (lookup-In k w (kept_cards before) there) in
    (
      oldest_first sequence before j k v w (can.0).distinct
          (ground (arith, get_offer_card_calm j store))
          (ground (
            arith,
            get_offer_card_calm j after,
            lookup-insert (key_of input) j row (kept_cards before),
          ))
          there,
      omega arith,
    )

newest_first :
    (rows : List OfferCardRecord)
    → Pairs (λ a b. sequence b ≤ sequence a) (sort newest_card_first rows)
newest_first rows =
    sort-IsSorted newest_card_first _ (λ a b c h k. omega arith) (λ a b h. ground arith)
      (λ a b h. ground arith) rows

-- Without faults, read_offer_shelf lists exactly the stored cards, the newest first.
pub read_offer_shelf_sorted :
    (store : RedbV2Store)
    → (cards : List OfferCardRecord) × (read_offer_shelf no_faults store ≡ ok cards)
      × Perm cards (map (λ e. e.1) store.offer_cards)
      × Pairs (λ a b. b.received_sequence ≤ a.received_sequence) cards
unfolding read_offer_shelf
read_offer_shelf_sorted store = (
  sort newest_card_first (map (λ e. e.1) store.offer_cards),
  rw (called_each_calm decode store.offer_cards),
  sort-perm newest_card_first (map (λ e. e.1) store.offer_cards),
  newest_first (map (λ e. e.1) store.offer_cards),
)
