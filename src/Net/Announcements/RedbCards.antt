-- ===== src/Net/Announcements/RedbCards.antt =====
-- `impl OfferCardStore for RedbV2Store` of crates/meshelf-net/src/lib.rs under the interface of the
-- handler.
use meshelf.Base.{
  ◌≡◌, refl, ap, ◌∙◌, inl, inr, Option, List, [], ◌∷◌, ok, arith, Option-cases, Result-cases,
  >>=-eq-ok, length, map,
}
use meshelf.Base.Map.{pair_key, lookup}
use meshelf.Base.Sort.{sort, length-sort}
use meshelf.Core.Model.{DeviceId, OfferId}
use meshelf.Core.Records.{OfferCardRecord}
use meshelf.Store.Cards.{newest_card_first, read_offer_shelf, get_offer_card, insert_offer_card}
use meshelf.Store.Cards.Laws.{IsCards, insert_offer_card-IsCards}
use meshelf.Store.Database.{
  Faults, called, called_each, decode, begin_read, open_table, iter, RedbV2Store,
}
use meshelf.Net.Announcements.{Database, next_faults, redb_cards}
use meshelf.Net.Announcements.Interface.{IsCardStore}

length-map : {A B : Type 0} (f : A → B) (xs : List A) → length (map f xs) ≡ length xs
length-map f [] = refl
length-map f (x ∷ xs) = omega (arith, length-map f xs)

pub read_offer_shelf-eq-ok :
    (db : Faults) (store : RedbV2Store) {cards : List OfferCardRecord}
    → read_offer_shelf db store ≡ ok cards
    → length cards ≡ length store.offer_cards
unfolding read_offer_shelf
read_offer_shelf-eq-ok db store {cards} h =
    let (_, _, h1) = >>=-eq-ok (called db begin_read) _ h in
    let (_, _, h2) = >>=-eq-ok (called db open_table) _ h1 in
    let (_, _, h3) = >>=-eq-ok (called db iter) _ h2 in
    let (_, _, h4) = >>=-eq-ok (called_each db decode store.offer_cards) _ h3 in
    let same : cards ≡ sort newest_card_first (map (λ e. e.1) store.offer_cards) = ground arith in
    ap length same
    ∙ length-sort newest_card_first (map (λ e. e.1) store.offer_cards)
    ∙ length-map (λ e. e.1) store.offer_cards

pub get_offer_card-eq-ok :
    (db : Faults) (source : DeviceId) (offer_id : OfferId) (store : RedbV2Store)
    {card : Option OfferCardRecord}
    → get_offer_card db source offer_id store ≡ ok card
    → card ≡ lookup (source, offer_id) store.offer_cards
unfolding get_offer_card
get_offer_card-eq-ok db source offer_id store {card} h =
    elim (Option-cases (lookup (source, offer_id) store.offer_cards)) [
      | inl gone ↦ ground arith
      | inr (row, found) ↦ ground arith
    ]

abbrev pub KeepsCards : Database → Type 0
KeepsCards state = IsCards (state.1).offer_cards

pub redb_cards-IsCardStore : IsCardStore redb_cards KeepsCards
redb_cards-IsCardStore = record {
  shelf = λ (dbs, store) h. elim (Result-cases (read_offer_shelf (next_faults dbs) store)) [
    | inl (cards, e) ↦
        rw e (h, omega (arith, read_offer_shelf-eq-ok (next_faults dbs) store e, h.live))
    | inr (x, e) ↦ rw e h
  ];
  card = λ source offer_id (dbs, store) h.
      elim (Result-cases (get_offer_card (next_faults dbs) source offer_id store)) [
        | inl (card, e) ↦ rw e (h, tt)
        | inr (x, e) ↦ rw e h
      ];
  insertion = λ input (dbs, store) h.
      let kept = insert_offer_card-IsCards (next_faults dbs) input store h in
      elim (Result-cases ((insert_offer_card (next_faults dbs) input store).0)) [
        | inl (r, e) ↦ rw e (kept, tt)
        | inr (x, e) ↦ rw e kept
      ];
}
