-- ===== src/Control/Notifying.antt =====
-- `NotifyingOfferCardStore` of crates/meshelf-control/src/coordinator.rs: a store of cards that wakes
-- the subscribers of the shelf after an insertion. The state has the number of wakes beside the inner
-- store's state; the channels of the subscribers are not modelled.
pub mod Laws
use meshelf.Base.{ℕ, suc, Result, ok, err, if◌then◌else◌}
use meshelf.Base.Actions.{Action}
use meshelf.Core.Records.{StoreError, OfferCardInsert}
use meshelf.Net.Announcements.{OfferCardStore}

module _ {S : Type 0} where
  -- an operation that the wrapper passes on
  abbrev pub passed : {A : Type 0} → Action S StoreError A → Action (S × ℕ) StoreError A
  passed operation (state, wakes) =
      let (result, after) = operation state in (result, (after, wakes))

  -- after the insertion by the inner store
  unfoldable pub notify_inserted :
      ℕ → Result StoreError OfferCardInsert × S → Result StoreError OfferCardInsert × (S × ℕ)
  notify_inserted wakes (ok result, after) =
      (ok result, (after, (if result.inserted then suc wakes else wakes)))
  notify_inserted wakes (err e, after) = (err e, (after, wakes))

  unfoldable pub notifying_cards : OfferCardStore S → OfferCardStore (S × ℕ)
  notifying_cards inner = record {
    get_offer_card = λ source_device offer_id. passed (inner.get_offer_card source_device offer_id);
    read_offer_shelf = passed inner.read_offer_shelf;
    insert_offer_card =
        λ input (state, wakes). notify_inserted wakes (inner.insert_offer_card input state);
  }
