-- ===== src/Control/Notifying/Laws.antt =====
-- The notifying store under the interface of the handler of announcements.
use meshelf.Base.{ℕ, Result, ok, err}
use meshelf.Base.Actions.{Ends}
use meshelf.Core.Records.{StoreError, OfferCardInsert}
use meshelf.Net.Announcements.{OfferCardStore}
use meshelf.Net.Announcements.Interface.{IsCardStore}
use meshelf.Control.Notifying.{notify_inserted, notifying_cards}

module _ {S : Type 0} (Keeps : S → Type 0) where
  abbrev pub KeepsInner : S × ℕ → Type 0
  KeepsInner state = Keeps state.0

  passed-Ends :
      {A : Type 0} (P : A → Type 0) (outcome : Result StoreError A × S) (wakes : ℕ)
      → Ends Keeps P outcome
      → Ends KeepsInner P (outcome.0, (outcome.1, wakes))
  passed-Ends P (ok a, after) wakes h = h
  passed-Ends P (err e, after) wakes h = h

  notify_inserted-Ends :
      (P : OfferCardInsert → Type 0) (outcome : Result StoreError OfferCardInsert × S) (wakes : ℕ)
      → Ends Keeps P outcome
      → Ends KeepsInner P (notify_inserted wakes outcome)
  unfolding notify_inserted
  notify_inserted-Ends P (ok result, after) wakes h = h
  notify_inserted-Ends P (err e, after) wakes h = h

  -- What the inner store keeps and answers, the notifying store keeps and answers.
  pub notifying_cards-IsCardStore :
      (inner : OfferCardStore S)
      → IsCardStore inner Keeps
      → IsCardStore (notifying_cards inner) KeepsInner
  unfolding notifying_cards
  notifying_cards-IsCardStore inner laws = record {
    shelf =
        λ (state, wakes) h. passed-Ends _ (inner.read_offer_shelf state) wakes (laws.shelf state h);
    card = λ source_device offer_id (state, wakes) h.
        passed-Ends _ (inner.get_offer_card source_device offer_id state) wakes
          (laws.card source_device offer_id state h);
    insertion = λ input (state, wakes) h.
        notify_inserted-Ends _ (inner.insert_offer_card input state) wakes
          (laws.insertion input state h);
  }
