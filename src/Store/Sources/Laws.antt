-- ===== src/Store/Sources/Laws.antt =====
-- What an insertion of an offer source does (crates/meshelf-store/src/v2.rs), and the invariant of the
-- shelf.
use meshelf.Base.{
  ◌+◌, ◌≤◌, ◌≡◌, refl, ◌≢◌, inl, inr, false, none, some, arith, ok, Result-cases, Option-cases,
  Pairs,
}
use meshelf.Base.Map.{nat_key, lookup, insert}
use meshelf.Core.Model.{OfferId, u64_max}
use meshelf.Core.Offer.{validate, validate_for}
use meshelf.Core.Records.{
  OfferSourceRecord, OfferSourceInput, OfferSourceInsert, validate_source_input,
}
use meshelf.Store.Database.{Faults, RedbV2Store}
use meshelf.Store.Purge.{oldest, remove_all, purge_oldest, next_sequence, maximum}
use meshelf.Store.Purge.Bounds.{purge_oldest-eq-ok, next_sequence-eq-ok, length-purged}
use meshelf.Store.Purge.Oldest.{lookup-remove_all}
use meshelf.Store.Rows.{IsShelf, purged-IsShelf, insert-IsShelf}
use meshelf.Store.Sources.{
  SourceRows, sequence, purge_oldest_sources, next_source_sequence, new_source, again_source,
  add_source, insert_source_rows, insert_offer_source,
}

pub record IsSourceRow (e : OfferId × OfferSourceRecord) : Type 0 where
  pub keyed : e.1.offer_id ≡ e.0
  pub described : validate e.1.descriptor ≡ ok tt
  pub backed : validate_for e.1.source e.1.descriptor ≡ ok tt
  pub counted : e.1.creation_sequence ≤ u64_max
  pub members : Pairs (λ a b. b ≢ a) e.1.announced_to

abbrev pub IsSources : SourceRows → Type 0
IsSources = IsShelf sequence IsSourceRow

-- the rows that a purge leaves
abbrev pub kept_sources : SourceRows → SourceRows
kept_sources rows = remove_all (oldest sequence rows) rows

-- the row that an insertion adds to these rows
abbrev pub added_source : OfferSourceInput → SourceRows → OfferSourceRecord
added_source input rows = new_source input (maximum sequence (kept_sources rows) + 1)

add_source-eq-ok :
    (db : Faults) (input : OfferSourceInput) (rows : SourceRows) {r : OfferSourceInsert}
    {rows' : SourceRows}
    → add_source db input rows ≡ ok (r, rows')
    → (rows' ≡ insert input.offer_id (added_source input rows) (kept_sources rows))
      × (maximum sequence (kept_sources rows) + 1 ≤ u64_max)
unfolding add_source purge_oldest_sources next_source_sequence
add_source-eq-ok db input rows h = elim (Result-cases (purge_oldest sequence db rows)) [
  | inl ((n, kept), p) ↦
      let (_, same) = purge_oldest-eq-ok sequence db rows p in
      elim (Result-cases (next_sequence sequence db kept)) [
        | inl (s, q) ↦
            let (next, room) = next_sequence-eq-ok sequence db kept q in
            (ground arith, ground arith)
        | inr (e, q) ↦ absurd (ground arith)
      ]
  | inr (e, p) ↦ absurd (ground arith)
]

validate_source_input-eq-ok :
    (input : OfferSourceInput)
    → validate_source_input input ≡ ok tt
    → (validate input.descriptor ≡ ok tt) × (validate_for input.source input.descriptor ≡ ok tt)
unfolding validate_source_input
validate_source_input-eq-ok input h = elim (Result-cases (validate input.descriptor)) [
  | inl (u, p) ↦ (p, ground arith)
  | inr (e, p) ↦ absurd (ground arith)
]

module _ (db : Faults) (input : OfferSourceInput) (rows : SourceRows) where
  -- The three ways in which the transaction can end well.
  data Inserted : OfferSourceInsert → SourceRows → Type 0 where
    again :
        (row : OfferSourceRecord) (r : OfferSourceInsert) (rows' : SourceRows)
        → lookup input.offer_id rows ≡ some row
        → r ≡ record { entry = row; inserted = false; purged = 0 }
        → rows' ≡ rows
        → Inserted r rows'
    added :
        (r : OfferSourceInsert) (rows' : SourceRows)
        → lookup input.offer_id rows ≡ none
        → validate_source_input input ≡ ok tt
        → rows' ≡ insert input.offer_id (added_source input rows) (kept_sources rows)
        → maximum sequence (kept_sources rows) + 1 ≤ u64_max
        → Inserted r rows'

  insert_source_rows-Inserted :
      (r : OfferSourceInsert) (rows' : SourceRows)
      → insert_source_rows db input rows ≡ ok (r, rows')
      → Inserted r rows'
  unfolding insert_source_rows again_source
  insert_source_rows-Inserted r rows' h = elim (Option-cases (lookup input.offer_id rows)) [
    | inl new ↦
        let (same, room) = add_source-eq-ok db input rows {r = r} {rows' = rows'} (ground arith) in
        added r rows' new (ground arith) same room
    | inr (row, found) ↦ again row r rows' found (ground arith) (ground arith)
  ]

module _ (input : OfferSourceInput) (rows : SourceRows) where
  -- a new offer is still new after the purge
  new_after_purge :
      lookup input.offer_id rows ≡ none → lookup input.offer_id (kept_sources rows) ≡ none
  new_after_purge new = ground (arith, lookup-remove_all input.offer_id (oldest sequence rows) rows)

  added-IsSources :
      lookup input.offer_id rows ≡ none
      → validate_source_input input ≡ ok tt
      → Pairs (λ a b. b ≢ a) input.announced_to
      → maximum sequence (kept_sources rows) + 1 ≤ u64_max
      → IsSources rows
      → IsSources (insert input.offer_id (added_source input rows) (kept_sources rows))
  added-IsSources new valid members room h =
      let (described, backed) = validate_source_input-eq-ok input valid in
      insert-IsShelf sequence IsSourceRow (kept_sources rows)
        (purged-IsShelf sequence IsSourceRow rows h) input.offer_id (added_source input rows)
        (new_after_purge new) (omega (arith, length-purged sequence rows h.distinct, h.live)) refl
        (record {
          keyed = refl;
          described = described;
          backed = backed;
          counted = room;
          members = members;
        })

  Inserted-IsSources :
      (db : Faults) {r : OfferSourceInsert} {rows' : SourceRows}
      → Inserted db input rows r rows'
      → Pairs (λ a b. b ≢ a) input.announced_to
      → IsSources rows
      → IsSources rows'
  Inserted-IsSources db (again row r rows' found e same) members h = rw same h
  Inserted-IsSources db (added r rows' new valid same room) members h =
      rw same (added-IsSources new valid members room h)

-- Whatever the database reports, insert_offer_source keeps the shelf valid: at most ten offers,
-- distinct keys and sequence numbers, each offer valid and backed by a source that fits it; the
-- recipients of the input are distinct.
pub insert_offer_source-IsSources :
    (db : Faults) (input : OfferSourceInput) (store : RedbV2Store)
    → Pairs (λ a b. b ≢ a) input.announced_to
    → IsSources store.offer_sources
    → IsSources (insert_offer_source db input store).1.offer_sources
unfolding insert_offer_source
insert_offer_source-IsSources db input store members h =
    elim (Result-cases (insert_source_rows db input store.offer_sources)) [
      | inl ((r, rows'), e) ↦ rw e (
          Inserted-IsSources input store.offer_sources db
            (insert_source_rows-Inserted db input store.offer_sources r rows' e) members h)
      | inr (x, e) ↦ rw e h
    ]
