-- ===== src/Store/Sources/Reads.antt =====
-- What can be read after an insertion of an offer source.
use meshelf.Base.{
  ◌+◌, ◌≤◌, ◌<◌, ◌≡◌, refl, sym, ◌≢◌, ◌⊎◌, inl, inr, true, false, none, some, arith, ok, err,
  Bool-cases, if◌then◌else◌, All, All-map, length,
}
use meshelf.Base.Map.{nat_key, lookup, insert}
use meshelf.Base.Map.Laws.{lookup-insert, eqb_refl}
use meshelf.Core.Model.{OfferId, u64_max}
use meshelf.Core.Offer.{descriptor_eq}
use meshelf.Core.Offer.Laws.{descriptor_eq_iff}
use meshelf.Core.Records.{
  source_conflict, OfferSourceRecord, OfferSourceInput, validate_source_input,
}
use meshelf.Store.Database.{no_faults, RedbV2Store}
use meshelf.Store.Purge.{target, oldest, maximum}
use meshelf.Store.Purge.Bounds.{purge_oldest_calm, next_sequence_calm, maximum-bound}
use meshelf.Store.Purge.Count.{length-insert_purged}
use meshelf.Store.Purge.Oldest.{oldest_first, lookup-remove_all}
use meshelf.Store.Sources.{
  SourceRows, sequence, purge_oldest_sources, next_source_sequence, again_source, add_source,
  insert_source_rows, insert_offer_source, get_offer_source,
}
use meshelf.Store.Sources.Laws.{IsSources, kept_sources, added_source}

-- the store after the insertion of a new offer
abbrev pub with_source : OfferSourceInput → RedbV2Store → RedbV2Store
with_source input store = record store {
  offer_sources =
      insert input.offer_id (added_source input store.offer_sources)
        (kept_sources store.offer_sources);
}

module _ (input : OfferSourceInput) (store : RedbV2Store) where
  abbrev rows : SourceRows
  rows = store.offer_sources

  -- a new offer, and a sequence number that is left
  abbrev pub CanAdd : Type 0
  CanAdd =
      IsSources rows
      × (validate_source_input input ≡ ok tt)
      × (lookup input.offer_id rows ≡ none)
      × (maximum sequence (kept_sources rows) + 1 ≤ u64_max)

  insert_new :
      CanAdd
      → insert_offer_source no_faults input store ≡ (
        ok (record { entry = added_source input rows; inserted = true; purged = target rows }),
        with_source input store,
      )
  unfolding insert_offer_source insert_source_rows add_source purge_oldest_sources
      next_source_sequence
  insert_new (shelf, valid, new, room) =
      rw
        (
          valid,
          new,
          purge_oldest_calm sequence rows (omega (arith, shelf.live)),
          next_sequence_calm sequence (kept_sources rows) room,
        )
        refl

pub get_offer_source_calm :
    (j : OfferId) (store : RedbV2Store)
    → get_offer_source no_faults j store ≡ ok (lookup j store.offer_sources)
unfolding get_offer_source
get_offer_source_calm j store = ground arith

-- Without faults, a new valid offer on a valid shelf is stored: the answer gives its row and the
-- number of purged rows, which together with the rows after the insertion are one more than the
-- rows before; the row reads back, its sequence number is above those of all rows that stayed, and
-- every other offer reads as before or is gone.
pub insert_new-get :
    (input : OfferSourceInput) (store : RedbV2Store)
    → CanAdd input store
    → ((insert_offer_source no_faults input store).0
        ≡ ok (record {
          entry = added_source input store.offer_sources;
          inserted = true;
          purged = target store.offer_sources;
        }))
      × (length (insert_offer_source no_faults input store).1.offer_sources
            + target store.offer_sources
          ≡ length store.offer_sources + 1)
      × (get_offer_source no_faults input.offer_id (insert_offer_source no_faults input store).1
          ≡ ok (some (added_source input store.offer_sources)))
      × All
          (λ e. sequence e.1 < sequence (added_source input store.offer_sources))
          (kept_sources store.offer_sources)
      × ((j : OfferId)
          → j ≢ input.offer_id
          → (get_offer_source no_faults j (insert_offer_source no_faults input store).1 ≡ ok none)
            ⊎ (get_offer_source no_faults j (insert_offer_source no_faults input store).1
                ≡ get_offer_source no_faults j store))
insert_new-get input store can = rw (insert_new input store can) (
  refl,
  length-insert_purged sequence input.offer_id (added_source input store.offer_sources)
      store.offer_sources (can.0).distinct can.2,
  rw (get_offer_source_calm, lookup-insert, eqb_refl input.offer_id) refl,
  All-map (λ e (p : sequence e.1 ≤ maximum sequence kept). omega arith) kept
      (maximum-bound sequence kept),
  others,
)
  where
    kept : SourceRows
    kept = kept_sources store.offer_sources

    others :
        (j : OfferId)
        → j ≢ input.offer_id
        → (get_offer_source no_faults j (with_source input store) ≡ ok none)
          ⊎ (get_offer_source no_faults j (with_source input store)
              ≡ get_offer_source no_faults j store)
    others j other = ground (
      arith,
      get_offer_source_calm j store,
      get_offer_source_calm j (with_source input store),
      lookup-insert input.offer_id j (added_source input store.offer_sources) kept,
      lookup-remove_all j (oldest sequence store.offer_sources) store.offer_sources,
    )

-- Without faults, on a valid shelf, a source that the insertion of a new offer purges has a
-- creation sequence no greater than that of every other offer that is still there.
pub insert_purges_oldest :
    (input : OfferSourceInput) (store : RedbV2Store) (j k : OfferId) (v w : OfferSourceRecord)
    → CanAdd input store
    → k ≢ input.offer_id
    → get_offer_source no_faults j store ≡ ok (some v)
    → get_offer_source no_faults j (insert_offer_source no_faults input store).1 ≡ ok none
    → get_offer_source no_faults k (insert_offer_source no_faults input store).1 ≡ ok (some w)
    → v.creation_sequence ≤ w.creation_sequence
insert_purges_oldest input store j k v w can other was gone stays =
    let before = store.offer_sources in
    let row = added_source input before in
    let after = with_source input store in
    let gone' : get_offer_source no_faults j after ≡ ok none =
      rw (insert_new input store can) at gone in
    let stays' : get_offer_source no_faults k after ≡ ok (some w) =
      rw (insert_new input store can) at stays in
    oldest_first sequence before j k v w (can.0).distinct
      (ground (arith, get_offer_source_calm j store))
      (ground (
        arith,
        get_offer_source_calm j after,
        lookup-insert input.offer_id j row (kept_sources before),
      ))
      (ground (
        arith,
        get_offer_source_calm k after,
        lookup-insert input.offer_id k row (kept_sources before),
      ))

insert_existing :
    (again : OfferSourceInput) (store : RedbV2Store) (row : OfferSourceRecord)
    → validate_source_input again ≡ ok tt
    → lookup again.offer_id store.offer_sources ≡ some row
    → insert_offer_source no_faults again store ≡ (
      (if descriptor_eq row.descriptor again.descriptor
          then ok (record { entry = row; inserted = false; purged = 0 })
          else err source_conflict),
      store,
    )
unfolding insert_offer_source insert_source_rows again_source
insert_existing again store row valid found =
    rw (valid, found)
      (elim (Bool-cases (descriptor_eq row.descriptor again.descriptor)) [
        | inl e ↦ rw e
        | inr e ↦ rw e
      ])

-- After an insertion, a valid input with the same identifier is answered with the stored row when
-- its descriptor is the same and refused as a conflict when it differs, and neither changes the
-- store.
pub insert_again :
    (input again : OfferSourceInput) (store : RedbV2Store)
    → CanAdd input store
    → validate_source_input again ≡ ok tt
    → again.offer_id ≡ input.offer_id
    → ((again.descriptor ≡ input.descriptor)
        × (insert_offer_source no_faults again (insert_offer_source no_faults input store).1 ≡ (
          ok (record {
            entry = added_source input store.offer_sources;
            inserted = false;
            purged = 0;
          }),
          (insert_offer_source no_faults input store).1,
        )))
      ⊎ ((again.descriptor ≢ input.descriptor)
          × (insert_offer_source no_faults again (insert_offer_source no_faults input store).1
              ≡ (err source_conflict, (insert_offer_source no_faults input store).1)))
insert_again input again store can valid same =
    let row = added_source input store.offer_sources in
    let stored : lookup again.offer_id (with_source input store).offer_sources ≡ some row =
      rw (same, lookup-insert, eqb_refl input.offer_id) refl in
    let result = insert_existing again (with_source input store) row valid stored in
    let decides = descriptor_eq_iff input.descriptor again.descriptor in
    rw (insert_new input store can, result)
      (elim (Bool-cases (descriptor_eq input.descriptor again.descriptor)) [
        | inl e ↦ rw e (inl (sym (decides.0 e), refl))
        | inr e ↦ rw e (inr (λ p. cc (decides.1 (sym p)), refl))
      ])
