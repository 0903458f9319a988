-- ===== src/Store/Sources/Refusal.antt =====
-- What an explicit refusal does (`remove_explicit_refusal`, crates/meshelf-store/src/v2.rs).
use meshelf.Base.{
  is_empty, ◌≤◌, ◌≡◌, refl, ap, ◌∙◌, ◌≢◌, ◌⊎◌, ◌↔◌, inl, inr, Bool, true, false, ◌&&◌, List, [],
  ◌∷◌, none, some, arith, ok, Result-cases, Option-cases, Bool-cases, if◌then◌else◌, ◌==◌, ==_iff,
  All, All-In, Pairs, length,
}
use meshelf.Base.Map.{nat_key, lookup, erase, insert}
use meshelf.Base.Map.Laws.{lookup-insert, lookup-erase, lookup-In}
use meshelf.Core.Model.{DeviceId, OfferId, u32_max}
use meshelf.Core.Records.{OfferSourceRecord, OfferEligibilityUpdate}
use meshelf.Store.Database.{Faults, no_faults, RedbV2Store}
use meshelf.Store.Rows.{erase-IsShelf, replace-IsShelf}
use meshelf.Store.Sources.{
  SourceRows, sequence, write_sources, get_offer_source, has_member, without, refuse_rows,
  remove_refusal_rows, remove_explicit_refusal,
}
use meshelf.Store.Sources.Laws.{IsSources, IsSourceRow}
use meshelf.Store.Sources.Reads.{get_offer_source_calm}

without-All :
    (P : DeviceId → Type 0) (d : DeviceId) (ds : List DeviceId) → All P ds → All P (without d ds)
unfolding without
without-All P d [] h = tt
without-All P d (e ∷ ds) h = elim (Bool-cases (e == d)) [
  | inl p ↦ rw p (without-All P d ds h.1)
  | inr p ↦ rw p (h.0, without-All P d ds h.1)
]

without-Pairs :
    (R : DeviceId → DeviceId → Type 0) (d : DeviceId) (ds : List DeviceId)
    → Pairs R ds
    → Pairs R (without d ds)
unfolding without
without-Pairs R d [] h = tt
without-Pairs R d (e ∷ ds) h = elim (Bool-cases (e == d)) [
  | inl p ↦ rw p (without-Pairs R d ds h.1)
  | inr p ↦ rw p (without-All (R e) d ds h.0, without-Pairs R d ds h.1)
]

without_absent : (d : DeviceId) (ds : List DeviceId) → has_member d ds ≡ false → without d ds ≡ ds
unfolding without
without_absent d [] h = refl
without_absent d (e ∷ ds) h = ground (arith, without_absent d ds)

length-without-le : (d : DeviceId) (ds : List DeviceId) → length (without d ds) ≤ length ds
unfolding without
length-without-le d [] = omega arith
length-without-le d (e ∷ ds) = ground (arith, length-without-le d ds)

-- who is left
pub has_member-without :
    (d r : DeviceId) (ds : List DeviceId)
    → has_member d (without r ds) ≡ (if d == r then false else has_member d ds)
unfolding without
has_member-without d r [] = ground arith
has_member-without d r (e ∷ ds) = ground (arith, has_member-without d r ds)

absent_of_apart :
    (e : DeviceId) (ds : List DeviceId) → All (λ d. d ≢ e) ds → has_member e ds ≡ false
absent_of_apart e [] h = refl
absent_of_apart e (d ∷ ds) h = ground (arith, h.0, absent_of_apart e ds h.1)

-- The set without a member is empty exactly when the member was alone.
without-eq-nil_iff :
    (r : DeviceId) (ds : List DeviceId)
    → Pairs (λ a b. b ≢ a) ds
    → ((has_member r ds ≡ true) × (without r ds ≡ [])) ↔ (ds ≡ r ∷ [])
unfolding without
without-eq-nil_iff r [] u = (λ h. absurd (ground arith), λ h. absurd (ground arith))
without-eq-nil_iff r (e ∷ ds) u = elim (Bool-cases (e == r)) [
  | inl p ↦
      let alone = without_absent e ds (absent_of_apart e ds u.0) in
      let same : e ≡ r = (==_iff e r).0 p in
      (λ h. ground (arith, alone, same), λ h. ground (arith, alone, same))
  | inr p ↦ (λ h. absurd (ground arith), λ h. absurd (ground arith))
]

module _ (id : OfferId) (r : DeviceId) (rows : SourceRows) (h : IsSources rows) where
  -- a row after the refusal still fits
  row-IsSourceRow :
      (row : OfferSourceRecord)
      → lookup id rows ≡ some row
      → IsSourceRow (id, record row { announced_to = without r row.announced_to })
  row-IsSourceRow row found =
      let fit = All-In IsSourceRow (id, row) rows h.fits (lookup-In id row rows found) in
      record {
        keyed = fit.keyed;
        described = fit.described;
        backed = fit.backed;
        counted = fit.counted;
        members = without-Pairs (λ a b. b ≢ a) r row.announced_to fit.members;
      }

  -- what a transaction writes is the shelf as it was, without the offer, or with its row changed
  refused-IsSources :
      (db : Faults) (row : OfferSourceRecord) {u : OfferEligibilityUpdate} (rows' : SourceRows)
      → lookup id rows ≡ some row
      → refuse_rows db id row (has_member r row.announced_to) (without r row.announced_to) rows
        ≡ ok (u, rows')
      → IsSources rows'
  unfolding refuse_rows
  refused-IsSources db row {u = u} rows' found e =
      let changed = record row { announced_to = without r row.announced_to } in
      let result : (rows' ≡ rows) ⊎ (rows' ≡ erase id rows) ⊎ (rows' ≡ insert id changed rows) =
        ground arith in
      elim result [
        | inl same ↦ rw same h
        | inr (inl same) ↦ rw same (erase-IsShelf sequence IsSourceRow rows h id)
        | inr (inr same) ↦ rw same (
            replace-IsShelf sequence IsSourceRow rows h id row changed found refl
              (row-IsSourceRow row found))
      ]

  remove_refusal_rows-IsSources :
      (db : Faults) (u : OfferEligibilityUpdate) (rows' : SourceRows)
      → remove_refusal_rows db id r rows ≡ ok (u, rows')
      → IsSources rows'
  unfolding remove_refusal_rows
  remove_refusal_rows-IsSources db u rows' e = elim (Option-cases (lookup id rows)) [
    | inl missing ↦ absurd (ground arith)
    | inr (row, found) ↦ refused-IsSources db row {u = u} rows' found (ground arith)
  ]

-- Whatever the database reports, remove_explicit_refusal keeps the shelf of sources valid.
pub remove_explicit_refusal-IsSources :
    (db : Faults) (id : OfferId) (r : DeviceId) (store : RedbV2Store)
    → IsSources store.offer_sources
    → IsSources (remove_explicit_refusal db id r store).1.offer_sources
unfolding remove_explicit_refusal
remove_explicit_refusal-IsSources db id r store h =
    elim (Result-cases (remove_refusal_rows db id r store.offer_sources)) [
      | inl ((u, rows'), e) ↦
          rw e (remove_refusal_rows-IsSources id r store.offer_sources h db u rows' e)
      | inr (x, e) ↦ rw e h
    ]

refused_transaction :
    (id : OfferId) (r : DeviceId) (store : RedbV2Store) (row : OfferSourceRecord)
    → lookup id store.offer_sources ≡ some row
    → remove_refusal_rows no_faults id r store.offer_sources
      ≡ refuse_rows no_faults id row
          (has_member r row.announced_to)
          (without r row.announced_to)
          store.offer_sources
unfolding remove_refusal_rows
refused_transaction id r store row found = rw found

written_rows :
    (id : OfferId) (store : RedbV2Store) (row : OfferSourceRecord) (eligible : Bool)
    (devices : List DeviceId)
    → length devices ≤ u32_max
    → (write_sources store
        (refuse_rows no_faults id row eligible devices store.offer_sources)).1.offer_sources
      ≡ (if eligible
          then if is_empty devices
            then erase id store.offer_sources
            else insert id (record row { announced_to = devices }) store.offer_sources
          else store.offer_sources)
unfolding refuse_rows
written_rows id store row false devices few = ground arith
written_rows id store row true [] few = refl
written_rows id store row true (d ∷ devices) few = ground arith

module _ (id : OfferId) (r : DeviceId) (store : RedbV2Store) (row : OfferSourceRecord) where
  abbrev left : List DeviceId
  left = without r row.announced_to

  abbrev after : RedbV2Store
  after = (remove_explicit_refusal no_faults id r store).1

  abbrev changed_row : OfferSourceRecord
  changed_row = record row { announced_to = left }

  module _ (found : lookup id store.offer_sources ≡ some row)
      (few : length row.announced_to ≤ u32_max) where
    refused_rows : after.offer_sources ≡ (
        if has_member r row.announced_to
        then if is_empty left
          then erase id store.offer_sources
          else insert id changed_row store.offer_sources
        else store.offer_sources)
    unfolding remove_explicit_refusal
    refused_rows =
        ap (λ t. (write_sources store t).1.offer_sources) (refused_transaction id r store row found)
        ∙ written_rows id store row (has_member r row.announced_to) left
            (omega (arith, length-without-le r row.announced_to))

    -- what is read afterwards
    refused_lookup :
        (j : OfferId)
        → lookup j after.offer_sources ≡ (
            if j == id
            then if has_member r row.announced_to && is_empty left then none else some changed_row
            else lookup j store.offer_sources)
    refused_lookup j = rw refused_rows (
        ground (
          arith,
          found,
          lookup-erase id j store.offer_sources,
          lookup-insert id j changed_row store.offer_sources,
          without_absent r row.announced_to,
        ))

is_empty_iff : {A : Type 0} (xs : List A) → (is_empty xs ≡ true) ↔ (xs ≡ [])
is_empty_iff [] = ground arith
is_empty_iff (x ∷ xs) = ground arith

-- Without faults, a refusal of a stored offer removes that one recipient, deletes the offer exactly
-- when the recipient was the only one, and leaves every other offer; the shelf is valid and the
-- recipients fit a u32.
pub refusal_effect :
    (id : OfferId) (r : DeviceId) (store : RedbV2Store) (row : OfferSourceRecord)
    → IsSources store.offer_sources
    → get_offer_source no_faults id store ≡ ok (some row)
    → length row.announced_to ≤ u32_max
    → ((get_offer_source no_faults id (remove_explicit_refusal no_faults id r store).1 ≡ ok none)
        ↔ (row.announced_to ≡ r ∷ []))
      × ((row' : OfferSourceRecord)
          → get_offer_source no_faults id (remove_explicit_refusal no_faults id r store).1
            ≡ ok (some row')
          → (d : DeviceId)
          → has_member d row'.announced_to
            ≡ (if d == r then false else has_member d row.announced_to))
      × ((j : OfferId)
          → j ≢ id
          → get_offer_source no_faults j (remove_explicit_refusal no_faults id r store).1
            ≡ get_offer_source no_faults j store)
refusal_effect id r store row h read few =
    let found : lookup id store.offer_sources ≡ some row =
      ground (arith, get_offer_source_calm id store) in
    let fit =
      All-In IsSourceRow (id, row) store.offer_sources h.fits
        (lookup-In id row store.offer_sources found) in
    let here = refused_lookup id r store row found few in
    let rest = after id r store row in
    let alone = without-eq-nil_iff r row.announced_to fit.members in
    let empty = is_empty_iff (left id r store row) in
    (
      (
        λ p. ground (arith, here id, alone, empty, get_offer_source_calm id rest),
        λ p. ground (arith, here id, alone, empty, get_offer_source_calm id rest),
      ),
      (λ row' p d.
          ground (
            arith,
            here id,
            get_offer_source_calm id rest,
            has_member-without d r row.announced_to,
          )),
      (λ j other.
          ground (arith, here j, get_offer_source_calm j rest, get_offer_source_calm j store)),
    )
