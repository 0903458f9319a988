-- ===== src/Store/Sources/Tests.antt =====
-- The shelf of sources at concrete inputs: two offers, a second announcement, a refusal, and the
-- eleventh offer.
use meshelf.Base.{
  ◌+◌, ℕ, zero, suc, ◌≤◌, ◌<◌, ◌≡◌, refl, ◌≢◌, ◌⊎◌, ◌↔◌, true, false, [], ◌∷◌, none, some, arith,
  ok, err, All, Pairs, ◌==◌, if◌then◌else◌, length,
}
use meshelf.Base.Text.{lit, byte_len, len_utf8, ends_with, count_lines, is_char_boundary, truncate}
use meshelf.Base.Map.{lookup, erase, place, insert}
use meshelf.Base.Sort.{sort_in, sort}
use meshelf.Core.Model.{DeviceId, OfferId, u32_max}
use meshelf.Core.Offer.{
  text, validate_root_name, validate, push_normalized, normalize_from, back_to_boundary, preview,
  of_text, validate_for,
}
use meshelf.Core.Offer
use meshelf.Core.Records.{
  OfferSourceRecord, OfferSourceInput, validate_source_input, source_conflict,
}
use meshelf.Store.Database.{called_each, no_faults, RedbV2Store, empty_store}
use meshelf.Store.Purge.{remove_all, oldest, purge_oldest, maximum, next_sequence, target}
use meshelf.Store.Rows.{IsShelf-empty}
use meshelf.Store.Sources.{
  sequence, purge_oldest_sources, next_source_sequence, again_source, add_source,
  insert_source_rows, insert_offer_source, get_offer_source, without, refuse_rows,
  remove_refusal_rows, remove_explicit_refusal, has_member,
}
use meshelf.Store.Sources.Laws.{
  IsSources, IsSourceRow, insert_offer_source-IsSources, added_source, kept_sources,
}
use meshelf.Store.Sources.Reads.{CanAdd, insert_new-get, insert_purges_oldest, insert_again}
use meshelf.Store.Sources.Refusal.{refusal_effect}

runs : Unit {0}
unfolding byte_len len_utf8 ends_with count_lines is_char_boundary truncate lookup erase place
    insert sort_in sort validate_root_name validate push_normalized normalize_from back_to_boundary
    preview of_text validate_for validate_source_input called_each remove_all oldest purge_oldest
    maximum next_sequence purge_oldest_sources next_source_sequence again_source add_source
    insert_source_rows insert_offer_source get_offer_source without refuse_rows remove_refusal_rows
    remove_explicit_refusal
runs = tt

abbrev offer : OfferId → OfferSourceInput
offer id = record {
  offer_id = id;
  descriptor = text 1 1 (lit "a");
  announced_to = 7 ∷ 8 ∷ [];
  source = Offer.OfferSource.text (lit "a");
}

apart : Pairs {A = DeviceId} (λ a b. b ≢ a) (7 ∷ 8 ∷ [])
apart = (((λ p. absurd (omega arith)), tt), (tt, tt))

-- the store after the offers n, …, 1, the first of them last
abbrev filled : ℕ → RedbV2Store
filled zero = empty_store
filled (suc n) = (insert_offer_source no_faults (offer (suc n)) (filled n)).1

filled-IsSources : (n : ℕ) → IsSources (filled n).offer_sources
filled-IsSources zero = IsShelf-empty sequence IsSourceRow
filled-IsSources (suc n) =
    insert_offer_source-IsSources no_faults (offer (suc n)) (filled n) apart (filled-IsSources n)

second-IsSources : IsSources (insert_offer_source no_faults (offer 2) (filled 1)).1.offer_sources
second-IsSources =
    insert_offer_source-IsSources no_faults (offer 2) (filled 1) apart (filled-IsSources 1)

offer_valid : (n : ℕ) → validate_source_input (offer n) ≡ ok tt
unfolding runs
offer_valid n = refl

second-CanAdd : CanAdd (offer 2) (filled 1)
unfolding runs
second-CanAdd = (filled-IsSources 1, refl, refl, omega arith)

eleventh-CanAdd : CanAdd (offer 11) (filled 10)
unfolding runs
eleventh-CanAdd = (filled-IsSources 10, refl, refl, omega arith)

oldest_before : get_offer_source no_faults 1 (filled 10) ≡ ok (some (added_source (offer 1) []))
unfolding runs
oldest_before = refl

oldest_after :
    get_offer_source no_faults 1 (insert_offer_source no_faults (offer 11) (filled 10)).1 ≡ ok none
unfolding runs
oldest_after = refl

newer_after :
    get_offer_source no_faults 2 (insert_offer_source no_faults (offer 11) (filled 10)).1
    ≡ ok (some (added_source (offer 2) (filled 1).offer_sources))
unfolding runs
newer_after = refl

eleventh_insert-get :
    ((insert_offer_source no_faults (offer 11) (filled 10)).0
      ≡ ok (record {
        entry = added_source (offer 11) (filled 10).offer_sources;
        inserted = true;
        purged = target (filled 10).offer_sources;
      }))
    × (length (insert_offer_source no_faults (offer 11) (filled 10)).1.offer_sources
          + target (filled 10).offer_sources
        ≡ length (filled 10).offer_sources + 1)
    × (get_offer_source no_faults 11 (insert_offer_source no_faults (offer 11) (filled 10)).1
        ≡ ok (some (added_source (offer 11) (filled 10).offer_sources)))
    × All
        (λ e. sequence e.1 < sequence (added_source (offer 11) (filled 10).offer_sources))
        (kept_sources (filled 10).offer_sources)
    × ((j : OfferId)
        → j ≢ 11
        → (get_offer_source no_faults j (insert_offer_source no_faults (offer 11) (filled 10)).1
            ≡ ok none)
          ⊎ (get_offer_source no_faults j (insert_offer_source no_faults (offer 11) (filled 10)).1
              ≡ get_offer_source no_faults j (filled 10)))
eleventh_insert-get = insert_new-get (offer 11) (filled 10) eleventh-CanAdd

eleventh_purges_oldest :
    (added_source (offer 1) []).creation_sequence
    ≤ (added_source (offer 2) (filled 1).offer_sources).creation_sequence
eleventh_purges_oldest =
    insert_purges_oldest (offer 11) (filled 10) 1 2 (added_source (offer 1) [])
      (added_source (offer 2) (filled 1).offer_sources) eleventh-CanAdd
      (λ p. absurd (omega (arith, p))) oldest_before oldest_after newer_after

abbrev other_text : OfferSourceInput
other_text = record {
  offer_id = 2;
  descriptor = text 1 1 (lit "b");
  announced_to = 7 ∷ [];
  source = Offer.OfferSource.text (lit "b");
}

other_valid : validate_source_input other_text ≡ ok tt
unfolding runs
other_valid = refl

second_again :
    ((other_text.descriptor ≡ (offer 2).descriptor)
      × (insert_offer_source no_faults other_text
            (insert_offer_source no_faults (offer 2) (filled 1)).1
          ≡ (
            ok (record {
              entry = added_source (offer 2) (filled 1).offer_sources;
              inserted = false;
              purged = 0;
            }),
            (insert_offer_source no_faults (offer 2) (filled 1)).1,
          )))
    ⊎ ((other_text.descriptor ≢ (offer 2).descriptor)
        × (insert_offer_source no_faults other_text
              (insert_offer_source no_faults (offer 2) (filled 1)).1
            ≡ (err source_conflict, (insert_offer_source no_faults (offer 2) (filled 1)).1)))
second_again = insert_again (offer 2) other_text (filled 1) second-CanAdd other_valid refl

first_there : get_offer_source no_faults 1 (filled 2) ≡ ok (some (added_source (offer 1) []))
unfolding runs
first_there = refl

two_recipients : length (added_source (offer 1) []).announced_to ≤ u32_max
two_recipients = omega arith

first_refusal :
    ((get_offer_source no_faults 1 (remove_explicit_refusal no_faults 1 7 (filled 2)).1 ≡ ok none)
      ↔ ((added_source (offer 1) []).announced_to ≡ 7 ∷ []))
    × ((row' : OfferSourceRecord)
        → get_offer_source no_faults 1 (remove_explicit_refusal no_faults 1 7 (filled 2)).1
          ≡ ok (some row')
        → (d : DeviceId)
        → has_member d row'.announced_to
          ≡ (if d == 7 then false else has_member d (added_source (offer 1) []).announced_to))
    × ((j : OfferId)
        → j ≢ 1
        → get_offer_source no_faults j (remove_explicit_refusal no_faults 1 7 (filled 2)).1
          ≡ get_offer_source no_faults j (filled 2))
first_refusal =
    refusal_effect 1 7 (filled 2) (added_source (offer 1) []) (filled-IsSources 2) first_there
      two_recipients
