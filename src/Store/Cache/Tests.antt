-- ===== src/Store/Cache/Tests.antt =====
-- The cache at concrete inputs: a record in flight, and its promotion.
use meshelf.Base.{◌≡◌, refl, true, none, some, ok}
use meshelf.Base.Text.{lit}
use meshelf.Core.Activation.{in_flight, completed, ClipboardCacheRecord}
use meshelf.Store.Database.{no_faults, RedbV2Store, empty_store}
use meshelf.Store.Cache.{set_clipboard_cache, get_clipboard_cache, promote_clipboard_cache}
use meshelf.Store.Cache.Laws.{IsCache, promote_effect}

abbrev candidate : ClipboardCacheRecord
candidate = record {
  activation_id = 3;
  state = in_flight;
  payload_path = record { spelling = lit "/cache/3"; is_absolute = true };
}

abbrev cached : RedbV2Store
cached = (set_clipboard_cache no_faults candidate empty_store).1

empty-IsCache : IsCache empty_store.clipboard_cache
empty-IsCache = record { distinct = tt; fits = tt }

candidate_promoted :
    ((promote_clipboard_cache no_faults candidate cached).0
      ≡ get_clipboard_cache no_faults completed cached)
    × (get_clipboard_cache no_faults completed
          (promote_clipboard_cache no_faults candidate cached).1
        ≡ ok (some (record candidate { state = completed })))
    × (get_clipboard_cache no_faults in_flight
          (promote_clipboard_cache no_faults candidate cached).1
        ≡ ok none)
candidate_promoted = promote_effect candidate cached refl refl
