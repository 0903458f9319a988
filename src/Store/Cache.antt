-- ===== src/Store/Cache.antt =====
-- The clipboard cache: `set_clipboard_cache` to `promote_clipboard_cache` of
-- crates/meshelf-store/src/v2.rs, over a table with one row for each state.
pub mod Laws
mod Tests
use meshelf.Base.{
  Bool, true, false, not, Option, none, some, Result, ok, err, ◌>>=◌, ◌>>◌, reject, map_err,
}
use meshelf.Base.Map.{Map, text_key, lookup, erase, insert}
use meshelf.Core.Activation.{
  ActivationMode, ClipboardCacheState, in_flight, completed, ClipboardCacheRecord, validate_cache,
}
use meshelf.Core.Records.{StoreError, activation_invalid, candidate_not_in_flight}
use meshelf.Store.Database.{
  decoded, Faults, called, RedbV2Store, Outcome, begin_write, begin_read, open_table, get, decode,
  encode, remove, commit,
}
use meshelf.Store.Database
use Prim.Native.String.{String}

abbrev pub cache_key : ClipboardCacheState → String
cache_key in_flight = "in_flight"
cache_key completed = "completed"

abbrev pub CacheRows : Type 0
CacheRows = Map String ClipboardCacheRecord

abbrev pub write_cache : {A : Type 0} → RedbV2Store → Result StoreError (A × CacheRows) → Outcome A
write_cache store (ok (a, rows)) = (ok a, record store { clipboard_cache = rows })
write_cache store (err e) = (err e, store)

unfoldable pub set_rows :
    Faults → ClipboardCacheRecord → CacheRows → Result StoreError (Unit {0} × CacheRows)
set_rows db entry rows = do
  map_err activation_invalid (validate_cache entry)
  called db encode
  called db begin_write
  called db open_table
  called db Database.insert
  called db commit
  ok (tt, insert (cache_key entry.state) entry rows)

unfoldable pub set_clipboard_cache :
    Faults → ClipboardCacheRecord → RedbV2Store → Outcome (Unit {0})
set_clipboard_cache db entry store = write_cache store (set_rows db entry store.clipboard_cache)

unfoldable pub get_clipboard_cache :
    Faults → ClipboardCacheState → RedbV2Store → Result StoreError (Option ClipboardCacheRecord)
get_clipboard_cache db state store = do
  called db begin_read
  called db open_table
  called db get
  decoded db (lookup (cache_key state) store.clipboard_cache)

unfoldable pub clear_rows :
    Faults → ClipboardCacheState → CacheRows → Result StoreError (Unit {0} × CacheRows)
clear_rows db state rows = do
  called db begin_write
  called db open_table
  called db remove
  called db commit
  ok (tt, erase (cache_key state) rows)

unfoldable pub clear_clipboard_cache :
    Faults → ClipboardCacheState → RedbV2Store → Outcome (Unit {0})
clear_clipboard_cache db state store = write_cache store (clear_rows db state store.clipboard_cache)

abbrev pub is_in_flight : ClipboardCacheState → Bool
is_in_flight in_flight = true
is_in_flight completed = false

unfoldable pub promote_rows :
    Faults
    → ClipboardCacheRecord
    → CacheRows
    → Result StoreError (Option ClipboardCacheRecord × CacheRows)
promote_rows db candidate rows = do
  reject (not (is_in_flight candidate.state)) candidate_not_in_flight
  map_err activation_invalid (validate_cache candidate)
  called db encode
  called db begin_write
  called db open_table
  called db get
  previous ← decoded db (lookup (cache_key completed) rows)
  called db Database.insert
  called db remove
  called db commit
  ok (
    previous,
    erase (cache_key in_flight)
        (insert (cache_key completed) (record candidate { state = completed }) rows),
  )

unfoldable pub promote_clipboard_cache :
    Faults → ClipboardCacheRecord → RedbV2Store → Outcome (Option ClipboardCacheRecord)
promote_clipboard_cache db candidate store =
    write_cache store (promote_rows db candidate store.clipboard_cache)
