-- ===== src/Store/Cache/Laws.antt =====
-- The clipboard cache of crates/meshelf-store/src/v2.rs: its invariant, and its promotion.
use Prim.Native.String.{String}
use meshelf.Base.{
  All, ◌≡◌, refl, sym, ap, ◌∙◌, inl, inr, true, arith, Option, none, some, Result, ok, err,
  Option-cases,
}
use meshelf.Base.Map.{Distinct, text_key, lookup, erase, insert}
use meshelf.Base.Map.Laws.{
  insert-Distinct, insert-All, erase-Distinct, erase-All, lookup-insert, lookup-erase,
}
use meshelf.Core.Activation.{ClipboardCacheState, in_flight, completed, ClipboardCacheRecord}
use meshelf.Core.Records.{StoreError}
use meshelf.Store.Database.{Faults, no_faults, RedbV2Store}
use meshelf.Store.Cache.{
  CacheRows, write_cache, cache_key, set_rows, clear_rows, set_clipboard_cache, get_clipboard_cache,
  clear_clipboard_cache, promote_rows, promote_clipboard_cache,
}

pub get_clipboard_cache_calm :
    (state : ClipboardCacheState) (store : RedbV2Store)
    → get_clipboard_cache no_faults state store
      ≡ ok (lookup (cache_key state) store.clipboard_cache)
unfolding get_clipboard_cache
get_clipboard_cache_calm state store = ground arith

promoted_rows :
    (candidate : ClipboardCacheRecord) (rows : CacheRows)
    → candidate.state ≡ in_flight
    → candidate.payload_path.is_absolute ≡ true
    → promote_rows no_faults candidate rows
      ≡ ok (
        lookup (cache_key completed) rows,
        erase
            (cache_key in_flight)
            (insert (cache_key completed) (record candidate { state = completed }) rows),
      )
unfolding promote_rows
promoted_rows candidate rows flying absolute =
    elim (Option-cases (lookup (cache_key completed) rows)) [
      | inl e ↦ rw (flying, absolute, e) refl
      | inr (row, e) ↦ rw (flying, absolute, e) refl
    ]

promoted_store :
    (candidate : ClipboardCacheRecord) (store : RedbV2Store)
    → candidate.state ≡ in_flight
    → candidate.payload_path.is_absolute ≡ true
    → promote_clipboard_cache no_faults candidate store ≡ (
      ok (lookup (cache_key completed) store.clipboard_cache),
      record store {
        clipboard_cache = erase (cache_key in_flight) (
            insert
              (cache_key completed)
              (record candidate { state = completed })
              store.clipboard_cache);
      },
    )
unfolding promote_clipboard_cache
promoted_store candidate store flying absolute =
    ap (write_cache store) (promoted_rows candidate store.clipboard_cache flying absolute)

-- Without faults, the promotion of a candidate in flight with an absolute path returns the previous
-- completed record, puts the candidate into the completed slot and empties the slot in flight.
pub promote_effect :
    (candidate : ClipboardCacheRecord) (store : RedbV2Store)
    → candidate.state ≡ in_flight
    → candidate.payload_path.is_absolute ≡ true
    → ((promote_clipboard_cache no_faults candidate store).0
        ≡ get_clipboard_cache no_faults completed store)
      × (get_clipboard_cache no_faults completed
            (promote_clipboard_cache no_faults candidate store).1
          ≡ ok (some (record candidate { state = completed })))
      × (get_clipboard_cache no_faults in_flight
            (promote_clipboard_cache no_faults candidate store).1
          ≡ ok none)
promote_effect candidate store flying absolute =
    let rows = store.clipboard_cache in
    let row : ClipboardCacheRecord = record candidate { state = completed } in
    let after : RedbV2Store = record store {
      clipboard_cache = erase "in_flight" (insert "completed" row rows);
    } in
    rw (promoted_store candidate store flying absolute) (
      sym (get_clipboard_cache_calm completed store),
      get_clipboard_cache_calm completed after
          ∙ ap ok (
              lookup-erase "in_flight" "completed" (insert "completed" row rows)
              ∙ lookup-insert "completed" "completed" row rows),
      get_clipboard_cache_calm in_flight after
          ∙ ap ok (lookup-erase "in_flight" "in_flight" (insert "completed" row rows)),
    )

-- The invariant of the cache: one row a slot, and the state and the path of each row are right.
pub record IsCacheRow (e : String × ClipboardCacheRecord) : Type 0 where
  pub keyed : e.0 ≡ cache_key e.1.state
  pub absolute : e.1.payload_path.is_absolute ≡ true

pub record IsCache (rows : CacheRows) : Type 0 where
  pub distinct : Distinct rows
  pub fits : All IsCacheRow rows

insert-IsCache :
    (row : ClipboardCacheRecord) (rows : CacheRows)
    → row.payload_path.is_absolute ≡ true
    → IsCache rows
    → IsCache (insert (cache_key row.state) row rows)
insert-IsCache row rows absolute h = record {
  distinct = insert-Distinct (cache_key row.state) row rows h.distinct;
  fits =
      insert-All IsCacheRow (cache_key row.state) row rows
        (record { keyed = refl; absolute = absolute }) h.fits;
}

erase-IsCache : (key : String) (rows : CacheRows) → IsCache rows → IsCache (erase key rows)
erase-IsCache key rows h = record {
  distinct = erase-Distinct key rows h.distinct;
  fits = erase-All IsCacheRow key rows h.fits;
}

set-IsCache :
    (db : Faults) (row : ClipboardCacheRecord) (rows : CacheRows) {u : Unit {0}} (rows' : CacheRows)
    → IsCache rows
    → set_rows db row rows ≡ ok (u, rows')
    → IsCache rows'
unfolding set_rows
set-IsCache db row rows rows' h e =
    let absolute : row.payload_path.is_absolute ≡ true = ground arith in
    let same : rows' ≡ insert (cache_key row.state) row rows = ground arith in
    rw same (insert-IsCache row rows absolute h)

pub clear-IsCache :
    (db : Faults) (state : ClipboardCacheState) (rows : CacheRows) {u : Unit {0}}
    (rows' : CacheRows)
    → IsCache rows
    → clear_rows db state rows ≡ ok (u, rows')
    → IsCache rows'
unfolding clear_rows
clear-IsCache db state rows rows' h e =
    let same : rows' ≡ erase (cache_key state) rows = ground arith in
    rw same (erase-IsCache (cache_key state) rows h)

pub written-IsCache :
    {A : Type 0} (store : RedbV2Store) (r : Result StoreError (A × CacheRows))
    → IsCache store.clipboard_cache
    → ((a : A) (rows' : CacheRows) → r ≡ ok (a, rows') → IsCache rows')
    → IsCache (write_cache store r).1.clipboard_cache
written-IsCache store (ok (a, rows')) h next = next a rows' refl
written-IsCache store (err e) h next = h

promoted-IsCache :
    (db : Faults) (candidate : ClipboardCacheRecord) (rows : CacheRows)
    (previous : Option ClipboardCacheRecord) (rows' : CacheRows)
    → IsCache rows
    → promote_rows db candidate rows ≡ ok (previous, rows')
    → IsCache rows'
unfolding promote_rows
promoted-IsCache db candidate rows previous rows' h e =
    let absolute : candidate.payload_path.is_absolute ≡ true = ground arith in
    let same : rows'
        ≡ erase "in_flight" (insert "completed" (record candidate { state = completed }) rows) =
      ground arith in
    rw same (
      erase-IsCache "in_flight" _
        (insert-IsCache (record candidate { state = completed }) rows absolute h))

-- Whatever the database reports, the three writes to the clipboard cache keep it valid: one row a
-- slot, each with its slot's state and an absolute path.
pub writes-IsCache :
    (db : Faults) (row : ClipboardCacheRecord) (state : ClipboardCacheState) (store : RedbV2Store)
    → IsCache store.clipboard_cache
    → IsCache (set_clipboard_cache db row store).1.clipboard_cache
      × IsCache (clear_clipboard_cache db state store).1.clipboard_cache
      × IsCache (promote_clipboard_cache db row store).1.clipboard_cache
unfolding set_clipboard_cache clear_clipboard_cache promote_clipboard_cache
writes-IsCache db row state store h =
    let rows = store.clipboard_cache in
    (
      written-IsCache store (set_rows db row rows) h
          (λ u rows' e. set-IsCache db row rows {u = u} rows' h e),
      written-IsCache store (clear_rows db state rows) h
          (λ u rows' e. clear-IsCache db state rows {u = u} rows' h e),
      written-IsCache store (promote_rows db row rows) h
          (λ previous rows' e. promoted-IsCache db row rows previous rows' h e),
    )
