-- ===== src/Store/Database.antt =====
-- What crates/meshelf-store/src/v2.rs asks of redb and serde_json. A table is an ordered map of
-- decoded rows, and a write transaction is all or nothing: a call that reports an error ends the
-- operation before the commit. `Faults` says, for one operation, which kinds of call report one.
use meshelf.Base.{◌≡◌, refl, Option, none, some, List, [], ◌∷◌, Result, ok, err, ◌>>◌}
use meshelf.Base.Map.{Map}
use meshelf.Base.Text.{Text}
use meshelf.Core.Model.{ActivationId, DeviceId, OfferId}
use meshelf.Core.Activation.{ActivationJournalEntry, ClipboardCacheRecord}
use meshelf.Core.Records.{OfferSourceRecord, OfferCardRecord, StoreError, external}
use Prim.Native.String.{String}

pub data Call : Type 0 where
  begin_write begin_read open_table get iter insert remove encode decode commit : Call

abbrev pub Faults : Type 0
Faults = Call → Option Text

-- every call succeeds
abbrev pub no_faults : Faults
no_faults _ = none

-- `….map_err(map_redb_error)?`
abbrev pub called : Faults → Call → Result StoreError (Unit {0})
called db c = elim (db c) [ none ↦ ok tt | some message ↦ err (external message) ]

-- `guard.value()` of a row that was found, decoded
abbrev pub decoded : {V : Type 0} → Faults → Option V → Result StoreError (Option V)
decoded db none = ok none
decoded db (some row) = do called db decode; ok (some row)

-- the same call once for each row
unfoldable pub called_each {ℓ} :
    {A : Type ℓ} → Faults → Call → List A → Result StoreError (Unit {0})
called_each db c [] = ok tt
called_each db c (_ ∷ rest) = do called db c; called_each db c rest

pub called_each_calm {ℓ} :
    {A : Type ℓ} (c : Call) (xs : List A) → called_each no_faults c xs ≡ ok tt
unfolding called_each
called_each_calm c [] = refl
called_each_calm c (x ∷ xs) = called_each_calm c xs

pub record RedbV2Store : Type 0 where
  pub offer_sources : Map OfferId OfferSourceRecord
  pub offer_cards : Map (DeviceId × OfferId) OfferCardRecord
  pub activation_journal : Map ActivationId ActivationJournalEntry
  pub clipboard_cache : Map String ClipboardCacheRecord

-- what an operation returns, beside the store it leaves; `?` stops at an error and keeps the store
abbrev pub Outcome : Type 0 → Type 0
Outcome A = Result StoreError A × RedbV2Store

abbrev pub and_then : {A B : Type 0} → Outcome A → (A → RedbV2Store → Outcome B) → Outcome B
and_then (ok a, store) f = f a store
and_then (err e, store) f = (err e, store)

abbrev pub empty_store : RedbV2Store
empty_store = record {
  offer_sources = [];
  offer_cards = [];
  activation_journal = [];
  clipboard_cache = [];
}
