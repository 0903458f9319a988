-- ===== src/Net/Ledger.antt =====
-- The reservations of disk space in crates/meshelf-net/src/fetch_receiver.rs. A space query of the
-- operating system is a parameter, and so is a mutex that a panicking thread left poisoned.
pub mod Steps
pub mod Exact
mod Tests
use meshelf.Base.{
  ℕ, ◌+◌, ◌-◌, ◌*◌, ◌/◌, min, max, Bool, true, false, Option, none, some, Result, ok, err, ◌>>=◌,
  ◌>>◌, reject, map_err, ok_or, ltb, ◌==◌, if◌then◌else◌,
}
use meshelf.Base.Map.{Map, text_key, lookup, insert, erase}
use meshelf.Base.Text.{Text}
use meshelf.Core.Model.{u64_max, checked_add_u64}
use Prim.Native.String.{String}

abbrev pub FilesystemKey : Type 0
FilesystemKey = String

pub data ReservationError : Type 0 where
  filesystem : Text → ReservationError
  ledger_poisoned overflow : ReservationError
  insufficient_space : (available active_reserved required : ℕ) → ReservationError

-- the map behind the mutex, and whether the mutex is poisoned
pub record ReservationLedger : Type 0 where
  pub poisoned : Bool
  pub reservations : Map FilesystemKey ℕ

pub record ReservationPermit : Type 0 where
  pub key : FilesystemKey
  pub reserved_bytes : ℕ

-- what is kept free beside the payload
unfoldable pub headroom : ℕ → ℕ
headroom total =
    max (min u64_max (2 * (1024 * 1024 * 1024))) (min (total / 20) (16 * 1024 * 1024 * 1024))

-- `active.get(&key).copied().unwrap_or(0)`
unfoldable pub already_reserved : FilesystemKey → Map FilesystemKey ℕ → ℕ
already_reserved key active = elim (lookup key active) [ none ↦ 0 | some bytes ↦ bytes ]

-- An error leaves the ledger as it is.
unfoldable pub reserve_with_capacity :
    FilesystemKey
    → (available total payload_bytes : ℕ) → ReservationLedger
    → Result ReservationError (ReservationPermit × ReservationLedger)
reserve_with_capacity key available total payload_bytes ledger = do
  required ← ok_or overflow (checked_add_u64 payload_bytes (headroom total))
  reject ledger.poisoned ledger_poisoned
  let active = ledger.reservations
  reject (ltb (available - already_reserved key active) required)
      (insufficient_space available (already_reserved key active) required)
  next ← ok_or overflow (checked_add_u64 (already_reserved key active) required)
  ok (
    record { key = key; reserved_bytes = required },
    record ledger { reservations = insert key next active },
  )

-- what the operating system says of the destination's file system
pub record Capacity : Type 0 where
  pub filesystem_key : Result Text FilesystemKey
  pub available_space : Result Text ℕ
  pub total_space : Result Text ℕ

unfoldable pub reserve :
    Capacity
    → ℕ
    → ReservationLedger
    → Result ReservationError (ReservationPermit × ReservationLedger)
reserve destination payload_bytes ledger = do
  key ← map_err filesystem destination.filesystem_key
  available ← map_err filesystem destination.available_space
  total ← map_err filesystem destination.total_space
  reserve_with_capacity key available total payload_bytes ledger

-- a row after its value has gone down to this: at 0 it is removed
abbrev pub store_row : FilesystemKey → ℕ → Map FilesystemKey ℕ → Map FilesystemKey ℕ
store_row key value active = if value == 0 then erase key active else insert key value active

-- `drop` of a permit
unfoldable pub drop : ReservationPermit → ReservationLedger → ReservationLedger
drop permit ledger =
    if ledger.poisoned then ledger else elim (lookup permit.key ledger.reservations) [
      | none ↦ ledger
      | some value ↦ record ledger {
        reservations = store_row permit.key (value - permit.reserved_bytes) ledger.reservations;
      }
    ]
