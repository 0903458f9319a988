-- ===== src/Store/Purge.antt =====
-- `purge_oldest_sources`, `next_source_sequence` and their twins for cards
-- (crates/meshelf-store/src/v2.rs), over any rows with a sequence number.
pub mod Bounds
pub mod Oldest
pub mod Count
use meshelf.Base.{
  ℕ, zero, suc, ◌+◌, ◌-◌, ◌≤◌, max, Bool, true, false, ◌&&◌, ◌||◌, List, [], ◌∷◌, map, Result, ok,
  err, ◌>>=◌, ◌>>◌, reject, leb, ltb, ◌==◌, if◌then◌else◌, length, take, Option, none, some, ok_or,
}
use meshelf.Base.Map.{Key, Map, erase}
use meshelf.Base.Sort.{sort}
use meshelf.Core.Model.{max_live_entries, u32_max, u64_max, checked_add_u64}
use meshelf.Core.Records.{StoreError, too_many_purged, sequence_overflow}
use meshelf.Store.Database.{Faults, called, called_each, iter, decode, remove}

-- how many rows must go, so that nine are left and one more fits
abbrev pub target {ℓ} : {A : Type ℓ} → List A → ℕ
target rows = length rows - (max_live_entries - 1)

unfoldable pub remove_all : {K V : Type 0} ⦃key : Key K⦄ → List K → Map K V → Map K V
remove_all [] rows = rows
remove_all (k ∷ ks) rows = remove_all ks (erase k rows)

module _ {K V : Type 0} ⦃key : Key K⦄ (sequence : V → ℕ) where
  -- the order of `sort_by_key(|(sequence, key)| …)`
  abbrev pub row_before : K × V → K × V → Bool
  row_before (j, v) (k, w) =
      ltb (sequence v) (sequence w) || (sequence v == sequence w && key.key_leb j k)

  -- the keys of the rows that go
  unfoldable pub oldest : Map K V → List K
  oldest rows = map (λ e. e.0) (take (target rows) (sort row_before rows))

  unfoldable pub purge_oldest : Faults → Map K V → Result StoreError (ℕ × Map K V)
  purge_oldest db rows = do
    called db iter
    called_each db decode rows
    called_each db remove (oldest rows)
    reject (ltb u32_max (target rows)) too_many_purged
    ok (target rows, remove_all (oldest rows) rows)

  unfoldable pub maximum : Map K V → ℕ
  maximum [] = 0
  maximum ((_, v) ∷ rows) = max (sequence v) (maximum rows)

  unfoldable pub next_sequence : Faults → Map K V → Result StoreError ℕ
  next_sequence db rows = do
    called db iter
    called_each db decode rows
    ok_or sequence_overflow (checked_add_u64 (maximum rows) 1)
