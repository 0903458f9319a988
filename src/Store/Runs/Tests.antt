-- ===== src/Store/Runs/Tests.antt =====
-- A run of three operations, with a fault in the second.
use meshelf.Base.{true, List, [], ◌∷◌, none, some}
use meshelf.Base.Text.{lit}
use meshelf.Core.Offer.{HostPath, file, available}
use meshelf.Core.Activation.{in_flight}
use meshelf.Store.Database.{Faults, commit, no_faults, empty_store}
use meshelf.Store.Runs.{Operation, card_inserted, cache_set, activation_removed, run_all}
use meshelf.Store.Runs.Valid.{IsStore, every_run-IsStore}

abbrev no_commit : Faults
no_commit commit = some (lit "disk full")
no_commit _ = none

abbrev path : HostPath
path = record { spelling = lit "/cache/1"; is_absolute = true }

abbrev operations : List (Faults × Operation)
operations =
    (
      no_faults,
      card_inserted (record {
        source_device = 5;
        offer_id = 9;
        descriptor = file (lit "a.txt") 12;
        availability = available;
      }),
    )
    ∷ (no_commit, activation_removed 3)
    ∷ (no_faults, cache_set (record { activation_id = 3; state = in_flight; payload_path = path }))
    ∷ []

three_operations : IsStore (run_all operations empty_store)
three_operations = every_run-IsStore operations
