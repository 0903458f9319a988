-- ===== src/Net/Ledger/Tests.antt =====
-- Witnesses and tests for the reservations.
use meshelf.Base.{ℕ, ◌+◌, ◌*◌, ◌≤◌, ◌≡◌, refl, false, [], ◌∷◌, ok, err}
use meshelf.Base.Map.{text_key, lookup, insert, erase, place}
use meshelf.Net.Ledger.{
  ReservationLedger, ReservationPermit, insufficient_space, already_reserved, reserve_with_capacity,
  drop, headroom,
}
use meshelf.Net.Ledger.Steps.{
  System, idle, first, later, reserved, dropped, Reach, start, step, held,
}
use meshelf.Net.Ledger.Exact.{IsExact, Reach-IsExact, reserve_no_overcommit}

abbrev gib : ℕ
gib = 1024 * 1024 * 1024

abbrev small : ReservationPermit
small = record { key = "/home"; reserved_bytes = 5 + 2 * gib }

abbrev large : ReservationPermit
large = record { key = "/home"; reserved_bytes = gib + 2 * gib }

abbrev ledger_of : ℕ → ReservationLedger
ledger_of bytes = record { poisoned = false; reservations = ("/home", bytes) ∷ [] }

first_reservation :
    reserve_with_capacity "/home" (6 * gib) (30 * gib) 5 idle.ledger
    ≡ ok (small, ledger_of (5 + 2 * gib))
unfolding reserve_with_capacity already_reserved headroom lookup insert erase place
first_reservation = refl

second_reservation :
    reserve_with_capacity "/home" (6 * gib) (30 * gib) gib (ledger_of (5 + 2 * gib))
    ≡ ok (large, ledger_of (5 + 5 * gib))
unfolding reserve_with_capacity already_reserved headroom lookup insert erase place
second_reservation = refl

third_is_refused :
    reserve_with_capacity "/home" (6 * gib) (30 * gib) 0 (ledger_of (5 + 5 * gib))
    ≡ err (insufficient_space (6 * gib) (5 + 5 * gib) (2 * gib))
unfolding reserve_with_capacity already_reserved headroom lookup insert erase place
third_is_refused = refl

abbrev one_permit : System
one_permit = record { ledger = ledger_of (5 + 2 * gib); permits = small ∷ [] }

one_permit_reached : Reach one_permit
one_permit_reached =
    step start (
      reserved idle "/home" (6 * gib) (30 * gib) 5 small (ledger_of (5 + 2 * gib))
        first_reservation)

-- the first of two permits is dropped
one_left : Reach (record { ledger = drop small (ledger_of (5 + 5 * gib)); permits = large ∷ [] })
one_left =
    let both = step one_permit_reached (
      reserved one_permit "/home" (6 * gib) (30 * gib) gib large (ledger_of (5 + 5 * gib))
        second_reservation) in
    step both (dropped _ small (large ∷ []) (later large (first [])))

dropped_row : drop small (ledger_of (5 + 5 * gib)) ≡ ledger_of (3 * gib)
unfolding drop lookup insert erase place
dropped_row = refl

ledger-IsExact :
    IsExact (record { ledger = drop small (ledger_of (5 + 5 * gib)); permits = large ∷ [] })
ledger-IsExact = Reach-IsExact one_left

no_overcommit :
    (held "/home" (large ∷ one_permit.permits) ≤ 6 * gib)
    × (gib + 2 * (1024 * 1024 * 1024) ≤ large.reserved_bytes)
no_overcommit =
    reserve_no_overcommit "/home" (6 * gib) (30 * gib) gib one_permit_reached second_reservation
