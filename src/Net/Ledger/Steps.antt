-- ===== src/Net/Ledger/Steps.antt =====
-- The ledger beside the permits that are alive: threads reserve and drop in any order.
use meshelf.Base.{ℕ, ◌+◌, ◌≡◌, true, false, List, [], ◌∷◌, ok, if◌then◌else◌}
use meshelf.Base.Map.{text_key}
use meshelf.Net.Ledger.{
  FilesystemKey, ReservationLedger, ReservationPermit, reserve_with_capacity, drop,
}

pub record System : Type 0 where
  pub ledger : ReservationLedger
  pub permits : List ReservationPermit

abbrev pub idle : System
idle = record { ledger = record { poisoned = false; reservations = [] }; permits = [] }

-- one permit of a list, and the others
pub data Taken (p : ReservationPermit)
    : List ReservationPermit → List ReservationPermit → Type 0 where
  first : (ps : List ReservationPermit) → Taken p (p ∷ ps) ps
  later :
      (q : ReservationPermit) {ps qs : List ReservationPermit}
      → Taken p ps qs
      → Taken p (q ∷ ps) (q ∷ qs)

pub data Step : System → System → Type 0 where
  reserved :
      (s : System) (key : FilesystemKey) (available total payload_bytes : ℕ) (p : ReservationPermit)
      (after : ReservationLedger)
      → reserve_with_capacity key available total payload_bytes s.ledger ≡ ok (p, after)
      → Step s (record { ledger = after; permits = p ∷ s.permits })
  dropped :
      (s : System) (p : ReservationPermit) (others : List ReservationPermit)
      → Taken p s.permits others
      → Step s (record { ledger = drop p s.ledger; permits = others })
  -- a thread panics while it holds the lock
  panicked : (s : System) → Step s (record s { ledger = record (s.ledger) { poisoned = true } })

pub data Reach : System → Type 0 where
  start : Reach idle
  step : {s t : System} → Reach s → Step s t → Reach t

-- what the live permits hold on one file system
unfoldable pub held : FilesystemKey → List ReservationPermit → ℕ
held k [] = 0
held k (p ∷ ps) =
    let rest = held k ps in if text_key.eqb p.key k then p.reserved_bytes + rest else rest
