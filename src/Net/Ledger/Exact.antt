-- ===== src/Net/Ledger/Exact.antt =====
-- What a reservation asks of the ledger, and the invariant of every run.
use meshelf.Base.{
  ℕ, ◌+◌, ◌-◌, ◌*◌, ◌≤◌, ◌≡◌, refl, inl, inr, true, false, Option, none, some, List, ◌∷◌, ok, arith,
  ◌==◌, if◌then◌else◌, Bool-cases, Option-cases,
}
use meshelf.Base.Map.{Map, text_key, lookup, insert}
use meshelf.Base.Map.Laws.{lookup-insert, lookup-erase}
use meshelf.Core.Model.{u64_max}
use meshelf.Net.Ledger.{
  FilesystemKey, ReservationLedger, ReservationPermit, headroom, already_reserved,
  reserve_with_capacity, drop, store_row,
}
use meshelf.Net.Ledger.Steps.{
  System, Taken, first, later, Step, reserved, dropped, panicked, Reach, start, step, held,
}

headroom_bounds :
    (total : ℕ)
    → (2 * (1024 * 1024 * 1024) ≤ headroom total) × (headroom total ≤ 16 * (1024 * 1024 * 1024))
unfolding headroom
headroom_bounds total = omega arith

-- a reservation fits in what is left
abbrev pub Fits : FilesystemKey → (available total payload_bytes : ℕ) → ReservationLedger → Type 0
Fits key available total payload_bytes ledger =
    (ledger.poisoned ≡ false)
    × (already_reserved key ledger.reservations + (payload_bytes + headroom total) ≤ available)

abbrev pub permit_for : FilesystemKey → (total payload_bytes : ℕ) → ReservationPermit
permit_for key total payload_bytes = record {
  key = key;
  reserved_bytes = payload_bytes + headroom total;
}

abbrev pub ledger_with : ReservationPermit → ReservationLedger → ReservationLedger
ledger_with p ledger = record ledger {
  reservations =
      insert p.key (already_reserved p.key ledger.reservations + p.reserved_bytes)
        ledger.reservations;
}

module _ (key : FilesystemKey) (available total payload_bytes : ℕ)
    (ledger : ReservationLedger) where
  pub reserve-Fits :
      available ≤ u64_max
      → Fits key available total payload_bytes ledger
      → reserve_with_capacity key available total payload_bytes ledger
        ≡ ok (
          permit_for key total payload_bytes,
          ledger_with (permit_for key total payload_bytes) ledger,
        )
  unfolding reserve_with_capacity
  reserve-Fits small (sound, room) = ground (arith, headroom_bounds total)

  pub reserve-eq-ok :
      {p : ReservationPermit} {after : ReservationLedger}
      → reserve_with_capacity key available total payload_bytes ledger ≡ ok (p, after)
      → Fits key available total payload_bytes ledger
        × (p ≡ permit_for key total payload_bytes)
        × (after ≡ ledger_with (permit_for key total payload_bytes) ledger)
  unfolding reserve_with_capacity
  reserve-eq-ok {p} {after} h = (ground (arith, headroom_bounds total), ground arith, ground arith)

-- The ledger of a run: exact as long as no thread has panicked, and never below the live permits.
pub record IsExact (s : System) : Type 0 where
  pub covers : (k : FilesystemKey) → held k s.permits ≤ already_reserved k s.ledger.reservations
  pub exact :
      s.ledger.poisoned ≡ false
      → (k : FilesystemKey)
      → lookup k s.ledger.reservations
        ≡ (if held k s.permits == 0 then none else some (held k s.permits))

-- the row that stands for this many bytes
abbrev row_of : ℕ → Option ℕ
row_of bytes = if bytes == 0 then none else some bytes

already_reserved-row_of :
    (k : FilesystemKey) (m : Map FilesystemKey ℕ) (bytes : ℕ)
    → lookup k m ≡ row_of bytes
    → already_reserved k m ≡ bytes
unfolding already_reserved
already_reserved-row_of k m bytes h = ground arith

lookup-store_row :
    (k j : FilesystemKey) (v : ℕ) (m : Map FilesystemKey ℕ)
    → lookup j (store_row k v m) ≡ (if text_key.eqb k j then row_of v else lookup j m)
lookup-store_row k j v m = ground (arith, lookup-insert k j v m, lookup-erase k j m)

held-Taken :
    (k : FilesystemKey) {p : ReservationPermit} {ps qs : List ReservationPermit}
    → Taken p ps qs
    → held k ps ≡ (if text_key.eqb p.key k then p.reserved_bytes + held k qs else held k qs)
unfolding held
held-Taken k (first ps) = refl
held-Taken k (later q t) = ground (arith, held-Taken k t)

-- on an unpoisoned ledger the second field gives the first
of_rows :
    (s : System)
    → ((k : FilesystemKey) → lookup k s.ledger.reservations ≡ row_of (held k s.permits))
    → IsExact s
of_rows s rows = record {
  covers = λ k.
      omega (arith, already_reserved-row_of k s.ledger.reservations (held k s.permits) (rows k));
  exact = λ _. rows;
}

reserved-IsExact :
    (s : System) (key : FilesystemKey) (total payload_bytes : ℕ)
    → s.ledger.poisoned ≡ false
    → IsExact s
    → IsExact (record {
      ledger = ledger_with (permit_for key total payload_bytes) s.ledger;
      permits = permit_for key total payload_bytes ∷ s.permits;
    })
unfolding held
reserved-IsExact s key total payload_bytes sound h =
    let before = s.ledger.reservations in
    of_rows _ (λ k.
      rw
        (lookup-insert key k (already_reserved key before + (payload_bytes + headroom total))
          before)
        (elim (Bool-cases (text_key.eqb key k)) [
          | inl e ↦
              let same = (text_key.eqb_iff key k).0 e in
              let count =
                already_reserved-row_of key before (held key s.permits) (h.exact sound key) in
              rw (e, count, same) (ground (arith, headroom_bounds total))
          | inr e ↦ rw e (h.exact sound k)
        ]))

lookup-drop :
    (p : ReservationPermit) (ledger : ReservationLedger) (k : FilesystemKey)
    → ledger.poisoned ≡ false
    → lookup k (drop p ledger).reservations ≡ (
        if text_key.eqb p.key k
        then elim (lookup p.key ledger.reservations) [
          | none ↦ none
          | some value ↦ row_of (value - p.reserved_bytes)
        ]
        else lookup k ledger.reservations)
unfolding drop
lookup-drop p ledger k sound = elim (Option-cases (lookup p.key ledger.reservations)) [
  | inl gone ↦ rw (sound, gone) (ground (arith, text_key.eqb_iff p.key k))
  | inr (value, found) ↦
      rw (sound, found) (lookup-store_row p.key k (value - p.reserved_bytes) ledger.reservations)
]

poisoned-drop :
    (p : ReservationPermit) (ledger : ReservationLedger)
    → ledger.poisoned ≡ true
    → drop p ledger ≡ ledger
unfolding drop
poisoned-drop p ledger e = rw e refl

dropped-row :
    (s : System) {p : ReservationPermit} {others : List ReservationPermit}
    → Taken p s.permits others
    → s.ledger.poisoned ≡ false
    → IsExact s
    → (k : FilesystemKey) → lookup k (drop p s.ledger).reservations ≡ row_of (held k others)
dropped-row s {p} {others} t sound h k =
    rw (lookup-drop p s.ledger k sound) (elim (Bool-cases (text_key.eqb p.key k)) [
      | inl e ↦
          let same = (text_key.eqb_iff p.key k).0 e in
          rw (same, h.exact sound k) (ground (arith, held-Taken k t))
      | inr e ↦ ground (arith, h.exact sound k, held-Taken k t)
    ])

dropped-IsExact :
    (s : System) {p : ReservationPermit} {others : List ReservationPermit}
    → Taken p s.permits others
    → IsExact s
    → IsExact (record { ledger = drop p s.ledger; permits = others })
dropped-IsExact s {p} {others} t h = elim (Bool-cases s.ledger.poisoned) [
  | inl e ↦
      rw (poisoned-drop p s.ledger e)
        (record { covers = λ k. ground (arith, h.covers k, held-Taken k t); exact = λ f. cc })
  | inr sound ↦ of_rows _ (dropped-row s t sound h)
]

Step-IsExact : {s t : System} → Step s t → IsExact s → IsExact t
Step-IsExact (reserved s key available total payload_bytes p after e) h =
    let (fits, same, changed) = reserve-eq-ok key available total payload_bytes s.ledger e in
    rw (same, changed) (reserved-IsExact s key total payload_bytes fits.0 h)
Step-IsExact (dropped s p others t) h = dropped-IsExact s t h
Step-IsExact (panicked s) h = record { covers = h.covers; exact = λ e. cc }

-- In every state that reservations, drops and panics reach, the ledger counts for each file system
-- at least what the live permits hold there; and while no thread panicked, exactly that, with no
-- row where they hold nothing.
pub Reach-IsExact : {s : System} → Reach s → IsExact s
unfolding held already_reserved lookup
Reach-IsExact start = record { covers = λ k. omega arith; exact = λ e k. refl }
Reach-IsExact (step r e) = Step-IsExact e (Reach-IsExact r)

-- In every state that reservations, drops and panics reach, a reservation that succeeds brings what
-- the live permits hold on its file system to at most the space that was available, and holds the
-- payload and 2 GiB at least.
pub reserve_no_overcommit :
    {s : System} (key : FilesystemKey) (available total payload_bytes : ℕ) {p : ReservationPermit}
    {after : ReservationLedger}
    → Reach s
    → reserve_with_capacity key available total payload_bytes s.ledger ≡ ok (p, after)
    → (held key (p ∷ s.permits) ≤ available)
      × (payload_bytes + 2 * (1024 * 1024 * 1024) ≤ p.reserved_bytes)
unfolding held
reserve_no_overcommit {s} key available total payload_bytes {p} {after} r e =
    let (fits, same, _) = reserve-eq-ok key available total payload_bytes s.ledger e in
    let count = (Reach-IsExact r).covers key in
    rw same (ground (arith, text_key.eqb_iff key key, headroom_bounds total))
