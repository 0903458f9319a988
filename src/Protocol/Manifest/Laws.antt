-- ===== src/Protocol/Manifest/Laws.antt =====
-- What a valid manifest is, said without the checks' order and machine integers.
use meshelf.Base.{
  ℕ, ◌+◌, ◌*◌, ◌≤◌, ◌≡◌, ◌↔◌, inl, inr, List, [], ◌∷◌, arith, ok, Result-cases, Option-cases,
  >>=-eq-ok, Bool-cases, All, length, if◌then◌else◌,
}
use meshelf.Core.Model.{
  max_offer_file_bytes, max_offer_manifest_entries, max_offer_transfer_bytes, u64_max,
  checked_add_u64,
}
use meshelf.Protocol.Messages.{FileEntryKind, file, directory, ManifestEntry}
use meshelf.Protocol.Manifest.{
  validate_entry_size, is_file, validate_entry, checked_bytes_from, validate_manifest_entries,
}

abbrev pub IsEntry : ManifestEntry → Type 0
IsEntry entry = validate_entry entry ≡ ok tt

-- the bytes of the files
unfoldable pub file_bytes : List ManifestEntry → ℕ
file_bytes [] = 0
file_bytes (entry ∷ rest) = (if is_file entry.kind then entry.byte_len else 0) + file_bytes rest

size-bound :
    (kind : FileEntryKind) (bytes : ℕ)
    → validate_entry_size kind bytes ≡ ok tt
    → bytes ≤ max_offer_file_bytes
size-bound file bytes h = ground arith
size-bound directory bytes h = ground arith

-- a valid entry is small
IsEntry-bound : (entry : ManifestEntry) → IsEntry entry → entry.byte_len ≤ max_offer_file_bytes
unfolding validate_entry
IsEntry-bound entry h = size-bound entry.kind entry.byte_len (ground arith)

-- the loop succeeds on valid entries that are few, with the sum of the sizes
checked_bytes-valid :
    (total : ℕ) (entries : List ManifestEntry)
    → total + length entries * max_offer_file_bytes ≤ u64_max
    → All IsEntry entries
    → checked_bytes_from total entries ≡ ok (total + file_bytes entries)
unfolding checked_bytes_from file_bytes
checked_bytes-valid total [] few h = ground arith
checked_bytes-valid total (entry ∷ rest) few h =
    let small = IsEntry-bound entry h.0 in
    elim (Bool-cases (is_file entry.kind)) [
      | inl p ↦
          let next = checked_bytes-valid (total + entry.byte_len) rest (omega arith) h.1 in
          ground (arith, small, next, h.0)
      | inr p ↦
          let next = checked_bytes-valid total rest (omega arith) h.1 in ground (arith, next, h.0)
    ]

checked_bytes-All :
    (total sum : ℕ) (entries : List ManifestEntry)
    → checked_bytes_from total entries ≡ ok sum
    → All IsEntry entries
unfolding checked_bytes_from
checked_bytes-All total sum [] h = tt
checked_bytes-All total sum (entry ∷ rest) h =
    let (u, valid, next) = >>=-eq-ok (validate_entry entry) _ h in
    let later : All IsEntry rest = elim (Bool-cases (is_file entry.kind)) [
      | inr p ↦ checked_bytes-All total sum rest (ground arith)
      | inl p ↦ elim (Option-cases (checked_add_u64 total entry.byte_len)) [
        | inl q ↦ absurd (ground arith)
        | inr (t, q) ↦ checked_bytes-All t sum rest (ground arith)
      ]
    ] in
    (valid, later)

-- validate_manifest_entries accepts a manifest exactly when it has at most 4,096 entries, each
-- entry is valid, and the files have at most 16 GiB together; the overflow checks refuse nothing
-- else.
pub validate_manifest_entries_iff :
    (entries : List ManifestEntry)
    → (validate_manifest_entries entries ≡ ok tt) ↔ (
        (length entries ≤ max_offer_manifest_entries)
        × All IsEntry entries
        × (file_bytes entries ≤ max_offer_transfer_bytes))
unfolding validate_manifest_entries
validate_manifest_entries_iff entries =
    let valid = checked_bytes-valid 0 entries in
    (
      (λ h.
          let few : length entries ≤ max_offer_manifest_entries = ground arith in
          let all : All IsEntry entries = elim (Result-cases (checked_bytes_from 0 entries)) [
            | inl (sum, e) ↦ checked_bytes-All 0 sum entries e
            | inr (x, e) ↦ absurd (ground arith)
          ] in
          let sum = valid (omega (arith, few)) all in (few, all, ground arith)),
      λ h. let sum = valid (omega (arith, h.0)) h.1 in ground arith,
    )
