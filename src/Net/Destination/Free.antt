-- ===== src/Net/Destination/Free.antt =====
-- The name under which a publication ends (crates/meshelf-net/src/destination.rs).
use meshelf.Base.{
  ℕ, zero, suc, ◌+◌, ◌-◌, ◌>>◌, ◌≤◌, ◌<◌, ◌≡◌, refl, sym, ap, subst, ◌∙◌, ◌⊎◌, inl, inr, ◌∷◌, ◌++◌,
  ok, arith, Bool-cases, Option-cases, Result-cases, >>=-eq-ok, reject, ok_or, ltb, leb, ◌==◌,
  is_empty,
}
use meshelf.Base.Text.{Text, byte_len}
use meshelf.Core.Destination.{validate_component}
use meshelf.Core.Destination.Laws.{IsSafe, validate_component_sound}
use meshelf.Core.Model.{ContentKind, max_offer_portable_component_bytes, checked_add_u64}
use meshelf.Net.Destination.{
  length_overflow, nothing_left, suffix_too_long, truncate_utf8, checked_name,
  component_with_suffix, before_extension, collision_suffix, extension_of, collision_candidate,
  Attempt, published, already_exists, failed, Directory, required, last_attempt, publish_unique,
  publish_from, finalize_payload_without_overwrite,
}

Attempt-cases : (a : Attempt) → (a ≡ published) ⊎ (a ≡ already_exists) ⊎ (x : Text) × (a ≡ failed x)
Attempt-cases published = inl refl
Attempt-cases already_exists = inr (inl refl)
Attempt-cases (failed x) = inr (inr (x, refl))

checked_name-IsSafe : (given name : Text) → checked_name given ≡ ok name → IsSafe name
unfolding checked_name
checked_name-IsSafe given name h = elim (Result-cases (validate_component given)) [
  | inl (u, e) ↦
      let same : given ≡ name = ground arith in
      validate_component_sound name (ap validate_component (sym same) ∙ e)
  | inr (x, e) ↦ absurd (ground arith)
]

component_with_suffix-IsSafe :
    (component suffix name : Text) → component_with_suffix component suffix ≡ ok name → IsSafe name
unfolding component_with_suffix
component_with_suffix-IsSafe component suffix name h =
    let bound = max_offer_portable_component_bytes in
    let short = truncate_utf8 component (bound - byte_len suffix) in
    let (_, _, h1) =
      >>=-eq-ok (reject (leb bound (byte_len suffix)) (suffix_too_long (byte_len suffix)))
        (λ _. reject (is_empty short) nothing_left >> checked_name (short ++ suffix)) h in
    let (_, _, h2) =
      >>=-eq-ok (reject (is_empty short) nothing_left) (λ _. checked_name (short ++ suffix)) h1 in
    checked_name-IsSafe (short ++ suffix) name h2

before_extension-IsSafe :
    (root suffix : Text) (parts : Text × Text) (name : Text)
    → before_extension root suffix parts ≡ ok name
    → IsSafe name
unfolding before_extension
before_extension-IsSafe root suffix (stem, extension) name h =
    let bound = max_offer_portable_component_bytes in
    let (one, _, h1) =
      >>=-eq-ok (ok_or length_overflow (checked_add_u64 (byte_len suffix) 1)) _ h in
    let (fixed, _, h2) =
      >>=-eq-ok (ok_or length_overflow (checked_add_u64 one (byte_len extension))) _ h1 in
    let short = truncate_utf8 stem (bound - fixed) in
    let whole = short ++ suffix ++ b'.' ∷ extension in
    elim (Bool-cases (ltb bound fixed)) [
      | inl e ↦ component_with_suffix-IsSafe root suffix name (rw e at h2)
      | inr e ↦ elim (Bool-cases (is_empty short)) [
        | inl f ↦ component_with_suffix-IsSafe root suffix name (rw (e, f) at h2)
        | inr f ↦ checked_name-IsSafe whole name (rw (e, f) at h2)
      ]
    ]

collision_candidate-IsSafe :
    (root : Text) (kind : ContentKind) (index : ℕ) (name : Text)
    → collision_candidate root kind index ≡ ok name
    → IsSafe name
unfolding collision_candidate
collision_candidate-IsSafe root kind index name h = elim (Bool-cases (index == 1)) [
  | inl e ↦ checked_name-IsSafe root name (rw e at h)
  | inr e ↦ elim (Option-cases (extension_of kind root)) [
    | inl f ↦ component_with_suffix-IsSafe root (collision_suffix index) name (rw (e, f) at h)
    | inr (parts, f) ↦
        before_extension-IsSafe root (collision_suffix index) parts name (rw (e, f) at h)
  ]
]

module _ (directory : Directory) (root_name : Text) (content_kind : ContentKind)
    (message_id : Text) where
  -- the candidate of this index is there already
  abbrev pub IsTaken : ℕ → Type 0
  IsTaken index =
      (name : Text) × (collision_candidate root_name content_kind index ≡ ok name)
      × (directory.attempt name ≡ already_exists)

  -- the first candidate that is free, or the unique name where all of them are taken
  pub data Published (name : Text) : Type 0 where
    first_free :
        (index : ℕ)
        → 1 ≤ index
        → index ≤ 9999
        → collision_candidate root_name content_kind index ≡ ok name
        → ((i : ℕ) → 1 ≤ i → i < index → IsTaken i)
        → Published name
    unique :
        component_with_suffix root_name (b'.' ∷ message_id) ≡ ok name
        → ((i : ℕ) → 1 ≤ i → i ≤ 9999 → IsTaken i)
        → Published name

  -- a portable name, whose publication succeeded
  pub IsPublished : Text → Type 0
  IsPublished name = IsSafe name × (directory.attempt name ≡ published) × Published name

  last_attempt-eq-ok :
      (tried name : Text) (attempt : Attempt)
      → last_attempt directory root_name content_kind tried attempt ≡ ok name
      → (tried ≡ name) × (attempt ≡ published)
  last_attempt-eq-ok tried name published h = (ground arith, refl)
  last_attempt-eq-ok tried name already_exists h = absurd (ground arith)
  last_attempt-eq-ok tried name (failed e) h = absurd (ground arith)

  publish_unique-IsPublished :
      (name : Text)
      → ((i : ℕ) → 1 ≤ i → i ≤ 9999 → IsTaken i)
      → publish_unique directory root_name content_kind message_id ≡ ok name
      → IsPublished name
  unfolding publish_unique IsPublished
  publish_unique-IsPublished name taken h =
      let (tried, e, h1) = >>=-eq-ok (component_with_suffix root_name (b'.' ∷ message_id)) _ h in
      let (same, done) = last_attempt-eq-ok tried name (directory.attempt tried) h1 in
      let made = e ∙ ap (λ t. ok t) same in
      (
        component_with_suffix-IsSafe root_name (b'.' ∷ message_id) name made,
        ap (λ t. directory.attempt t) (sym same) ∙ done,
        unique made taken,
      )

  one_more :
      (index : ℕ)
      → IsTaken index
      → ((i : ℕ) → 1 ≤ i → i < index → IsTaken i)
      → (i : ℕ) → 1 ≤ i
      → i < suc index
      → IsTaken i
  one_more index last taken i low high = elim (Bool-cases (ltb i index)) [
    | inl e ↦ taken i low (ground arith)
    | inr e ↦ let same : index ≡ i = ground arith in subst IsTaken same last
  ]

  publish_from-IsPublished :
      (count index : ℕ) (name : Text)
      → index + count ≡ 10000
      → 1 ≤ index
      → ((i : ℕ) → 1 ≤ i → i < index → IsTaken i)
      → publish_from directory root_name content_kind message_id count index ≡ ok name
      → IsPublished name
  unfolding publish_from IsPublished
  publish_from-IsPublished zero index name end low taken h =
      publish_unique-IsPublished name (λ i a b. taken i a (omega arith)) h
  publish_from-IsPublished (suc count) index name end low taken h =
      let (tried, e, h1) = >>=-eq-ok (collision_candidate root_name content_kind index) _ h in
      elim (Attempt-cases (directory.attempt tried)) [
        | inl done ↦
            let same : tried ≡ name = (let g = rw done at h1 in ground arith) in
            (
              collision_candidate-IsSafe root_name content_kind index name
                  (e ∙ ap (λ t. ok t) same),
              ap (λ t. directory.attempt t) (sym same) ∙ done,
              first_free index low (omega arith) (e ∙ ap (λ t. ok t) same) taken,
            )
        | inr (inl there) ↦
            publish_from-IsPublished count (suc index) name (omega arith) (omega arith)
              (one_more index (tried, e, there) taken) (rw there at h1)
        | inr (inr (x, wrong)) ↦ absurd (let g = rw wrong at h1 in ground arith)
      ]

  -- The name that finalize_payload_without_overwrite returns is a safe portable name whose
  -- publication succeeded, and it is the candidate of the least index from 1 to 9999 that was not
  -- taken, or, where all of these were taken, the root name with the unique suffix.
  pub finalize_payload_without_overwrite-IsPublished :
      (name : Text)
      → finalize_payload_without_overwrite directory root_name content_kind message_id ≡ ok name
      → IsPublished name
  unfolding finalize_payload_without_overwrite
  finalize_payload_without_overwrite-IsPublished name h =
      let (_, _, h1) = >>=-eq-ok (required directory.refusal) _ h in
      publish_from-IsPublished 9999 1 name refl (omega arith) (λ i a b. absurd (omega arith)) h1
