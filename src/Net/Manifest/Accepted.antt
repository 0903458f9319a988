-- ===== src/Net/Manifest/Accepted.antt =====
-- What `validate_manifest` of crates/meshelf-net/src/fetch_receiver.rs accepts.
use meshelf.Base.{
  ℕ, zero, suc, ◌+◌, ◌-◌, ◌≤◌, ◌<◌, ◌≡◌, refl, inl, inr, true, not, Option, none, some, List, [],
  ◌∷◌, ok, arith, ◌==◌, if◌then◌else◌, Bool-cases, >>=-eq-ok, reject, ok_or, All, In, take, length,
}
use meshelf.Base.Text.{Text, byte_len, text_eq}
use meshelf.Base.Text.Laws.{text_eq_iff}
use meshelf.Core.Destination.Laws.{join}
use meshelf.Core.Model.{u32_max}
use meshelf.Core.Offer.{OfferDescriptor, text, file, folder}
use meshelf.Protocol.Messages.{FetchHeader, invalid_manifest, ManifestEntry}
use meshelf.Protocol.Manifest.{is_file}
use meshelf.Protocol.Manifest.Laws.{file_bytes}
use meshelf.Net.Plan.{ReceivePlan}
use meshelf.Net.Manifest.{
  Libraries, member, Tally, no_tally, range_from, tally_all, check_ends, check_parents, components,
  ends, expected_entries, check_digest, tally_manifest, validate_manifest, clamp_u32, bytes_eq,
}
use meshelf.Net.Manifest.Tree.{
  files_in, directories_in, IsDirectory, HasParents, IsTree, Matches, IsSealed,
}
use meshelf.Net.Manifest.Tallied.{tally_all-eq-ok}

member_sound : (t : Text) (ts : List Text) → member t ts ≡ true → In t ts
member_sound t [] h = cc
member_sound t (s ∷ ts) h = elim (Bool-cases (text_eq t s)) [
  | inl e ↦ inl ((text_eq_iff t s).0 e)
  | inr e ↦ inr (member_sound t ts (ground arith))
]

All-range :
    (P : ℕ → Type 0) (start count i : ℕ)
    → All P (range_from start count)
    → start ≤ i
    → i < start + count
    → P i
unfolding range_from
All-range P start zero i h low high = absurd (omega arith)
All-range P start (suc count) i h low high = elim (Bool-cases (start == i)) [
  | inl e ↦ let same : start ≡ i = ground arith in rw (← same) h.0
  | inr e ↦ All-range P (suc start) count i h.1 (ground arith) (omega arith)
]

module _ (lib : Libraries) where
  check_ends-eq-ok :
      (tally : Tally) (path : List Text) (points : List ℕ)
      → check_ends lib tally path points ≡ ok tt
      → All (λ end. In (join b'/' (take end path)) tally.directories) points
  unfolding check_ends
  check_ends-eq-ok tally path [] h = tt
  check_ends-eq-ok tally path (end ∷ points) h =
      let parent = join b'/' (take end path) in
      let (_, _, h1) = >>=-eq-ok (reject (member parent tally.files) invalid_manifest) _ h in
      let (_, listed, h2) =
        >>=-eq-ok (reject (not (member parent tally.directories)) invalid_manifest) _ h1 in
      (member_sound parent tally.directories (ground arith), check_ends-eq-ok tally path points h2)

  check_parents-eq-ok :
      (all : List ManifestEntry) (tally : Tally) (entries : List ManifestEntry)
      → ((path : Text) → In path tally.directories → IsDirectory lib all path)
      → check_parents lib tally entries ≡ ok tt
      → All (HasParents lib all) entries
  unfolding check_parents
  check_parents-eq-ok all tally [] known h = tt
  check_parents-eq-ok all tally (entry ∷ entries) known h =
      let (_, here, rest) =
        >>=-eq-ok
          (if byte_len entry.relative_path == 0
            then ok tt
            else check_ends lib tally (components lib entry) (ends lib entry))
          _ h in
      (
        (λ some_path end low high. known _ (
            All-range (λ n. In (join b'/' (take n (components lib entry))) tally.directories) 1
              (length (components lib entry) - 1) end
              (check_ends-eq-ok tally (components lib entry) (ends lib entry) (ground arith)) low
              (omega arith))),
        check_parents-eq-ok all tally entries known rest,
      )

  -- the totals that the loops end with
  pub record IsTally (entries : List ManifestEntry) (tally : Tally) : Type 0 where
    pub bytes : tally.total_bytes ≡ file_bytes entries
    pub files : tally.file_count ≡ files_in entries
    pub directories : tally.directory_count ≡ directories_in entries

  tally_manifest-eq-ok :
      (entries : List ManifestEntry) {tally : Tally}
      → tally_manifest lib entries ≡ ok tally
      → IsTree lib entries × IsTally entries tally
  unfolding tally_manifest
  tally_manifest-eq-ok entries {tally} h =
      let (t, first, h1) = >>=-eq-ok (tally_all lib entries no_tally) _ h in
      let (_, second, h2) = >>=-eq-ok (check_parents lib t entries) _ h1 in
      let counted = tally_all-eq-ok lib entries no_tally first in
      let same : t ≡ tally = ground arith in
      (
        record {
          valid = counted.valid;
          apart = counted.apart;
          parents =
              check_parents-eq-ok entries t entries
                (λ path i. elim (counted.listed path i) [
                  | inr d ↦ d
                  | inl none_yet ↦ absurd none_yet
                ])
                second;
          bounded = ground (arith, counted.bytes);
        },
        record {
          bytes = ground (arith, counted.bytes);
          files = ground (arith, counted.files);
          directories = ground (arith, counted.directories);
        },
      )

  lone_bytes :
      (entry : ManifestEntry) → is_file entry.kind ≡ true → file_bytes (entry ∷ []) ≡ entry.byte_len
  unfolding file_bytes
  lone_bytes entry h = ground arith

  expected_entries-eq-ok :
      (descriptor : OfferDescriptor) (entries : List ManifestEntry) (tally : Tally) (expected : ℕ)
      → IsTally entries tally
      → expected_entries descriptor entries tally ≡ ok expected
      → length entries ≡ expected
      → Matches lib descriptor entries
  unfolding expected_entries
  expected_entries-eq-ok (text _ _ _) [] tally expected t h e = refl
  expected_entries-eq-ok (text _ _ _) (entry ∷ entries) tally expected t h e = absurd (ground arith)
  expected_entries-eq-ok (file _ total) [] tally expected t h e = absurd (ground arith)
  expected_entries-eq-ok (file _ total) (entry ∷ []) tally expected t h e =
      let kind : is_file entry.kind ≡ true = ground arith in
      (entry, refl, kind, ground arith, ground (arith, t.bytes, lone_bytes entry kind))
  expected_entries-eq-ok (file _ total) (entry ∷ other ∷ entries) tally expected t h e =
      absurd (ground arith)
  expected_entries-eq-ok (folder _ total n f d) entries tally expected t h e = (
    ground (arith, t.bytes),
    ground arith,
    ground (arith, t.files),
    ground (arith, t.directories),
  )

  check_digest-eq-ok :
      (hash : Option (List ℕ)) (plan : ReceivePlan) (tally : Tally)
      → IsTally plan.entries tally
      → check_digest lib hash plan tally ≡ ok tt
      → IsSealed lib hash plan
  unfolding check_digest
  check_digest-eq-ok none plan tally t h = tt
  check_digest-eq-ok (some hash) plan tally t h =
      let (json, written, h1) =
        >>=-eq-ok (ok_or invalid_manifest (lib.entries_to_vec plan.entries)) _ h in
      let (_, same, h2) =
        >>=-eq-ok (reject (not (bytes_eq (lib.sha256 json) hash)) invalid_manifest) _ h1 in
      let (end, ended, h3) = >>=-eq-ok (ok_or invalid_manifest plan.manifest_end) _ h2 in
      (
        json,
        end,
        ground arith,
        ground (arith, text_eq_iff (lib.sha256 json) hash),
        ground arith,
        ground (arith, t.bytes),
        ground (arith, text_eq_iff end.manifest_sha256 hash),
      )

  -- A manifest that validate_manifest accepts is a tree up to letter case: each path is short, safe
  -- or the empty path of a file, no two paths are the same in lower case, the lower-case form of
  -- every proper ancestor of a path is that of a directory of the manifest, and the files have at
  -- most 16 GiB; it has the entries and the totals that the descriptor announces; and where the
  -- header has a digest, it is that of the entries and of the manifest's end. The header's count
  -- fits a u32.
  pub validate_manifest-IsTree :
      (header : FetchHeader) (descriptor : OfferDescriptor) (plan : ReceivePlan)
      → header.manifest_entries ≤ u32_max
      → validate_manifest lib header descriptor plan ≡ ok tt
      → IsTree lib plan.entries
        × Matches lib descriptor plan.entries
        × IsSealed lib header.manifest_sha256 plan
  unfolding validate_manifest
  validate_manifest-IsTree header descriptor plan small h =
      let (_, counted, h1) =
        >>=-eq-ok (reject (not (length plan.entries == header.manifest_entries)) invalid_manifest) _
          h in
      let (tally, told, h2) = >>=-eq-ok (tally_manifest lib plan.entries) _ h1 in
      let (expected, e, h3) = >>=-eq-ok (expected_entries descriptor plan.entries tally) _ h2 in
      let (_, same, h4) =
        >>=-eq-ok (reject (not (clamp_u32 (length plan.entries) == expected)) invalid_manifest) _
          h3 in
      let (tree, totals) = tally_manifest-eq-ok plan.entries told in
      (
        tree,
        expected_entries-eq-ok descriptor plan.entries tally expected totals e (ground arith),
        check_digest-eq-ok header.manifest_sha256 plan tally totals h4,
      )
