-- ===== src/Net/Manifest/Tallied.antt =====
-- What the first loop of `validate_manifest` establishes, from any tally.
use meshelf.Base.{
  ◌+◌, ◌≡◌, ◌≢◌, refl, sym, ◌⊎◌, inl, inr, false, List, [], ◌∷◌, ok, arith, ltb, ◌==◌,
  if◌then◌else◌, Bool-cases, Result-cases, >>=-eq-ok, reject, All, All-map, Pairs, In,
}
use meshelf.Base.Text.{Text, byte_len}
use meshelf.Base.Text.Laws.{text_eq_iff}
use meshelf.Core.Destination.{validate_relative_path}
use meshelf.Core.Destination.Laws.{validate_relative_path-IsSafe}
use meshelf.Protocol.Messages.{
  v2_max_relative_path_bytes, FileEntryKind, FetchHeader, FetchAdmissionCode, invalid_manifest,
  too_large, ManifestEntry, ManifestEnd,
}
use meshelf.Protocol.Messages
use meshelf.Protocol.Manifest.{is_file}
use meshelf.Protocol.Manifest.Laws.{file_bytes}
use meshelf.Net.Manifest.{
  Libraries, member, Tally, check_path, folded, tally_kind, tally_one, tally_all,
}
use meshelf.Net.Manifest.Tree.{
  SizeFits, PathFits, IsEntry, files_in, directories_in, IsDirectory, Apart,
}

new_after :
    {t u : Text} {before after : List Text}
    → after ≡ u ∷ before
    → member t after ≡ false
    → (t ≢ u) × (member t before ≡ false)
new_after {t} {u} {before} {after} same h =
    let apart : member t (u ∷ before) ≡ false = rw same at h in
    (λ e. ground (arith, text_eq_iff t u), ground arith)

module _ (lib : Libraries) where
  -- what one turn of the first loop checks and changes
  pub record Tallied (entry : ManifestEntry) (before after : Tally) : Type 0 where
    pub valid : IsEntry entry
    pub new : member (folded lib entry) before.seen ≡ false
    pub seen : after.seen ≡ folded lib entry ∷ before.seen
    pub bytes :
        after.total_bytes
        ≡ (if is_file entry.kind then before.total_bytes + entry.byte_len else before.total_bytes)
    pub files :
        after.file_count ≡ (if is_file entry.kind then before.file_count + 1 else before.file_count)
    pub directories :
        after.directory_count
        ≡ (if is_file entry.kind then before.directory_count else before.directory_count + 1)
    pub listed :
        after.directories
        ≡ (if is_file entry.kind then before.directories else folded lib entry ∷ before.directories)

  check_path-eq-ok : (entry : ManifestEntry) → check_path entry ≡ ok tt → PathFits entry
  check_path-eq-ok entry h = elim (Bool-cases (byte_len entry.relative_path == 0)) [
    | inl e ↦ inl (ground arith, ground arith)
    | inr e ↦ elim (Result-cases (validate_relative_path entry.relative_path)) [
      | inl (u, p) ↦ inr ((validate_relative_path-IsSafe entry.relative_path p).0)
      | inr (x, p) ↦ absurd (ground arith)
    ]
  ]

  -- what the arm of the kind checks and changes
  Counted : ManifestEntry → FileEntryKind → Tally → Tally → Type 0
  Counted entry kind before after =
      SizeFits kind entry.byte_len
      × (after.seen ≡ before.seen)
      × (after.total_bytes
          ≡ (if is_file kind then before.total_bytes + entry.byte_len else before.total_bytes))
      × (after.file_count ≡ (if is_file kind then before.file_count + 1 else before.file_count))
      × (after.directory_count
          ≡ (if is_file kind then before.directory_count else before.directory_count + 1))
      × (after.directories
          ≡ (if is_file kind then before.directories else folded lib entry ∷ before.directories))

  tally_kind-eq-ok :
      (entry : ManifestEntry) (kind : FileEntryKind) (before : Tally) {after : Tally}
      → tally_kind lib entry kind before ≡ ok after
      → Counted entry kind before after
  unfolding tally_kind Counted
  tally_kind-eq-ok entry Messages.file before {after} h =
      (ground arith, ground arith, ground arith, ground arith, ground arith, ground arith)
  tally_kind-eq-ok entry Messages.directory before {after} h =
      (ground arith, ground arith, ground arith, ground arith, ground arith, ground arith)

  tally_one-eq-ok :
      (entry : ManifestEntry) (before : Tally) {after : Tally}
      → tally_one lib entry before ≡ ok after
      → Tallied entry before after
  unfolding tally_one Counted
  tally_one-eq-ok entry before {after} h =
      let (_, short, h1) =
        >>=-eq-ok
          (reject (ltb v2_max_relative_path_bytes (byte_len entry.relative_path)) invalid_manifest)
          _ h in
      let (_, path, h2) = >>=-eq-ok (check_path entry) _ h1 in
      let (_, new, h3) =
        >>=-eq-ok (reject (member (folded lib entry) before.seen) invalid_manifest) _ h2 in
      let (size, seen, bytes, files, directories, listed) =
        tally_kind-eq-ok entry entry.kind (record before { seen = folded lib entry ∷ before.seen })
          h3 in
      record {
        valid = record { short = ground arith; path = check_path-eq-ok entry path; size = size };
        new = ground arith;
        seen = seen;
        bytes = bytes;
        files = files;
        directories = directories;
        listed = listed;
      }

  -- the first loop, from any tally
  pub record TalliedAll (entries : List ManifestEntry) (before after : Tally) : Type 0 where
    pub valid : All IsEntry entries
    pub apart : Pairs (Apart lib) entries
    pub new : All (λ e. member (folded lib e) before.seen ≡ false) entries
    pub bytes : after.total_bytes ≡ before.total_bytes + file_bytes entries
    pub files : after.file_count ≡ before.file_count + files_in entries
    pub directories : after.directory_count ≡ before.directory_count + directories_in entries
    pub listed :
        (path : Text)
        → In path after.directories
        → In path before.directories ⊎ IsDirectory lib entries path

  listed_after :
      (entries : List ManifestEntry) {entry : ManifestEntry} {before next : Tally} {path : Text}
      → Tallied entry before next
      → In path next.directories ⊎ IsDirectory lib entries path
      → In path before.directories ⊎ IsDirectory lib (entry ∷ entries) path
  listed_after entries {entry} {before} {next} {path} one (inr (d, i, kind, same)) =
      inr (d, inr i, kind, same)
  listed_after entries {entry} {before} {next} {path} one (inl i) =
      elim (Bool-cases (is_file entry.kind)) [
        | inl e ↦
            let same : next.directories ≡ before.directories = ground (arith, one.listed) in
            inl (rw same at i)
        | inr e ↦
            let same : next.directories ≡ folded lib entry ∷ before.directories =
              ground (arith, one.listed) in
            let i' : In path (folded lib entry ∷ before.directories) = rw same at i in
            elim i' [ inl p ↦ inr (entry, inl refl, e, sym p) | inr q ↦ inl q ]
      ]

  pub tally_all-eq-ok :
      (entries : List ManifestEntry) (before : Tally) {after : Tally}
      → tally_all lib entries before ≡ ok after
      → TalliedAll entries before after
  unfolding tally_all file_bytes files_in directories_in
  tally_all-eq-ok [] before {after} h = record {
    valid = tt;
    apart = tt;
    new = tt;
    bytes = ground arith;
    files = ground arith;
    directories = ground arith;
    listed = λ path i. let same : before ≡ after = ground arith in inl (rw same i);
  }
  tally_all-eq-ok (entry ∷ entries) before {after} h =
      let (next, one, rest) = >>=-eq-ok (tally_one lib entry before) _ h in
      let first = tally_one-eq-ok entry before one in
      let others = tally_all-eq-ok entries next rest in
      record {
        valid = (first.valid, others.valid);
        apart = (All-map (λ e n. (new_after first.seen n).0) entries others.new, others.apart);
        new = (first.new, All-map (λ e n. (new_after first.seen n).1) entries others.new);
        bytes = ground (arith, first.bytes, others.bytes);
        files = ground (arith, first.files, others.files);
        directories = ground (arith, first.directories, others.directories);
        listed = λ path i. listed_after entries first (others.listed path i);
      }
