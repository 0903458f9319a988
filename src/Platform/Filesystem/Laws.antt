-- ===== src/Platform/Filesystem/Laws.antt =====
-- Which directories the walk of crates/meshelf-platform/src/filesystem.rs makes.
use meshelf.Base.{
  ◌≡◌, refl, ap, ◌∙◌, sym, inl, inr, List, [], ◌∷◌, ◌++◌, Result, ok, err, All, All-map, In,
  Option-cases,
}
use mathlib.Core.List.{append_assoc}
use meshelf.Base.Actions.{bind_outcome}
use meshelf.Core.Offer.{HostPath}
use meshelf.Platform.Filesystem.{
  Lookup, found, missing, unreadable, TreeError, Directories, make_directory, ensure_directory,
  ensure_each, ensure_directory_tree,
}

module _ (fs : Directories) where
  -- one of these paths, at which nothing stood
  abbrev pub WasMissing : List HostPath → HostPath → Type 0
  WasMissing paths path = In path paths × (fs.inspect path ≡ missing)

  -- the directories after a walk: those before it, and new ones where a part was missing
  abbrev pub Grown : List HostPath → (before after : List HostPath) → Type 0
  Grown paths before after =
      (new : List HostPath) × (after ≡ new ++ before) × All (WasMissing paths) new

  ensure_directory-Grown :
      (path : HostPath) (made : List HostPath)
      → Grown (path ∷ []) made (ensure_directory fs path made).1
  unfolding ensure_directory make_directory
  ensure_directory-Grown path made = look (fs.inspect path) refl
    where
      look :
          (l : Lookup)
          → fs.inspect path ≡ l
          → Grown (path ∷ []) made (ensure_directory fs path made).1
      look (found m) e = rw (e, ensure_directory) ([], refl, tt)
      look (unreadable x) e = rw (e, ensure_directory) ([], refl, tt)
      look missing e = elim (Option-cases (fs.create_dir path)) [
        | inl p ↦ rw (e, p, ensure_directory, make_directory) (path ∷ [], refl, ((inl refl, e), tt))
        | inr (x, p) ↦ rw (e, p, ensure_directory, make_directory) ([], refl, tt)
      ]

  Grown-weaken :
      (paths more before after : List HostPath)
      → ((p : HostPath) → In p paths → In p more)
      → Grown paths before after
      → Grown more before after
  Grown-weaken paths more before after into (new, same, was) =
      (new, same, All-map (λ p (w : WasMissing paths p). (into p w.0, w.1)) new was)

  All-append :
      (P : HostPath → Type 0) (xs ys : List HostPath) → All P xs → All P ys → All P (xs ++ ys)
  All-append P [] ys h k = k
  All-append P (x ∷ xs) ys h k = (h.0, All-append P xs ys h.1 k)

  Grown-trans : (paths a b c : List HostPath) → Grown paths a b → Grown paths b c → Grown paths a c
  Grown-trans paths a b c (new, same, was) (later, next, then) = (
    later ++ new,
    next ∙ ap (λ t. later ++ t) same ∙ sym (append_assoc later new a),
    All-append (WasMissing paths) later new then was,
  )

  then-Grown :
      (path : HostPath) (paths made : List HostPath)
      (outcome : Result TreeError (Unit {0}) × List HostPath)
      → Grown (path ∷ []) made outcome.1
      → ((after : List HostPath) → Grown paths after (ensure_each fs paths after).1)
      → Grown (path ∷ paths) made (bind_outcome outcome (λ _. ensure_each fs paths)).1
  then-Grown path paths made (result, after) grown rest =
      let here =
        Grown-weaken (path ∷ []) (path ∷ paths) made after
          (λ p i. elim i [ inl e ↦ inl e | inr none_left ↦ absurd none_left ]) grown in
      elim result
        as (λ r.
          Grown (path ∷ paths) made (bind_outcome (r, after) (λ _. ensure_each fs paths)).1) [
            | err e ↦ here
            | ok _ ↦
                Grown-trans (path ∷ paths) made after _ here
                  (Grown-weaken paths (path ∷ paths) after _ (λ p i. inr i) (rest after))
          ]

  ensure_each-Grown : (paths made : List HostPath) → Grown paths made (ensure_each fs paths made).1
  unfolding ensure_each
  ensure_each-Grown [] made = ([], refl, tt)
  ensure_each-Grown (path ∷ paths) made =
      then-Grown path paths made (ensure_directory fs path made) (ensure_directory-Grown path made)
        (ensure_each-Grown paths)

  -- Whatever the operating system answers, the walk makes only directories that were missing.
  pub ensure_directory_tree-Grown :
      (path : HostPath) (made : List HostPath)
      → Grown (fs.prefixes path) made (ensure_directory_tree fs path made).1
  unfolding ensure_directory_tree
  ensure_directory_tree-Grown path made = ensure_each-Grown (fs.prefixes path) made
