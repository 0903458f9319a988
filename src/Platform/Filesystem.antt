-- ===== src/Platform/Filesystem.antt =====
-- `ensure_directory_tree` of crates/meshelf-platform/src/filesystem.rs. The parts of a path, and what
-- the operating system answers, are parameters; the state is the list of the directories made so far,
-- the last one first.
pub mod Laws
use meshelf.Base.{Option, none, some, List, [], ◌∷◌, Result, ok, err}
use meshelf.Base.Actions.{Action, ◌>>=◌, ◌>>◌, pure}
use meshelf.Base.Text.{Text}
use meshelf.Core.Offer.{HostPath}

-- what stands at a path: `redirected` is a link or a reparse point
pub data Metadata : Type 0 where
  directory redirected no_directory : Metadata

-- how `symlink_metadata` ends
pub data Lookup : Type 0 where
  found : Metadata → Lookup
  missing : Lookup
  unreadable : Text → Lookup

-- what the texts of the errors are made from
pub data TreeError : Type 0 where
  inspect_failed create_failed : HostPath → Text → TreeError
  is_redirected not_a_directory created_not_a_directory : HostPath → TreeError

-- `Path::parent`; the growing parts of a path without its prefix and its root, which are not made; the
-- calls of the operating system, `inspect_created` for a directory just made; and the texts of errors
pub record Directories : Type 0 where
  pub parent : HostPath → Option HostPath
  pub prefixes : HostPath → List HostPath
  pub inspect : HostPath → Lookup
  pub create_dir : HostPath → Option Text
  pub inspect_created : HostPath → Result Text Metadata
  pub describe : TreeError → Text

-- `reject_reparse_metadata`, and the test of `is_dir` with its error
abbrev pub usable : HostPath → TreeError → Metadata → Result TreeError (Unit {0})
usable path other directory = ok tt
usable path other redirected = err (is_redirected path)
usable path other no_directory = err other

abbrev pub check_created : HostPath → Result Text Metadata → Result TreeError (Unit {0})
check_created path (ok metadata) = usable path (created_not_a_directory path) metadata
check_created path (err e) = err (inspect_failed path e)

abbrev pub Walk : Type 0 → Type 0
Walk = Action (List HostPath) TreeError

module _ (fs : Directories) where
  -- a part that is missing
  unfoldable pub make_directory : HostPath → Walk (Unit {0})
  make_directory path made = elim (fs.create_dir path) [
    | some e ↦ (err (create_failed path e), made)
    | none ↦ (check_created path (fs.inspect_created path), path ∷ made)
  ]

  -- one turn of the loop
  unfoldable pub ensure_directory : HostPath → Walk (Unit {0})
  ensure_directory path made = elim (fs.inspect path) [
    | found metadata ↦ (usable path (not_a_directory path) metadata, made)
    | missing ↦ make_directory path made
    | unreadable e ↦ (err (inspect_failed path e), made)
  ]

  unfoldable pub ensure_each : List HostPath → Walk (Unit {0})
  ensure_each [] = pure tt
  ensure_each (path ∷ paths) = do ensure_directory path; ensure_each paths

  unfoldable pub ensure_directory_tree : HostPath → Walk (Unit {0})
  ensure_directory_tree path = ensure_each (fs.prefixes path)
