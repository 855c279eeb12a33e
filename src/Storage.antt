-- ===== src/Storage.antt =====
-- The directory of one query key, and the effects on it: lattica_query_src/lattica_query/storage/_files.py
-- (atomic_private_write) and the helpers of storage/key_store.py. A temporary file, which no read opens, is
-- left out of the world, and so are owners and modes; the effects that make and fill one are not.
pub mod Load
pub mod Save
pub mod Views
pub mod Current
pub mod Mark
pub mod Removal
pub mod Stages
pub mod Undo
pub mod Crash
pub mod Atomic
pub mod Paths
pub mod Escape
pub mod FileName
pub mod Tokens
pub mod Newest
pub mod Precedes
use lattica_studio.Prelude.{
  ℕ, String, List, [], ◌∷◌, ◌++◌, map, Option, none, some, Bool, true, false, not, if◌then◌else◌,
}
use lattica_studio.Prelude.Dict.{Eq, string_eq, list_eq, get, insert, remove, codes_eq}
use lattica_studio.Result.{Result, ok, err, Error, os_error}
use lattica_studio.Effects.{Action, effect, gets, pure, on_error, attempt, ◌>>=◌, ◌>>◌}
use lattica_studio.Credentials.{Bytes}
use lattica_studio.Studio.{Json}

-- What a file holds: bytes, or a JSON document that `json.dumps` has written.
pub data Content : Type 0 where
  raw : Bytes → Content
  document : Json → Content

abbrev pub Folder : Type 0
Folder = List (String × Content)

-- A name of a revision, or of its staging directory, by its characters.
abbrev pub Name : Type 0
Name = List ℕ

-- `current` is the text of the file of that name, and `revisions` the directory "bundles".
pub record KeyFolder : Type 0 where
  pub current : Option Name
  pub revisions : List (Name × Folder)

abbrev pub same_world : KeyFolder → KeyFolder
same_world w = w

-- `ensure_private_directory(revisions_path / name)`
abbrev pub make_folder : Name → KeyFolder → KeyFolder
make_folder name w = elim (get name w.revisions) [
  | none ↦ record w { revisions = insert name [] w.revisions }
  | some files ↦ w
]

-- The file of a revision, written or replaced.
abbrev pub put_file : Name → String → Content → KeyFolder → KeyFolder
put_file name file content w = elim (get name w.revisions) [
  | none ↦ w
  | some files ↦ record w { revisions = insert name (insert file content files) w.revisions }
]

abbrev pub put_current : Name → KeyFolder → KeyFolder
put_current name w = record w { current = some name }

abbrev pub unlink : Name → String → KeyFolder → KeyFolder
unlink name file w = elim (get name w.revisions) [
  | none ↦ w
  | some files ↦ record w { revisions = insert name (remove file files) w.revisions }
]

abbrev pub rename_folder : Name → Name → KeyFolder → KeyFolder
rename_folder from to w = elim (get from w.revisions) [
  | none ↦ w
  | some files ↦ record w { revisions = insert to files (remove from w.revisions) }
]

-- The directory's sync at the end of `atomic_private_write`: no error if it cannot be opened.
unfoldable pub sync_folder : Action KeyFolder (Unit {0})
unfolding effect attempt ◌>>=◌
sync_folder = do opened ← attempt (effect same_world); if opened then effect same_world else pure tt

-- atomic_private_write, of a file in a directory that `make` makes, which `write` replaces: the
-- temporary file is made, given its mode, written and put in place, and unlinked on an error.
unfoldable pub atomic_private_write :
    (KeyFolder → KeyFolder) → (KeyFolder → KeyFolder) → Action KeyFolder (Unit {0})
unfolding effect on_error sync_folder ◌>>=◌
atomic_private_write make write = do
  effect make
  effect same_world
  on_error (do effect same_world; effect same_world; effect write) (effect same_world)
  sync_folder

unfoldable pub write_file : Name → String → Content → Action KeyFolder (Unit {0})
unfolding atomic_private_write
write_file name file content = atomic_private_write (make_folder name) (put_file name file content)

abbrev pub names_of : {A : Type 0} → List (String × A) → List String
names_of [] = []
names_of ((name, a) ∷ rest) = name ∷ names_of rest

unfoldable pub unlink_all : Name → List String → Action KeyFolder (Unit {0})
unfolding effect attempt ◌>>=◌
unlink_all name [] = pure tt
unlink_all name (file ∷ files) = do _ ← attempt (effect (unlink name file)); unlink_all name files

-- `os.rmdir`, which fails where a file is left.
abbrev pub can_rmdir : Option Folder → Result (Unit {0})
can_rmdir none = err os_error
can_rmdir (some []) = ok tt
can_rmdir (some (file ∷ files)) = err os_error

unfoldable pub rmdir : Name → Action KeyFolder (Unit {0})
unfolding effect ◌>>=◌
rmdir name = do
  gets (λ w. can_rmdir (get name w.revisions))
  effect (λ w. record w { revisions = remove name w.revisions })

abbrev pub files_of : Option Folder → List String
files_of none = []
files_of (some files) = names_of files

-- `shutil.rmtree(revisions_path / name, ignore_errors=True)`
unfoldable pub rmtree : Name → Action KeyFolder (Unit {0})
unfolding unlink_all rmdir attempt ◌>>=◌
rmtree name = do
  files ← gets (λ w. ok (files_of (get name w.revisions)))
  unlink_all name files
  _ ← attempt (rmdir name)
  pure tt

-- The loop of `_remove_old_revisions` over the names that `iterdir` gives.
unfoldable pub remove_others : Name → List Name → Action KeyFolder (Unit {0})
unfolding rmtree ◌>>=◌
remove_others current [] = pure tt
remove_others current (name ∷ names) = do
  if codes_eq name current then pure tt else rmtree name
  remove_others current names
