-- ===== src/Network/Directory/FileSystem.antt =====
-- network/src/storage.rs: the calls of the operating system by `tokio::fs` and `fs2`, a parameter, and
-- what only reads.
use pdao_simperby.Prelude.{
  Option, none, some, List, [], ◌∷◌, ◌++◌, if◌then◌else◌, Outcome, returns, panics,
}
use pdao_simperby.Results.{Result, Call, pure, lift, traverse, completes, ◌>>=◌}
use pdao_simperby.Results.Actions.{Action}
use pdao_simperby.Common.Bytes.{Bytes, bytes_eq}
use pdao_simperby.Network.Storage.{lock_file}

-- What is called on a path. An entry of a directory whose name is no text is `none`.
pub record FileSystem (E S : Type 0) : Type 0 where
  pub remove_dir_all : Bytes → Action E S (Unit {0})
  pub create_dir : Bytes → Action E S (Unit {0})
  pub read_dir : Bytes → S → Result E (List (Result E (Option Bytes)))
  pub create_file : Bytes → Action E S (Unit {0})
  pub open_file : Bytes → Action E S (Unit {0})
  pub lock_exclusive : Bytes → Action E S (Unit {0})
  pub write_all : Bytes → Bytes → Action E S (Unit {0})
  pub read_to_string : Bytes → S → Result E Bytes
  pub remove_file : Bytes → Action E S (Unit {0})

-- `format!("{}/{}", path, name)`.
abbrev pub file_path : Bytes → Bytes → Bytes
file_path path name = path ++ (47 ∷ name)

-- `into_string().unwrap()` of each name; one that is no text panics.
unfoldable pub names_of : List (Option Bytes) → Outcome (List Bytes)
names_of [] = returns []
names_of (none ∷ entries) = panics
names_of (some f ∷ entries) = elim (names_of entries) [
  | panics ↦ panics
  | returns fs ↦ returns (f ∷ fs)
]

unfoldable pub but_lock : List Bytes → List Bytes
but_lock [] = []
but_lock (f ∷ fs) = let others = but_lock fs in if bytes_eq f lock_file then others else f ∷ others

-- An entry that was read, or the error.
abbrev entry_of : {E : Type 0} → Result E (Option Bytes) → Result E (Option Bytes)
entry_of r = r

module _ {E S : Type 0} (fs : FileSystem E S) (path : Bytes) where
  unfoldable pub list_files : S → Call E (List Bytes)
  unfolding names_of but_lock
  list_files s = do
    results ← lift (fs.read_dir path s)
    entries ← lift (traverse entry_of results)
    files ← completes (names_of entries)
    pure (but_lock files)

  unfoldable pub read_file : Bytes → S → Result E Bytes
  read_file name s = fs.read_to_string (file_path path name) s
