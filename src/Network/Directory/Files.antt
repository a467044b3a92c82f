-- ===== src/Network/Directory/Files.antt =====
-- network/src/storage.rs: `StorageImpl`, on the path of an opened directory.
use pdao_simperby.Prelude.{List, [], ◌∷◌, Outcome, returns, panics}
use pdao_simperby.Results.{Result, ok}
use pdao_simperby.Results.Actions.{Action, pure, reads, ◌>>=◌, ◌>>◌}
use pdao_simperby.Common.Bytes.{Bytes}
use pdao_simperby.Network.Storage.{Storage, lock_file}
use pdao_simperby.Network.Directory.FileSystem.{FileSystem, file_path, list_files, read_file}

module _ {E S : Type 0} where
  -- `let _ = ...`: an error is dropped.
  abbrev ignored_result : Outcome (Result E (Unit {0}) × S) → Outcome (Result E (Unit {0}) × S)
  ignored_result (returns (r, s)) = returns (ok tt, s)
  ignored_result panics = panics

  abbrev ignored : Action E S (Unit {0}) → Action E S (Unit {0})
  ignored m s = ignored_result (m s)

module _ {E S : Type 0} (fs : FileSystem E S) where
  unfoldable pub create : Bytes → Action E S (Unit {0})
  create directory = do
    ignored (fs.remove_dir_all directory)
    fs.create_dir directory
    fs.create_file (file_path directory lock_file)

  -- The path that is kept; it waits for the lock.
  unfoldable pub open_storage : Bytes → Action E S Bytes
  open_storage directory = do
    fs.open_file (file_path directory lock_file)
    fs.lock_exclusive (file_path directory lock_file)
    pure directory

module _ {E S : Type 0} (fs : FileSystem E S) (path : Bytes) where
  -- The file is emptied, and then written.
  unfoldable pub add_or_overwrite_file : Bytes → Bytes → Action E S (Unit {0})
  add_or_overwrite_file name content = do
    fs.create_file (file_path path name)
    fs.write_all (file_path path name) content

  unfoldable pub remove_file : Bytes → Action E S (Unit {0})
  remove_file name = fs.remove_file (file_path path name)

  unfoldable pub remove_each : List Bytes → Action E S (Unit {0})
  unfolding remove_file
  remove_each [] = pure tt
  remove_each (file ∷ files) = do remove_file file; remove_each files

  unfoldable pub remove_all_files : Action E S (Unit {0})
  unfolding remove_each
  remove_all_files = do files ← reads (list_files fs path); remove_each files

  unfoldable pub storage_impl : Storage E S
  unfolding list_files read_file add_or_overwrite_file remove_file remove_all_files
  storage_impl = record {
    list_files = list_files fs path;
    add_or_overwrite_file = add_or_overwrite_file;
    read_file = read_file fs path;
    remove_file = remove_file;
    remove_all_files = remove_all_files;
  }
