-- ===== src/Network/Storage.antt =====
-- network/src/primitives.rs: the trait `Storage`.
use pdao_simperby.Prelude.{
  ◌≡◌, ◌≢◌, Bool, false, Option, none, some, List, [], ◌∷◌, ◌||◌, if◌then◌else◌, returns, is_none,
  not,
}
use pdao_simperby.Common.Bytes.{Bytes, bytes_eq}
use pdao_simperby.Results.{Call, ok, Result}
use pdao_simperby.Results.Actions.{Action}

-- The methods on an opened storage; `E` is `StorageError`.
pub record Storage (E S : Type 0) : Type 0 where
  pub list_files : S → Call E (List Bytes)
  pub add_or_overwrite_file : Bytes → Bytes → Action E S (Unit {0})
  pub read_file : Bytes → S → Result E Bytes
  pub remove_file : Bytes → Action E S (Unit {0})
  pub remove_all_files : Action E S (Unit {0})

-- Whether the name is one of those given.
abbrev pub has_name : Bytes → List Bytes → Bool
has_name f [] = false
has_name f (g ∷ gs) = bytes_eq g f || has_name f gs

-- `lock` in ASCII: the file by which the directory is locked.
abbrev pub lock_file : Bytes
lock_file = 108 ∷ 111 ∷ 99 ∷ 107 ∷ []

-- What the trait promises of a disk that does not fail, for files other than the lock: `view` is the
-- content of each file.
pub record IsReliable {E S : Type 0} (storage : Storage E S) : Type 0 where
  pub view : S → Bytes → Option Bytes
  pub names : S → List Bytes
  pub put : Bytes → Bytes → S → S
  pub clear : S → S
  pub list_files-eq : (s : S) → storage.list_files s ≡ returns (ok (names s))
  pub has_name-names : (f : Bytes) (s : S) → has_name f (names s) ≡ not (is_none (view s f))
  pub read_file-eq : (f c : Bytes) (s : S) → view s f ≡ some c → storage.read_file f s ≡ ok c
  pub add-eq :
      (f c : Bytes) (s : S)
      → f ≢ lock_file
      → storage.add_or_overwrite_file f c s ≡ returns (ok tt, put f c s)
  pub view-put :
      (f c g : Bytes) (s : S)
      → f ≢ lock_file
      → view (put f c s) g ≡ (if bytes_eq f g then some c else view s g)
  pub remove_all_files-eq : (s : S) → storage.remove_all_files s ≡ returns (ok tt, clear s)
  pub view-clear : (f : Bytes) (s : S) → view (clear s) f ≡ none

-- The part of it that is about reading.
pub record IsReadable {E S : Type 0} (storage : Storage E S) : Type 0 where
  pub view : S → Bytes → Option Bytes
  pub names : S → List Bytes
  pub list_files-eq : (s : S) → storage.list_files s ≡ returns (ok (names s))
  pub has_name-names : (f : Bytes) (s : S) → has_name f (names s) ≡ not (is_none (view s f))
  pub read_file-eq : (f c : Bytes) (s : S) → view s f ≡ some c → storage.read_file f s ≡ ok c

abbrev pub readable :
    {E S : Type 0} (storage : Storage E S) → IsReliable storage → IsReadable storage
readable storage disk = record {
  view = disk.view;
  names = disk.names;
  list_files-eq = disk.list_files-eq;
  has_name-names = disk.has_name-names;
  read_file-eq = disk.read_file-eq;
}
