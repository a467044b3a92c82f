-- ===== src/Network/Directory/Sound.antt =====
-- What network/src/storage.rs relies on of a directory on a disk that does not fail. A file of tokio
-- writes in the background: what `write_all` was given is in the file once its pending writes have ended.
use pdao_simperby.Prelude.{
  ◌≡◌, false, Option, none, some, List, [], ◌∷◌, map, returns, if◌then◌else◌, is_none, not,
}
use pdao_simperby.Results.{ok}
use pdao_simperby.Common.Bytes.{Bytes, bytes_eq}
use pdao_simperby.Network.Storage.{has_name}
use pdao_simperby.Network.Directory.FileSystem.{FileSystem, file_path}

-- No name stands twice.
abbrev pub IsDistinct : List Bytes → Type 0
IsDistinct [] = Unit {0}
IsDistinct (f ∷ fs) = (has_name f fs ≡ false) × IsDistinct fs

-- `content` is what a file of the directory holds, `entries` the names of the files.
pub record IsSound {E S : Type 0} (fs : FileSystem E S) (path : Bytes) : Type 0 where
  pub content : S → Bytes → Option Bytes
  pub entries : S → List Bytes
  pub emptied : Bytes → S → S
  pub unset : Bytes → S → S
  pub read_dir-eq : (s : S) → fs.read_dir path s ≡ ok (map (λ (f : Bytes). ok (some f)) (entries s))
  pub entries-IsDistinct : (s : S) → IsDistinct (entries s)
  pub has_name-entries : (f : Bytes) (s : S) → has_name f (entries s) ≡ not (is_none (content s f))
  pub create_file-eq :
      (f : Bytes) (s : S) → fs.create_file (file_path path f) s ≡ returns (ok tt, emptied f s)
  pub read_to_string-eq :
      (f c : Bytes) (s : S) → content s f ≡ some c → fs.read_to_string (file_path path f) s ≡ ok c
  pub remove_file-eq :
      (f c : Bytes) (s : S)
      → content s f ≡ some c
      → fs.remove_file (file_path path f) s ≡ returns (ok tt, unset f s)
  pub content-emptied :
      (f g : Bytes) (s : S)
      → content (emptied f s) g ≡ (if bytes_eq f g then some [] else content s g)
  pub content-unset :
      (f g : Bytes) (s : S) → content (unset f s) g ≡ (if bytes_eq f g then none else content s g)

-- `written` is the directory when `write_all` of an empty file returns, of which nothing is said for that
-- file, and `finished` the directory after the pending writes have ended, without an error. `IsQuiet` is
-- that no write is pending.
pub record Writes {E S : Type 0} (fs : FileSystem E S) (path : Bytes) (sound : IsSound fs path)
    : Type 1 where
  pub IsQuiet : S → Type 0
  pub written : Bytes → Bytes → S → S
  pub finished : S → S
  pub emptied-IsQuiet : (f : Bytes) (s : S) → IsQuiet s → IsQuiet (sound.emptied f s)
  pub unset-IsQuiet : (f : Bytes) (s : S) → IsQuiet s → IsQuiet (sound.unset f s)
  pub finished-IsQuiet : (s : S) → IsQuiet (finished s)
  pub content-finished :
      (g : Bytes) (s : S) → IsQuiet s → sound.content (finished s) g ≡ sound.content s g
  pub write_all-eq :
      (f c : Bytes) (s : S)
      → IsQuiet s
      → sound.content s f ≡ some []
      → fs.write_all (file_path path f) c s ≡ returns (ok tt, written f c s)
  pub content-written :
      (f c g : Bytes) (s : S)
      → IsQuiet s
      → bytes_eq f g ≡ false
      → sound.content (written f c s) g ≡ sound.content s g
  pub content-finished_written :
      (f c g : Bytes) (s : S)
      → IsQuiet s
      → sound.content (finished (written f c s)) g
        ≡ (if bytes_eq f g then some c else sound.content s g)
