-- ===== src/Network/Directory/Clearing.antt =====
-- Reading and clearing by `StorageImpl` of network/src/storage.rs on a sound directory.
use pdao_simperby.Prelude.{
  ◌≡◌, ◌≢◌, inl, inr, refl, ap, arith, true, false, Bool-cases, Option, none, some, List, [], ◌∷◌,
  returns, if◌then◌else◌, is_none, not, Option-cases,
}
use pdao_simperby.Results.{ok}
use pdao_simperby.Common.Bytes.{Bytes, bytes_eq, eq_of_bytes_eq, bytes_eq_refl}
use pdao_simperby.Network.Storage.{has_name, lock_file, IsReadable}
use pdao_simperby.Network.Directory.FileSystem.{FileSystem, list_files, read_file, but_lock}
use pdao_simperby.Network.Directory.Files.{remove_file, remove_each, remove_all_files, storage_impl}
use pdao_simperby.Network.Directory.Sound.{IsSound, IsDistinct}
use pdao_simperby.Network.Directory.Listing.{
  list_files-eq, has_name-but_lock, nil_of_no_name, but_lock-IsDistinct, is_none-cases,
}

module _ {E S : Type 0} (fs : FileSystem E S) (path : Bytes) (sound : IsSound fs path) where
  -- The files that the storage shows: all but the lock.
  unfoldable pub view : S → Bytes → Option Bytes
  view s f = if bytes_eq f lock_file then none else sound.content s f

  pub has_name-view :
      (f : Bytes) (s : S) → has_name f (but_lock (sound.entries s)) ≡ not (is_none (view s f))
  unfolding view
  has_name-view f s =
      ground (arith, has_name-but_lock f (sound.entries s), sound.has_name-entries f s)

  -- The directory without the files.
  unfoldable pub unset_all : List Bytes → S → S
  unset_all [] s = s
  unset_all (f ∷ files) s = unset_all files (sound.unset f s)

  pub content-unset_all :
      (files : List Bytes) (g : Bytes) (s : S)
      → sound.content (unset_all files s) g ≡ (if has_name g files then none else sound.content s g)
  unfolding unset_all
  content-unset_all [] g s = refl
  content-unset_all (f ∷ files) g s =
      ground (arith, content-unset_all files g (sound.unset f s), sound.content-unset f g s)

  remaining :
      (f g : Bytes) (files : List Bytes) (s : S)
      → has_name f files ≡ false
      → has_name g files ≡ true
      → (c : Bytes) × (sound.content s g ≡ some c)
      → (c : Bytes) × (sound.content (sound.unset f s) g ≡ some c)
  remaining f g files s n k (c, e) = elim (Bool-cases (bytes_eq f g)) [
    | inl q ↦ absurd (ground (arith, n, k, ap (λ x. has_name x files) (eq_of_bytes_eq f g q)))
    | inr q ↦ (c, ground (arith, q, e, sound.content-unset f g s))
  ]

  remove_each-eq :
      (files : List Bytes) (s : S)
      → IsDistinct files
      → ((g : Bytes) → has_name g files ≡ true → (c : Bytes) × (sound.content s g ≡ some c))
      → remove_each fs path files s ≡ returns (ok tt, unset_all files s)
  unfolding remove_each remove_file unset_all
  remove_each-eq [] s d h = refl
  remove_each-eq (f ∷ files) s (n, d) h =
      let (c, e) = h f (ground (arith, bytes_eq_refl f)) in
      rw (sound.remove_file-eq f c s e) (
        remove_each-eq files (sound.unset f s) d
          (λ g k. remaining f g files s n k (h g (ground (arith, k)))))

  listed-content :
      (f : Bytes) (s : S)
      → has_name f (but_lock (sound.entries s)) ≡ true
      → (c : Bytes) × (sound.content s f ≡ some c)
  listed-content f s h = elim (Option-cases (sound.content s f)) [
    | inl e ↦
        absurd
          (ground (arith, h, e, has_name-but_lock f (sound.entries s), sound.has_name-entries f s))
    | inr (c, e) ↦ (c, e)
  ]

  -- The directory after `remove_all_files`.
  unfoldable pub cleared : S → S
  cleared s = unset_all (but_lock (sound.entries s)) s

  pub remove_all_files-eq : (s : S) → remove_all_files fs path s ≡ returns (ok tt, cleared s)
  unfolding remove_all_files cleared
  remove_all_files-eq s = rw (list_files-eq fs path sound s) (
      remove_each-eq (but_lock (sound.entries s)) s
        (but_lock-IsDistinct (sound.entries s) (sound.entries-IsDistinct s))
        (λ g h. listed-content g s h))

  pub view-cleared : (f : Bytes) (s : S) → view (cleared s) f ≡ none
  unfolding cleared view
  view-cleared f s = ground (
    arith,
    content-unset_all (but_lock (sound.entries s)) f s,
    has_name-but_lock f (sound.entries s),
    sound.has_name-entries f s,
    is_none-cases (sound.content s f),
  )

  pub read_file-eq :
      (f c : Bytes) (s : S) → sound.content s f ≡ some c → read_file fs path f s ≡ ok c
  unfolding read_file
  read_file-eq f c s e = sound.read_to_string-eq f c s e

  pub content_of_view : (f c : Bytes) (s : S) → view s f ≡ some c → sound.content s f ≡ some c
  unfolding view
  content_of_view f c s e = ground (arith, e)

  -- What can be read of it, also where writes fail.
  pub directory_readable : IsReadable (storage_impl fs path)
  unfolding storage_impl
  directory_readable = record {
    view = view;
    names = λ s. but_lock (sound.entries s);
    list_files-eq = list_files-eq fs path sound;
    has_name-names = has_name-view;
    read_file-eq = λ f c s e. read_file-eq f c s (content_of_view f c s e);
  }

  pub directory_view :
      (s : S) (f c : Bytes)
      → f ≢ lock_file
      → sound.content s f ≡ some c
      → directory_readable.view s f ≡ some c
  unfolding directory_readable view
  directory_view s f c n e = elim (Bool-cases (bytes_eq f lock_file)) [
    | inl q ↦ absurd (n (eq_of_bytes_eq f lock_file q))
    | inr q ↦ ground (arith, q, e)
  ]

  pub cleared-lists_none : (s : S) → list_files fs path (cleared s) ≡ returns (ok [])
  cleared-lists_none s =
      let none_listed =
        nil_of_no_name (but_lock (sound.entries (cleared s)))
          (λ f. ground (arith, has_name-view f (cleared s), view-cleared f s)) in
      rw (list_files-eq fs path sound (cleared s), none_listed) refl

  pub cleared-lock : (s : S) → sound.content (cleared s) lock_file ≡ sound.content s lock_file
  unfolding cleared
  cleared-lock s = ground (
    arith,
    content-unset_all (but_lock (sound.entries s)) lock_file s,
    has_name-but_lock lock_file (sound.entries s),
    bytes_eq_refl lock_file,
  )
