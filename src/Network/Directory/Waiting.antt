-- ===== src/Network/Directory/Waiting.antt =====
-- `StorageImpl` of network/src/storage.rs where each call comes after the pending writes have ended: then it
-- does what the trait promises.
use pdao_simperby.Network.Directory.Sound.{IsSound, Writes}
use pdao_simperby.Network.Directory.Listing.{list_files-eq}
use pdao_simperby.Prelude.{
  ◌≡◌, ◌≢◌, inl, inr, refl, arith, none, some, List, [], ◌∷◌, returns, false, if◌then◌else◌, Option,
  Bool-cases, ◌∙◌,
}
use pdao_simperby.Results.{ok}
use pdao_simperby.Network.Directory.Files.{add_or_overwrite_file, storage_impl}
use pdao_simperby.Network.Directory.Clearing.{
  cleared, unset_all, view, view-cleared, has_name-view, read_file-eq, content_of_view,
  remove_all_files-eq,
}
use pdao_simperby.Network.Storage.{Storage, lock_file, IsReliable}
use pdao_simperby.Network.Directory.FileSystem.{FileSystem, but_lock}
use pdao_simperby.Common.Bytes.{Bytes, bytes_eq_refl, bytes_eq, eq_of_bytes_eq}
use pdao_simperby.Network.Directory.Sound.{Writes}

-- The storage, each call after the given wait.
unfoldable pub after_wait : {E S : Type 0} → (S → S) → Storage E S → Storage E S
after_wait wait storage = record {
  list_files = λ s. storage.list_files (wait s);
  add_or_overwrite_file = λ f c s. storage.add_or_overwrite_file f c (wait s);
  read_file = λ f s. storage.read_file f (wait s);
  remove_file = λ f s. storage.remove_file f (wait s);
  remove_all_files = λ s. storage.remove_all_files (wait s);
}

module _ {E S : Type 0} (fs : FileSystem E S) (path : Bytes) (sound : IsSound fs path)
    (writes : Writes fs path sound) where
  -- The directory when `add_or_overwrite_file` returns.
  abbrev pub added : Bytes → Bytes → S → S
  added f c s = writes.written f c (sound.emptied f s)

  pub add_or_overwrite_file-eq :
      (f c : Bytes) (s : S)
      → writes.IsQuiet s
      → add_or_overwrite_file fs path f c s ≡ returns (ok tt, added f c s)
  unfolding add_or_overwrite_file
  add_or_overwrite_file-eq f c s q =
      let empty : sound.content (sound.emptied f s) f ≡ some [] =
        ground (arith, sound.content-emptied f f s, bytes_eq_refl f) in
      rw
        (
          sound.create_file-eq f s,
          writes.write_all-eq f c (sound.emptied f s) (writes.emptied-IsQuiet f s q) empty,
        )
        refl

  -- Another file reads the same before the write has ended.
  pub content-added :
      (f c g : Bytes) (s : S)
      → writes.IsQuiet s
      → bytes_eq f g ≡ false
      → sound.content (added f c s) g ≡ sound.content s g
  content-added f c g s q n = ground (
    arith,
    n,
    writes.content-written f c g (sound.emptied f s) (writes.emptied-IsQuiet f s q) n,
    sound.content-emptied f g s,
  )

  pub content-finished_added :
      (f c g : Bytes) (s : S)
      → writes.IsQuiet s
      → sound.content (writes.finished (added f c s)) g
        ≡ (if bytes_eq f g then some c else sound.content s g)
  content-finished_added f c g s q = ground (
    arith,
    writes.content-finished_written f c g (sound.emptied f s) (writes.emptied-IsQuiet f s q),
    sound.content-emptied f g s,
  )

  unset_all-IsQuiet :
      (files : List Bytes) (s : S)
      → writes.IsQuiet s
      → writes.IsQuiet (unset_all fs path sound files s)
  unfolding unset_all
  unset_all-IsQuiet [] s q = q
  unset_all-IsQuiet (f ∷ files) s q =
      unset_all-IsQuiet files (sound.unset f s) (writes.unset-IsQuiet f s q)

  seen : S → Bytes → Option Bytes
  seen s f = view fs path sound (writes.finished s) f

  seen-added :
      (f c g : Bytes) (s : S)
      → f ≢ lock_file
      → seen (added f c (writes.finished s)) g ≡ (if bytes_eq f g then some c else seen s g)
  unfolding seen view
  seen-added f c g s n = elim (Bool-cases (bytes_eq g lock_file)) [
    | inl e ↦ elim (Bool-cases (bytes_eq f g)) [
      | inl q ↦ absurd (n (eq_of_bytes_eq f g q ∙ eq_of_bytes_eq g lock_file e))
      | inr q ↦ ground (arith, e, q)
    ]
    | inr e ↦
        ground
          (arith, e, content-finished_added f c g (writes.finished s) (writes.finished-IsQuiet s))
  ]

  seen-cleared : (f : Bytes) (s : S) → seen (cleared fs path sound (writes.finished s)) f ≡ none
  unfolding seen view cleared
  seen-cleared f s =
      let gone = view-cleared fs path sound f (writes.finished s) in
      let same = writes.content-finished f (cleared fs path sound (writes.finished s)) (
        unset_all-IsQuiet (but_lock (sound.entries (writes.finished s))) (writes.finished s)
          (writes.finished-IsQuiet s)) in
      rw same gone

  -- The directory as a disk that does not fail.
  pub waiting_disk : IsReliable (after_wait writes.finished (storage_impl fs path))
  unfolding after_wait storage_impl seen
  waiting_disk = record {
    view = seen;
    names = λ s. but_lock (sound.entries (writes.finished s));
    put = λ f c s. added f c (writes.finished s);
    clear = λ s. cleared fs path sound (writes.finished s);
    list_files-eq = λ s. list_files-eq fs path sound (writes.finished s);
    has_name-names = λ f s. has_name-view fs path sound f (writes.finished s);
    read_file-eq = λ f c s e.
        read_file-eq fs path sound f c (writes.finished s)
          (content_of_view fs path sound f c (writes.finished s) e);
    add-eq =
        λ f c s n. add_or_overwrite_file-eq f c (writes.finished s) (writes.finished-IsQuiet s);
    view-put = λ f c g s n. seen-added f c g s n;
    remove_all_files-eq = λ s. remove_all_files-eq fs path sound (writes.finished s);
    view-clear = λ f s. seen-cleared f s;
  }
