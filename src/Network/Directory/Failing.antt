-- ===== src/Network/Directory/Failing.antt =====
-- network/src/storage.rs: what adding a file and removing all files leave, and what a write that fails leaves.
use pdao_simperby.Prelude.{
  ◌≡◌, ◌≢◌, refl, arith, none, some, [], returns, false, Bool-cases, inl, ◌∙◌, sym, inr,
}
use pdao_simperby.Results.{ok, err}
use pdao_simperby.Common.Bytes.{Bytes, eq_of_bytes_eq, bytes_eq_refl, bytes_eq}
use pdao_simperby.Common.Encoding.{Crates}
use pdao_simperby.Network.Storage.{lock_file}
use pdao_simperby.Network.Message.{Message, Codec, file_name, storage_error, json_error}
use pdao_simperby.Network.Reading.{read_messages}
use pdao_simperby.Network.MessageSet.{add_message_but_not_broadcast}
use pdao_simperby.Network.Contents.{IsFaithful, file_name-ne-state, file_name-ne-lock}
use pdao_simperby.Network.Unparsed.{unparsed_file_fails}
use pdao_simperby.Network.Directory.FileSystem.{FileSystem, file_path, list_files, read_file}
use pdao_simperby.Network.Directory.Files.{add_or_overwrite_file, remove_all_files, storage_impl}
use pdao_simperby.Network.Directory.Sound.{IsSound, Writes}
use pdao_simperby.Network.Directory.Clearing.{
  read_file-eq, remove_all_files-eq, cleared, directory_view, cleared-lists_none, cleared-lock,
  directory_readable,
}
use pdao_simperby.Network.Directory.Waiting.{
  added, add_or_overwrite_file-eq, content-added, content-finished_added,
}

other_name : (f g : Bytes) → g ≢ f → bytes_eq f g ≡ false
other_name f g n = elim (Bool-cases (bytes_eq f g)) [
  | inl e ↦ absurd (n (sym (eq_of_bytes_eq f g e)))
  | inr e ↦ e
]

module _ {E S : Type 0} (fs : FileSystem E S) (path : Bytes) (sound : IsSound fs path) where
  -- On a sound directory where no write is pending, `add_or_overwrite_file` ends with `Ok`; every other file
  -- then reads as it did, and once the write that it began has ended without an error, the file reads the
  -- content, and every other file still reads as it did. On any sound directory, `remove_all_files` ends
  -- with `Ok`; no file is listed then, and the lock is as it was.
  pub storage_impl_behaves :
      (writes : Writes fs path sound) (s : S) (f c : Bytes)
      → writes.IsQuiet s
      → ((t : S) × (add_or_overwrite_file fs path f c s ≡ returns (ok tt, t))
          × ((g d : Bytes) → g ≢ f → sound.content s g ≡ some d → read_file fs path g t ≡ ok d)
          × (read_file fs path f (writes.finished t) ≡ ok c)
          × ((g d : Bytes)
              → g ≢ f
              → sound.content s g ≡ some d
              → read_file fs path g (writes.finished t) ≡ ok d))
        × ((t : S) × (remove_all_files fs path s ≡ returns (ok tt, t))
            × (list_files fs path t ≡ returns (ok []))
            × (sound.content t lock_file ≡ sound.content s lock_file))
  storage_impl_behaves writes s f c q =
      let t = added fs path sound writes f c s in
      (
        (
          t,
          add_or_overwrite_file-eq fs path sound writes f c s q,
          (λ g d n e.
              let apart = other_name f g n in
              read_file-eq fs path sound g d t
                (content-added fs path sound writes f c g s q apart ∙ e)),
          read_file-eq fs path sound f c (writes.finished t) (
              ground
                (arith, content-finished_added fs path sound writes f c f s q, bytes_eq_refl f)),
          λ g d n e.
              let apart = other_name f g n in
              read_file-eq fs path sound g d (writes.finished t)
                (ground (arith, apart, e, content-finished_added fs path sound writes f c g s q)),
        ),
        (
          cleared fs path sound s,
          remove_all_files-eq fs path sound s,
          cleared-lists_none fs path sound s,
          cleared-lock fs path sound s,
        ),
      )

module _ {E S : Type 0} (fs : FileSystem E S) (path : Bytes) (sound : IsSound fs path)
    (crates : Crates) (codec : Codec) (faithful : IsFaithful codec) where
  -- On a sound directory, when `write_all` fails on the file of a message, adding the message gives the error
  -- of the storage. In every state of the directory in which that file is empty, such as the one left when
  -- nothing was written, `read_messages` gives the error of the parser for the whole set. The empty text must
  -- be none that parses.
  pub failed_write_breaks :
      (m : Message) (s u v : S) (e : E)
      → codec.parse_message [] ≡ none
      → fs.write_all
          (file_path path (file_name crates codec m))
          (codec.message_json m)
          (sound.emptied (file_name crates codec m) s)
        ≡ returns (err e, u)
      → sound.content v (file_name crates codec m) ≡ some []
      → (add_message_but_not_broadcast (storage_impl fs path) crates codec m s
          ≡ returns (err (storage_error e), u))
        × (read_messages (storage_impl fs path) crates codec v ≡ returns (err json_error))
  unfolding add_message_but_not_broadcast storage_impl add_or_overwrite_file
  failed_write_breaks m s u v e unparsed failed empty =
      let f = file_name crates codec m in
      let disk = directory_readable fs path sound in
      (
        rw (sound.create_file-eq f s, failed) refl,
        unparsed_file_fails (storage_impl fs path) crates codec disk v f []
            (file_name-ne-state crates codec faithful m)
            (directory_view fs path sound v f [] (file_name-ne-lock crates codec faithful m) empty)
            unparsed,
      )
