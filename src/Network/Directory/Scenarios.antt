-- ===== src/Network/Directory/Scenarios.antt =====
-- A directory in memory, on a disk that writes late and on a full one, for the theorems on
-- network/src/storage.rs.
use pdao_simperby.Prelude.{
  ℕ, ◌≡◌, ◌≢◌, inl, inr, refl, arith, ap, Bool-cases, none, some, List, [], ◌∷◌, map, drop, returns,
  if◌then◌else◌, is_none, not, Option,
}
use pdao_simperby.Results.{ok, err}
use pdao_simperby.Results.Actions.{Action}
use pdao_simperby.Common.Bytes.{Bytes, bytes_eq, eq_of_bytes_eq}
use pdao_simperby.Network.Storage.{has_name, lock_file}
use pdao_simperby.Common.Hash.{hash_bytes}
use pdao_simperby.Network.Memory.{
  Files, look_up, overwrite, remove, look_up-overwrite, plain, plain_faithful, encode, decode,
}
use pdao_simperby.Network.Fixtures.{open_crates, greeting, greeting_file}
use pdao_simperby.Network.Message.{file_name, storage_error, json_error}
use pdao_simperby.Network.MessageSet.{add_message_but_not_broadcast}
use pdao_simperby.Network.Reading.{read_messages}
use pdao_simperby.Network.Directory.FileSystem.{FileSystem, read_file, list_files}
use pdao_simperby.Network.Directory.Files.{add_or_overwrite_file, remove_all_files, storage_impl}
use pdao_simperby.Network.Directory.Sound.{IsSound, IsDistinct, Writes}
use pdao_simperby.Network.Directory.Failing.{storage_impl_behaves, failed_write_breaks}

-- The directory `d`, and the name in a path below it.
abbrev d_path : Bytes
d_path = 100 ∷ []

abbrev name_in : Bytes → Bytes
name_in p = drop 2 p

unique : Files → List Bytes
unique [] = []
unique ((f, c) ∷ s) = let rest = unique s in if has_name f rest then rest else f ∷ rest

unique-IsDistinct : (s : Files) → IsDistinct (unique s)
unfolding unique
unique-IsDistinct [] = tt
unique-IsDistinct ((f, c) ∷ s) = elim (Bool-cases (has_name f (unique s))) [
  | inl e ↦ rw e (unique-IsDistinct s)
  | inr e ↦ rw e (e, unique-IsDistinct s)
]

has_name-unique : (f : Bytes) (s : Files) → has_name f (unique s) ≡ not (is_none (look_up s f))
unfolding unique look_up
has_name-unique f [] = refl
has_name-unique f ((g, c) ∷ s) = elim (Bool-cases (bytes_eq g f)) [
  | inl e ↦
      ground (arith, e, has_name-unique f s, ap (λ x. has_name x (unique s)) (eq_of_bytes_eq g f e))
  | inr e ↦ ground (arith, e, has_name-unique f s)
]

look_up-remove :
    (f g : Bytes) (s : Files)
    → look_up (remove f s) g ≡ (if bytes_eq f g then none else look_up s g)
unfolding look_up remove
look_up-remove f g [] = ground arith
look_up-remove f g ((h, c) ∷ s) = elim (Bool-cases (bytes_eq h f)) [
  | inl e ↦ ground (arith, e, look_up-remove f g s, ap (λ x. bytes_eq x g) (eq_of_bytes_eq h f e))
  | inr e ↦ ground (arith, e, look_up-remove f g s, eq_of_bytes_eq f g, eq_of_bytes_eq h g)
]

-- A disk: its files, and a file and content that are still to be written.
abbrev Late : Type 0
Late = Files × Option (Bytes × Bytes)

abbrev finish : Late → Late
finish (files, none) = (files, none)
finish (files, some (f, c)) = (overwrite f c files, none)

-- The calls, with the given way to write.
unfoldable calls : (Bytes → Bytes → Action ℕ Late (Unit {0})) → FileSystem ℕ Late
calls write = record {
  remove_dir_all = λ p s. returns (ok tt, ([], none));
  create_dir = λ p s. returns (ok tt, s);
  read_dir = λ p (files, pending). ok (map (λ (f : Bytes). ok (some f)) (unique files));
  create_file = λ p (files, pending). returns (ok tt, (overwrite (name_in p) [] files, pending));
  open_file = λ p s. returns (ok tt, s);
  lock_exclusive = λ p s. returns (ok tt, s);
  write_all = write;
  read_to_string =
      λ p (files, pending). elim (look_up files (name_in p)) [ none ↦ err 2 | some c ↦ ok c ];
  remove_file = λ p (files, pending). returns (ok tt, (remove (name_in p) files, pending));
}

calls_read :
    (write : Bytes → Bytes → Action ℕ Late (Unit {0})) (f c : Bytes) (s : Late)
    → look_up s.0 f ≡ some c
    → (calls write).read_to_string (100 ∷ 47 ∷ f) s ≡ ok c
unfolding calls
calls_read write f c (files, pending) e = rw (e, calls) refl

unfoldable calls_sound :
    (write : Bytes → Bytes → Action ℕ Late (Unit {0})) → IsSound (calls write) d_path
unfolding calls
calls_sound write = record {
  content = λ s f. look_up s.0 f;
  entries = λ s. unique s.0;
  emptied = λ f s. (overwrite f [] s.0, s.1);
  unset = λ f s. (remove f s.0, s.1);
  read_dir-eq = λ s. refl;
  entries-IsDistinct = λ s. unique-IsDistinct s.0;
  has_name-entries = λ f s. has_name-unique f s.0;
  create_file-eq = λ f s. refl;
  read_to_string-eq = λ f c s e. calls_read write f c s e;
  remove_file-eq = λ f c s e. refl;
  content-emptied = λ f g s. look_up-overwrite f [] g s.0;
  content-unset = λ f g s. look_up-remove f g s.0;
}

-- A write that is done later, and one on a full disk, with the error 28.
abbrev write_later : Bytes → Bytes → Action ℕ Late (Unit {0})
write_later p c (files, pending) = returns (ok tt, (files, some (name_in p, c)))

abbrev write_nothing : Bytes → Bytes → Action ℕ Late (Unit {0})
write_nothing p c s = returns (err 28, s)

abbrev late : FileSystem ℕ Late
late = calls write_later

abbrev full : FileSystem ℕ Late
full = calls write_nothing

content-finish : (g : Bytes) (s : Late) → s.1 ≡ none → look_up (finish s).0 g ≡ look_up s.0 g
content-finish g (files, none) q = refl
content-finish g (files, some w) q = cc

finish-quiet : (s : Late) → (finish s).1 ≡ none
finish-quiet (files, none) = refl
finish-quiet (files, some (f, c)) = refl

late-Writes : Writes late d_path (calls_sound write_later)
unfolding calls calls_sound
late-Writes = record {
  IsQuiet = λ s. s.1 ≡ none;
  written = λ f c s. (s.0, some (f, c));
  finished = finish;
  emptied-IsQuiet = λ f s q. q;
  unset-IsQuiet = λ f s q. q;
  finished-IsQuiet = finish-quiet;
  content-finished = content-finish;
  write_all-eq = λ f c s q e. refl;
  content-written = λ f c g s q n. refl;
  content-finished_written = λ f c g s q. look_up-overwrite f c g s.0;
}

abbrev two_files : Late
two_files = ((lock_file, []) ∷ (65 ∷ [], 1 ∷ []) ∷ [], none)

-- A read right after the write finds the file empty.
read_too_early :
    (t : Late) × (add_or_overwrite_file late d_path (66 ∷ []) (7 ∷ []) two_files
      ≡ returns (ok tt, t))
    × (read_file late d_path (66 ∷ []) t ≡ ok [])
unfolding add_or_overwrite_file read_file calls overwrite look_up bytes_eq
read_too_early = (_, refl, refl)

storage_impl_behaves_example :
    ((t : Late) × (add_or_overwrite_file late d_path (66 ∷ []) (7 ∷ []) two_files
        ≡ returns (ok tt, t))
      × ((g d : Bytes)
          → g ≢ 66 ∷ []
          → (calls_sound write_later).content two_files g ≡ some d
          → read_file late d_path g t ≡ ok d)
      × (read_file late d_path (66 ∷ []) (late-Writes.finished t) ≡ ok (7 ∷ []))
      × ((g d : Bytes)
          → g ≢ 66 ∷ []
          → (calls_sound write_later).content two_files g ≡ some d
          → read_file late d_path g (late-Writes.finished t) ≡ ok d))
    × ((t : Late) × (remove_all_files late d_path two_files ≡ returns (ok tt, t))
        × (list_files late d_path t ≡ returns (ok []))
        × ((calls_sound write_later).content t lock_file
            ≡ (calls_sound write_later).content two_files lock_file))
unfolding late-Writes
storage_impl_behaves_example =
    storage_impl_behaves late d_path (calls_sound write_later) late-Writes two_files (66 ∷ [])
      (7 ∷ []) refl

nothing_parses_of_nothing : plain.parse_message [] ≡ none
unfolding plain decode
nothing_parses_of_nothing = refl

-- The greeting, whose hash is its encoding, is not written.
abbrev half_stored : Late
half_stored = ((greeting_file, []) ∷ [], none)

write_fails :
    full.write_all
      (100 ∷ 47 ∷ file_name open_crates plain greeting)
      (plain.message_json greeting)
      ((calls_sound write_nothing).emptied (file_name open_crates plain greeting) ([], none))
    ≡ returns (err 28, half_stored)
unfolding calls calls_sound file_name plain encode hash_bytes overwrite
write_fails = refl

left_empty :
    (calls_sound write_nothing).content half_stored (file_name open_crates plain greeting) ≡ some []
unfolding calls_sound file_name plain encode hash_bytes look_up bytes_eq
left_empty = refl

failed_write_breaks_example :
    (add_message_but_not_broadcast (storage_impl full d_path) open_crates plain greeting ([], none)
      ≡ returns (err (storage_error 28), half_stored))
    × (read_messages (storage_impl full d_path) open_crates plain half_stored
        ≡ returns (err json_error))
failed_write_breaks_example =
    failed_write_breaks full d_path (calls_sound write_nothing) open_crates plain plain_faithful
      greeting ([], none) half_stored half_stored 28 nothing_parses_of_nothing write_fails
      left_empty
