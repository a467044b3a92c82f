-- ===== src/Network/Directory/Listing.antt =====
-- `list_files` of network/src/storage.rs on a sound directory: all names but the lock.
use pdao_simperby.Prelude.{
  ◌≡◌, inl, inr, refl, ap, arith, true, false, Bool-cases, Option, none, some, List, [], ◌∷◌, map,
  returns, if◌then◌else◌, is_none,
}
use pdao_simperby.Results.{Result, ok, traverse}
use pdao_simperby.Common.Bytes.{Bytes, bytes_eq, eq_of_bytes_eq, bytes_eq_refl}
use pdao_simperby.Network.Storage.{has_name, lock_file}
use pdao_simperby.Network.Directory.FileSystem.{FileSystem, list_files, names_of, but_lock}
use pdao_simperby.Network.Directory.Sound.{IsSound, IsDistinct}

pub has_name-but_lock :
    (f : Bytes) (fs : List Bytes)
    → has_name f (but_lock fs) ≡ (if bytes_eq f lock_file then false else has_name f fs)
unfolding but_lock
has_name-but_lock f [] = ground arith
has_name-but_lock f (g ∷ gs) = elim (Bool-cases (bytes_eq g f)) [
  | inl e ↦
      ground
        (arith, e, ap (λ x. bytes_eq x lock_file) (eq_of_bytes_eq g f e), has_name-but_lock f gs)
  | inr e ↦ ground (arith, e, has_name-but_lock f gs)
]

pub but_lock-IsDistinct : (fs : List Bytes) → IsDistinct fs → IsDistinct (but_lock fs)
unfolding but_lock
but_lock-IsDistinct [] d = tt
but_lock-IsDistinct (f ∷ fs) (n, d) =
    ground (arith, but_lock-IsDistinct fs d, has_name-but_lock f fs)

pub nil_of_no_name : (fs : List Bytes) → ((f : Bytes) → has_name f fs ≡ false) → fs ≡ []
nil_of_no_name [] h = refl
nil_of_no_name (f ∷ fs) h = absurd (ground (arith, h f, bytes_eq_refl f))

pub is_none-cases : (c : Option Bytes) → is_none c ≡ true → c ≡ none
is_none-cases none h = refl
is_none-cases (some x) h = cc

module _ {E S : Type 0} (fs : FileSystem E S) (path : Bytes) (sound : IsSound fs path) where
  traverse_entries :
      (files : List Bytes)
      → traverse (λ (r : Result E (Option Bytes)). r) (map (λ (f : Bytes). ok (some f)) files)
        ≡ ok (map (λ (f : Bytes). some f) files)
  unfolding traverse
  traverse_entries [] = refl
  traverse_entries (f ∷ files) = ground (arith, traverse_entries files)

  names_of-map : (files : List Bytes) → names_of (map (λ (f : Bytes). some f) files) ≡ returns files
  unfolding names_of
  names_of-map [] = refl
  names_of-map (f ∷ files) = ground (arith, names_of-map files)

  pub list_files-eq : (s : S) → list_files fs path s ≡ returns (ok (but_lock (sound.entries s)))
  unfolding list_files
  list_files-eq s =
      rw (sound.read_dir-eq s, traverse_entries (sound.entries s), names_of-map (sound.entries s))
        refl
