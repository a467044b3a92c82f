-- ===== src/Network/Memory.antt =====
-- A storage in memory and an encoding by lengths: the interfaces can be met.
use pdao_simperby.Prelude.{
  ℕ, zero, suc, ◌≡◌, refl, arith, Option, none, some, List, [], ◌∷◌, ◌++◌, returns, Bool-cases,
  length, drop, if◌then◌else◌, inl, inr, not, is_none, ap,
}
use pdao_simperby.Results.{ok, err}
use pdao_simperby.Common.Bytes.{Bytes, bytes_eq, eq_of_bytes_eq}
use pdao_simperby.Network.Storage.{Storage, IsReliable, has_name}
use pdao_simperby.Network.Message.{Message, RawMessage, State, Codec, from_message}
use pdao_simperby.Network.Contents.{IsFaithful}

abbrev pub Files : Type 0
Files = List (Bytes × Bytes)

unfoldable pub look_up : Files → Bytes → Option Bytes
look_up [] f = none
look_up ((g, c) ∷ s) f = if bytes_eq g f then some c else look_up s f

unfoldable pub file_names : Files → List Bytes
file_names [] = []
file_names ((g, c) ∷ s) = g ∷ file_names s

unfoldable pub overwrite : Bytes → Bytes → Files → Files
overwrite f c [] = (f, c) ∷ []
overwrite f c ((g, d) ∷ s) =
    let rest = overwrite f c s in if bytes_eq g f then (f, c) ∷ s else (g, d) ∷ rest

unfoldable pub remove : Bytes → Files → Files
remove f [] = []
remove f ((g, d) ∷ s) = let rest = remove f s in if bytes_eq g f then rest else (g, d) ∷ rest

-- Reading a file that is not there is the error 2.
unfoldable pub memory : Storage ℕ Files
unfolding look_up file_names overwrite remove
memory = record {
  list_files = λ s. returns (ok (file_names s));
  add_or_overwrite_file = λ f c s. returns (ok tt, overwrite f c s);
  read_file = λ f s. elim (look_up s f) [ none ↦ err 2 | some c ↦ ok c ];
  remove_file = λ f s. returns (ok tt, remove f s);
  remove_all_files = λ s. returns (ok tt, []);
}

pub has_name-file_names :
    (f : Bytes) (s : Files) → has_name f (file_names s) ≡ not (is_none (look_up s f))
unfolding look_up file_names
has_name-file_names f [] = refl
has_name-file_names f ((g, c) ∷ s) = ground (arith, has_name-file_names f s)

pub look_up-overwrite :
    (f c g : Bytes) (s : Files)
    → look_up (overwrite f c s) g ≡ (if bytes_eq f g then some c else look_up s g)
unfolding look_up overwrite
look_up-overwrite f c g [] = refl
look_up-overwrite f c g ((h, d) ∷ s) = elim (Bool-cases (bytes_eq h f)) [
  | inl e ↦ ground (arith, e, ap (λ x. bytes_eq x g) (eq_of_bytes_eq h f e))
  | inr e ↦ ground (arith, look_up-overwrite f c g s, e, eq_of_bytes_eq f g, eq_of_bytes_eq h g)
]

pub memory_reads : (f c : Bytes) (s : Files) → look_up s f ≡ some c → memory.read_file f s ≡ ok c
unfolding memory
memory_reads f c s e = rw (e, memory) refl

unfoldable pub memory_disk : IsReliable memory
unfolding memory look_up file_names overwrite
memory_disk = record {
  view = look_up;
  names = file_names;
  put = overwrite;
  clear = λ s. [];
  list_files-eq = λ s. refl;
  has_name-names = has_name-file_names;
  read_file-eq = memory_reads;
  add-eq = λ f c s n. refl;
  view-put = λ f c g s n. look_up-overwrite f c g s;
  remove_all_files-eq = λ s. refl;
  view-clear = λ f s. refl;
}

-- The lengths of the text and of the signature, and then the bytes.
unfoldable pub encode : Message → Bytes
encode m =
    let sig = m.signature.signature.signature in
    length m.text ∷ length sig ∷ (m.text ++ (sig ++ m.signature.signer.key))

abbrev take : ℕ → Bytes → Bytes
take zero xs = []
take (suc n) [] = []
take (suc n) (x ∷ xs) = x ∷ take n xs

unfoldable pub decode : Bytes → Option RawMessage
decode (n ∷ k ∷ rest) =
    let tail = drop n rest in
    some (record {
      text = take n rest;
      signature = record {
        signature = record { signature = take k tail };
        signer = record { key = drop k tail };
      };
    })
decode _ = none

take-append : (xs ys : Bytes) → take (length xs) (xs ++ ys) ≡ xs
take-append [] ys = refl
take-append (x ∷ xs) ys = ap (λ zs. x ∷ zs) (take-append xs ys)

drop-append : (xs ys : Bytes) → drop (length xs) (xs ++ ys) ≡ ys
drop-append [] ys = refl
drop-append (x ∷ xs) ys = drop-append xs ys

pub decode-encode : (m : Message) → decode (encode m) ≡ some (from_message m)
unfolding decode encode from_message
decode-encode m =
    let sig = m.signature.signature.signature in
    let key = m.signature.signer.key in
    rw
      (
        take-append m.text (sig ++ key),
        drop-append m.text (sig ++ key),
        take-append sig key,
        drop-append sig key,
      )
      refl

unfoldable pub decode_state : Bytes → Option State
decode_state (h ∷ key) = some (record { height = h; key = key })
decode_state [] = none

unfoldable pub plain : Codec
unfolding encode decode decode_state
plain = record {
  message_json = encode;
  parse_message = decode;
  state_json = λ st. st.height ∷ st.key;
  parse_state = decode_state;
  hex = λ b. 48 ∷ b;
}

pub plain_faithful : IsFaithful plain
unfolding plain decode_state
plain_faithful = record {
  parse_message-json = decode-encode;
  parse_state-json = λ st. refl;
  hex_digits = λ b rest e. ground (arith, e);
}
