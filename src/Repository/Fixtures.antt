-- ===== src/Repository/Fixtures.antt =====
-- A git of two commits whose branches are a map, for concrete runs of repository/src/raw.
use pdao_simperby.Prelude.{
  [], ◌∷◌, true, false, none, some, returns, replicate, ℕ, Bool, Option, if◌then◌else◌, length,
  ◌==◌,
}
use pdao_simperby.Results.{ok, err}
use pdao_simperby.Repository.Git.{Oid, Branch, Git, CommitHash}
use pdao_simperby.Common.Bytes.{bytes_eq}

abbrev pub root_oid : Oid
root_oid = replicate 20 1

abbrev pub tip_oid : Oid
tip_oid = replicate 20 2

-- Each branch is at the tip or at the root.
abbrev pub Refs : Type 0
Refs = Branch → Option Bool

abbrev pub oid_of : Bool → Oid
oid_of true = tip_oid
oid_of false = root_oid

abbrev pub set_ref : Branch → Option Bool → Refs → Refs
set_ref b v s x = if bytes_eq x b then v else s x

abbrev pub main_branch : Branch
main_branch = 109 ∷ []

abbrev pub two_objects : Git ℕ Refs
two_objects = record {
  open_repository = λ d s. returns (ok tt, s);
  init_opts = λ d b s. returns (ok tt, s);
  set_str = λ k v s. returns (ok tt, s);
  branches = λ s. ok [];
  oid_from_bytes = λ bytes. if length bytes == 20 then ok bytes else err 1;
  find_commit = λ o s.
      if bytes_eq o tip_oid
      then ok (record { id = o; parents = root_oid ∷ [] })
      else (if bytes_eq o root_oid then ok (record { id = o; parents = [] }) else err 2);
  branch = λ b c force s. elim (s b) [
    | none ↦ returns (ok tt, set_ref b (some (bytes_eq c.id tip_oid)) s)
    | some k ↦ returns (err 3, s)
  ];
  find_branch = λ b s. elim (s b) [ none ↦ err 4 | some k ↦ ok (some (oid_of k)) ];
  set_target = λ b o s. returns (ok tt, set_ref b (some (bytes_eq o tip_oid)) s);
  delete = λ b s. returns (ok tt, set_ref b none s);
  head = λ s. ok (record { shorthand = some main_branch; target = none });
  tag_names = λ s. ok [];
  find_object = λ o s. ok o;
  tag_lightweight = λ t o force s. returns (err 5, s);
  find_reference = λ r s. err 5;
  peel = λ r s. err 5;
  tag_delete = λ t s. returns (err 5, s);
  index_tree = λ s. returns (err 5, s);
  signature = λ s. err 5;
  find_tree = λ o s. err 5;
  commit = λ m a t ps s. returns (err 5, s);
  walk_from = λ o s. ok (ok tip_oid ∷ ok root_oid ∷ []);
  walk_from_head = λ s. ok [];
  merge_base = λ a b s. ok a;
  revparse_single = λ r s. err 5;
  checkout_tree = λ o s. returns (ok tt, s);
  set_head = λ r s. returns (ok tt, s);
  set_head_detached = λ o s. returns (ok tt, s);
  remote = λ n u s. returns (err 5, s);
  remote_delete = λ n s. returns (err 5, s);
  remotes = λ s. ok [];
  find_remote = λ n s. err 5;
}

abbrev pub no_refs : Refs
no_refs b = none

abbrev pub tip : CommitHash
tip = record { hash = tip_oid }

abbrev pub root_commit : CommitHash
root_commit = record { hash = root_oid }
