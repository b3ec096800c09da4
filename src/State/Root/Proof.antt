-- ===== src/State/Root/Proof.antt =====
-- `InclusionProof` and `verify` of crates/state/src/root.rs.
pub mod Encoding
pub mod Binding
use edet.Base.{ℕ, Bool, false, none, some, List, length}
use edet.Bytes.{Bytes, same_bytes}
use edet.State.Root.{Section, all_sections, position, leaf_hash, section_hash}
use edet.State.Root.Tree.{fold_path}

pub record InclusionProof : Type 0 where
  pub section : Section
  pub index : ℕ
  pub leaf_count : ℕ
  pub key : Bytes
  pub value : Bytes
  pub leaf_salt : Bytes
  pub path : List Bytes
  pub section_path : List Bytes

module _ (sha256 : Bytes → Bytes) where
  -- The leaf that a proof claims.
  unfoldable pub claimed_leaf : InclusionProof → Bytes
  unfolding leaf_hash
  claimed_leaf p = leaf_hash sha256 p.leaf_salt p.section p.index p.key p.value

  unfoldable pub verify : Bytes → InclusionProof → Bool
  unfolding claimed_leaf fold_path section_hash position
  verify root p = elim (fold_path sha256 (claimed_leaf p) p.index p.leaf_count p.path) [
    | none ↦ false
    | some leaves_root ↦
        let section_root = section_hash sha256 p.section p.leaf_count leaves_root in
        elim (fold_path sha256 section_root (position p.section) (length all_sections)
          p.section_path) [ none ↦ false | some top ↦ same_bytes top root ]
  ]
