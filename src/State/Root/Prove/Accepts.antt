-- ===== src/State/Root/Prove/Accepts.antt =====
-- `verify` of crates/state/src/root.rs on what `prove` gives.
use edet.Base.{
  ℕ, ◌<◌, ◌≡◌, refl, sym, ap, ◌∙◌, true, false, Option, none, some, List, [], arith, length, get_or,
  subst, ap₂,
}
use edet.Bytes.{Bytes, same_bytes}
use edet.State.Root.{
  Section, members, contracts, proposals, validators, stakes, replay, ledger, position,
  section_hash,
}
use edet.State.Root.Tree.{merkle, fold_path}
use edet.State.Root.Tree.Round.{fold_path-merkle}
use edet.State.Root.Levels.{hashes}
use edet.State.Root.Levels.Built.{length-hashes}
use edet.State.Root.Proof.{InclusionProof, claimed_leaf, verify}
use edet.State.Root.Proof.Binding.{same_bytes_refl, checked}
use edet.State.Root.Leaves.{State, Codec, Answered, RootError, ok, err, and_then}
use edet.State.Root.Sections.{Sections, get_section, sections, section_roots, state_root}
use edet.State.Root.Prove.{find_key, leaf_value, proof_at, prove_from, prove}
use edet.State.Root.Prove.Reads.{IsKept}
use edet.State.Root.Prove.Found.{and_then_ok, ok_inj, some_inj}
use edet.State.Root.Prove.Parts.{sections-Parts, Leaf, any_Leaf}

checked_ok :
    (r : Option Bytes) (up : Bytes → Option Bytes) (x root : Bytes)
    → r ≡ some x
    → up x ≡ some root
    → checked r up root ≡ true
checked_ok r up x root e h =
    ap (λ (o : Option Bytes). checked o up root) e
    ∙ ap (λ (o : Option Bytes). elim o [ none ↦ false | some top ↦ same_bytes top root ]) h
    ∙ same_bytes_refl root

proved_parts :
    (o : Option ℕ) (r : Answered (Option Bytes)) (at_index : ℕ → Bytes → InclusionProof)
    (p : InclusionProof)
    → (elim o [
      | none ↦ ok none
      | some index ↦ and_then r (λ value. elim value [
        | none ↦ err RootError.no_value
        | some bytes ↦ ok (some (at_index index bytes))
      ])
    ])
      ≡ ok (some p)
    → (j : ℕ) × (value : Bytes) × (o ≡ some j) × (r ≡ ok (some value)) × (at_index j value ≡ p)
proved_parts none r at_index p e = let k : none ≡ some p = ok_inj e in cc
proved_parts (some j) (err x) at_index p e = cc
proved_parts (some j) (ok none) at_index p e = cc
proved_parts (some j) (ok (some value)) at_index p e = (j, value, refl, refl, some_inj (ok_inj e))

module _ (sha256 : Bytes → Bytes) where
  length-section_roots : (built : Sections) → length (section_roots sha256 built) ≡ 7
  unfolding section_roots
  length-section_roots built = refl

  get_or-section_roots :
      (built : Sections) (section : Section)
      → get_or (section_roots sha256 built) (position section) []
        ≡ section_hash sha256 section
            (length (get_section built section))
            (merkle sha256 (hashes (get_section built section)) none).0
  unfolding section_roots position
  get_or-section_roots built members = refl
  get_or-section_roots built contracts = refl
  get_or-section_roots built proposals = refl
  get_or-section_roots built validators = refl
  get_or-section_roots built stakes = refl
  get_or-section_roots built replay = refl
  get_or-section_roots built ledger = refl

  position_lt : (section : Section) → position section < 7
  unfolding position
  position_lt members = omega arith
  position_lt contracts = omega arith
  position_lt proposals = omega arith
  position_lt validators = omega arith
  position_lt stakes = omega arith
  position_lt replay = omega arith
  position_lt ledger = omega arith

  -- A leaf of the sections, on the path of its place, is accepted under their root.
  verify_at :
      (built : Sections) (p : InclusionProof)
      → p.index < length (get_section built p.section)
      → get_or (hashes (get_section built p.section)) p.index [] ≡ claimed_leaf sha256 p
      → p.leaf_count ≡ length (get_section built p.section)
      → p.path ≡ (merkle sha256 (hashes (get_section built p.section)) (some p.index)).1
      → p.section_path ≡ (merkle sha256 (section_roots sha256 built) (some (position p.section))).1
      → verify sha256 (merkle sha256 (section_roots sha256 built) none).0 p ≡ true
  unfolding verify
  verify_at built p within leaf count path section_path =
      let entries = get_section built p.section in
      let leaves = hashes entries in
      let roots = section_roots sha256 built in
      let place = position p.section in
      let low =
        fold_path-merkle sha256 leaves p.index (omega (arith, within, length-hashes entries)) in
      let high =
        fold_path-merkle sha256 roots place
          (omega (arith, position_lt p.section, length-section_roots built)) in
      checked_ok (fold_path sha256 (claimed_leaf sha256 p) p.index p.leaf_count p.path)
        (λ x.
          fold_path sha256 (section_hash sha256 p.section p.leaf_count x) place 7 p.section_path)
        (merkle sha256 leaves none).0 (merkle sha256 roots none).0
        (ap (λ (c : Bytes). fold_path sha256 c p.index p.leaf_count p.path) (sym leaf)
          ∙ ap₂ (fold_path sha256 (get_or leaves p.index []) p.index)
              (count ∙ sym (length-hashes entries)) path
          ∙ low)
        (ap₂
            (λ (n : ℕ) (steps : List Bytes).
              fold_path sha256 (section_hash sha256 p.section n (merkle sha256 leaves none).0) place
                7 steps)
            count section_path
          ∙ ap₂
              (λ (c : Bytes) (n : ℕ).
                fold_path sha256 c place n (merkle sha256 roots (some place)).1)
              (sym (get_or-section_roots built p.section)) (sym (length-section_roots built))
          ∙ high)

module _ (sha256 : Bytes → Bytes) {M C P Params : Type 0} (codec : Codec M C P Params) where
  verify-proof_at :
      (s : State M C P Params) (built : Sections) (section : Section) (key : Bytes) (j : ℕ)
      (value : Bytes)
      → Leaf sha256 codec s section key j (get_section built section) value
      → verify sha256
          (merkle sha256 (section_roots sha256 built) none).0
          (proof_at sha256 codec s built section key j value)
        ≡ true
  unfolding proof_at claimed_leaf
  verify-proof_at s built section key j value leaf =
      verify_at sha256 built (proof_at sha256 codec s built section key j value) leaf.within
        leaf.hash refl refl refl

  proved :
      (s : State M C P Params) (built : Sections) (section : Section) (key : Bytes)
      (p : InclusionProof)
      → prove_from sha256 codec s built section key ≡ ok (some p)
      → (j : ℕ) × (value : Bytes) × (find_key key (get_section built section) ≡ some j)
        × (leaf_value codec s built section key ≡ ok (some value))
        × (proof_at sha256 codec s built section key j value ≡ p)
  unfolding prove_from
  proved s built section key p e =
      proved_parts (find_key key (get_section built section)) (leaf_value codec s built section key)
        (proof_at sha256 codec s built section key) p e

  -- What `prove` gives for a record of a ledger is accepted by `verify` under that ledger's state
  -- root, if the ledger's maps are in order and its ids and its epoch fit a `u64`.
  pub prove-verify :
      (s : State M C P Params) (section : Section) (key : Bytes) (p : InclusionProof)
      → IsKept s
      → prove sha256 codec s section key ≡ ok (some p)
      → (root : Bytes) × (state_root sha256 codec s ≡ ok root) × (verify sha256 root p ≡ true)
  unfolding prove state_root
  prove-verify s section key p kept e =
      let (built, first, rest) = and_then_ok (sections sha256 codec s) _ (some p) e in
      let (j, value, f, v, is) = proved s built section key p rest in
      let leaf =
        any_Leaf sha256 codec s built section key j value kept
          (sections-Parts sha256 codec s built first) f v in
      let root = (merkle sha256 (section_roots sha256 built) none).0 in
      (
        root,
        ap
            (λ (r : Answered Sections).
              and_then r (λ b. ok (merkle sha256 (section_roots sha256 b) none).0))
            first,
        subst (λ (q : InclusionProof). verify sha256 root q ≡ true) is
            (verify-proof_at s built section key j value leaf),
      )
