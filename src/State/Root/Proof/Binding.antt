-- ===== src/State/Root/Proof/Binding.antt =====
-- What an accepted proof of crates/state/src/root.rs binds.
use edet.Base.{
  ℕ, ◌<◌, ◌≡◌, refl, sym, ap, ◌∙◌, ◌⊎◌, inl, inr, Bool, true, false, Option, none, some, List, [],
  ◌∷◌, arith, leb, if◌then◌else◌, length, All, ap₂, ◌^◌,
}
use edet.Bytes.{Bytes, same_bytes}
use edet.State.Root.{Section, position, leaf_hash, section_hash, sha}
use edet.State.Root.Tree.{fold_path, fold_steps}
use edet.State.Root.Tree.Binding.{IsDigest, Collision, fold_steps-binding}
use edet.State.Root.Proof.{InclusionProof, claimed_leaf, verify}
use edet.State.Root.Proof.Encoding.{section_hash-binding, leaf_hash-binding}

pub same_bytes_eq : (xs ys : Bytes) → same_bytes xs ys ≡ true → xs ≡ ys
same_bytes_eq [] [] h = refl
same_bytes_eq [] (y ∷ ys) h = absurd (ground (arith, h))
same_bytes_eq (x ∷ xs) [] h = absurd (ground (arith, h))
same_bytes_eq (x ∷ xs) (y ∷ ys) h = ground (arith, h, same_bytes_eq xs ys)

pub same_bytes_refl : (xs : Bytes) → same_bytes xs xs ≡ true
same_bytes_refl [] = refl
same_bytes_refl (x ∷ xs) = ground (arith, same_bytes_refl xs)

-- The types of the source: its numbers are `u64`, its hashes 32 bytes.
pub record IsTyped (p : InclusionProof) : Type 0 where
  pub leaf_count : p.leaf_count < 2 ^ 64
  pub key : length p.key < 2 ^ 64
  pub value : length p.value < 2 ^ 64
  pub leaf_salt : IsDigest p.leaf_salt
  pub path : All IsDigest p.path
  pub section_path : All IsDigest p.section_path

abbrev ended : Bool → Option (Bytes × List Bytes) → Option Bytes
ended late r =
    if late
    then none
    else elim r [ none ↦ none | some (acc, []) ↦ some acc | some (acc, _ ∷ _) ↦ none ]

ended-some :
    (late : Bool) (r : Option (Bytes × List Bytes)) (acc : Bytes)
    → ended late r ≡ some acc
    → r ≡ some (acc, [])
ended-some true r acc e = cc
ended-some false none acc e = cc
ended-some false (some (a, [])) acc e = cc
ended-some false (some (a, x ∷ xs)) acc e = cc

abbrev pub checked : Option Bytes → (Bytes → Option Bytes) → Bytes → Bool
checked r up root = elim r [
  | none ↦ false
  | some x ↦ elim (up x) [ none ↦ false | some top ↦ same_bytes top root ]
]

checked_top :
    (r : Option Bytes) (root : Bytes)
    → (elim r [ none ↦ false | some top ↦ same_bytes top root ]) ≡ true
    → r ≡ some root
checked_top none root e = cc
checked_top (some top) root e = ap some (same_bytes_eq top root e)

checked_parts :
    (r : Option Bytes) (up : Bytes → Option Bytes) (root : Bytes)
    → checked r up root ≡ true
    → (x : Bytes) × (r ≡ some x) × (up x ≡ some root)
checked_parts none up root e = cc
checked_parts (some x) up root e = (x, refl, checked_top (up x) root e)

module _ (sha256 : Bytes → Bytes) where
  fold_path_steps :
      (leaf : Bytes) (index count : ℕ) (siblings : List Bytes) (acc : Bytes)
      → fold_path sha256 leaf index count siblings ≡ some acc
      → fold_steps sha256 count leaf index count siblings ≡ some (acc, [])
  unfolding fold_path
  fold_path_steps leaf index count siblings acc e =
      ended-some (leb count index) (fold_steps sha256 count leaf index count siblings) acc e

  verify_parts :
      (root : Bytes) (p : InclusionProof)
      → verify sha256 root p ≡ true
      → (leaves_root : Bytes) × (fold_path sha256
            (claimed_leaf sha256 p)
            p.index
            p.leaf_count
            p.path
          ≡ some leaves_root)
        × (fold_path sha256
              (section_hash sha256 p.section p.leaf_count leaves_root)
              (position p.section)
              7
              p.section_path
            ≡ some root)
  unfolding verify
  verify_parts root p e =
      checked_parts (fold_path sha256 (claimed_leaf sha256 p) p.index p.leaf_count p.path)
        (λ x.
          fold_path sha256 (section_hash sha256 p.section p.leaf_count x) (position p.section) 7
            p.section_path)
        root e

  length-section_hash :
      (section : Section) (n : ℕ) (r : Bytes)
      → ((x : Bytes) → length (sha256 x) ≡ 32)
      → IsDigest (section_hash sha256 section n r)
  unfolding section_hash sha
  length-section_hash section n r digests = digests _

  length-claimed_leaf :
      (p : InclusionProof)
      → ((x : Bytes) → length (sha256 x) ≡ 32)
      → IsDigest (claimed_leaf sha256 p)
  unfolding claimed_leaf leaf_hash sha
  length-claimed_leaf p digests = digests _

  claimed_leaf-binding :
      (p q : InclusionProof)
      → IsTyped p
      → IsTyped q
      → p.section ≡ q.section
      → p.index ≡ q.index
      → claimed_leaf sha256 p ≡ claimed_leaf sha256 q
      → ((p.leaf_salt ≡ q.leaf_salt) × (p.key ≡ q.key) × (p.value ≡ q.value)) ⊎ Collision sha256
  unfolding claimed_leaf
  claimed_leaf-binding p q tp tq sec idx e =
      leaf_hash-binding sha256 q.section q.index p.leaf_salt q.leaf_salt p.key q.key p.value q.value
        tp.leaf_salt tq.leaf_salt tp.key tq.key tp.value tq.value
        (ap₂ (λ s i. leaf_hash sha256 p.leaf_salt s i p.key p.value) (sym sec) (sym idx) ∙ e)

  leaves-binding :
      (p q : InclusionProof)
      → ((x : Bytes) → length (sha256 x) ≡ 32)
      → IsTyped p
      → IsTyped q
      → p.section ≡ q.section
      → p.index ≡ q.index
      → (r r' : Bytes)
      → fold_path sha256 (claimed_leaf sha256 p) p.index p.leaf_count p.path ≡ some r
      → fold_path sha256 (claimed_leaf sha256 q) q.index q.leaf_count q.path ≡ some r'
      → section_hash sha256 p.section p.leaf_count r ≡ section_hash sha256 q.section q.leaf_count r'
      → ((p.leaf_count ≡ q.leaf_count)
          × (p.leaf_salt ≡ q.leaf_salt)
          × (p.key ≡ q.key)
          × (p.value ≡ q.value))
        ⊎ Collision sha256
  leaves-binding p q digests tp tq sec idx r r' low low' same =
      elim (section_hash-binding sha256 q.section p.leaf_count q.leaf_count r r' tp.leaf_count
        tq.leaf_count (ap (λ s. section_hash sha256 s p.leaf_count r) (sym sec) ∙ same)) [
          | inr found ↦ inr found
          | inl (count, root) ↦
              let leaf = claimed_leaf sha256 q in
              let low'' =
                ap₂ (λ i n. fold_path sha256 leaf i n q.path) idx count
                ∙ low'
                ∙ ap some (sym root) in
              elim (fold_steps-binding sha256 p.leaf_count (claimed_leaf sha256 p) leaf p.index
                p.leaf_count p.path q.path r [] [] digests (length-claimed_leaf p digests)
                (length-claimed_leaf q digests) tp.path tq.path (fold_path_steps _ _ _ _ r low)
                (fold_path_steps leaf p.index p.leaf_count q.path r low'')) [
                  | inr found ↦ inr found
                  | inl leaves ↦ elim (claimed_leaf-binding p q tp tq sec idx leaves) [
                    | inl (salt, key, value) ↦ inl (count, salt, key, value)
                    | inr found ↦ inr found
                  ]
                ]
        ]

  -- Two proofs that are accepted under one root, of one section and one index,
  -- have one leaf count, one leaf salt, one key and one value, or two inputs of SHA-256 have one
  -- digest, if every digest has 32 bytes, as the proofs' salts and siblings have, and the proofs'
  -- leaf counts and the lengths of their keys and values fit a `u64`.
  pub verify-binding :
      (root : Bytes) (p q : InclusionProof)
      → ((x : Bytes) → length (sha256 x) ≡ 32)
      → IsTyped p
      → IsTyped q
      → p.section ≡ q.section
      → p.index ≡ q.index
      → verify sha256 root p ≡ true
      → verify sha256 root q ≡ true
      → ((p.leaf_count ≡ q.leaf_count)
          × (p.leaf_salt ≡ q.leaf_salt)
          × (p.key ≡ q.key)
          × (p.value ≡ q.value))
        ⊎ Collision sha256
  verify-binding root p q digests tp tq sec idx hp hq =
      let (r, low, high) = verify_parts root p hp in
      let (r', low', high') = verify_parts root q hq in
      let one = section_hash sha256 p.section p.leaf_count r in
      let other = section_hash sha256 q.section q.leaf_count r' in
      let place = position p.section in
      let high'' = ap (λ s. fold_path sha256 other (position s) 7 q.section_path) sec ∙ high' in
      elim (fold_steps-binding sha256 7 one other place 7 p.section_path q.section_path root [] []
        digests (length-section_hash p.section p.leaf_count r digests)
        (length-section_hash q.section q.leaf_count r' digests) tp.section_path tq.section_path
        (fold_path_steps one place 7 p.section_path root high)
        (fold_path_steps other place 7 q.section_path root high'')) [
          | inr found ↦ inr found
          | inl same ↦ leaves-binding p q digests tp tq sec idx r r' low low' same
        ]
