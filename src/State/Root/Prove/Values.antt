-- ===== src/State/Root/Prove/Values.antt =====
-- The values behind the leaves of crates/state/src/root.rs: `prove` has one for every key it finds.
use edet.Base.{ℕ, ◌≡◌, refl, ap, ◌∙◌, Option, none, some, [], ◌∷◌, ap₂}
use edet.Bytes.{Bytes}
use edet.State.Root.{Section, members, contracts, proposals, validators, stakes, replay, ledger}
use edet.State.Root.Leaves.{
  check_replay_window, State, Codec, Leaves, Answered, ok, and_then, salt_marker, err, RootError,
}
use edet.State.Root.Sections.{
  Sections, get_section, sections, section_leaves, record_leaves, section_rows,
}
use edet.State.Root.Prove.{find_key, record_value, leaf_value}
use edet.State.Root.Prove.Reads.{IsKept, section_rows-reads}
use edet.State.Root.Prove.Found.{and_then_ok, ok_inj, some_inj, find_key-Found}
use edet.State.Root.Prove.{prove_from, prove, proof_at}
use edet.State.Root.Proof.{InclusionProof}
use edet.State.Root.Prove.Parts.{Parts, sections-Parts, record_value_row, ledger_shape}

prove_parts :
    (o : Option ℕ) (r : Answered (Option Bytes)) (at_index : ℕ → Bytes → InclusionProof) (j : ℕ)
    (value : Bytes)
    → o ≡ some j
    → r ≡ ok (some value)
    → (elim o [
      | none ↦ ok none
      | some index ↦ and_then r (λ value. elim value [
        | none ↦ err RootError.no_value
        | some bytes ↦ ok (some (at_index index bytes))
      ])
    ])
      ≡ ok (some (at_index j value))
prove_parts none r at_index j value e h = cc
prove_parts (some i) (err x) at_index j value e h = cc
prove_parts (some i) (ok none) at_index j value e h = let k : none ≡ some value = ok_inj h in cc
prove_parts (some i) (ok (some v)) at_index j value e h =
    ap₂ (λ k b. ok (some (at_index k b))) (some_inj e) (some_inj (ok_inj h))

module _ (sha256 : Bytes → Bytes) {M C P Params : Type 0} (codec : Codec M C P Params) where
  keyed_value :
      (s : State M C P Params) (section : Section) (key : Bytes) (j : ℕ) (leaves : Leaves)
      → IsKept s
      → record_leaves sha256 s.root_salt (salt_marker s) section 0 (section_rows codec s section)
        ≡ ok leaves
      → find_key key leaves ≡ some j
      → (value : Bytes) × (record_value codec s section key ≡ ok (some value))
  keyed_value s section key j leaves kept e f =
      let found =
        find_key-Found sha256 s.root_salt (salt_marker s) section _ key 0 j
          (section_rows codec s section) leaves (section_rows-reads s codec kept section) e f in
      (
        found.bytes,
        record_value_row sha256 codec s section key found.id found.bytes found.is_key found.row.1
            found.row.0,
      )

  ledger_value :
      (s : State M C P Params) (built : Sections) (key hash : Bytes) (j : ℕ)
      → find_key key (([], hash) ∷ []) ≡ some j
      → (value : Bytes) × (leaf_value codec s built ledger key ≡ ok (some value))
  unfolding leaf_value
  ledger_value s built [] hash j f = (built.ledger_value, refl)
  ledger_value s built (x ∷ key) hash j f = let k : none ≡ some j = f in cc

  -- Every key of a section has a value.
  pub any_value :
      (s : State M C P Params) (built : Sections) (section : Section) (key : Bytes) (j : ℕ)
      → IsKept s
      → Parts sha256 codec s built
      → find_key key (get_section built section) ≡ some j
      → (value : Bytes) × (leaf_value codec s built section key ≡ ok (some value))
  unfolding section_leaves leaf_value
  any_value s built members key j kept parts f =
      keyed_value s members key j (get_section built members) kept (parts.entries members) f
  any_value s built contracts key j kept parts f =
      keyed_value s contracts key j (get_section built contracts) kept (parts.entries contracts) f
  any_value s built proposals key j kept parts f =
      keyed_value s proposals key j (get_section built proposals) kept (parts.entries proposals) f
  any_value s built validators key j kept parts f =
      keyed_value s validators key j (get_section built validators) kept (parts.entries validators)
        f
  any_value s built stakes key j kept parts f =
      keyed_value s stakes key j (get_section built stakes) kept (parts.entries stakes) f
  any_value s built replay key j kept parts f =
      let (_, _, e) =
        and_then_ok (check_replay_window s) _ (get_section built replay) (parts.entries replay) in
      keyed_value s replay key j (get_section built replay) kept e f
  any_value s built ledger key j kept parts f =
      let shape = ledger_shape sha256 codec s built parts in
      ledger_value s built key parts.hash j (ap (find_key key) shape ∙ f)

  pub prove_of :
      (s : State M C P Params) (built : Sections) (section : Section) (key : Bytes)
      → sections sha256 codec s ≡ ok built
      → prove sha256 codec s section key ≡ prove_from sha256 codec s built section key
  unfolding prove
  prove_of s built section key e =
      ap (λ (r : Answered Sections). and_then r (λ b. prove_from sha256 codec s b section key)) e

  pub prove_from-find_key :
      (s : State M C P Params) (built : Sections) (section : Section) (key : Bytes) (j : ℕ)
      (value : Bytes)
      → find_key key (get_section built section) ≡ some j
      → leaf_value codec s built section key ≡ ok (some value)
      → prove_from sha256 codec s built section key
        ≡ ok (some (proof_at sha256 codec s built section key j value))
  unfolding prove_from
  prove_from-find_key s built section key j value f v =
      prove_parts (find_key key (get_section built section)) (leaf_value codec s built section key)
        (proof_at sha256 codec s built section key) j value f v

  -- Where the sections of a ledger encode and one of them holds a key, `prove` answers with a proof
  -- of that section, that key and its place, if the ledger's maps are in order and its ids and its
  -- epoch fit 64 bits.
  pub prove-find_key :
      (s : State M C P Params) (built : Sections) (section : Section) (key : Bytes) (j : ℕ)
      → IsKept s
      → sections sha256 codec s ≡ ok built
      → find_key key (get_section built section) ≡ some j
      → (p : InclusionProof) × (prove sha256 codec s section key ≡ ok (some p))
        × (p.section ≡ section)
        × (p.key ≡ key)
        × (p.index ≡ j)
  unfolding proof_at
  prove-find_key s built section key j kept e f =
      let (value, v) =
        any_value s built section key j kept (sections-Parts sha256 codec s built e) f in
      (
        proof_at sha256 codec s built section key j value,
        prove_of s built section key e ∙ prove_from-find_key s built section key j value f v,
        refl,
        refl,
        refl,
      )
