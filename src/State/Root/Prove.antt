-- ===== src/State/Root/Prove.antt =====
-- `prove` of crates/state/src/root.rs, and the reads of a leaf's value behind it.
pub mod Rows
pub mod Reads
pub mod Found
pub mod Parts
pub mod Accepts
pub mod Values
pub mod Sorted
pub mod Search
use edet.Base.{
  ℕ, suc, Bool, true, false, ◌||◌, Option, none, some, List, [], ◌∷◌, ◌==◌, if◌then◌else◌, or_else,
  length,
}
use mathlib.Core.Option
use edet.Map.{Map, get}
use edet.Map.Keys.{nat_ordered, pair_ordered}
use edet.Bytes.{Bytes, same_bytes, from_be_bytes}
use edet.State.Root.{
  Section, position, members, contracts, proposals, validators, stakes, replay, ledger, leaf_salt,
  value_digest,
}
use edet.State.Root.Tree.{merkle}
use edet.State.Root.Levels.{hashes}
use edet.State.Root.Proof.{InclusionProof}
use edet.State.Root.Leaves.{
  State, Codec, Leaves, Answered, RootError, ok, err, and_then, encode, stake_row, range, in_window,
  epoch_of, salt_marker,
}
use edet.State.Root.Sections.{Sections, get_section, sections, section_roots}

-- `entries.iter().position(|(k, _)| k == key)`
abbrev pub find_key : Bytes → Leaves → Option ℕ
find_key key [] = none
find_key key ((k, _) ∷ entries) =
    if same_bytes k key then some 0 else Option.map suc (find_key key entries)

-- `<[u8; 8]>::try_from(key)`
unfoldable pub read_id : Bytes → Option ℕ
unfolding from_be_bytes
read_id key = if length key == 8 then some (from_be_bytes 0 key) else none

-- `.map(|v| encode(what, v)).transpose()`
abbrev pub transposed : Section → Option (Option Bytes) → Answered (Option Bytes)
transposed what none = ok none
transposed what (some value) = and_then (encode what value) (λ bytes. ok (some bytes))

abbrev pub is_some {ℓ} : {A : Type ℓ} → Option A → Bool
is_some none = false
is_some (some _) = true

abbrev pub is_filled {ℓ} : {A : Type ℓ} → List A → Bool
is_filled [] = false
is_filled (_ ∷ _) = true

module _ {M C P Params : Type 0} where
  unfoldable pub holds_a_stake_row : State M C P Params → ℕ → Bool
  holds_a_stake_row s id =
      is_some (get id s.members.rows)
      || is_filled (range id s.edges.rows)
      || is_filled (range id s.reserved.rows)
      || is_filled (range id s.seat_reserved.rows)

module _ {M C P Params : Type 0} (codec : Codec M C P Params) where
  -- What a keyed section holds for an id, before it is encoded.
  unfoldable pub row_value : State M C P Params → Section → ℕ → Option (Option Bytes)
  unfolding holds_a_stake_row stake_row
  row_value s members id = Option.map codec.member (get id s.members.rows)
  row_value s contracts id = Option.map codec.contract (get id s.contracts.rows)
  row_value s proposals id = Option.map codec.proposal (get id s.proposals.rows)
  row_value s validators id = Option.map codec.weight (get id s.validators)
  row_value s stakes id =
      if holds_a_stake_row s id
      then some (codec.stake_row (stake_row s.edges.rows s.reserved.rows s.seat_reserved.rows id))
      else none
  row_value s replay epoch =
      if in_window (epoch_of s) epoch
      then some (codec.ids (or_else (get epoch s.applied_by_expiry.rows) []))
      else none
  row_value s ledger id = none

  unfoldable pub record_value : State M C P Params → Section → Bytes → Answered (Option Bytes)
  unfolding row_value read_id
  record_value s section key = elim (read_id key) [
    | none ↦ ok none
    | some id ↦ transposed section (row_value s section id)
  ]

  unfoldable pub leaf_value :
      State M C P Params → Sections → Section → Bytes → Answered (Option Bytes)
  unfolding record_value
  leaf_value s built ledger [] = ok (some built.ledger_value)
  leaf_value s built ledger (_ ∷ _) = ok none
  leaf_value s built members key = record_value s members key
  leaf_value s built contracts key = record_value s contracts key
  leaf_value s built proposals key = record_value s proposals key
  leaf_value s built validators key = record_value s validators key
  leaf_value s built stakes key = record_value s stakes key
  leaf_value s built replay key = record_value s replay key

module _ (sha256 : Bytes → Bytes) {M C P Params : Type 0} (codec : Codec M C P Params) where
  -- The proof of the leaf at `index`, once its value is read.
  unfoldable pub proof_at :
      State M C P Params → Sections → Section → Bytes → ℕ → Bytes → InclusionProof
  unfolding get_section leaf_salt salt_marker value_digest section_roots position
  proof_at s built section key index value = record {
    section = section;
    index = index;
    leaf_count = length (get_section built section);
    key = key;
    value = value;
    leaf_salt =
        leaf_salt sha256 s.root_salt (salt_marker s) section key (value_digest sha256 value);
    path = (merkle sha256 (hashes (get_section built section)) (some index)).1;
    section_path = (merkle sha256 (section_roots sha256 built) (some (position section))).1;
  }

  -- `prove`, past the building of the sections.
  unfoldable pub prove_from :
      State M C P Params → Sections → Section → Bytes → Answered (Option InclusionProof)
  unfolding leaf_value proof_at get_section
  prove_from s built section key = elim (find_key key (get_section built section)) [
    | none ↦ ok none
    | some index ↦ and_then (leaf_value codec s built section key) (λ value. elim value [
      | none ↦ err RootError.no_value
      | some bytes ↦ ok (some (proof_at s built section key index bytes))
    ])
  ]

  unfoldable pub prove : State M C P Params → Section → Bytes → Answered (Option InclusionProof)
  unfolding sections prove_from
  prove s section key = and_then (sections sha256 codec s) (λ built. prove_from s built section key)
