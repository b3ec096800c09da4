-- ===== src/State/Root/Sections.antt =====
-- The sections of crates/state/src/root.rs and the state root over them.
use edet.Base.{ℕ, ◌+◌, Option, none, List, [], ◌∷◌, or_else, length, get_or, set, replicate}
use edet.Map.{Map, get}
use edet.Map.Keys.{nat_ordered, pair_ordered}
use edet.Bytes.{Bytes}
use edet.State.Root.{
  Section, all_sections, position, members, contracts, proposals, validators, stakes, replay,
  ledger, leaf_salt, value_digest, leaf_hash, section_hash,
}
use edet.State.Root.Tree.{merkle}
use edet.State.Root.Levels.{hashes}
use edet.State.Root.Leaves.{
  State, Codec, Leaves, Answered, ok, and_then, encode, id_key, stake_row, stake_keys,
  replay_window, check_replay_window, epoch_of, salt_marker,
}

-- The rows of a section: an id and what is encoded for it.
abbrev pub Rows : Type 0
Rows = List (ℕ × Option Bytes)

abbrev pub rows_of : {V : Type 0} → (V → Option Bytes) → Map ℕ V → Rows
rows_of enc [] = []
rows_of enc ((k, v) ∷ m) = (k, enc v) ∷ rows_of enc m

abbrev pub rows_at : (ℕ → Option Bytes) → List ℕ → Rows
rows_at enc [] = []
rows_at enc (k ∷ ks) = (k, enc k) ∷ rows_at enc ks

abbrev pub ids_of : {V : Type 0} → Map ℕ V → List ℕ
ids_of [] = []
ids_of ((k, _) ∷ m) = k ∷ ids_of m

-- `Sections`
pub record Sections : Type 0 where
  pub leaves : List Leaves
  pub ledger_value : Bytes

unfoldable pub get_section : Sections → Section → Leaves
unfolding position
get_section built section = get_or built.leaves (position section) []

module _ {M C P Params : Type 0} (codec : Codec M C P Params) where
  -- The rows of a keyed section.
  unfoldable pub section_rows : State M C P Params → Section → Rows
  unfolding stake_keys stake_row
  section_rows s members = rows_of codec.member s.members.rows
  section_rows s contracts = rows_of codec.contract s.contracts.rows
  section_rows s proposals = rows_of codec.proposal s.proposals.rows
  section_rows s validators = rows_of codec.weight s.validators
  section_rows s stakes =
      rows_at (λ c. codec.stake_row (stake_row s.edges.rows s.reserved.rows s.seat_reserved.rows c))
        (ids_of (stake_keys s))
  section_rows s replay =
      rows_at (λ e. codec.ids (or_else (get e s.applied_by_expiry.rows) []))
        (replay_window (epoch_of s))
  section_rows s ledger = []

module _ (sha256 : Bytes → Bytes) where
  -- `one`
  abbrev pub one : Bytes → ℕ → Section → ℕ → ℕ → Option Bytes → Answered (Bytes × Bytes)
  one root_salt marker section index id value =
      let key = id_key id in
      and_then (encode section value) (λ bytes.
        let salt = leaf_salt sha256 root_salt marker section key (value_digest sha256 bytes) in
        ok (key, leaf_hash sha256 salt section index key bytes))

  -- `record_leaves`, from an index on: its two branches collect the same leaves in order.
  unfoldable pub record_leaves : Bytes → ℕ → Section → ℕ → Rows → Answered Leaves
  record_leaves root_salt marker section index [] = ok []
  record_leaves root_salt marker section index ((id, value) ∷ rows) =
      let rest = record_leaves root_salt marker section (index + 1) rows in
      and_then (one root_salt marker section index id value)
        (λ leaf. and_then rest (λ leaves. ok (leaf ∷ leaves)))

  -- `section_roots`
  abbrev pub roots_of : Sections → List Section → List Bytes
  roots_of built [] = []
  roots_of built (section ∷ sections) =
      let entries = get_section built section in
      section_hash sha256 section (length entries) (merkle sha256 (hashes entries) none).0
      ∷ roots_of built sections

  unfoldable pub section_roots : Sections → List Bytes
  section_roots built = roots_of built all_sections

  module _ {M C P Params : Type 0} (codec : Codec M C P Params) where
    -- `ledger_leaf`: the scalar leaf's bytes and its hash.
    unfoldable pub ledger_leaf : State M C P Params → Answered (Bytes × Bytes)
    ledger_leaf s = and_then (encode Section.ledger (codec.ledger s.scalars)) (λ bytes.
        let salt =
          leaf_salt sha256 s.root_salt (salt_marker s) Section.ledger []
            (value_digest sha256 bytes) in
        ok (bytes, leaf_hash sha256 salt Section.ledger 0 [] bytes))

    abbrev pub keyed_leaves : State M C P Params → Section → Answered Leaves
    keyed_leaves s section =
        record_leaves s.root_salt (salt_marker s) section 0 (section_rows codec s section)

    unfoldable pub section_leaves : State M C P Params → Section → Answered Leaves
    unfolding record_leaves section_rows salt_marker ledger_leaf check_replay_window
    section_leaves s replay = and_then (check_replay_window s) (λ _. keyed_leaves s replay)
    section_leaves s ledger = and_then (ledger_leaf s) (λ (_, h). ok (([], h) ∷ []))
    section_leaves s members = keyed_leaves s members
    section_leaves s contracts = keyed_leaves s contracts
    section_leaves s proposals = keyed_leaves s proposals
    section_leaves s validators = keyed_leaves s validators
    section_leaves s stakes = keyed_leaves s stakes

    -- The loop of `sections`.
    unfoldable pub fill_sections :
        State M C P Params → List Section → List Leaves → Answered (List Leaves)
    unfolding section_leaves position
    fill_sections s [] leaves = ok leaves
    fill_sections s (section ∷ rest) leaves =
        and_then (section_leaves s section)
          (λ entries. fill_sections s rest (set leaves (position section) entries))

    unfoldable pub sections : State M C P Params → Answered Sections
    unfolding fill_sections ledger_leaf
    sections s =
        and_then (fill_sections s all_sections (replicate (length all_sections) [])) (λ leaves.
          and_then (ledger_leaf s)
            (λ (bytes, _). ok (record { leaves = leaves; ledger_value = bytes })))

    unfoldable pub state_root : State M C P Params → Answered Bytes
    unfolding sections section_roots
    state_root s = and_then (sections s) (λ built. ok (merkle sha256 (section_roots built) none).0)
