-- ===== src/State/Root.antt =====
-- crates/state/src/root.rs, the state root: its domains and its hashes. SHA-256 is a parameter, a
-- function on byte strings.
pub mod Tree
pub mod Levels
pub mod Proof
pub mod Leaves
pub mod Sections
pub mod Prove
pub mod Cache
pub mod Refresh
mod Tests
use edet.Base.{ℕ, List, [], ◌∷◌, length}
use edet.Bytes.{Bytes, concat, u64_bytes}

-- `b"edet-leaf-salt-v4"`
abbrev pub salt_domain : Bytes
salt_domain =
    101 ∷ 100 ∷ 101 ∷ 116 ∷ 45 ∷ 108 ∷ 101 ∷ 97 ∷ 102 ∷ 45 ∷ 115 ∷ 97 ∷ 108 ∷ 116 ∷ 45 ∷ 118 ∷ 52
    ∷ []

-- `b"edet-leaf-v3"`
abbrev pub leaf_domain : Bytes
leaf_domain = 101 ∷ 100 ∷ 101 ∷ 116 ∷ 45 ∷ 108 ∷ 101 ∷ 97 ∷ 102 ∷ 45 ∷ 118 ∷ 51 ∷ []

-- `b"edet-section-v1"`
abbrev pub section_domain : Bytes
section_domain =
    101 ∷ 100 ∷ 101 ∷ 116 ∷ 45 ∷ 115 ∷ 101 ∷ 99 ∷ 116 ∷ 105 ∷ 111 ∷ 110 ∷ 45 ∷ 118 ∷ 49 ∷ []

-- `b"edet-empty-section-v1"`
abbrev pub empty_domain : Bytes
empty_domain =
    101 ∷ 100 ∷ 101 ∷ 116 ∷ 45 ∷ 101 ∷ 109 ∷ 112 ∷ 116 ∷ 121 ∷ 45 ∷ 115 ∷ 101 ∷ 99 ∷ 116 ∷ 105 ∷ 111
    ∷ 110 ∷ 45 ∷ 118 ∷ 49 ∷ []

abbrev pub leaf_prefix : ℕ
leaf_prefix = 0

abbrev pub inner_prefix : ℕ
inner_prefix = 1

abbrev pub section_prefix : ℕ
section_prefix = 2

pub data Section : Type 0 where
  members : Section
  contracts : Section
  proposals : Section
  validators : Section
  stakes : Section
  replay : Section
  ledger : Section

-- `Section::ALL`
abbrev pub all_sections : List Section
all_sections = members ∷ contracts ∷ proposals ∷ validators ∷ stakes ∷ replay ∷ ledger ∷ []

-- `Section::tag`
unfoldable pub tag : Section → ℕ
tag members = 0
tag contracts = 1
tag proposals = 2
tag validators = 3
tag stakes = 5
tag replay = 6
tag ledger = 4

-- `Section::position`, the place in `ALL`.
unfoldable pub position : Section → ℕ
position members = 0
position contracts = 1
position proposals = 2
position validators = 3
position stakes = 4
position replay = 5
position ledger = 6

unfoldable pub be_len : Bytes → Bytes
unfolding u64_bytes
be_len bytes = u64_bytes (length bytes)

module _ (sha256 : Bytes → Bytes) where
  unfoldable pub sha : List Bytes → Bytes
  sha parts = sha256 (concat parts)

  unfoldable pub leaf_salt : Bytes → ℕ → Section → Bytes → Bytes → Bytes
  unfolding sha tag be_len u64_bytes
  leaf_salt root_salt marker section key digest = sha (
      salt_domain
      ∷ root_salt
      ∷ u64_bytes marker
      ∷ (tag section ∷ [])
      ∷ be_len key
      ∷ key
      ∷ digest
      ∷ [])

  unfoldable pub value_digest : Bytes → Bytes
  unfolding sha
  value_digest value = sha (value ∷ [])

  unfoldable pub leaf_hash : Bytes → Section → ℕ → Bytes → Bytes → Bytes
  unfolding sha tag be_len u64_bytes
  leaf_hash salt section index key value = sha (
      (leaf_prefix ∷ [])
      ∷ leaf_domain
      ∷ salt
      ∷ (tag section ∷ [])
      ∷ u64_bytes index
      ∷ be_len key
      ∷ key
      ∷ be_len value
      ∷ value
      ∷ [])

  unfoldable pub inner_hash : Bytes → Bytes → Bytes
  unfolding sha
  inner_hash left right = sha ((inner_prefix ∷ []) ∷ left ∷ right ∷ [])

  unfoldable pub section_hash : Section → ℕ → Bytes → Bytes
  unfolding sha tag u64_bytes
  section_hash section count leaves_root = sha (
      (section_prefix ∷ [])
      ∷ section_domain
      ∷ (tag section ∷ [])
      ∷ u64_bytes count
      ∷ leaves_root
      ∷ [])

  unfoldable pub empty_section : Bytes
  unfolding sha
  empty_section = sha (empty_domain ∷ [])
