-- ===== src/State/Root/Tests.antt =====
-- Runs of crates/state/src/root.rs on a small ledger, with a checksum for SHA-256 and an encoding
-- of fixed bytes.
use edet.Base.{
  ℕ, zero, suc, ◌+◌, ◌*◌, ◌<◌, ◌≡◌, refl, ◌⊎◌, true, false, none, some, [], ◌∷◌, arith, length,
  get_or, replicate, ◌%◌,
}
use edet.Bytes.{Bytes, be_bytes}
use edet.Bytes.Digits.{length-be_bytes}
use edet.Map.{Map}
use edet.State.Journal.{Dirty}
use edet.State.Root.{members, section_hash}
use edet.State.Root.Tree.{merkle, fold_path}
use edet.State.Root.Tree.Binding.{Collision}
use edet.State.Root.Tree.Round.{fold_path-merkle}
use edet.State.Root.Levels.{hashes, built, path, refold}
use edet.State.Root.Levels.Built.{path-built}
use edet.State.Root.Levels.Marks.{marked, IsMarked}
use edet.State.Root.Levels.Refold.{changed, refold-built}
use edet.State.Root.Proof.{InclusionProof, claimed_leaf, verify}
use edet.State.Root.Proof.Binding.{IsTyped, verify-binding}
use edet.State.Root.Leaves.{encode, State, Codec, Leaves, ok, err, and_then, id_key}
use edet.State.Root.Sections.{get_section, Sections, sections, section_roots, state_root}
use edet.State.Root.Prove.{find_key, prove, proof_at}
use edet.State.Root.Prove.Reads.{IsKept}
use edet.State.Root.Prove.Values.{prove-find_key}
use edet.State.Root.Prove.Accepts.{prove-verify}
use edet.State.Root.Cache.{RootCache, fresh_cache}
use edet.State.Root.Refresh.{prove_cached, patch, full_build, refresh, whole}
use edet.State.Root.Refresh.Built.{IsBuilt, patch-IsBuilt}
use edet.State.Root.Refresh.Proofs.{prove_cached-prove}
use edet.State.Root.Refresh.Whole.{whole-IsBuilt, full_build-state_root, refresh-IsBuilt, held}

abbrev checksum : Bytes → ℕ
checksum [] = 7
checksum (b ∷ bytes) = (checksum bytes * 31 + b) % 65_521

-- 32 bytes, in place of SHA-256.
sum256 : Bytes → Bytes
sum256 bytes = be_bytes 32 (checksum bytes)

sum256-IsDigest : (bytes : Bytes) → length (sum256 bytes) ≡ 32
unfolding sum256
sum256-IsDigest bytes = length-be_bytes 32 (checksum bytes)

abbrev codec : Codec ℕ ℕ ℕ ℕ
codec = record {
  member = λ m. some (m ∷ []);
  contract = λ c. some (c ∷ []);
  proposal = λ p. some (p ∷ []);
  weight = λ w. some (w ∷ []);
  stake_row = λ row. some (length row ∷ []);
  ids = λ ids. some (length ids ∷ []);
  ledger = λ l. some (l.next_member ∷ l.next_contract ∷ []);
}

-- Two members, a stake and no window past the last epoch.
abbrev small : State ℕ ℕ ℕ ℕ
small = record {
  members = record { rows = (0, 5) ∷ (1, 6) ∷ []; dirty = Dirty.clean };
  contracts = record { rows = []; dirty = Dirty.clean };
  proposals = record { rows = []; dirty = Dirty.clean };
  validators = (0, 1) ∷ [];
  edges = record { rows = ((0, 1), 20) ∷ []; dirty = Dirty.clean };
  reserved = record { rows = []; dirty = Dirty.clean };
  seat_reserved = record { rows = []; dirty = Dirty.clean };
  applied_by_expiry = record { rows = []; dirty = Dirty.clean };
  root_salt = replicate 32 9;
  scalars = record {
    params = 0;
    epoch = 18_446_744_073_709_551_615;
    next_member = 2;
    next_contract = 0;
    next_proposal = 0;
    seed_amended_this_epoch = 0;
    chain_id = [];
    last_begin_secs = 0;
    underwriters = [];
    committed = [];
    seat_committed = [];
    forfeit_reserve = [];
  };
}

small-IsKept : IsKept small
small-IsKept = record {
  members = ground arith;
  contracts = tt;
  proposals = tt;
  validators = ground arith;
  member_ids = (refl, (refl, tt));
  contract_ids = tt;
  proposal_ids = tt;
  validator_ids = (refl, tt);
  edge_ids = (refl, tt);
  reserved_ids = tt;
  seat_ids = tt;
  epoch = omega arith;
}

abbrev leaf_list : Leaves
leaf_list =
    ((1 ∷ []), replicate 32 1) ∷ ((2 ∷ []), replicate 32 2) ∷ ((3 ∷ []), replicate 32 3) ∷ []

fold_path-merkle_example :
    fold_path sum256 (replicate 32 3) 2 3 (merkle sum256 (hashes leaf_list) (some 2)).1
    ≡ some (merkle sum256 (hashes leaf_list) none).0
fold_path-merkle_example = fold_path-merkle sum256 (hashes leaf_list) 2 (omega arith)

path-built_example :
    path (built sum256 members leaf_list) 1 ≡ (merkle sum256 (hashes leaf_list) (some 1)).1
path-built_example = path-built sum256 members leaf_list 1 (omega arith)

-- The leaves with the second one written and a fourth appended.
abbrev later_list : Leaves
later_list =
    ((1 ∷ []), replicate 32 1)
    ∷ ((2 ∷ []), replicate 32 7)
    ∷ ((3 ∷ []), replicate 32 3)
    ∷ ((4 ∷ []), replicate 32 4)
    ∷ []

later_same :
    (i : ℕ)
    → i < 4
    → marked i ((1, tt) ∷ (3, tt) ∷ []) ≡ false
    → (i < 3) × (get_or (hashes later_list) i [] ≡ get_or (hashes leaf_list) i [])
later_same zero lt off = (omega arith, refl)
later_same (suc zero) lt off = cc
later_same (suc (suc zero)) lt off = (omega arith, refl)
later_same (suc (suc (suc zero))) lt off = cc
later_same (suc (suc (suc (suc i)))) lt off = absurd (omega arith)

later-IsMarked : IsMarked ((1, tt) ∷ (3, tt) ∷ []) (hashes leaf_list) (hashes later_list)
later-IsMarked = record { grown = omega arith; same = later_same }

refold-built_example :
    refold sum256 members
      ((1, tt) ∷ (3, tt) ∷ [])
      (changed sum256 (built sum256 members leaf_list) later_list)
    ≡ built sum256 members later_list
refold-built_example =
    refold-built sum256 members ((1, tt) ∷ (3, tt) ∷ []) leaf_list later_list later-IsMarked

abbrev done : Sections
done = elim (sections sum256 codec small) [
  | ok b ↦ b
  | err _ ↦ record { leaves = []; ledger_value = [] }
]

abbrev shown : InclusionProof
shown = proof_at sum256 codec small done members (id_key 1) 1 (6 ∷ [])

shown-prove : prove sum256 codec small members (id_key 1) ≡ ok (some shown)
unfolding prove encode id_key
shown-prove = refl

prove-verify_example :
    (root : Bytes) × (state_root sum256 codec small ≡ ok root) × (verify sum256 root shown ≡ true)
prove-verify_example =
    prove-verify sum256 codec small members (id_key 1) shown small-IsKept shown-prove

-- A proof of the only leaf of a section.
abbrev lone : InclusionProof
lone = record {
  section = members;
  index = 0;
  leaf_count = 1;
  key = 1 ∷ [];
  value = 2 ∷ [];
  leaf_salt = replicate 32 5;
  path = [];
  section_path = replicate 32 1 ∷ replicate 32 2 ∷ replicate 32 3 ∷ [];
}

abbrev lone_root : Bytes
lone_root =
    elim (fold_path sum256 (section_hash sum256 members 1 (claimed_leaf sum256 lone)) 0 7
      lone.section_path) [ some r ↦ r | none ↦ [] ]

lone-verify : verify sum256 lone_root lone ≡ true
unfolding verify sum256
lone-verify = refl

lone-IsTyped : IsTyped lone
lone-IsTyped = record {
  leaf_count = omega arith;
  key = omega arith;
  value = omega arith;
  leaf_salt = refl;
  path = tt;
  section_path = (refl, (refl, (refl, tt)));
}

verify-binding_example :
    ((lone.leaf_count ≡ lone.leaf_count)
      × (lone.leaf_salt ≡ lone.leaf_salt)
      × (lone.key ≡ lone.key)
      × (lone.value ≡ lone.value))
    ⊎ Collision sum256
verify-binding_example =
    verify-binding sum256 lone_root lone lone sum256-IsDigest lone-IsTyped lone-IsTyped refl refl
      lone-verify lone-verify

abbrev first_cache : RootCache
first_cache = (whole sum256 codec small fresh_cache done).0

done-length : length done.leaves ≡ 7
unfolding sections encode
done-length = refl

-- The same ledger after a block that wrote one member and added another.
abbrev written : State ℕ ℕ ℕ ℕ
written = record small {
  members = record {
    rows = (0, 5) ∷ (1, 8) ∷ (2, 3) ∷ [];
    dirty = Dirty.keys ((1, tt) ∷ (2, tt) ∷ []);
  };
}

abbrev member_keys : Map Bytes Unit
member_keys = (id_key 1, tt) ∷ (id_key 2, tt) ∷ []

abbrev patched_cache : RootCache
patched_cache = elim (patch sum256 codec written members member_keys first_cache) [
  | ok (some next) ↦ next
  | _ ↦ fresh_cache
]

patch-taken : patch sum256 codec written members member_keys first_cache ≡ ok (some patched_cache)
unfolding patch id_key encode whole sections
patch-taken = refl

patch-IsBuilt_example : IsBuilt sum256 patched_cache
patch-IsBuilt_example =
    patch-IsBuilt sum256 codec written members member_keys first_cache patched_cache
      (whole-IsBuilt sum256 codec small fresh_cache done done-length) patch-taken

full_build-state_root_example :
    and_then (full_build sum256 codec small fresh_cache) (λ made. ok made.1)
    ≡ state_root sum256 codec small
full_build-state_root_example = full_build-state_root sum256 codec small fresh_cache

abbrev refreshed : State ℕ ℕ ℕ ℕ × RootCache × Bytes
refreshed = elim (refresh sum256 codec written first_cache) [
  | ok r ↦ r
  | err _ ↦ (written, fresh_cache, [])
]

refresh-taken : refresh sum256 codec written first_cache ≡ ok refreshed
unfolding refresh encode
refresh-taken = refl

refresh-IsBuilt_example :
    IsBuilt sum256 refreshed.1
    × (refreshed.2 ≡ (merkle sum256 (section_roots sum256 (held refreshed.1)) none).0)
refresh-IsBuilt_example =
    refresh-IsBuilt sum256 codec written refreshed.0 first_cache refreshed.1 refreshed.2
      (whole-IsBuilt sum256 codec small fresh_cache done done-length) refresh-taken

done-sections : sections sum256 codec small ≡ ok done
unfolding sections encode
done-sections = refl

member_1-found : find_key (id_key 1) (get_section done members) ≡ some 1
unfolding sections encode id_key get_section
member_1-found = refl

prove-find_key_example :
    (p : InclusionProof) × (prove sum256 codec small members (id_key 1) ≡ ok (some p))
    × (p.section ≡ members)
    × (p.key ≡ id_key 1)
    × (p.index ≡ 1)
prove-find_key_example =
    prove-find_key sum256 codec small done members (id_key 1) 1 small-IsKept done-sections
      member_1-found

prove_cached-prove_example :
    prove_cached sum256 codec small first_cache members (id_key 1)
    ≡ prove sum256 codec small members (id_key 1)
prove_cached-prove_example =
    prove_cached-prove sum256 codec small fresh_cache done members (id_key 1) small-IsKept
      done-sections
