-- ===== src/State/Root/Refresh/Proofs.antt =====
-- `RootCache::prove` of crates/state/src/root.rs against `prove`, after a whole build.
use edet.Base.{
  ℕ, ◌+◌, ◌<◌, ◌≡◌, refl, sym, ap, ◌∙◌, ◌⊎◌, inl, inr, Option, none, some, List, [], ◌∷◌, arith,
  Option-cases, length, subst, ap₂,
}
use edet.Map.{IsSorted}
use edet.Map.Strings.{bytes_ordered}
use edet.Bytes.{Bytes}
use edet.State.Root.{
  Section, members, contracts, proposals, validators, stakes, replay, ledger, position,
}
use edet.State.Root.Tree.{merkle}
use edet.State.Root.Levels.{SectionTree, built, path}
use edet.State.Root.Levels.Built.{path-built}
use edet.State.Root.Proof.{InclusionProof}
use edet.State.Root.Leaves.{
  State, Codec, Leaves, Answered, RootError, ok, err, and_then, salt_marker, check_replay_window,
}
use edet.State.Root.Sections.{
  Sections, sections, section_roots, get_section, record_leaves, section_rows, section_leaves,
}
use edet.State.Root.Prove.{find_key, leaf_value, prove, prove_from, proof_at}
use edet.State.Root.Prove.Rows.{All_map}
use edet.State.Root.Prove.Reads.{IsKept, section_rows-reads}
use edet.State.Root.Prove.Found.{and_then_ok, ok_inj}
use edet.State.Root.Prove.Parts.{Parts, sections-Parts, sections-length, ledger_shape}
use edet.State.Root.Prove.Values.{any_value, prove_of, prove_from-find_key}
use edet.State.Root.Prove.Sorted.{section_rows-IsSorted, record_leaves-IsSorted}
use edet.State.Root.Prove.Search.{find_key_lt, search_key_found, search_key_absent}
use edet.State.Root.Cache.{RootCache, search_key, tree_of}
use edet.State.Root.Refresh.{whole, cached_value, cached_proof, prove_cached}
use edet.State.Root.Refresh.Whole.{tree_of-build_each, cached_roots_lem}

cached_parts :
    (o : ℕ ⊎ ℕ) (r : Answered (Option Bytes)) (at_index : ℕ → Bytes → InclusionProof) (j : ℕ)
    (value : Bytes)
    → o ≡ inl j
    → r ≡ ok (some value)
    → (elim o [
      | inr _ ↦ ok none
      | inl index ↦ and_then r (λ value. elim value [
        | none ↦ err RootError.no_value
        | some bytes ↦ ok (some (at_index index bytes))
      ])
    ])
      ≡ ok (some (at_index j value))
cached_parts o r at_index j value e h =
    ap
      (λ (x : ℕ ⊎ ℕ). elim x [
        | inr _ ↦ ok none
        | inl index ↦ and_then r (λ value. elim value [
          | none ↦ err RootError.no_value
          | some bytes ↦ ok (some (at_index index bytes))
        ])
      ])
      e
    ∙ ap
        (λ (x : Answered (Option Bytes)). and_then x (λ value. elim value [
          | none ↦ err RootError.no_value
          | some bytes ↦ ok (some (at_index j bytes))
        ]))
        h

module _ (sha256 : Bytes → Bytes) {M C P Params : Type 0} (codec : Codec M C P Params) where
  keyed-IsSorted :
      (s : State M C P Params) (section : Section) (leaves : Leaves)
      → IsKept s
      → record_leaves sha256 s.root_salt (salt_marker s) section 0 (section_rows codec s section)
        ≡ ok leaves
      → IsSorted leaves
  keyed-IsSorted s section leaves h e =
      record_leaves-IsSorted sha256 s.root_salt (salt_marker s) section 0
        (section_rows codec s section) leaves
        (All_map _ _ _ (λ row r. r.1) (section_rows-reads s codec h section))
        (section_rows-IsSorted codec s h section) e

  section-IsSorted :
      (s : State M C P Params) (done : Sections) (section : Section)
      → IsKept s
      → Parts sha256 codec s done
      → IsSorted (get_section done section)
  unfolding section_leaves
  section-IsSorted s done members h parts =
      keyed-IsSorted s members (get_section done members) h (parts.entries members)
  section-IsSorted s done contracts h parts =
      keyed-IsSorted s contracts (get_section done contracts) h (parts.entries contracts)
  section-IsSorted s done proposals h parts =
      keyed-IsSorted s proposals (get_section done proposals) h (parts.entries proposals)
  section-IsSorted s done validators h parts =
      keyed-IsSorted s validators (get_section done validators) h (parts.entries validators)
  section-IsSorted s done stakes h parts =
      keyed-IsSorted s stakes (get_section done stakes) h (parts.entries stakes)
  section-IsSorted s done replay h parts =
      let (_, _, e) =
        and_then_ok (check_replay_window s) _ (get_section done replay) (parts.entries replay) in
      keyed-IsSorted s replay (get_section done replay) h e
  section-IsSorted s done ledger h parts =
      subst IsSorted (ledger_shape sha256 codec s done parts) (tt, tt)

  -- The value off the cache, where the definition has one.
  cached_value-leaf_value :
      (s : State M C P Params) (cache : RootCache) (done : Sections) (section : Section)
      (key value : Bytes)
      → cache.ledger_value ≡ done.ledger_value
      → leaf_value codec s done section key ≡ ok (some value)
      → cached_value sha256 codec s cache section key ≡ ok (some value)
  unfolding cached_value leaf_value
  cached_value-leaf_value s cache done members key value l v = v
  cached_value-leaf_value s cache done contracts key value l v = v
  cached_value-leaf_value s cache done proposals key value l v = v
  cached_value-leaf_value s cache done validators key value l v = v
  cached_value-leaf_value s cache done stakes key value l v = v
  cached_value-leaf_value s cache done replay key value l v = v
  cached_value-leaf_value s cache done ledger [] value l v = ap (λ x. ok (some x)) l ∙ v
  cached_value-leaf_value s cache done ledger (x ∷ key) value l v =
      let k : none ≡ some value = ok_inj v in cc

  whole_tree :
      (s : State M C P Params) (cache : RootCache) (done : Sections)
      → length done.leaves ≡ 7
      → (section : Section)
      → tree_of (whole sha256 codec s cache done).0 section
        ≡ built sha256 section (get_section done section)
  unfolding whole get_section
  whole_tree s cache done size =
      tree_of-build_each sha256 (whole sha256 codec s cache done).0 done.leaves size refl

  cached_proof-proof_at :
      (s : State M C P Params) (cache : RootCache) (done : Sections) (section : Section)
      (key : Bytes) (j : ℕ) (value : Bytes)
      → ((section : Section)
          → tree_of cache section ≡ built sha256 section (get_section done section))
      → j < length (get_section done section)
      → cached_proof sha256 codec s cache section key j value
        ≡ proof_at sha256 codec s done section key j value
  unfolding proof_at built
  cached_proof-proof_at s cache done section key j value h lt =
      ap₂
        (λ (t : SectionTree) (rs : List Bytes).
          record (cached_proof sha256 codec s cache section key j value) {
            leaf_count = length t.leaves;
            path = path t j;
            section_path = (merkle sha256 rs (some (position section))).1;
          })
        (h section) (cached_roots_lem sha256 cache done h)
      ∙ ap
          (λ (steps : List Bytes). record (cached_proof sha256 codec s cache section key j value) {
            leaf_count = length (get_section done section);
            path = steps;
            section_path = (merkle sha256 (section_roots sha256 done) (some (position section))).1;
          })
          (path-built sha256 section (get_section done section) j lt)

  prove_from_absent :
      (s : State M C P Params) (done : Sections) (section : Section) (key : Bytes)
      → find_key key (get_section done section) ≡ none
      → prove_from sha256 codec s done section key ≡ ok none
  unfolding prove_from
  prove_from_absent s done section key f = rw (f, prove_from) refl

  cached_warm :
      (s : State M C P Params) (cache : RootCache) (section : Section) (key : Bytes) (m : ℕ)
      → cache.marker ≡ some m
      → (o : ℕ ⊎ ℕ) → search_key key (tree_of cache section).leaves 0 ≡ o
      → prove_cached sha256 codec s cache section key ≡ elim o [
        | inr _ ↦ ok none
        | inl index ↦ and_then (cached_value sha256 codec s cache section key) (λ value.
            elim value [
              | none ↦ err RootError.no_value
              | some bytes ↦ ok (some (cached_proof sha256 codec s cache section key index bytes))
            ])
      ]
  unfolding prove_cached
  cached_warm s cache section key m warm o e = rw (warm, e, prove_cached) refl

  -- What a proof off the cache is, by the search.
  off_cache :
      (s : State M C P Params) (cache : RootCache) (done : Sections) (section : Section)
      (key : Bytes)
      → IsKept s
      → Parts sha256 codec s done
      → ((section : Section)
          → tree_of cache section ≡ built sha256 section (get_section done section))
      → cache.ledger_value ≡ done.ledger_value
      → (m : ℕ) → cache.marker ≡ some m
      → prove_cached sha256 codec s cache section key ≡ prove_from sha256 codec s done section key
  unfolding built
  off_cache s cache done section key h parts trees value m warm =
      let leaves = get_section done section in
      let kept : (tree_of cache section).leaves ≡ leaves =
        ap (λ (t : SectionTree). t.leaves) (trees section) in
      let sorted = section-IsSorted s done section h parts in
      elim (Option-cases (find_key key leaves)) [
        | inl absent ↦
            let (n, is) = search_key_absent key leaves 0 absent in
            cached_warm s cache section key m warm (inr n)
              (ap (λ (x : Leaves). search_key key x 0) kept ∙ is)
            ∙ sym (prove_from_absent s done section key absent)
        | inr (j, found) ↦
            let (v, is) = any_value sha256 codec s done section key j h parts found in
            let place : 0 + j ≡ j = omega arith in
            let at_j =
              ap (λ (x : Leaves). search_key key x 0) kept
              ∙ search_key_found key leaves 0 j sorted found
              ∙ ap inl place in
            cached_warm s cache section key m warm (inl j) at_j
            ∙ cached_parts (inl j) (cached_value sha256 codec s cache section key)
                (cached_proof sha256 codec s cache section key) j v refl
                (cached_value-leaf_value s cache done section key v value is)
            ∙ ap (λ (p : InclusionProof). ok (some p))
                (cached_proof-proof_at s cache done section key j v trees
                  (find_key_lt key leaves j found))
            ∙ sym (prove_from-find_key sha256 codec s done section key j v found is)
      ]

  -- After a whole build of the cache, what it proves for a key is what the definition proves, if the
  -- sections encode, the ledger's maps are in order and its ids and its epoch fit a `u64`.
  pub prove_cached-prove :
      (s : State M C P Params) (cache : RootCache) (done : Sections) (section : Section)
      (key : Bytes)
      → IsKept s
      → sections sha256 codec s ≡ ok done
      → prove_cached sha256 codec s (whole sha256 codec s cache done).0 section key
        ≡ prove sha256 codec s section key
  unfolding whole
  prove_cached-prove s cache done section key h e =
      off_cache s (whole sha256 codec s cache done).0 done section key h
        (sections-Parts sha256 codec s done e)
        (whole_tree s cache done (sections-length sha256 codec s done e)) refl (salt_marker s) refl
      ∙ sym (prove_of sha256 codec s done section key e)
