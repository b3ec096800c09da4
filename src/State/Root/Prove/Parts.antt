-- ===== src/State/Root/Prove/Parts.antt =====
-- The leaves behind a record of crates/state/src/root.rs, where `sections` succeeds.
use edet.Base.{
  ℕ, ◌+◌, ◌<◌, ◌≡◌, sym, ap, ◌∙◌, true, Option, none, some, List, [], ◌∷◌, arith, length, get_or,
  set, replicate, subst, ap₂, length-set,
}
use edet.Bytes.{Bytes}
use edet.State.Root.{
  Section, members, contracts, proposals, validators, stakes, replay, ledger, all_sections,
  position,
}
use edet.State.Root.Levels.{hashes}
use edet.State.Root.Leaves.{
  check_replay_window, State, Codec, Leaves, Answered, ok, and_then, encode, id_key, salt_marker,
}
use edet.State.Root.Sections.{
  Sections, get_section, sections, fill_sections, section_leaves, ledger_leaf, record_leaves,
  section_rows,
}
use edet.State.Root.Prove.{find_key, read_id, row_value, record_value, leaf_value, transposed}
use edet.State.Root.Prove.Rows.{fits}
use edet.State.Root.Prove.Reads.{IsKept, section_rows-reads}
use edet.State.Root.Prove.Found.{
  and_then_ok, ok_inj, some_inj, read_id-id_key, hash_of, find_key-Found,
}

module _ (sha256 : Bytes → Bytes) {M C P Params : Type 0} (codec : Codec M C P Params) where
  fill_step :
      (s : State M C P Params) (section : Section) (rest : List Section) (leaves out : List Leaves)
      → fill_sections sha256 codec s (section ∷ rest) leaves ≡ ok out
      → (entries : Leaves) × (section_leaves sha256 codec s section ≡ ok entries)
        × (fill_sections sha256 codec s rest (set leaves (position section) entries) ≡ ok out)
  unfolding fill_sections
  fill_step s section rest leaves out e =
      and_then_ok (section_leaves sha256 codec s section) _ out e

  fill_sections-length :
      (s : State M C P Params) (each : List Section) (leaves out : List Leaves)
      → fill_sections sha256 codec s each leaves ≡ ok out
      → length out ≡ length leaves
  unfolding fill_sections
  fill_sections-length s [] leaves out e = ap length (sym (ok_inj e))
  fill_sections-length s (section ∷ rest) leaves out e =
      let (entries, _, later) = fill_step s section rest leaves out e in
      fill_sections-length s rest (set leaves (position section) entries) out later
      ∙ length-set leaves (position section) entries

  pub sections-length :
      (s : State M C P Params) (built : Sections)
      → sections sha256 codec s ≡ ok built
      → length built.leaves ≡ 7
  unfolding sections
  sections-length s built e =
      let (leaves, first, rest) =
        and_then_ok (fill_sections sha256 codec s all_sections (replicate 7 [])) _ built e in
      let (_, _, all) = and_then_ok (ledger_leaf sha256 codec s) _ built rest in
      ap (λ (x : Sections). length x.leaves) (sym (ok_inj all))
      ∙ fill_sections-length s all_sections (replicate 7 []) leaves first

  -- The parts of a successful `sections`.
  pub record Parts (s : State M C P Params) (built : Sections) : Type 0 where
    pub entries :
        (section : Section) → section_leaves sha256 codec s section ≡ ok (get_section built section)
    pub hash : Bytes
    pub scalar : ledger_leaf sha256 codec s ≡ ok (built.ledger_value, hash)

  fill_lem :
      (s : State M C P Params) (out : List Leaves)
      → fill_sections sha256 codec s all_sections (replicate 7 []) ≡ ok out
      → (section : Section)
      → section_leaves sha256 codec s section ≡ ok (get_or out (position section) [])
  unfolding position fill_sections
  fill_lem s out e section =
      let (a, ea, ra) =
        fill_step s members (contracts ∷ proposals ∷ validators ∷ stakes ∷ replay ∷ ledger ∷ [])
          (replicate 7 []) out e in
      let (b, eb, rb) =
        fill_step s contracts (proposals ∷ validators ∷ stakes ∷ replay ∷ ledger ∷ [])
          (a ∷ replicate 6 []) out ra in
      let (c, ec, rc) =
        fill_step s proposals (validators ∷ stakes ∷ replay ∷ ledger ∷ []) (a ∷ b ∷ replicate 5 [])
          out rb in
      let (d, ed, rd) =
        fill_step s validators (stakes ∷ replay ∷ ledger ∷ []) (a ∷ b ∷ c ∷ replicate 4 []) out
          rc in
      let (f, ef, rf) =
        fill_step s stakes (replay ∷ ledger ∷ []) (a ∷ b ∷ c ∷ d ∷ replicate 3 []) out rd in
      let (g, eg, rg) =
        fill_step s replay (ledger ∷ []) (a ∷ b ∷ c ∷ d ∷ f ∷ replicate 2 []) out rf in
      let (h, eh, rh) = fill_step s ledger ([]) (a ∷ b ∷ c ∷ d ∷ f ∷ g ∷ replicate 1 []) out rg in
      let shape : a ∷ b ∷ c ∷ d ∷ f ∷ g ∷ h ∷ [] ≡ out = ok_inj rh in
      subst
        (λ (xs : List Leaves).
          section_leaves sha256 codec s section ≡ ok (get_or xs (position section) []))
        shape
        (elim section
          as (λ x.
            section_leaves sha256 codec s x
            ≡ ok (get_or (a ∷ b ∷ c ∷ d ∷ f ∷ g ∷ h ∷ []) (position x) [])) [
              | members ↦ ea
              | contracts ↦ eb
              | proposals ↦ ec
              | validators ↦ ed
              | stakes ↦ ef
              | replay ↦ eg
              | ledger ↦ eh
            ])

  pub sections-Parts :
      (s : State M C P Params) (built : Sections)
      → sections sha256 codec s ≡ ok built
      → Parts s built
  unfolding sections get_section
  sections-Parts s built e =
      let (leaves, first, rest) =
        and_then_ok (fill_sections sha256 codec s all_sections (replicate 7 [])) _ built e in
      let ((bytes, hash), second, all) = and_then_ok (ledger_leaf sha256 codec s) _ built rest in
      let shape : record { leaves = leaves; ledger_value = bytes } ≡ built = ok_inj all in
      subst (Parts s) shape
        (record { entries = fill_lem s leaves first; hash = hash; scalar = second })

  -- The leaf that is found, and the value that is read for its key.
  pub record Leaf (s : State M C P Params) (section : Section) (key : Bytes) (j : ℕ)
      (leaves : Leaves) (value : Bytes) : Type 0 where
    pub hash :
        get_or (hashes leaves) j [] ≡ hash_of sha256 s.root_salt (salt_marker s) section j key value
    pub within : j < length leaves

  pub record_value_row :
      (s : State M C P Params) (section : Section) (key : Bytes) (id : ℕ) (bytes : Bytes)
      → id_key id ≡ key
      → fits id ≡ true
      → row_value codec s section id ≡ some (some bytes)
      → record_value codec s section key ≡ ok (some bytes)
  unfolding record_value encode
  record_value_row s section key id bytes is fit row =
      ap
        (λ (o : Option ℕ). elim o [
          | none ↦ ok none
          | some id ↦ transposed section (row_value codec s section id)
        ])
        (ap read_id (sym is) ∙ read_id-id_key id fit)
      ∙ ap (transposed section) row

  keyed_Leaf :
      (s : State M C P Params) (section : Section) (key : Bytes) (j : ℕ) (leaves : Leaves)
      (value : Bytes)
      → IsKept s
      → record_leaves sha256 s.root_salt (salt_marker s) section 0 (section_rows codec s section)
        ≡ ok leaves
      → find_key key leaves ≡ some j
      → record_value codec s section key ≡ ok (some value)
      → Leaf s section key j leaves value
  keyed_Leaf s section key j leaves value kept e f v =
      let found =
        find_key-Found sha256 s.root_salt (salt_marker s) section _ key 0 j
          (section_rows codec s section) leaves (section_rows-reads s codec kept section) e f in
      let same = some_inj (
        ok_inj (
          sym (
            record_value_row s section key found.id found.bytes found.is_key found.row.1
              found.row.0)
          ∙ v)) in
      let zero_left : 0 + j ≡ j = omega arith in
      record {
        hash =
            found.hash
            ∙ ap₂ (λ n b. hash_of sha256 s.root_salt (salt_marker s) section n key b) zero_left
                same;
        within = found.within;
      }

  ledger_Leaf :
      (s : State M C P Params) (built : Sections) (key : Bytes) (j : ℕ) (hash value : Bytes)
      → ledger_leaf sha256 codec s ≡ ok (built.ledger_value, hash)
      → find_key key (([], hash) ∷ []) ≡ some j
      → leaf_value codec s built ledger key ≡ ok (some value)
      → Leaf s ledger key j (([], hash) ∷ []) value
  unfolding ledger_leaf leaf_value salt_marker
  ledger_Leaf s built [] j hash value e f v =
      let (bytes, first, rest) =
        and_then_ok (encode ledger (codec.ledger s.scalars)) _ (built.ledger_value, hash) e in
      let pair = ok_inj rest in
      let j0 : 0 ≡ j = some_inj f in
      let same : built.ledger_value ≡ value = some_inj (ok_inj v) in
      subst (λ i. Leaf s ledger [] i (([], hash) ∷ []) value) j0
        (record {
          hash =
              sym (ap (λ (x : Bytes × Bytes). x.1) pair)
              ∙ ap (hash_of sha256 s.root_salt (salt_marker s) ledger 0 [])
                  (ap (λ (x : Bytes × Bytes). x.0) pair ∙ same);
          within = omega arith;
        })
  ledger_Leaf s built (x ∷ key) j hash value e f v = let k : none ≡ some j = f in cc

  -- The leaves of the section with the scalar leaf.
  pub ledger_shape :
      (s : State M C P Params) (built : Sections) (parts : Parts s built)
      → (([], parts.hash) ∷ []) ≡ get_section built ledger
  unfolding section_leaves
  ledger_shape s built parts = ok_inj (
      sym (
        ap (λ (r : Answered (Bytes × Bytes)). and_then r (λ (_, h). ok (([], h) ∷ [])))
          parts.scalar)
      ∙ parts.entries ledger)

  pub any_Leaf :
      (s : State M C P Params) (built : Sections) (section : Section) (key : Bytes) (j : ℕ)
      (value : Bytes)
      → IsKept s
      → Parts s built
      → find_key key (get_section built section) ≡ some j
      → leaf_value codec s built section key ≡ ok (some value)
      → Leaf s section key j (get_section built section) value
  unfolding section_leaves leaf_value
  any_Leaf s built members key j value kept parts f v =
      keyed_Leaf s members key j (get_section built members) value kept (parts.entries members) f v
  any_Leaf s built contracts key j value kept parts f v =
      keyed_Leaf s contracts key j (get_section built contracts) value kept
        (parts.entries contracts) f v
  any_Leaf s built proposals key j value kept parts f v =
      keyed_Leaf s proposals key j (get_section built proposals) value kept
        (parts.entries proposals) f v
  any_Leaf s built validators key j value kept parts f v =
      keyed_Leaf s validators key j (get_section built validators) value kept
        (parts.entries validators) f v
  any_Leaf s built stakes key j value kept parts f v =
      keyed_Leaf s stakes key j (get_section built stakes) value kept (parts.entries stakes) f v
  any_Leaf s built replay key j value kept parts f v =
      let (_, _, e) =
        and_then_ok (check_replay_window s) _ (get_section built replay) (parts.entries replay) in
      keyed_Leaf s replay key j (get_section built replay) value kept e f v
  any_Leaf s built ledger key j value kept parts f v =
      let shape = ledger_shape s built parts in
      subst (λ (leaves : Leaves). Leaf s ledger key j leaves value) shape
        (ledger_Leaf s built key j parts.hash value parts.scalar (ap (find_key key) shape ∙ f) v)
