-- ===== src/State/Root/Refresh/Patched.antt =====
-- `patch` of crates/state/src/root.rs against a tree built anew.
use edet.Base.{
  ℕ, zero, suc, ◌+◌, ◌<◌, ◌≡◌, refl, sym, ap, ◌∙◌, ◌≢◌, ◌⊎◌, inl, inr, Bool, false, Option, none,
  some, List, [], ◌∷◌, ◌++◌, arith, ◌==◌, if◌then◌else◌, Bool-cases, length, set, length-append,
  length-set, get_or-set_ne, lt→ltb, subst,
}
use edet.Base.Indexing.{get_or-append_if}
use edet.Map.{Map, insert}
use edet.Map.Keys.{nat_ordered, nat_eq_iff}
use edet.Map.Strings.{bytes_ordered}
use edet.Map.Laws.{get-insert}
use edet.Bytes.{Bytes}
use edet.State.Root.Levels.{hashes}
use edet.State.Root.Levels.Marks.{marked, IsMarked}
use edet.State.Root.Leaves.{Leaves, Codec, Answered, ok, State}
use edet.State.Root.Cache.{search_key}
use edet.State.Root.Refresh.{
  Patching, set_hash, patch_key, push_leaf, write_leaf, patch_keys, Section, key_hash,
}
use edet.State.Root.Prove.Found.{some_inj, ok_inj, and_then_ok}
use edet.State.Root.Levels.Built.{length-hashes}
use edet.State.Root.Prove.{record_value}

-- What a patch in progress has of the leaves it started from.
pub record IsPatching (old : Leaves) (w : Patching) : Type 0 where
  pub level : w.level ≡ hashes w.leaves
  pub marks : IsMarked w.dirty (hashes old) (hashes w.leaves)

hashes-set_hash :
    (i : ℕ) (h : Bytes) (leaves : Leaves) → hashes (set_hash i h leaves) ≡ set (hashes leaves) i h
hashes-set_hash i h [] = ground arith
hashes-set_hash zero h ((k, x) ∷ leaves) = refl
hashes-set_hash (suc i) h ((k, x) ∷ leaves) =
    ap (λ (xs : List Bytes). x ∷ xs) (hashes-set_hash i h leaves)

hashes-append : (xs ys : Leaves) → hashes (xs ++ ys) ≡ hashes xs ++ hashes ys
hashes-append [] ys = refl
hashes-append ((k, x) ∷ xs) ys = ap (λ (zs : List Bytes). x ∷ zs) (hashes-append xs ys)

search_key_lt :
    (key : Bytes) (leaves : Leaves) (index j : ℕ)
    → search_key key leaves index ≡ inl j
    → j < index + length leaves
search_key_lt key [] index j e = cc
search_key_lt key ((k, x) ∷ leaves) index j e =
    ground (arith, search_key_lt key leaves (index + 1) j, e)

marked-insert :
    (i j : ℕ) (dirty : Map ℕ Unit)
    → marked i (insert j tt dirty) ≡ false
    → (i ≢ j) × (marked i dirty ≡ false)
marked-insert i j dirty h = ground (arith, h, get-insert i j tt dirty, nat_eq_iff i j)

set-IsMarked :
    (dirty : Map ℕ Unit) (old level : List Bytes) (j : ℕ) (h : Bytes)
    → IsMarked dirty old level
    → IsMarked (insert j tt dirty) old (set level j h)
set-IsMarked dirty old level j h m = record {
  grown = omega (arith, length-set level j h, m.grown);
  same = λ i lt off.
      let (ne, off') = marked-insert i j dirty off in
      let (within, is) = m.same i (omega (arith, length-set level j h)) off' in
      (within, get_or-set_ne level j i h [] (λ e. ne (sym e)) ∙ is);
}

push-IsMarked :
    (dirty : Map ℕ Unit) (old level : List Bytes) (h : Bytes)
    → IsMarked dirty old level
    → IsMarked (insert (length level) tt dirty) old (level ++ h ∷ [])
push-IsMarked dirty old level h m = record {
  grown = omega (arith, length-append level (h ∷ []), m.grown);
  same = λ i lt off.
      let (ne, off') = marked-insert i (length level) dirty off in
      let lt' : i < length level = omega (arith, length-append level (h ∷ []), ne) in
      let (within, is) = m.same i lt' off' in
      (within, (get_or-append_if level (h ∷ []) i [] ∙ rw (lt→ltb i (length level) lt') refl) ∙ is);
}

write_leaf-IsPatching :
    (old : Leaves) (w : Patching) (j : ℕ) (h : Bytes)
    → IsPatching old w
    → IsPatching old (write_leaf j h w)
write_leaf-IsPatching old w j h p =
    let level : set w.level j h ≡ hashes (set_hash j h w.leaves) =
      ap (λ (xs : List Bytes). set xs j h) p.level ∙ sym (hashes-set_hash j h w.leaves) in
    record {
      level = level;
      marks =
          subst (IsMarked (insert j tt w.dirty) (hashes old)) (sym (hashes-set_hash j h w.leaves))
            (set-IsMarked w.dirty (hashes old) (hashes w.leaves) j h p.marks);
    }

push_leaf-IsPatching :
    (old : Leaves) (w : Patching) (key : Bytes) (j : ℕ) (h : Bytes)
    → j ≡ length w.leaves
    → IsPatching old w
    → IsPatching old (push_leaf key j h w)
push_leaf-IsPatching old w key j h e p =
    let more = hashes-append w.leaves ((key, h) ∷ []) in
    record {
      level = ap (λ (xs : List Bytes). xs ++ h ∷ []) p.level ∙ sym more;
      marks =
          subst
            (λ i. IsMarked (insert i tt w.dirty) (hashes old) (hashes (w.leaves ++ (key, h) ∷ [])))
            (length-hashes w.leaves ∙ sym e)
            (subst (IsMarked (insert (length (hashes w.leaves)) tt w.dirty) (hashes old)) (sym more)
              (push-IsMarked w.dirty (hashes old) (hashes w.leaves) h p.marks));
    }

absent_same :
    (o : ℕ ⊎ ℕ) (w w' : Patching) → (elim o [ inl _ ↦ none | inr _ ↦ some w ]) ≡ some w' → w ≡ w'
absent_same (inl _) w w' e = cc
absent_same (inr _) w w' e = some_inj e

present_IsPatching :
    (o : ℕ ⊎ ℕ) (old : Leaves) (key : Bytes) (hash : ℕ → Bytes) (w w' : Patching)
    → IsPatching old w
    → (elim o [
      | inl index ↦ some (write_leaf index (hash index) w)
      | inr index ↦
          if index == length w.leaves then some (push_leaf key index (hash index) w) else none
    ])
      ≡ some w'
    → IsPatching old w'
present_IsPatching (inl j) old key hash w w' p e =
    subst (IsPatching old) (some_inj e) (write_leaf-IsPatching old w j (hash j) p)
present_IsPatching (inr j) old key hash w w' p e = elim (Bool-cases (j == length w.leaves)) [
  | inl last ↦
      let at_end : j ≡ length w.leaves = ground (arith, last) in
      let is : some (push_leaf key j (hash j) w) ≡ some w' =
        ap (λ (b : Bool). if b then some (push_leaf key j (hash j) w) else none) (sym last) ∙ e in
      subst (IsPatching old) (some_inj is) (push_leaf-IsPatching old w key j (hash j) at_end p)
  | inr inside ↦
      let gone : none ≡ some w' =
        ap (λ (b : Bool). if b then some (push_leaf key j (hash j) w) else none) (sym inside) ∙ e in
      cc gone
]

patch_key-IsPatching :
    (hash : ℕ → Bytes → Bytes) (key : Bytes) (value : Option Bytes) (old : Leaves) (w w' : Patching)
    → IsPatching old w
    → patch_key hash key value w ≡ some w'
    → IsPatching old w'
unfolding patch_key
patch_key-IsPatching hash key none old w w' p e =
    subst (IsPatching old) (absent_same (search_key key w.leaves 0) w w' e) p
patch_key-IsPatching hash key (some bytes) old w w' p e =
    present_IsPatching (search_key key w.leaves 0) old key (λ i. hash i bytes) w w' p e

pub next_ok :
    {A B : Type 0} (o : Option A) (f : A → Answered (Option B)) (b : B)
    → (elim o [ none ↦ ok none | some a ↦ f a ]) ≡ ok (some b)
    → (a : A) × (o ≡ some a) × (f a ≡ ok (some b))
next_ok none f b e = let k : none ≡ some b = ok_inj e in cc
next_ok (some a) f b e = (a, refl, e)

module _ (sha256 : Bytes → Bytes) {M C P Params : Type 0} (codec : Codec M C P Params) where
  pub patch_keys-IsPatching :
      (s : State M C P Params) (section : Section) (ks : Map Bytes Unit) (old : Leaves)
      (w w' : Patching)
      → IsPatching old w
      → patch_keys sha256 codec s section ks w ≡ ok (some w')
      → IsPatching old w'
  unfolding patch_keys
  patch_keys-IsPatching s section [] old w w' p e = subst (IsPatching old) (some_inj (ok_inj e)) p
  patch_keys-IsPatching s section ((key, _) ∷ ks) old w w' p e =
      let (value, _, rest) = and_then_ok (record_value codec s section key) _ (some w') e in
      let hash = key_hash sha256 codec s section key in
      let (next, is, more) =
        next_ok (patch_key hash key value w) (patch_keys sha256 codec s section ks) w' rest in
      patch_keys-IsPatching s section ks old next w'
        (patch_key-IsPatching hash key value old w next p is) more
