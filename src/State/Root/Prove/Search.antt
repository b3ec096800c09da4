-- ===== src/State/Root/Prove/Search.antt =====
-- `binary_search_by` and `position` of crates/state/src/root.rs, on leaves in key order.
use edet.Base.{
  ℕ, suc, ◌+◌, ◌<◌, Ordering, ◌≡◌, refl, sym, ap, ◌∙◌, inl, inr, true, false, Option, none, some,
  [], ◌∷◌, arith, Bool-cases, length, subst,
}
use mathlib.Core.Option
use edet.Map.{IsSorted, Above}
use edet.Map.Strings.{bytes_ordered, cmp_bytes, bytes_eq_iff}
use edet.Map.Laws.{cmp_cases}
use edet.Bytes.{Bytes, same_bytes}
use edet.State.Root.Proof.Binding.{same_bytes_eq, same_bytes_refl}
use edet.State.Root.Leaves.{Leaves}
use edet.State.Root.Prove.{find_key}
use edet.State.Root.Prove.Found.{some_inj, find_key_here, find_key_later, map-suc}
use edet.State.Root.Cache.{search_key}

pub find_key_lt :
    (key : Bytes) (leaves : Leaves) (j : ℕ) → find_key key leaves ≡ some j → j < length leaves
find_key_lt key [] j e = cc
find_key_lt key ((k, h) ∷ leaves) j e = elim (Bool-cases (same_bytes k key)) [
  | inl same ↦
      let here : 0 ≡ j = some_inj (sym (find_key_here key k h leaves same) ∙ e) in
      omega (arith, here)
  | inr differ ↦
      let (i, on, is) =
        map-suc (find_key key leaves) j (sym (find_key_later key k h leaves differ) ∙ e) in
      omega (arith, is, find_key_lt key leaves i on)
]

-- A key that is found lies above every key that its leaves lie above.
cmp_bytes-find_key :
    (k key : Bytes) (leaves : Leaves) (j : ℕ)
    → Above k leaves
    → find_key key leaves ≡ some j
    → cmp_bytes k key ≡ Ordering.lt
cmp_bytes-find_key k key [] j a e = cc
cmp_bytes-find_key k key ((i, h) ∷ leaves) j a e = elim (Bool-cases (same_bytes i key)) [
  | inl same ↦ subst (λ x. cmp_bytes k x ≡ Ordering.lt) (same_bytes_eq i key same) a.0
  | inr differ ↦
      let (n, on, _) =
        map-suc (find_key key leaves) j (sym (find_key_later key i h leaves differ) ∙ e) in
      cmp_bytes-find_key k key leaves n a.1 on
]

search_lt :
    (key k h : Bytes) (leaves : Leaves) (index : ℕ)
    → cmp_bytes k key ≡ Ordering.lt
    → search_key key ((k, h) ∷ leaves) index ≡ search_key key leaves (index + 1)
search_lt key k h leaves index e = rw (e, search_key) refl

search_eq :
    (key k h : Bytes) (leaves : Leaves) (index : ℕ)
    → cmp_bytes k key ≡ Ordering.eq
    → search_key key ((k, h) ∷ leaves) index ≡ inl index
search_eq key k h leaves index e = rw (e, search_key) refl

search_gt :
    (key k h : Bytes) (leaves : Leaves) (index : ℕ)
    → cmp_bytes k key ≡ Ordering.gt
    → search_key key ((k, h) ∷ leaves) index ≡ inr index
search_gt key k h leaves index e = rw (e, search_key) refl

pub search_key_found :
    (key : Bytes) (leaves : Leaves) (index j : ℕ)
    → IsSorted leaves
    → find_key key leaves ≡ some j
    → search_key key leaves index ≡ inl (index + j)
search_key_found key [] index j s e = cc
search_key_found key ((k, h) ∷ leaves) index j s e = elim (Bool-cases (same_bytes k key)) [
  | inl same ↦
      let here : 0 ≡ j = some_inj (sym (find_key_here key k h leaves same) ∙ e) in
      let at_index : index ≡ index + j = omega (arith, here) in
      search_eq key k h leaves index ((bytes_eq_iff k key).1 (same_bytes_eq k key same))
      ∙ ap inl at_index
  | inr differ ↦
      let (i, on, is) =
        map-suc (find_key key leaves) j (sym (find_key_later key k h leaves differ) ∙ e) in
      let at_index : index + 1 + i ≡ index + j = omega (arith, is) in
      search_lt key k h leaves index (cmp_bytes-find_key k key leaves i s.0 on)
      ∙ search_key_found key leaves (index + 1) i s.1 on
      ∙ ap inl at_index
]

unmapped : (o : Option ℕ) → Option.map suc o ≡ none → o ≡ none
unmapped none e = refl
unmapped (some i) e = cc

none_later :
    (key k h : Bytes) (leaves : Leaves)
    → find_key key ((k, h) ∷ leaves) ≡ none
    → (same_bytes k key ≡ false) × (find_key key leaves ≡ none)
none_later key k h leaves e = elim (Bool-cases (same_bytes k key)) [
  | inl same ↦ let gone : some 0 ≡ none = sym (find_key_here key k h leaves same) ∙ e in cc gone
  | inr differ ↦
      (differ, unmapped (find_key key leaves) (sym (find_key_later key k h leaves differ) ∙ e))
]

pub search_key_absent :
    (key : Bytes) (leaves : Leaves) (index : ℕ)
    → find_key key leaves ≡ none
    → (n : ℕ) × (search_key key leaves index ≡ inr n)
search_key_absent key [] index e = (index, refl)
search_key_absent key ((k, h) ∷ leaves) index e =
    let (differ, later) = none_later key k h leaves e in
    elim (cmp_cases k key) [
      | inl less ↦
          let (n, is) = search_key_absent key leaves (index + 1) later in
          (n, search_lt key k h leaves index less ∙ is)
      | inr (inl (_, same)) ↦
          let on : same_bytes k key ≡ true = ap (same_bytes k) (sym same) ∙ same_bytes_refl k in
          cc (on, differ)
      | inr (inr (more, _)) ↦ (index, search_gt key k h leaves index more)
    ]
