-- ===== src/View/Pending/Reclaim/Groups.antt =====
-- The groups by initiator of crates/view/src/pending.rs, and the order in which a group is sorted.
use edet.Base.{
  ℕ, ◌≤◌, ◌<◌, ◌≡◌, refl, sym, ◌∙◌, ◌↔◌, inl, inr, true, false, some, List, [], ◌∷◌, ◌++◌, arith,
  ltb, ◌==◌, if◌then◌else◌, Bool-cases, or_else, length, All, ltb→lt,
}
use mathlib.Core.List.{append-nil, append_assoc}
use edet.Bytes.{Bytes}
use edet.Map.{Map, get, IsSorted}
use edet.Map.Keys.{nat_ordered, nat_eq_iff}
use edet.Map.Laws.{get-insert, insert-IsSorted, get-cons_later, cmp_self}
use edet.Map.Strings.{bytes_ordered}
use edet.View.Pending.{PendingEntry, max_entries_per_initiator_when_full}
use edet.View.Pending.Reclaim.{
  Dated, no_later, place_dated, sort_dated, first_digest, first_each, count_entries, by_initiator,
}

-- Made no later than `t`.
abbrev pub Within : ℕ → Dated → Type 0
Within t x = x.1 ≤ t

All-append : {A : Type 0} (P : A → Type 0) (xs ys : List A) → All P xs → All P ys → All P (xs ++ ys)
All-append P [] ys p q = q
All-append P (x ∷ xs) ys p q = (p.0, All-append P xs ys p.1 q)

All-map :
    {A : Type 0} {P Q : A → Type 0} (f : (a : A) → P a → Q a) (xs : List A) → All P xs → All Q xs
All-map f [] h = tt
All-map f (x ∷ xs) h = (f x h.0, All-map f xs h.1)

-- What is known of the head of a sorted list.
abbrev pub Leads : (Dated → Type 0) → List Dated → Type 0
Leads P [] = Unit
Leads P (x ∷ xs) = P x × All (Within x.1) xs

-- What holds of the whole list once an item is placed holds of the item and of the list.
place_dated-All :
    (P : Dated → Type 0) (x : Dated) (ys : List Dated) → (P x × All P ys) ↔ All P (place_dated x ys)
unfolding place_dated
place_dated-All P x [] = (λ h. h, λ h. h)
place_dated-All P x (y ∷ ys) = elim (Bool-cases (no_later x y)) [
  | inl first ↦ rw first (λ h. h, λ h. h)
  | inr later ↦
      let ih = place_dated-All P x ys in
      rw later (λ h. (h.1.0, ih.0 (h.0, h.1.1)), λ h. ((ih.1 h.1).0, (h.0, (ih.1 h.1).1)))
]

sort_dated-All : (P : Dated → Type 0) (xs : List Dated) → All P xs ↔ All P (sort_dated xs)
unfolding sort_dated
sort_dated-All P [] = (λ h. h, λ h. h)
sort_dated-All P (x ∷ xs) =
    let ih = sort_dated-All P xs in
    let here = place_dated-All P x (sort_dated xs) in
    (λ h. here.0 (h.0, ih.0 h.1), λ h. ((here.1 h).0, ih.1 (here.1 h).1))

no_later-created : (x y : Dated) → no_later x y ≡ true → y.1 ≤ x.1
unfolding no_later
no_later-created x y h = ground arith

later-created : (x y : Dated) → no_later x y ≡ false → x.1 ≤ y.1
unfolding no_later
later-created x y h = ground arith

place_dated-Leads :
    (P : Dated → Type 0) (x : Dated) (ys : List Dated)
    → P x
    → Leads P ys
    → Leads P (place_dated x ys)
unfolding place_dated
place_dated-Leads P x [] p h = (p, tt)
place_dated-Leads P x (y ∷ ys) p h = elim (Bool-cases (no_later x y)) [
  | inl first ↦
      let newer = no_later-created x y first in
      rw first (p, (newer, All-map (λ z (q : Within y.1 z). omega (arith, q, newer)) ys h.1))
  | inr later ↦ rw later (h.0, (place_dated-All (Within y.1) x ys).0 (later-created x y later, h.1))
]

sort_dated-Leads : (P : Dated → Type 0) (xs : List Dated) → All P xs → Leads P (sort_dated xs)
unfolding sort_dated
sort_dated-Leads P [] h = tt
sort_dated-Leads P (x ∷ xs) h =
    place_dated-Leads P x (sort_dated xs) h.0 (sort_dated-Leads P xs h.1)

-- The digest taken is one of the list, with a date that no other of the list passes.
pub first_digest-sort_dated :
    (P : Dated → Type 0) (Q : Bytes → Type 0) (v : List Dated)
    → All P v
    → ((x : Dated) → P x → All (Within x.1) v → Q x.0)
    → All Q (first_digest (sort_dated v))
first_digest-sort_dated P Q v h q =
    take_first (sort_dated v) (sort_dated-Leads P v h) λ x. (sort_dated-All (Within x.1) v).1
  where
    take_first :
        (s : List Dated)
        → Leads P s
        → ((x : Dated) → All (Within x.1) s → All (Within x.1) v)
        → All Q (first_digest s)
    take_first [] l back = tt
    take_first (x ∷ s) l back = (q x l.0 (back x (omega arith, l.1)), tt)

pub first_each-All :
    (Q : Bytes → Type 0) (groups : Map ℕ (List Dated))
    → IsSorted groups
    → ((i : ℕ) (v : List Dated)
        → get i groups ≡ some v
        → max_entries_per_initiator_when_full < length v
        → All Q (first_digest (sort_dated v)))
    → All Q (first_each groups)
unfolding first_each
first_each-All Q [] h q = tt
first_each-All Q ((i, v) ∷ groups) h q =
    let rest = first_each-All Q groups h.1 λ j w e. q j w (get-cons_later i j v w groups h.0 e) in
    elim (Bool-cases (ltb max_entries_per_initiator_when_full (length v))) [
      | inl over ↦ rw over (
          All-append Q (first_digest (sort_dated v)) (first_each groups)
            (q i v (ground (arith, cmp_self i)) (ltb→lt _ _ over)) rest)
      | inr within ↦ rw within rest
    ]

module _ {F : Type 0} where
  -- The dates of one initiator's entries.
  unfoldable pub dates_of : ℕ → Map Bytes (PendingEntry F) → List Dated
  dates_of i [] = []
  dates_of i ((d, e) ∷ m) =
      let rest = dates_of i m in if e.initiator == i then (d, e.created_secs) ∷ rest else rest

  pub length-dates_of :
      (i : ℕ) (m : Map Bytes (PendingEntry F))
      → length (dates_of i m) ≡ count_entries (λ e. e.initiator == i) m
  unfolding dates_of count_entries
  length-dates_of i [] = refl
  length-dates_of i ((d, e) ∷ m) = ground (arith, length-dates_of i m)

  pub by_initiator-IsSorted :
      (m : Map Bytes (PendingEntry F)) (groups : Map ℕ (List Dated))
      → IsSorted groups
      → IsSorted (by_initiator m groups)
  unfolding by_initiator
  by_initiator-IsSorted [] groups h = h
  by_initiator-IsSorted ((d, e) ∷ m) groups h =
      by_initiator-IsSorted m _ (insert-IsSorted e.initiator _ groups h)

  pub get-by_initiator :
      (i : ℕ) (m : Map Bytes (PendingEntry F)) (groups : Map ℕ (List Dated))
      → or_else (get i (by_initiator m groups)) [] ≡ or_else (get i groups) [] ++ dates_of i m
  unfolding by_initiator dates_of
  get-by_initiator i [] groups = sym (append-nil (or_else (get i groups) []))
  get-by_initiator i ((d, e) ∷ m) groups =
      get-by_initiator i m _
      ∙ ground (
        arith,
        get-insert i e.initiator (or_else (get e.initiator groups) [] ++ (d, e.created_secs) ∷ [])
            groups,
        append_assoc (or_else (get i groups) []) ((d, e.created_secs) ∷ []) (dates_of i m),
        nat_eq_iff i e.initiator,
      )
