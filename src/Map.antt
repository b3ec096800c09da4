-- ===== src/Map.antt =====
-- `BTreeMap<K, V>` of the Rust standard library, as the source uses it: a list of entries in
-- ascending key order. Iteration is the list itself.
pub mod Keys
pub mod Strings
pub mod Laws
pub mod Amounts
pub mod Sizes
use edet.Base.{
  ℕ, Bool, true, false, Option, none, some, Ordering, List, [], ◌∷◌, ◌≡◌, if◌then◌else◌, or_else,
}
use Keys.{Ordered}

abbrev pub Map : Type 0 → Type 0 → Type 0
Map K V = List (K × V)

module _ {K V : Type 0} ⦃o : Ordered K⦄ where
  -- `map.get(k).copied()`
  abbrev pub get : K → Map K V → Option V
  get k [] = none
  get k ((j, v) ∷ m) = elim (o.cmp k j) [ Ordering.eq ↦ some v | _ ↦ get k m ]

  -- `map.insert(k, v)`
  abbrev pub insert : K → V → Map K V → Map K V
  insert k v [] = (k, v) ∷ []
  insert k v ((j, w) ∷ m) = elim (o.cmp k j) [
    | Ordering.lt ↦ (k, v) ∷ (j, w) ∷ m
    | Ordering.eq ↦ (k, v) ∷ m
    | Ordering.gt ↦ (j, w) ∷ insert k v m
  ]

  -- `map.remove(k)`
  abbrev pub remove : K → Map K V → Map K V
  remove k [] = []
  remove k ((j, w) ∷ m) = elim (o.cmp k j) [ Ordering.eq ↦ m | _ ↦ (j, w) ∷ remove k m ]

  -- `if let Some(v) = map.get_mut(k) { *v = f(*v) }`
  abbrev pub update : K → (V → V) → Map K V → Map K V
  update k f [] = []
  update k f ((j, w) ∷ m) = elim (o.cmp k j) [
    | Ordering.eq ↦ (j, f w) ∷ m
    | _ ↦ (j, w) ∷ update k f m
  ]

  -- Every key of the map lies above `k`.
  abbrev pub Above : K → Map K V → Type 0
  Above k [] = Unit
  Above k ((j, _) ∷ m) = (o.cmp k j ≡ Ordering.lt) × Above k m

  abbrev pub IsSorted : Map K V → Type 0
  IsSorted [] = Unit
  IsSorted ((k, _) ∷ m) = Above k m × IsSorted m

  -- `map.contains_key(k)`, and `set.contains(k)` of a set, which is a map to nothing.
  abbrev pub contains_key : K → Map K V → Bool
  contains_key k m = elim (get k m) [ none ↦ false | some _ ↦ true ]

module _ {K V : Type 0} where
  -- `map.retain(|k, v| p(k, v))`
  abbrev pub retain : (K → V → Bool) → Map K V → Map K V
  retain p [] = []
  retain p ((k, v) ∷ m) = if p k v then (k, v) ∷ retain p m else retain p m

module _ {K : Type 0} ⦃o : Ordered K⦄ where
  -- `map.get(k).copied().unwrap_or(0)`
  abbrev pub amount_at : K → Map K ℕ → ℕ
  amount_at k m = or_else (get k m) 0

-- What a read finds after a filter: the entry, if it passes.
abbrev pub kept : {V : Type 0} → (V → Bool) → Option V → Option V
kept q none = none
kept q (some v) = if q v then some v else none
