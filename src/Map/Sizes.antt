-- ===== src/Map/Sizes.antt =====
-- How many entries the ordered map has after each write.
use edet.Base.{
  ◌+◌, ◌≤◌, ◌≡◌, refl, Bool, true, false, none, some, [], ◌∷◌, arith, if◌then◌else◌, length,
}
use edet.Map.{Map, get, insert, remove, update, retain, contains_key, IsSorted}
use edet.Map.Keys.{Ordered}
use edet.Map.Laws.{get-Above, Above-mono}

module _ {K V : Type 0} ⦃o : Ordered K⦄ where
  pub length-insert :
      (k : K) (v : V) (m : Map K V)
      → IsSorted m
      → length (insert k v m) ≡ length m + (if contains_key k m then 0 else 1)
  length-insert k v [] h = omega arith
  length-insert k v ((j, w) ∷ m) h =
      ground (arith, length-insert k v m h.1, get-Above k m, Above-mono k j m, h.0, o.lt_flip k j)

  pub length-remove_held :
      (k : K) (m : Map K V) → contains_key k m ≡ true → length (remove k m) + 1 ≡ length m
  length-remove_held k [] h = ground arith
  length-remove_held k ((j, w) ∷ m) h = ground (arith, length-remove_held k m, h)

  pub length-remove_le : (k : K) (m : Map K V) → length (remove k m) ≤ length m
  length-remove_le k [] = omega arith
  length-remove_le k ((j, w) ∷ m) = ground (arith, length-remove_le k m)

  pub length-update : (k : K) (f : V → V) (m : Map K V) → length (update k f m) ≡ length m
  length-update k f [] = refl
  length-update k f ((j, w) ∷ m) = ground (arith, length-update k f m)

  pub length-retain_le : (p : K → V → Bool) (m : Map K V) → length (retain p m) ≤ length m
  length-retain_le p [] = omega arith
  length-retain_le p ((j, w) ∷ m) = ground (arith, length-retain_le p m)

  pub contains_key-get : (k : K) (v : V) (m : Map K V) → get k m ≡ some v → contains_key k m ≡ true
  contains_key-get k v m h = ground arith

  pub contains_key-none : (k : K) (m : Map K V) → contains_key k m ≡ false → get k m ≡ none
  contains_key-none k m h = ground arith
