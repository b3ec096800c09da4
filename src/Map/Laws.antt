-- ===== src/Map/Laws.antt =====
-- The laws of the ordered map: what a read returns after each write, that every write keeps the
-- order, and that two ordered maps with the same reads are one.
use edet.Base.{Bool, none, some, Ordering, [], ◌∷◌, ◌≡◌, ◌⊎◌, inl, inr, refl, arith}
use edet.Map.{Map, get, insert, remove, update, retain, Above, IsSorted, kept}
use edet.Map.Keys.{Ordered}
use mathlib.Core.Option

module _ {K : Type 0} ⦃o : Ordered K⦄ where
  pub cmp_self : (k : K) → o.cmp k k ≡ Ordering.eq
  cmp_self k = (o.eq_iff k k).1 refl

  pub cmp_cases :
      (a b : K)
      → (o.cmp a b ≡ Ordering.lt)
        ⊎ ((o.cmp a b ≡ Ordering.eq) × (a ≡ b))
        ⊎ ((o.cmp a b ≡ Ordering.gt) × (o.cmp b a ≡ Ordering.lt))
  cmp_cases a b = ground (arith, o.eq_iff a b, o.lt_flip b a)

module _ {K V : Type 0} ⦃o : Ordered K⦄ where
  pub get-insert :
      (j k : K) (v : V) (m : Map K V)
      → get j (insert k v m) ≡ elim (o.cmp j k) [ Ordering.eq ↦ some v | _ ↦ get j m ]
  get-insert j k v [] = ground arith
  get-insert j k v ((i, w) ∷ m) =
      ground (arith, get-insert j k v m, o.eq_iff j k, o.eq_iff k i, o.eq_iff j i)

  pub insert-insert : (k : K) (v w : V) (m : Map K V) → insert k v (insert k w m) ≡ insert k v m
  insert-insert k v w [] = ground (arith, cmp_self k)
  insert-insert k v w ((i, x) ∷ m) = ground (arith, cmp_self k, insert-insert k v w m)

  pub get-insert_self : (k : K) (v : V) (m : Map K V) → get k (insert k v m) ≡ some v
  get-insert_self k v m = ground (arith, get-insert k k v m, cmp_self k)

  pub get-update :
      (j k : K) (f : V → V) (m : Map K V)
      → get j (update k f m)
        ≡ elim (o.cmp j k) [ Ordering.eq ↦ Option.map f (get j m) | _ ↦ get j m ]
  get-update j k f [] = ground arith
  get-update j k f ((i, w) ∷ m) =
      ground (arith, get-update j k f m, o.eq_iff j k, o.eq_iff k i, o.eq_iff j i)

  pub get-Above : (k : K) (m : Map K V) → Above k m → get k m ≡ none
  get-Above k [] h = refl
  get-Above k ((j, w) ∷ m) h = ground (arith, get-Above k m h.1)

  pub Above-mono : (i k : K) (m : Map K V) → o.cmp i k ≡ Ordering.lt → Above k m → Above i m
  Above-mono i k [] e h = tt
  Above-mono i k ((j, w) ∷ m) e h = (o.lt_trans i k j e h.0, Above-mono i k m e h.1)

  insert-Above :
      (i k : K) (v : V) (m : Map K V) → o.cmp i k ≡ Ordering.lt → Above i m → Above i (insert k v m)
  insert-Above i k v [] e h = (e, tt)
  insert-Above i k v ((j, w) ∷ m) e h = ground (arith, insert-Above i k v m e h.1)

  pub insert-IsSorted : (k : K) (v : V) (m : Map K V) → IsSorted m → IsSorted (insert k v m)
  insert-IsSorted k v [] h = (tt, tt)
  insert-IsSorted k v ((j, w) ∷ m) h = ground (
    arith,
    insert-IsSorted k v m h.1,
    insert-Above j k v m,
    Above-mono k j m,
    o.lt_flip j k,
    o.eq_iff k j,
    h.0,
  )

  update-Above : (i k : K) (f : V → V) (m : Map K V) → Above i m → Above i (update k f m)
  update-Above i k f [] h = tt
  update-Above i k f ((j, w) ∷ m) h = ground (arith, update-Above i k f m h.1)

  pub update-IsSorted : (k : K) (f : V → V) (m : Map K V) → IsSorted m → IsSorted (update k f m)
  update-IsSorted k f [] h = tt
  update-IsSorted k f ((j, w) ∷ m) h =
      ground (arith, update-IsSorted k f m h.1, update-Above j k f m h.0, h.0)

  remove-Above : (i k : K) (m : Map K V) → Above i m → Above i (remove k m)
  remove-Above i k [] h = tt
  remove-Above i k ((j, w) ∷ m) h = ground (arith, remove-Above i k m h.1)

  pub remove-IsSorted : (k : K) (m : Map K V) → IsSorted m → IsSorted (remove k m)
  remove-IsSorted k [] h = tt
  remove-IsSorted k ((j, w) ∷ m) h =
      ground (arith, remove-IsSorted k m h.1, remove-Above j k m h.0, h.1)

  pub get-remove :
      (j k : K) (m : Map K V)
      → IsSorted m
      → get j (remove k m) ≡ elim (o.cmp j k) [ Ordering.eq ↦ none | _ ↦ get j m ]
  get-remove j k [] h = ground arith
  get-remove j k ((i, w) ∷ m) h =
      ground
        (arith, get-remove j k m h.1, get-Above i m h.0, o.eq_iff j k, o.eq_iff k i, o.eq_iff j i)

  retain-Above : (i : K) (p : K → V → Bool) (m : Map K V) → Above i m → Above i (retain p m)
  retain-Above i p [] h = tt
  retain-Above i p ((j, w) ∷ m) h = ground (arith, retain-Above i p m h.1)

  pub retain-IsSorted : (p : K → V → Bool) (m : Map K V) → IsSorted m → IsSorted (retain p m)
  retain-IsSorted p [] h = tt
  retain-IsSorted p ((j, w) ∷ m) h = ground (arith, retain-IsSorted p m h.1, retain-Above j p m h.0)

  pub get-retain :
      (j : K) (p : K → V → Bool) (m : Map K V)
      → IsSorted m
      → get j (retain p m) ≡ kept (p j) (get j m)
  get-retain j p [] h = refl
  get-retain j p ((i, w) ∷ m) h =
      ground (arith, get-retain j p m h.1, get-Above i m h.0, o.eq_iff j i)

  -- Two ordered maps that answer every read alike are equal.
  pub map_ext : (m n : Map K V) → IsSorted m → IsSorted n → ((k : K) → get k m ≡ get k n) → m ≡ n
  map_ext [] [] hm hn e = refl
  map_ext [] ((j, w) ∷ n) hm hn e = ground (arith, e j, cmp_self j)
  map_ext ((k, v) ∷ m) [] hm hn e = ground (arith, e k, cmp_self k)
  map_ext ((k, v) ∷ m) ((j, w) ∷ n) hm hn e = elim (cmp_cases k j) [
    | inl lt ↦ ground (arith, e k, cmp_self k, get-Above k n (Above-mono k j n lt hn.0))
    | inr (inl (eq, same)) ↦ ground (
      arith,
      same,
      e k,
      cmp_self k,
      map_ext m n hm.1 hn.1 λ i.
          ground (arith, e i, o.eq_iff i k, o.eq_iff i j, get-Above k m hm.0, get-Above j n hn.0),
    )
    | inr (inr (gt, lt)) ↦ ground (arith, e j, cmp_self j, get-Above j m (Above-mono j k m lt hm.0))
  ]

  pub lt-of-Above :
      (j k : K) (v : V) (m : Map K V) → Above j m → get k m ≡ some v → o.cmp j k ≡ Ordering.lt
  lt-of-Above j k v [] h e = cc
  lt-of-Above j k v ((i, w) ∷ m) h e = ground (arith, lt-of-Above j k v m h.1, o.eq_iff k i, h.0)

  -- Below the head of an ordered map a read goes on into the rest.
  pub get-cons_later :
      (j k : K) (w v : V) (m : Map K V) → Above j m → get k m ≡ some v → get k ((j, w) ∷ m) ≡ some v
  get-cons_later j k w v m h e = ground (arith, lt-of-Above j k v m h e, o.lt_flip j k, e)
