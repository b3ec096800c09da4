-- ===== src/Kernel/Network/Arcs.antt =====
-- The tables `ledger_arc` and `supply_arc` of the network against its capacities.
use edet.Base.{
  ℕ, suc, ◌<◌, ◌≡◌, refl, some, List, [], ◌∷◌, ◌++◌, All, arith, length, get_or, Ordering,
  length-append,
}
use edet.Map.{Map, get, Above, IsSorted}
use edet.Map.Keys.{Ordered}

pub get_or-append {ℓ} :
    {A : Type ℓ} (xs ys : List A) (i : ℕ) (d : A)
    → i < length xs
    → get_or (xs ++ ys) i d ≡ get_or xs i d
get_or-append [] ys i d h = elim h [ ]
get_or-append (x ∷ xs) ys ℕ.zero d h = refl
get_or-append (x ∷ xs) ys (suc i) d h = get_or-append xs ys i d (omega arith)

pub get_or-append_length {ℓ} :
    {A : Type ℓ} (xs : List A) (y : A) (ys : List A) (d : A)
    → get_or (xs ++ y ∷ ys) (length xs) d ≡ y
get_or-append_length [] y ys d = refl
get_or-append_length (x ∷ xs) y ys d = get_or-append_length xs y ys d

module _ {K : Type 0} ⦃o : Ordered K⦄ where
  -- Every key of the table lies below `k`.
  abbrev pub AllBelow : K → Map K ℕ → Type 0
  AllBelow k arcs = All (λ (e : K × ℕ). o.cmp e.0 k ≡ Ordering.lt) arcs

  pub AllBelow-mono :
      (j k : K) (arcs : Map K ℕ) → o.cmp j k ≡ Ordering.lt → AllBelow j arcs → AllBelow k arcs
  AllBelow-mono j k [] e h = tt
  AllBelow-mono j k ((i, a) ∷ arcs) e h = (o.lt_trans i j k h.0 e, AllBelow-mono j k arcs e h.1)

  pub AllBelow-push :
      (j k : K) (a : ℕ) (arcs : Map K ℕ)
      → o.cmp j k ≡ Ordering.lt
      → AllBelow j arcs
      → AllBelow k (arcs ++ (j, a) ∷ [])
  AllBelow-push j k a [] e h = (e, tt)
  AllBelow-push j k a ((i, b) ∷ arcs) e h = (o.lt_trans i j k h.0 e, AllBelow-push j k a arcs e h.1)

  Above-push :
      (i k : K) (a : ℕ) (arcs : Map K ℕ)
      → o.cmp i k ≡ Ordering.lt
      → Above i arcs
      → Above i (arcs ++ (k, a) ∷ [])
  Above-push i k a [] e h = (e, tt)
  Above-push i k a ((j, b) ∷ arcs) e h = (h.0, Above-push i k a arcs e h.1)

  push-IsSorted :
      (k : K) (a : ℕ) (arcs : Map K ℕ)
      → AllBelow k arcs
      → IsSorted arcs
      → IsSorted (arcs ++ (k, a) ∷ [])
  push-IsSorted k a [] b h = (tt, tt)
  push-IsSorted k a ((j, c) ∷ arcs) b h =
      (Above-push j k a arcs b.0 h.0, push-IsSorted k a arcs b.1 h.1)

  get-push :
      (j k : K) (a : ℕ) (arcs : Map K ℕ)
      → AllBelow k arcs
      → get j (arcs ++ (k, a) ∷ []) ≡ elim (o.cmp j k) [ Ordering.eq ↦ some a | _ ↦ get j arcs ]
  get-push j k a [] b = ground arith
  get-push j k a ((i, c) ∷ arcs) b =
      ground (arith, get-push j k a arcs b.1, o.eq_iff j k, o.eq_iff j i, o.eq_iff i k, b.0)

  -- The table is in key order, and each key's arc carries that key's free capacity.
  pub record Tabled (arcs : Map K ℕ) (cap : List ℕ) (free : K → ℕ) : Type 0 where
    pub sorted : IsSorted arcs
    pub caps : (j : K) (a : ℕ) → get j arcs ≡ some a → (a < length cap) × (get_or cap a 0 ≡ free j)

  pub Tabled-extend :
      (arcs : Map K ℕ) (cap more : List ℕ) (free : K → ℕ)
      → Tabled arcs cap free
      → Tabled arcs (cap ++ more) free
  Tabled-extend arcs cap more free t = record {
    sorted = t.sorted;
    caps = λ j a e.
        let (lt, eq) = t.caps j a e in
        (
          omega (arith, length-append cap more, lt),
          ground (arith, get_or-append cap more a 0 lt, eq),
        );
  }

  pub Tabled-push :
      (k : K) (id c : ℕ) (arcs : Map K ℕ) (cap : List ℕ) (free : K → ℕ)
      → AllBelow k arcs
      → c ≡ free k
      → id ≡ length cap
      → Tabled arcs cap free
      → Tabled (arcs ++ (k, id) ∷ []) (cap ++ c ∷ 0 ∷ []) free
  Tabled-push k id c arcs cap free b ec eid t = record {
    sorted = push-IsSorted k id arcs b t.sorted;
    caps = λ j a e. found j a e;
  }
    where
      more : Tabled arcs (cap ++ c ∷ 0 ∷ []) free
      more = Tabled-extend arcs cap (c ∷ 0 ∷ []) free t

      found :
          (j : K) (a : ℕ)
          → get j (arcs ++ (k, id) ∷ []) ≡ some a
          → (a < length (cap ++ c ∷ 0 ∷ [])) × (get_or (cap ++ c ∷ 0 ∷ []) a 0 ≡ free j)
      found j a e = ground (
        arith,
        get-push j k id arcs b,
        o.eq_iff j k,
        e,
        ec,
        eid,
        more.caps j a,
        get_or-append_length cap c (0 ∷ []) 0,
        length-append cap (c ∷ 0 ∷ []),
      )
