-- ===== src/Map/Amounts.antt =====
-- Ordered maps of amounts that keep no empty entry, which is how the ledger holds reservations:
-- what such a map says of every key is all there is to it.
use edet.Base.{
  ℕ, ◌+◌, ◌-◌, ◌<◌, ◌≡◌, refl, some, List, [], ◌∷◌, All, arith, ltb, Ordering, Option-cases, inl,
  inr,
}
use edet.Map.{Map, get, insert, update, retain, amount_at, IsSorted}
use edet.Map.Keys.{Ordered}
use edet.Map.Laws.{get-insert, get-update, get-retain, map_ext}

module _ {K : Type 0} where
  abbrev pub IsPositive : Map K ℕ → Type 0
  IsPositive m = All (λ (e : K × ℕ). 0 < e.1) m

  pub retain-IsPositive : (m : Map K ℕ) → IsPositive (retain (λ _ v. ltb 0 v) m)
  retain-IsPositive [] = tt
  retain-IsPositive ((k, v) ∷ m) = ground (arith, retain-IsPositive m)

  pub retain_id : (m : Map K ℕ) → IsPositive m → retain (λ _ v. ltb 0 v) m ≡ m
  retain_id [] h = refl
  retain_id ((k, v) ∷ m) h = ground (arith, retain_id m h.1)

module _ {K : Type 0} ⦃o : Ordered K⦄ where
  pub get-pos : (k : K) (v : ℕ) (m : Map K ℕ) → IsPositive m → get k m ≡ some v → 0 < v
  get-pos k v [] h e = ground arith
  get-pos k v ((j, w) ∷ m) h e = ground (arith, get-pos k v m h.1)

  pub insert-IsPositive :
      (k : K) (v : ℕ) (m : Map K ℕ) → 0 < v → IsPositive m → IsPositive (insert k v m)
  insert-IsPositive k v [] p h = (p, tt)
  insert-IsPositive k v ((j, w) ∷ m) p h = ground (arith, insert-IsPositive k v m p h.1)

  get_of_amount :
      (k : K) (m n : Map K ℕ)
      → IsPositive m
      → IsPositive n
      → amount_at k m ≡ amount_at k n
      → get k m ≡ get k n
  get_of_amount k m n hm hn e = elim (Option-cases (get k m)) [
    | inl a ↦ elim (Option-cases (get k n)) [
      | inl b ↦ ground arith
      | inr (w, b) ↦ ground (arith, get-pos k w n hn b)
    ]
    | inr (v, a) ↦ ground (arith, get-pos k v m hm a)
  ]

  pub amounts_ext :
      (m n : Map K ℕ)
      → IsSorted m
      → IsSorted n
      → IsPositive m
      → IsPositive n
      → ((k : K) → amount_at k m ≡ amount_at k n)
      → m ≡ n
  amounts_ext m n sm sn pm pn e = map_ext m n sm sn λ k. get_of_amount k m n pm pn (e k)

  -- What a list of charges takes at one key.
  abbrev pub charged : K → List (K × ℕ) → ℕ
  charged j [] = 0
  charged j ((k, v) ∷ es) = elim (o.cmp j k) [ Ordering.eq ↦ v + charged j es | _ ↦ charged j es ]

  pub amount_at-add :
      (j k : K) (v : ℕ) (m : Map K ℕ)
      → amount_at j (insert k (amount_at k m + v) m)
        ≡ elim (o.cmp j k) [ Ordering.eq ↦ amount_at j m + v | _ ↦ amount_at j m ]
  amount_at-add j k v m = ground (arith, get-insert j k (amount_at k m + v) m, o.eq_iff j k)

  pub amount_at-sub :
      (j k : K) (v : ℕ) (m : Map K ℕ)
      → amount_at j (update k (λ r. r - v) m)
        ≡ elim (o.cmp j k) [ Ordering.eq ↦ amount_at j m - v | _ ↦ amount_at j m ]
  amount_at-sub j k v m = ground (arith, get-update j k (λ r. r - v) m)

  pub amount_at-retain :
      (j : K) (m : Map K ℕ) → IsSorted m → amount_at j (retain (λ _ v. ltb 0 v) m) ≡ amount_at j m
  amount_at-retain j m h = ground (arith, get-retain j (λ _ v. ltb 0 v) m h)
