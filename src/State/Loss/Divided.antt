-- ===== src/State/Loss/Divided.antt =====
-- `shrink` of crates/state/src/loss.rs divides a hold that decomposes, route by route.
use edet.Base.{
  ℕ, ◌+◌, ◌-◌, ◌≤◌, ◌<◌, ◌≡◌, refl, sym, ap, ◌∙◌, some, List, [], ◌∷◌, arith, ◌==◌, if◌then◌else◌,
  All, map, ◌^◌, ap₂, subst,
}
use edet.Base.Sums.{sum_by}
use edet.Map.{Map, get, amount_at, Above, IsSorted}
use edet.Map.Amounts.{charged}
use edet.Map.Keys.{Ordered, nat_ordered, pair_ordered}
use edet.Map.Laws.{get-Above, get-cons_later, cmp_self}
use edet.Kernel.Held.{Held, amount}
use edet.Kernel.Routes.{Route, ok, decompose, from_paths}
use edet.Kernel.Routes.Ways.{carried_by, from_source}
use edet.Kernel.Routes.Sums.{decompose-Carries}
use edet.Kernel.Routes.Joined.{from_paths-amounts, from_paths-Joins}
use edet.State.Loss.{total_of, allocate, of_source, cut_each}
use edet.State.Loss.Cut.{
  Parts, Keeps, value_of, below-total, cut_each-value, cut_each-weight, weight-zero,
  total_of-values,
}
use edet.State.Loss.Exact.{allocate-total, length-allocate}
use edet.State.Loss.Grouped.{grouped-sum}

-- Two holds that are together one: on every arc, of every underwriter, and `keep` of it in the first.
pub record Divides (held : Held) (keep : ℕ) (parts : Held × Held) : Type 0 where
  pub arcs :
      (key : ℕ × ℕ) → charged key parts.0.edges + charged key parts.1.edges ≡ charged key held.edges
  pub sources :
      (u : ℕ) → charged u parts.0.supply + charged u parts.1.supply ≡ charged u held.supply
  pub stands : amount parts.0 ≡ keep
  pub returned : amount parts.1 ≡ amount held - keep

charged-Above : {K : Type 0} ⦃o : Ordered K⦄ (k : K) (m : Map K ℕ) → Above k m → charged k m ≡ 0
charged-Above k [] h = refl
charged-Above k ((j, v) ∷ m) h = ground (arith, charged-Above k m h.1, h.0)

-- In a map in order an entry is all that there is of its key.
pub charged-amount :
    {K : Type 0} ⦃o : Ordered K⦄ (k : K) (m : Map K ℕ) → IsSorted m → charged k m ≡ amount_at k m
charged-amount k [] h = refl
charged-amount ⦃o = o⦄ k ((j, v) ∷ m) h =
    ground (arith, charged-amount k m h.1, charged-Above j m h.0, get-Above j m h.0, o.eq_iff k j)

-- The amounts of the entries, read back by their keys.
supply-amounts :
    (all m : Map ℕ ℕ) (f : ℕ → ℕ)
    → IsSorted m
    → ((u v : ℕ) → get u m ≡ some v → get u all ≡ some v)
    → ((u : ℕ) → f u ≡ amount_at u all)
    → map (λ (e : ℕ × ℕ). f e.0) m ≡ map (λ (e : ℕ × ℕ). e.1) m
supply-amounts all [] f h back c = refl
supply-amounts all ((u, v) ∷ m) f h back c =
    let here : get u all ≡ some v = back u v (ground (arith, cmp_self u)) in
    let rest = supply-amounts all m f h.1 (λ x w g. back x w (get-cons_later u x v w m h.0 g)) c in
    ap₂ (λ x xs. x ∷ xs) (ground (arith, c u, here)) rest

total_of-map : {A : Type 0} (f : A → ℕ) (xs : List A) → total_of (map f xs) ≡ sum_by f xs
total_of-map f [] = refl
total_of-map f (x ∷ xs) = omega (arith, total_of-map f xs)

value_of-source : (u : ℕ) (ps : List Route) → value_of (of_source u ps) ≡ from_source u ps
value_of-source u ps =
    sym (total_of-map (λ (p : Route). p.value) (of_source u ps)) ∙ total_of-values u ps

sum_by-same :
    {A : Type 0} (f g : A → ℕ) (xs : List A) → ((a : A) → f a ≡ g a) → sum_by f xs ≡ sum_by g xs
sum_by-same f g [] h = refl
sum_by-same f g (x ∷ xs) h = omega (arith, h x, sum_by-same f g xs h)

carried_by-linear :
    (key : ℕ × ℕ) (arcs : List (ℕ × ℕ)) (v t : ℕ)
    → t ≤ v
    → carried_by key arcs t + carried_by key arcs (v - t) ≡ carried_by key arcs v
carried_by-linear key [] v t h = refl
carried_by-linear key (a ∷ arcs) v t h = ground (arith, carried_by-linear key arcs v t h)

carried_by-nothing : (key : ℕ × ℕ) (arcs : List (ℕ × ℕ)) → carried_by key arcs 0 ≡ 0
carried_by-nothing key [] = refl
carried_by-nothing key (a ∷ arcs) = ground (arith, carried_by-nothing key arcs)

pub kept_of-Parts :
    (held : Held) (keep : ℕ)
    → keep ≤ amount held
    → amount held < 2 ^ 64
    → Parts
        (allocate (map (λ (e : ℕ × ℕ). e.1) held.supply) keep (amount held))
        (map (λ (e : ℕ × ℕ). e.1) held.supply)
      × (total_of (allocate (map (λ (e : ℕ × ℕ). e.1) held.supply) keep (amount held)) ≡ keep)
unfolding amount
kept_of-Parts held keep less fits =
    let amounts = map (λ (e : ℕ × ℕ). e.1) held.supply in
    let whole = total_of-map (λ (e : ℕ × ℕ). e.1) held.supply in
    let given =
      allocate-total amounts keep (amount held) whole less
        (below-total (2 ^ 64) amounts (omega (arith, whole, fits))) in
    ((length-allocate amounts keep (amount held), given.1), given.0)

below-each :
    {A : Type 0} (f : A → ℕ) (n : ℕ) (xs : List A) → sum_by f xs < n → All (λ a. f a < n) xs
below-each f n [] h = tt
below-each f n (x ∷ xs) h = (omega (arith, h), below-each f n xs (omega (arith, h)))

-- Whatever is linear in the value of a route is divided without a rest.
whole-weight :
    (f : Route → ℕ)
    → ((p : Route) (t : ℕ)
        → t ≤ p.value
        → f (record p { value = t }) + f (record p { value = p.value - t }) ≡ f p)
    → ((p : Route) → f (record p { value = 0 }) ≡ 0)
    → (paths : List Route) (supply : Map ℕ ℕ) (kept : List ℕ) → Keeps paths supply kept
    → IsSorted supply
    → ((u : ℕ) → from_source u paths ≡ amount_at u supply)
    → sum_by f (cut_each paths supply kept).0 + sum_by f (cut_each paths supply kept).1
      ≡ sum_by f paths
whole-weight f linear nothing paths supply kept keeps h c =
    cut_each-weight f linear nothing paths supply kept keeps
    ∙ grouped-sum f paths supply (weight-zero f linear nothing) h c

-- What is kept of each underwriter fits what its routes carry, and they carry the hold.
supply-Keeps :
    (held : Held) (keep : ℕ) (paths : List Route)
    → IsSorted held.supply
    → keep ≤ amount held
    → amount held < 2 ^ 64
    → ((u : ℕ) → from_source u paths ≡ amount_at u held.supply)
    → Keeps paths held.supply (allocate (map (λ (x : ℕ × ℕ). x.1) held.supply) keep (amount held))
      × (sum_by (λ (x : ℕ × ℕ). from_source x.0 paths) held.supply ≡ amount held)
unfolding amount
supply-Keeps held keep paths hs less fits source =
    let kept = allocate (map (λ (x : ℕ × ℕ). x.1) held.supply) keep (amount held) in
    let supplied =
      supply-amounts held.supply held.supply (λ u. from_source u paths) hs (λ u v g. g) source in
    let all : sum_by (λ (x : ℕ × ℕ). from_source x.0 paths) held.supply ≡ amount held =
      sym (total_of-map (λ (x : ℕ × ℕ). from_source x.0 paths) held.supply)
      ∙ ap total_of supplied
      ∙ total_of-map (λ (x : ℕ × ℕ). x.1) held.supply in
    let whole =
      below-each (λ (x : ℕ × ℕ). from_source x.0 paths) (2 ^ 64) held.supply
        (omega (arith, all, fits)) in
    ((subst (Parts kept) (sym supplied) (kept_of-Parts held keep less fits).0, whole), all)

-- A hold that decomposes is divided route by route.
pub cut_each-Divides :
    (held : Held) (debtor keep : ℕ) (paths : List Route)
    → IsSorted held.edges
    → IsSorted held.supply
    → keep ≤ amount held
    → amount held < 2 ^ 64
    → decompose held debtor ≡ ok paths
    → let cut =
        cut_each paths held.supply
          (allocate (map (λ (e : ℕ × ℕ). e.1) held.supply) keep (amount held)) in
      Divides held keep (from_paths cut.0, from_paths cut.1)
unfolding amount
cut_each-Divides held debtor keep paths he hs less fits e =
    let kept = allocate (map (λ (x : ℕ × ℕ). x.1) held.supply) keep (amount held) in
    let cut = cut_each paths held.supply kept in
    let carries = decompose-Carries held debtor paths he hs e in
    let source : (u : ℕ) → from_source u paths ≡ amount_at u held.supply =
      λ u. omega (arith, carries.sources u) in
    let (keeps, all) = supply-Keeps held keep paths hs less fits source in
    let parts = kept_of-Parts held keep less fits in
    let still = from_paths-Joins cut.0 in
    let back = from_paths-Joins cut.1 in
    let stands : value_of cut.0 ≡ keep = cut_each-value paths held.supply kept keeps ∙ parts.1 in
    record {
      arcs = λ key. omega (
        arith,
        charged-amount key (from_paths cut.0).edges still.edges,
        charged-amount key (from_paths cut.1).edges back.edges,
        charged-amount key held.edges he,
        (from_paths-amounts cut.0).0 key,
        (from_paths-amounts cut.1).0 key,
        carries.arcs key,
        whole-weight (λ r. carried_by key r.arcs r.value)
            (λ r t h. carried_by-linear key r.arcs r.value t h) (λ r. carried_by-nothing key r.arcs)
            paths held.supply kept keeps hs source,
      );
      sources = λ u. omega (
        arith,
        charged-amount u (from_paths cut.0).supply still.supply,
        charged-amount u (from_paths cut.1).supply back.supply,
        charged-amount u held.supply hs,
        (from_paths-amounts cut.0).1 u,
        (from_paths-amounts cut.1).1 u,
        source u,
        whole-weight (λ r. if r.source == u then r.value else 0) (λ r t h. ground arith)
            (λ r. ground arith) paths held.supply kept keeps hs source,
      );
      stands = omega (arith, still.whole, stands);
      returned = omega (
        arith,
        back.whole,
        stands,
        cut_each-weight (λ r. r.value) (λ r t h. omega arith) (λ r. refl) paths held.supply kept
            keeps,
        sum_by-same (λ (x : ℕ × ℕ). value_of (of_source x.0 paths)) (λ x. from_source x.0 paths)
            held.supply (λ x. value_of-source x.0 paths),
        all,
      );
    }
