-- ===== src/Kernel/Routes/Sums.antt =====
-- The routes of `decompose` of crates/kernel/src/flow.rs carry what the hold held, arc for arc and
-- underwriter for underwriter.
use edet.Base.{
  ℕ, zero, suc, ◌+◌, ◌-◌, ◌≡◌, refl, sym, ap, ◌⊎◌, inl, inr, false, none, some, List, [], ◌∷◌, ◌++◌,
  arith, ltb, ◌==◌, if◌then◌else◌, Bool-cases, Option-cases, subst,
}
use edet.Base.Sums.{sum_by-append}
use edet.Map.{Map, get, insert, update, amount_at, IsSorted}
use edet.Map.Keys.{Ordered, nat_ordered, pair_ordered, nat_eq_iff}
use edet.Map.Laws.{
  get-insert, get-Above, insert-IsSorted, get-cons_later, update-IsSorted, cmp_self,
}
use edet.Map.Amounts.{amount_at-sub}
use edet.Kernel.Held.{Held}
use edet.Kernel.Routes.{
  Refusal, Route, Result, ok, err, first_source, route, take_arcs, any_left, finish, routes,
  collect, decompose,
}
use edet.Kernel.Routes.Ways.{
  carried_by, over_arc, from_source, IsWay, take_arcs-IsSorted, amount_at-take_arcs, route-IsWay,
}

any_left-amount :
    {K : Type 0} ⦃o : Ordered K⦄ (k : K) (m : Map K ℕ) → any_left m ≡ false → amount_at k m ≡ 0
unfolding any_left
any_left-amount k [] h = refl
any_left-amount k ((j, v) ∷ m) h = ground (arith, any_left-amount k m, h)

first_source-get :
    (m : Map ℕ ℕ) (u v : ℕ) → IsSorted m → first_source m ≡ some (u, v) → get u m ≡ some v
unfolding first_source
first_source-get [] u v h e = ground (arith, e)
first_source-get ((j, w) ∷ m) u v h e = elim (Bool-cases (ltb 0 w)) [
  | inl here ↦ ground (arith, e, here, cmp_self u)
  | inr later ↦ get-cons_later j u w v m h.0 (first_source-get m u v h.1 (ground (arith, e, later)))
]

pub Result-cases :
    {A : Type 0} (r : Result A) → ((why : Refusal) × (r ≡ err why)) ⊎ ((a : A) × (r ≡ ok a))
Result-cases (err why) = inl (why, refl)
Result-cases (ok a) = inr (a, refl)

-- What the routes carry, and what is left to carry when they are found.
pub record Carries (edges : Map (ℕ × ℕ) ℕ) (supply : Map ℕ ℕ) (out rs : List Route) : Type 0 where
  pub arcs : (key : ℕ × ℕ) → over_arc key rs ≡ over_arc key out + amount_at key edges
  pub sources : (u : ℕ) → from_source u rs ≡ from_source u out + amount_at u supply

finish-Carries :
    (edges : Map (ℕ × ℕ) ℕ) (supply : Map ℕ ℕ) (out rs : List Route)
    → finish edges supply out ≡ ok rs
    → Carries edges supply out rs
unfolding finish
finish-Carries edges supply out rs e = elim (Bool-cases (any_left supply)) [
  | inl some_left ↦ absurd (ground (arith, e, some_left))
  | inr none_left ↦ elim (Bool-cases (any_left edges)) [
    | inl flow_left ↦ absurd (ground (arith, e, none_left, flow_left))
    | inr no_flow ↦
        let same : out ≡ rs = ground (arith, e, none_left, no_flow) in
        record {
          arcs = λ key. omega (arith, ap (over_arc key) same, any_left-amount key edges no_flow);
          sources = λ u. omega (arith, ap (from_source u) same, any_left-amount u supply none_left);
        }
  ]
]

routes-Carries :
    (budget bound debtor : ℕ) (edges : Map (ℕ × ℕ) ℕ) (supply : Map ℕ ℕ) (out rs : List Route)
    → IsSorted edges
    → IsSorted supply
    → routes budget bound debtor edges supply out ≡ ok rs
    → Carries edges supply out rs
unfolding routes
routes-Carries zero bound debtor edges supply out rs he hs e = finish-Carries edges supply out rs e
routes-Carries (suc budget) bound debtor edges supply out rs he hs e =
    elim (Option-cases (first_source supply)) [
      | inl none_at ↦ finish-Carries edges supply out rs (ground (arith, e, none_at))
      | inr ((src, v), source_at) ↦
          elim (Result-cases (route bound edges debtor src src [] v (src ∷ []))) [
            | inl (why, bad) ↦ absurd (ground (arith, e, source_at, bad))
            | inr ((arcs, value), way_at) ↦
                let (new, same, less, way) =
                  route-IsWay bound edges debtor src src [] v (src ∷ []) arcs value he way_at in
                let taken = subst (IsWay edges value (src ∷ [])) (sym same) way in
                let r : Route = record { source = src; arcs = arcs; value = value } in
                let rest =
                  routes-Carries budget bound debtor (take_arcs arcs value edges)
                    (update src (λ s. s - value) supply) (out ++ r ∷ []) rs
                    (take_arcs-IsSorted arcs value edges he)
                    (update-IsSorted src (λ s. s - value) supply hs)
                    (ground (arith, e, source_at, way_at)) in
                record {
                  arcs = λ key. omega (
                    arith,
                    rest.arcs key,
                    amount_at-take_arcs key arcs value (src ∷ []) edges taken,
                    sum_by-append (λ (x : Route). carried_by key x.arcs x.value) out (r ∷ []),
                  );
                  sources = λ u. ground (
                    arith,
                    rest.sources u,
                    amount_at-sub u src value supply,
                    less,
                    first_source-get supply src v hs source_at,
                    nat_eq_iff u src,
                    sum_by-append (λ (x : Route). if x.source == u then x.value else 0) out
                        (r ∷ []),
                  );
                }
          ]
    ]

get-collect :
    {K : Type 0} ⦃o : Ordered K⦄ (k : K) (es : Map K ℕ) (m : Map K ℕ)
    → IsSorted es
    → get k (collect es m) ≡ elim (get k es) [ none ↦ get k m | some v ↦ some v ]
unfolding collect
get-collect k [] m h = refl
get-collect ⦃o = o⦄ k ((j, v) ∷ es) m h = ground (
  arith,
  get-collect k es (insert j v m) h.1,
  get-insert k j v m,
  get-Above j es h.0,
  o.eq_iff k j,
)

collect-IsSorted :
    {K : Type 0} ⦃o : Ordered K⦄ (es : Map K ℕ) (m : Map K ℕ) → IsSorted m → IsSorted (collect es m)
unfolding collect
collect-IsSorted [] m h = h
collect-IsSorted ((j, v) ∷ es) m h = collect-IsSorted es (insert j v m) (insert-IsSorted j v m h)

-- The routes of a hold whose entries are in order carry what it holds: over each arc, and from each
-- underwriter.
pub decompose-Carries :
    (held : Held) (debtor : ℕ) (rs : List Route)
    → IsSorted held.edges
    → IsSorted held.supply
    → decompose held debtor ≡ ok rs
    → Carries held.edges held.supply [] rs
unfolding decompose
decompose-Carries held debtor rs he hs e =
    let found =
      routes-Carries _ _ debtor (collect held.edges []) (collect held.supply []) [] rs
        (collect-IsSorted held.edges [] tt) (collect-IsSorted held.supply [] tt) e in
    record {
      arcs = λ key. ground (arith, found.arcs key, get-collect key held.edges [] he);
      sources = λ u. ground (arith, found.sources u, get-collect u held.supply [] hs);
    }
