-- ===== src/State/Loss/Cut.antt =====
-- The routes of crates/state/src/loss.rs cut in two: what stands and what is given back are together
-- what there was.
use edet.Base.{
  ℕ, suc, ◌+◌, ◌-◌, ◌≤◌, ◌<◌, min, ◌≡◌, refl, ap, ◌∙◌, Bool, true, false, List, [], ◌∷◌, arith, ltb,
  if◌then◌else◌, length, get_or, take, All, map, ◌^◌,
}
use edet.Base.Sums.{sum_by, sum_by-append}
use edet.Kernel.Routes.{Route}
use edet.Kernel.Routes.Ways.{from_source}
use edet.State.Loss.{total_of, allocate, of_source, cut_routes, cut_each}
use edet.State.Loss.Exact.{allocate-total, length-allocate}

abbrev pub values : List Route → List ℕ
values ps = map (λ (p : Route). p.value) ps

-- A part of each, and no more than it.
abbrev pub Parts : List ℕ → List ℕ → Type 0
Parts xs ys = (length xs ≡ length ys) × ((j : ℕ) → get_or xs j 0 ≤ get_or ys j 0)

abbrev pub value_of : List Route → ℕ
value_of ps = sum_by (λ (p : Route). p.value) ps

Parts-tail : (x y : ℕ) (xs ys : List ℕ) → Parts (x ∷ xs) (y ∷ ys) → Parts xs ys
Parts-tail x y xs ys h = (omega (arith, h.0), λ j. h.1 (suc j))

pub total_of-values :
    (u : ℕ) (ps : List Route) → total_of (values (of_source u ps)) ≡ from_source u ps
unfolding of_source
total_of-values u [] = refl
total_of-values u (p ∷ ps) = ground (arith, total_of-values u ps)

pub below-total : (n : ℕ) (xs : List ℕ) → total_of xs < n → All (λ x. x < n) xs
below-total n [] h = tt
below-total n (x ∷ xs) h = (omega (arith, h), below-total n xs (omega (arith, h)))

cut_routes-value :
    (ps : List Route) (take : List ℕ)
    → Parts take (values ps)
    → value_of (cut_routes ps take).0 ≡ total_of take
unfolding cut_routes
cut_routes-value [] [] h = refl
cut_routes-value [] (t ∷ take) h = absurd (omega (arith, h.0))
cut_routes-value (p ∷ ps) [] h = absurd (omega (arith, h.0))
cut_routes-value (p ∷ ps) (t ∷ take) h =
    ground (arith, cut_routes-value ps take (Parts-tail t p.value take (values ps) h))

-- What is kept of one underwriter's routes.
abbrev pub taken_of : ℕ → List Route → ℕ → List ℕ
taken_of u paths k =
    let vals = values (of_source u paths) in allocate vals (min k (total_of vals)) (total_of vals)

taken_of-Parts :
    (u : ℕ) (paths : List Route) (k : ℕ)
    → from_source u paths < 2 ^ 64
    → k ≤ from_source u paths
    → Parts (taken_of u paths k) (values (of_source u paths)) × (total_of (taken_of u paths k) ≡ k)
taken_of-Parts u paths k fits less =
    let vals = values (of_source u paths) in
    let whole = total_of-values u paths in
    let given =
      allocate-total vals (min k (total_of vals)) (total_of vals) refl (omega arith)
        (below-total (2 ^ 64) vals (omega (arith, whole, fits))) in
    (
      (length-allocate vals (min k (total_of vals)) (total_of vals), given.1),
      omega (arith, given.0, whole, less),
    )

-- The amounts kept fit what the underwriters' routes carry.
abbrev pub Keeps : List Route → List (ℕ × ℕ) → List ℕ → Type 0
Keeps paths supply kept =
    Parts kept (map (λ (e : ℕ × ℕ). from_source e.0 paths) supply)
    × All (λ (e : ℕ × ℕ). from_source e.0 paths < 2 ^ 64) supply

pub cut_each-value :
    (paths : List Route) (supply : List (ℕ × ℕ)) (kept : List ℕ)
    → Keeps paths supply kept
    → value_of (cut_each paths supply kept).0 ≡ total_of kept
unfolding cut_each
cut_each-value paths [] [] h = refl
cut_each-value paths [] (k ∷ kept) h = absurd (omega (arith, h.0.0))
cut_each-value paths ((u, s) ∷ supply) [] h = absurd (omega (arith, h.0.0))
cut_each-value paths ((u, s) ∷ supply) (k ∷ kept) h =
    let parts = taken_of-Parts u paths k h.1.0 (h.0.1 0) in
    let mine = of_source u paths in
    let ih = cut_each-value paths supply kept (
      Parts-tail k (from_source u paths) kept (map (λ (e : ℕ × ℕ). from_source e.0 paths) supply)
          h.0,
      h.1.1,
    ) in
    omega (
      arith,
      ih,
      parts.1,
      cut_routes-value mine (taken_of u paths k) parts.0,
      sum_by-append (λ (p : Route). p.value) (cut_routes mine (taken_of u paths k)).0
          (cut_each paths supply kept).0,
    )

module _ (f : Route → ℕ)
    (linear : (p : Route) (t : ℕ)
      → t ≤ p.value
      → f (record p { value = t }) + f (record p { value = p.value - t }) ≡ f p)
    (nothing : (p : Route) → f (record p { value = 0 }) ≡ 0) where
  pub weight-zero : (p : Route) → p.value ≡ 0 → f p ≡ 0
  weight-zero p e = ap (λ v. f (record p { value = v })) e ∙ nothing p

  -- A part that is left out is empty.
  part-weight :
      (p : Route) (v : ℕ) (b : Bool) (ps : List Route)
      → (b ≡ false → v ≡ 0)
      → sum_by f (if b then record p { value = v } ∷ ps else ps)
        ≡ f (record p { value = v }) + sum_by f ps
  part-weight p v true ps h = refl
  part-weight p v false ps h = omega (arith, weight-zero (record p { value = v }) (h refl))

  cut_routes-weight :
      (ps : List Route) (take : List ℕ)
      → Parts take (values ps)
      → sum_by f (cut_routes ps take).0 + sum_by f (cut_routes ps take).1 ≡ sum_by f ps
  unfolding cut_routes
  cut_routes-weight [] [] h = refl
  cut_routes-weight [] (t ∷ take) h = absurd (omega (arith, h.0))
  cut_routes-weight (p ∷ ps) [] h = absurd (omega (arith, h.0))
  cut_routes-weight (p ∷ ps) (t ∷ take) h =
      let ih = cut_routes-weight ps take (Parts-tail t p.value take (values ps) h) in
      let still = cut_routes ps take in
      omega (
        arith,
        ih,
        linear p t (h.1 0),
        part-weight p t (ltb 0 t) still.0 (λ e. ground (arith, e)),
        part-weight p (p.value - t) (ltb t p.value) still.1 (λ e. ground (arith, e)),
      )

  pub cut_each-weight :
      (paths : List Route) (supply : List (ℕ × ℕ)) (kept : List ℕ)
      → Keeps paths supply kept
      → sum_by f (cut_each paths supply kept).0 + sum_by f (cut_each paths supply kept).1
        ≡ sum_by (λ (e : ℕ × ℕ). sum_by f (of_source e.0 paths)) supply
  unfolding cut_each
  cut_each-weight paths [] [] h = refl
  cut_each-weight paths [] (k ∷ kept) h = absurd (omega (arith, h.0.0))
  cut_each-weight paths ((u, s) ∷ supply) [] h = absurd (omega (arith, h.0.0))
  cut_each-weight paths ((u, s) ∷ supply) (k ∷ kept) h =
      let parts = taken_of-Parts u paths k h.1.0 (h.0.1 0) in
      let mine = of_source u paths in
      let cut = cut_routes mine (taken_of u paths k) in
      let rest = cut_each paths supply kept in
      let ih = cut_each-weight paths supply kept (
        Parts-tail k (from_source u paths) kept (map (λ (e : ℕ × ℕ). from_source e.0 paths) supply)
            h.0,
        h.1.1,
      ) in
      omega (
        arith,
        ih,
        cut_routes-weight mine (taken_of u paths k) parts.0,
        sum_by-append f cut.0 rest.0,
        sum_by-append f cut.1 rest.1,
      )
