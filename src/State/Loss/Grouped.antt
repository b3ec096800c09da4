-- ===== src/State/Loss/Grouped.antt =====
-- The routes of crates/state/src/loss.rs grouped by their underwriters are all of them.
use edet.Base.{ℕ, ◌+◌, ◌≤◌, ◌≡◌, refl, List, [], ◌∷◌, arith, ◌==◌, if◌then◌else◌, All}
use edet.Base.Sums.{sum_by}
use edet.Map.{Map, contains_key, amount_at, IsSorted}
use edet.Map.Keys.{nat_ordered, nat_eq_iff}
use edet.Map.Laws.{get-Above}
use edet.Kernel.Routes.{Route}
use edet.Kernel.Routes.Ways.{from_source}
use edet.State.Loss.{of_source}

source-le :
    (rs ps : List Route)
    → ((u : ℕ) → from_source u ps ≤ from_source u rs)
    → All (λ (p : Route). p.value ≤ from_source p.source rs) ps
source-le rs [] h = tt
source-le rs (p ∷ ps) h = (ground (arith, h p.source), source-le rs ps (λ u. ground (arith, h u)))

once :
    (f : Route → ℕ) (p : Route) (supply : Map ℕ ℕ)
    → IsSorted supply
    → sum_by (λ (e : ℕ × ℕ). if p.source == e.0 then f p else 0) supply
      ≡ (if contains_key p.source supply then f p else 0)
once f p [] h = refl
once f p ((u, s) ∷ supply) h =
    ground (arith, once f p supply h.1, get-Above u supply h.0, nat_eq_iff p.source u)

grouped-cons :
    (f : Route → ℕ) (p : Route) (ps : List Route) (supply : List (ℕ × ℕ))
    → sum_by (λ (e : ℕ × ℕ). sum_by f (of_source e.0 (p ∷ ps))) supply
      ≡ sum_by (λ (e : ℕ × ℕ). if p.source == e.0 then f p else 0) supply
        + sum_by (λ (e : ℕ × ℕ). sum_by f (of_source e.0 ps)) supply
unfolding of_source
grouped-cons f p ps [] = refl
grouped-cons f p ps ((u, s) ∷ supply) = ground (arith, grouped-cons f p ps supply)

grouped-none :
    (f : Route → ℕ) (supply : List (ℕ × ℕ))
    → sum_by (λ (e : ℕ × ℕ). sum_by f (of_source e.0 [])) supply ≡ 0
unfolding of_source
grouped-none f [] = refl
grouped-none f (e ∷ supply) = omega (arith, grouped-none f supply)

grouped-part :
    (f : Route → ℕ) (rs ps : List Route) (supply : Map ℕ ℕ)
    → ((p : Route) → p.value ≡ 0 → f p ≡ 0)
    → IsSorted supply
    → ((u : ℕ) → from_source u rs ≡ amount_at u supply)
    → All (λ (p : Route). p.value ≤ from_source p.source rs) ps
    → sum_by (λ (e : ℕ × ℕ). sum_by f (of_source e.0 ps)) supply ≡ sum_by f ps
grouped-part f rs [] supply z h c b = grouped-none f supply
grouped-part f rs (p ∷ ps) supply z h c b = ground (
  arith,
  grouped-cons f p ps supply,
  grouped-part f rs ps supply z h c b.1,
  once f p supply h,
  z p,
  c p.source,
  b.0,
)

-- Weighed by underwriter or all together, the routes weigh the same, if a route that carries nothing
-- weighs nothing and they carry what the supply says.
pub grouped-sum :
    (f : Route → ℕ) (rs : List Route) (supply : Map ℕ ℕ)
    → ((p : Route) → p.value ≡ 0 → f p ≡ 0)
    → IsSorted supply
    → ((u : ℕ) → from_source u rs ≡ amount_at u supply)
    → sum_by (λ (e : ℕ × ℕ). sum_by f (of_source e.0 rs)) supply ≡ sum_by f rs
grouped-sum f rs supply z h c =
    grouped-part f rs rs supply z h c (source-le rs rs (λ u. omega arith))
