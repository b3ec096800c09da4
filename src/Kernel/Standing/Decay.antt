-- ===== src/Kernel/Standing/Decay.antt =====
-- What `decay` does to each edge.
use edet.Base.{
  inl, inr, ℕ, ◌*◌, ◌/◌, ◌%◌, ◌^◌, ◌<◌, ◌≡◌, refl, max, Option, none, some, [], ◌∷◌, arith, ltb,
  ◌==◌, if◌then◌else◌, or_else,
}
use native.Mathlib.Nat.{mod-eq_of_lt, div-le_of_le-mul}
use edet.Map.{get, amount_at, IsSorted, Above}
use edet.Map.Keys.{pair_ordered}
use edet.Map.Laws.{get-retain, get-Above, cmp_cases, Above-mono}
use edet.Kernel.{Edges, Reservations}
use edet.Kernel.Cursor
use edet.Kernel.Cursor.{ReservedCursor}
use edet.Kernel.Cursor.Lookup.{at-lookup}
use edet.Kernel.Standing.{decay, decay_walk}

-- The stake that one edge keeps.
abbrev pub faded : ℕ → ℕ → ℕ → ℕ → ℕ
faded w num den floor = max (w * num / den % 2 ^ 64) floor

decay_walk-Above :
    (k : ℕ × ℕ) (edges : Edges) (held : ReservedCursor) (num den : ℕ)
    → Above k edges
    → Above k (decay_walk edges held num den)
unfolding decay_walk
decay_walk-Above k [] held num den h = tt
decay_walk-Above k ((j, w) ∷ edges) held num den h =
    (h.0, decay_walk-Above k edges (Cursor.at j held).1 num den h.1)

decay_walk-IsSorted :
    (edges : Edges) (held : ReservedCursor) (num den : ℕ)
    → IsSorted edges
    → IsSorted (decay_walk edges held num den)
unfolding decay_walk
decay_walk-IsSorted [] held num den h = tt
decay_walk-IsSorted ((j, w) ∷ edges) held num den h = (
  decay_walk-Above j edges (Cursor.at j held).1 num den h.0,
  decay_walk-IsSorted edges (Cursor.at j held).1 num den h.1,
)

abbrev fade_entry : Option ℕ → ℕ → ℕ → ℕ → Option ℕ
fade_entry none num den floor = none
fade_entry (some w) num den floor = some (faded w num den floor)

get-decay_walk :
    (k : ℕ × ℕ) (edges : Edges) (held : ReservedCursor) (num den : ℕ)
    → IsSorted edges
    → IsSorted held
    → get k (decay_walk edges held num den) ≡ fade_entry (get k edges) num den (amount_at k held)
unfolding decay_walk
get-decay_walk k [] held num den h c = refl
get-decay_walk k ((j, w) ∷ edges) held num den h c =
    let (v, s, later) = at-lookup j held c in
    let ih = get-decay_walk k edges (Cursor.at j held).1 num den h.1 s in
    elim (cmp_cases k j) [
      | inl below ↦ ground (arith, ih, get-Above k edges (Above-mono k j edges below h.0), below)
      | inr (inl (eq, same)) ↦ ground (arith, eq, same, v)
      | inr (inr (gt, lt)) ↦ ground (arith, ih, gt, later k lt)
    ]

-- A stake and its numerator, in range, stay in range.
fade_fits : (w num den : ℕ) → w < 2 ^ 64 → num < den → w * num / den % 2 ^ 64 ≡ w * num / den
fade_fits w num den h lt =
    mod-eq_of_lt (omega (arith, div-le_of_le-mul den {m = w * num} {n = w} (grind arith), h))

-- What a stake and its reservation become over one epoch: the stake fades to `num / den` of
-- itself rounded down, is held up by the reservation, and goes when nothing is left.
abbrev pub aged : Option ℕ → ℕ → ℕ → ℕ → Option ℕ
aged none num den floor = none
aged (some w) num den floor =
    if max (w * num / den) floor == 0 then none else some (max (w * num / den) floor)

-- On ordered maps of 64-bit stakes, with a fading ratio, every edge decays to the given share of itself
-- rounded down or to its reservation, whichever is more, and an edge left with nothing goes.
pub get-decay :
    (edges : Edges) (reserved : Reservations) (num den : ℕ) (k : ℕ × ℕ)
    → IsSorted edges
    → IsSorted reserved
    → or_else (get k edges) 0 < 2 ^ 64
    → num < den
    → get k (decay edges reserved num den) ≡ aged (get k edges) num den (amount_at k reserved)
unfolding decay
get-decay edges reserved num den k h c small lt = ground (
  arith,
  get-retain k (λ _ w. ltb 0 w) (decay_walk edges reserved num den)
      (decay_walk-IsSorted edges reserved num den h),
  get-decay_walk k edges reserved num den h c,
  fade_fits (or_else (get k edges) 0) num den small lt,
)
