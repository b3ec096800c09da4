-- ===== src/Kernel/Network/Index.antt =====
-- `Network::index` and `Network::out` of crates/kernel/src/flow.rs: the counting sort of the arcs.
use edet.Base.{
  ℕ, zero, suc, ◌+◌, ◌-◌, ◌≤◌, ◌<◌, ◌≡◌, refl, ap, ◌∙◌, inl, inr, List, [], ◌∷◌, arith, dec_lt,
  dec_le, length, get_or, replicate, take, drop, length-replicate, length-take, length-drop,
  get_or-take, get_or-drop,
}
use native.Mathlib.Numerals.{add-one}
use edet.Kernel.Network.Counts.{
  count, below, leaving, AllUnder, length-leaving, below_all, below_mono, length-count_tails,
  count_tails-zero, count_tails-suc, length-running_sums, running_sums-below, get_or_ext,
}
use edet.Kernel.Network.{count_tails, running_sums, place, out, index, Network}
use edet.Kernel.Network.Place.{Disjoint, length-place, place-leaving}

-- `below` gives each node a stretch of its own.
starts-Disjoint :
    (start tail : List ℕ) (n : ℕ)
    → ((u : ℕ) → u ≤ n → get_or start u 0 ≡ below u tail)
    → ((u : ℕ) → n < u → (get_or start u 0 ≡ 0) × (count u tail ≡ 0))
    → Disjoint start tail
starts-Disjoint start tail n low high s t ne = elim (dec_le s n) [
  | no past ↦ inl (omega (arith, high s (omega arith)))
  | yes s_in ↦ elim (dec_le t n) [
    | no past ↦ inr (omega (arith, high t (omega arith)))
    | yes t_in ↦ elim (dec_lt s t) [
      | yes lt ↦ inl (omega (arith, below_mono s t tail lt, low s s_in, low t t_in))
      | no ge ↦
          let gt : t < s = omega arith in
          inr (omega (arith, below_mono t s tail gt, low s s_in, low t t_in))
    ]
  ]
]

count_past : (u n : ℕ) (tail : List ℕ) → n ≤ u → AllUnder n tail → count u tail ≡ 0
count_past u n [] le h = refl
count_past u n (t ∷ tail) le h = ground (arith, count_past u n tail le h.1)

get_or_past : (xs : List ℕ) (i : ℕ) → length xs ≤ i → get_or xs i 0 ≡ 0
get_or_past [] i h = refl
get_or_past (x ∷ xs) zero h = elim h [ ]
get_or_past (x ∷ xs) (suc i) h = get_or_past xs i (omega arith)

get_or-replicate : (n i : ℕ) → get_or (replicate {A = ℕ} n 0) i 0 ≡ 0
get_or-replicate zero i = refl
get_or-replicate (suc n) zero = refl
get_or-replicate (suc n) (suc i) = get_or-replicate n i

under_more : (n : ℕ) (tail : List ℕ) → AllUnder n tail → AllUnder (n + 1) tail
under_more n [] h = tt
under_more n (t ∷ tail) h = (omega arith, under_more n tail h.1)

module _ (tail : List ℕ) (nodes : ℕ) (under : AllUnder nodes tail) where
  counts : List ℕ
  counts = count_tails tail (replicate (nodes + 1) 0)

  start : List ℕ
  start = running_sums nodes 0 counts

  length-counts : length counts ≡ nodes + 1
  unfolding counts
  length-counts =
      length-count_tails tail (replicate (nodes + 1) 0) ∙ length-replicate {A = ℕ} (nodes + 1) 0

  length-start : length start ≡ nodes + 1
  unfolding start
  length-start = length-running_sums nodes 0 counts ∙ length-counts

  start-below : (u : ℕ) → u ≤ nodes → get_or start u 0 ≡ below u tail
  unfolding start counts
  start-below u le =
      running_sums-below nodes 0 counts tail (omega (arith, length-counts))
        (λ j lt.
          let e : j ≡ 0 = omega arith in
          rw e (count_tails-zero tail (replicate (nodes + 1) 0) ∙ get_or-replicate (nodes + 1) 0))
        (λ v _ lt. omega (
          arith,
          count_tails-suc tail (replicate (nodes + 1) 0) v
              (omega (arith, length-counts, length-replicate {A = ℕ} (nodes + 1) 0)),
          get_or-replicate (nodes + 1) (suc v),
        ))
        u (omega arith)

  past : (u : ℕ) → nodes < u → (get_or start u 0 ≡ 0) × (count u tail ≡ 0)
  past u lt = (
    get_or_past start u (omega (arith, length-start)),
    count_past u nodes tail (omega arith) under,
  )

  fits : (u : ℕ) → get_or start u 0 + count u tail ≤ length (replicate {A = ℕ} (length tail) 0)
  fits u = elim (dec_lt u nodes) [
    | yes lt ↦ omega (
      arith,
      start-below u (omega arith),
      below_mono u nodes tail lt,
      below_all nodes tail under,
      length-replicate {A = ℕ} (length tail) 0,
    )
    | no ge ↦ elim (dec_le u nodes) [
      | yes le ↦
          let e : u ≡ nodes = omega arith in
          omega (
            arith,
            start-below u le,
            ap (λ v. below v tail) e,
            below_all nodes tail under,
            count_past u nodes tail (omega arith) under,
            length-replicate {A = ℕ} (length tail) 0,
          )
      | no gt ↦ omega (arith, past u (omega arith))
    ]
  ]

  placed : List ℕ
  placed = place tail 0 start (replicate (length tail) 0)

  stretch :
      (u : ℕ)
      → u < nodes
      → take (get_or start (u + 1) 0 - get_or start u 0) (drop (get_or start u 0) placed)
        ≡ leaving u 0 tail
  unfolding placed
  stretch u lt = get_or_ext _ (leaving u 0 tail) sizes λ j in_range.
      get_or-take width j (drop (get_or start u 0) placed) 0
        (omega (arith, length-take width (drop (get_or start u 0) placed), in_range))
      ∙ get_or-drop (get_or start u 0) j placed 0
      ∙ place-leaving tail 0 start (replicate (length tail) 0) u j
          (rw length-start (under_more nodes tail under))
          (starts-Disjoint start tail nodes start-below past) fits
          (omega (arith, length-take width (drop (get_or start u 0) placed), in_range, next))
    where
      width : ℕ
      width = get_or start (u + 1) 0 - get_or start u 0

      next : get_or start (u + 1) 0 ≡ get_or start u 0 + count u tail
      next =
          rw add-one (omega (arith, start-below (suc u) (omega arith), start-below u (omega arith)))

      sizes : length (take width (drop (get_or start u 0) placed)) ≡ length (leaving u 0 tail)
      sizes = omega (
        arith,
        length-take width (drop (get_or start u 0) placed),
        length-drop (get_or start u 0) placed,
        length-place tail 0 start (replicate (length tail) 0),
        fits u,
        next,
        length-leaving u 0 tail,
      )

-- Every arc from one of the network's nodes being indexed, the arcs listed for a node are exactly
-- the arcs that leave it, in the order in which they were added.
pub out-index :
    (net : Network) (nodes u : ℕ)
    → AllUnder nodes net.tail
    → u < nodes
    → out (index net nodes) u ≡ leaving u 0 net.tail
unfolding out index stretch start counts placed
out-index net nodes u under lt = stretch net.tail nodes under u lt
