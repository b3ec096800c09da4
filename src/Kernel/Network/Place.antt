-- ===== src/Kernel/Network/Place.antt =====
-- What `place`, the last loop of `Network::index`, leaves in each node's stretch of the list.
use edet.Base.{
  ℕ, zero, suc, ◌+◌, ◌≤◌, ◌<◌, ◌≡◌, refl, sym, ◌∙◌, ◌≢◌, ◌⊎◌, List, [], ◌∷◌, arith, ℕ_discrete,
  length, get_or, set, get_or-set_self, get_or-set_ne, length-set, subst,
}
use edet.Kernel.Network.Counts.{count, leaving, AllUnder}
use edet.Kernel.Network.{place}

-- Each node's stretch of the sorted list, and what `place` leaves in it.
abbrev pub Apart : ℕ → ℕ → ℕ → ℕ → Type 0
Apart a m b n = (a + m ≤ b) ⊎ (b + n ≤ a)

abbrev pub Disjoint : List ℕ → List ℕ → Type 0
Disjoint cursor tail =
    (s t : ℕ) → s ≢ t → Apart (get_or cursor s 0) (count s tail) (get_or cursor t 0) (count t tail)

-- No stretch has the position `p`.
abbrev pub Outside : List ℕ → List ℕ → ℕ → Type 0
Outside cursor tail p = (t : ℕ) → (p < get_or cursor t 0) ⊎ (get_or cursor t 0 + count t tail ≤ p)

pub length-place :
    (tail : List ℕ) (id : ℕ) (cursor arcs : List ℕ)
    → length (place tail id cursor arcs) ≡ length arcs
unfolding place
length-place [] id cursor arcs = refl
length-place (t ∷ tail) id cursor arcs =
    length-place tail (id + 1) _ _ ∙ length-set arcs (get_or cursor t 0) id

module _ (t : ℕ) (tail : List ℕ) (cursor : List ℕ) (lt : t < length cursor) where
  moved : List ℕ
  moved = set cursor t (get_or cursor t 0 + 1)

  moved_stretch :
      (s : ℕ)
      → (get_or moved s 0 + count s tail ≡ get_or cursor s 0 + count s (t ∷ tail))
        × (get_or cursor s 0 ≤ get_or moved s 0)
        × ((s ≡ t) → get_or moved s 0 ≡ get_or cursor s 0 + 1)
        × ((s ≢ t) → get_or moved s 0 ≡ get_or cursor s 0)
  unfolding moved
  moved_stretch s = elim (ℕ_discrete s t) [
    | yes e ↦
        let w = get_or-set_self cursor t (get_or cursor t 0 + 1) 0 lt in
        rw e (ground (arith, w), ground (arith, w), ground (arith, w), ground (arith, w))
    | no ne ↦
        let w = get_or-set_ne cursor t s (get_or cursor t 0 + 1) 0 (λ e. ne (sym e)) in
        (ground (arith, w), ground (arith, w), ground (arith, w), ground (arith, w))
  ]

  moved-Disjoint : Disjoint cursor (t ∷ tail) → Disjoint moved tail
  moved-Disjoint d a b ne = ground (arith, d a b ne, moved_stretch a, moved_stretch b)

  moved-Outside : (p : ℕ) → Outside cursor (t ∷ tail) p → Outside moved tail p
  moved-Outside p h s = ground (arith, h s, moved_stretch s)

  head-Outside : Disjoint cursor (t ∷ tail) → Outside moved tail (get_or cursor t 0)
  head-Outside d s = elim (ℕ_discrete s t) [
    | yes e ↦ ground (arith, moved_stretch s)
    | no ne ↦ ground (arith, d s t ne, moved_stretch s)
  ]

place-Outside :
    (tail : List ℕ) (id : ℕ) (cursor arcs : List ℕ) (p : ℕ)
    → AllUnder (length cursor) tail
    → Disjoint cursor tail
    → Outside cursor tail p
    → get_or (place tail id cursor arcs) p 0 ≡ get_or arcs p 0
unfolding place moved
place-Outside [] id cursor arcs p h d o = refl
place-Outside (t ∷ tail) id cursor arcs p h d o =
    let cursor' = moved t tail cursor h.0 in
    let under : AllUnder (length cursor') tail =
      rw (length-set cursor t (get_or cursor t 0 + 1)) h.1 in
    place-Outside tail (id + 1) cursor' (set arcs (get_or cursor t 0) id) p under
      (moved-Disjoint t tail cursor h.0 d) (moved-Outside t tail cursor h.0 p o)
    ∙ get_or-set_ne arcs (get_or cursor t 0) p id 0 (ground (arith, o t))

-- The stretch of the head's own node: the entry written now, then what the rest writes.
place_head :
    (t : ℕ) (tail : List ℕ) (id : ℕ) (cursor arcs : List ℕ)
    → AllUnder (length cursor) (t ∷ tail)
    → Disjoint cursor (t ∷ tail)
    → get_or cursor t 0 < length arcs
    → ((j : ℕ)
        → j < count t tail
        → get_or (place (t ∷ tail) id cursor arcs) (get_or cursor t 0 + 1 + j) 0
          ≡ get_or (leaving t (id + 1) tail) j 0)
    → (j : ℕ) → j < count t (t ∷ tail)
    → get_or (place (t ∷ tail) id cursor arcs) (get_or cursor t 0 + j) 0
      ≡ get_or (leaving t id (t ∷ tail)) j 0
unfolding place moved
place_head t tail id cursor arcs h d room later zero lt =
    let cursor' = moved t tail cursor h.0 in
    let arcs' = set arcs (get_or cursor t 0) id in
    let under : AllUnder (length cursor') tail =
      rw (length-set cursor t (get_or cursor t 0 + 1)) h.1 in
    let written =
      place-Outside tail (id + 1) cursor' arcs' (get_or cursor t 0) under
        (moved-Disjoint t tail cursor h.0 d) (head-Outside t tail cursor h.0 d) in
    ground (arith, written, get_or-set_self arcs (get_or cursor t 0) id 0 room)
place_head t tail id cursor arcs h d room later (suc j) lt = ground (arith, later j (ground arith))

pub place-leaving :
    (tail : List ℕ) (id : ℕ) (cursor arcs : List ℕ) (u j : ℕ)
    → AllUnder (length cursor) tail
    → Disjoint cursor tail
    → ((t : ℕ) → get_or cursor t 0 + count t tail ≤ length arcs)
    → j < count u tail
    → get_or (place tail id cursor arcs) (get_or cursor u 0 + j) 0 ≡ get_or (leaving u id tail) j 0
unfolding place moved
place-leaving [] id cursor arcs u j h d fits lt = elim lt [ ]
place-leaving (t ∷ tail) id cursor arcs u j h d fits lt =
    let cursor' = moved t tail cursor h.0 in
    let arcs' = set arcs (get_or cursor t 0) id in
    let under : AllUnder (length cursor') tail =
      rw (length-set cursor t (get_or cursor t 0 + 1)) h.1 in
    let later = λ (i : ℕ) (lt' : i < count u tail).
      place-leaving tail (id + 1) cursor' arcs' u i under (moved-Disjoint t tail cursor h.0 d)
        (λ s. omega (
          arith,
          fits s,
          (moved_stretch t tail cursor h.0 s).0,
          length-set arcs (get_or cursor t 0) id,
        ))
        lt' in
    elim (ℕ_discrete u t) [
      | yes e ↦
          let at_t = (moved_stretch t tail cursor h.0 u).2 e in
          let Goal : ℕ → Type 0 = λ v.
            j < count v (t ∷ tail)
            → get_or (place (t ∷ tail) id cursor arcs) (get_or cursor v 0 + j) 0
              ≡ get_or (leaving v id (t ∷ tail)) j 0 in
          subst Goal (sym e)
            (place_head t tail id cursor arcs h d (ground (arith, fits t))
              (λ i lt'. ground (arith, later i (rw e lt'), at_t, e)) j)
            lt
      | no ne ↦ ground (arith, later j (ground arith), (moved_stretch t tail cursor h.0 u).3 ne)
    ]
