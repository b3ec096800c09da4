-- ===== src/Kernel/Search/Walking.antt =====
-- The path of the inner loop of `Network::flow`, through each of its turns.
use edet.Base.{
  ℕ, zero, suc, ◌+◌, ◌-◌, ◌≤◌, ◌<◌, ◌≡◌, refl, ap, ◌∙◌, inl, inr, Bool, true, false, Option, none,
  some, List, [], ◌∷◌, arith, leb, ◌==◌, Bool-cases, length, get_or, set, drop, All, subst,
}
use edet.Kernel.Search.{
  Walk, scan, usable, augment, path_end, nodes, bottleneck, augment_step, retreat_step,
  advance_step, move_on, step, walk,
}
use edet.Kernel.Search.Sound.{Sound, Up, tail_of, IsArc}
use edet.Kernel.Search.Paths.{Climbs, length-augment}
use edet.Kernel.Search.Augment.{augment_cut, CutOf}
use edet.Kernel.Network.{Network, out}
use native.Mathlib.Nat.{suc-add}

pub drop_next {ℓ} :
    {A : Type ℓ} (n : ℕ) (xs : List A) {x : A} {rest : List A}
    → drop n xs ≡ x ∷ rest
    → drop (n + 1) xs ≡ rest
drop_next zero [] e = cc
drop_next zero (y ∷ ys) e = cc
drop_next (suc n) [] e = cc
drop_next (suc n) (y ∷ ys) e = rw suc-add (drop_next n ys e)

pub All-drop {ℓ κ} :
    {A : Type ℓ} (P : A → Type κ) (n : ℕ) (xs : List A) → All P xs → All P (drop n xs)
All-drop P zero xs h = h
All-drop P (suc n) [] h = tt
All-drop P (suc n) (y ∷ ys) h = All-drop P n ys h.1

module _ (net : Network) (level : List (Option ℕ)) (s : Sound net)
    (root : get_or level net.src none ≡ some 0) where
  pub level_end :
      (path : List ℕ)
      → Climbs net level path
      → get_or level (path_end net path) none ≡ some (length path)
  level_end [] c = root
  level_end (a ∷ path) c = c.0.high

  pub end_in : (path : List ℕ) → Climbs net level path → path_end net path < nodes net
  end_in [] c = s.src_in
  end_in (a ∷ path) c = s.heads a c.0.arc

  -- What a scan of the arcs from place `i` finds.
  pub Scanned : List ℕ → ℕ → List ℕ → ℕ → ℕ × Option ℕ → Type 0
  Scanned all i cap u (j, none) = (i ≤ j) × (drop j all ≡ [])
  Scanned all i cap u (j, some a) =
      (i ≤ j) × (usable net level cap u a ≡ true) × (rest : List ℕ) × (drop j all ≡ a ∷ rest)

  Scanned-later :
      (all : List ℕ) (i : ℕ) (cap : List ℕ) (u : ℕ) (r : ℕ × Option ℕ)
      → Scanned all (i + 1) cap u r
      → Scanned all i cap u r
  unfolding Scanned
  Scanned-later all i cap u (j, none) h = (omega (arith, h.0), h.1)
  Scanned-later all i cap u (j, some a) h = (omega (arith, h.0), h.1, h.2, h.3)

  scan_lem :
      (all : List ℕ) (i : ℕ) (cap : List ℕ) (u : ℕ) (arcs : List ℕ)
      → drop i all ≡ arcs
      → Scanned all i cap u (scan net level cap u arcs i)
  unfolding scan Scanned
  scan_lem all i cap u [] e = (omega arith, e)
  scan_lem all i cap u (a ∷ arcs) e =
      let rest = scan_lem all (i + 1) cap u arcs (drop_next i all e) in
      elim (Bool-cases (usable net level cap u a)) [
        | inl fit ↦ rw fit (omega arith, fit, arcs, e)
        | inr unfit ↦ rw unfit (Scanned-later all i cap u (scan net level cap u arcs (i + 1)) rest)
      ]

  -- The path is the inner loop's: it climbs, it ends at `u`, and the capacities are the network's.
  pub record Walking (w : Walk) : Type 0 where
    pub climbs : Climbs net level w.path
    pub at_end : w.u ≡ path_end net w.path
    pub caps : length w.cap ≡ length net.to

  usable-Up :
      (cap : List ℕ) (k u a : ℕ)
      → IsArc net a
      → tail_of net a ≡ u
      → get_or level u none ≡ some k
      → usable net level cap u a ≡ true
      → Up net level k a
  unfolding usable
  usable-Up cap k u a arc tail at ok = record {
    arc = arc;
    low = ap (λ v. get_or level v none) tail ∙ at;
    high = ground (arith, ok, at);
  }

  kept-Climbs :
      (path : List ℕ) (r : List ℕ × Bool × List ℕ)
      → Climbs net level path
      → CutOf net level s path r
      → Climbs net level r.2
  kept-Climbs path (cap, hit, kept) c (inl (_, same, _)) = rw same c
  kept-Climbs path (cap, hit, kept) c (inr (_, b, _, _, climbs, _, _)) = climbs

  pub augment_step-Walking : (limit : ℕ) (w : Walk) → Walking w → Walking (augment_step net limit w)
  unfolding augment_step
  augment_step-Walking limit w h =
      let push = bottleneck w.cap w.path (limit - w.total) in
      record {
        climbs =
            kept-Climbs w.path (augment push w.path w.cap) h.climbs
              (augment_cut net level s push w.path w.cap h.caps h.climbs);
        at_end = refl;
        caps = length-augment net level push w.path w.cap ∙ h.caps;
      }

  retreat_step_along :
      (w : Walk) (path : List ℕ)
      → Climbs net level path
      → w.u ≡ path_end net path
      → length w.cap ≡ length net.to
      → Walking (retreat_step net (record w { path = path }))
  unfolding retreat_step
  retreat_step_along w [] c e caps = record { climbs = tt; at_end = e; caps = caps }
  retreat_step_along w (a ∷ path) c e caps = record {
    climbs = c.2;
    at_end = (s.mates a c.0.arc).1 ∙ c.1;
    caps = caps;
  }

  pub retreat_step-Walking : (w : Walk) → Walking w → Walking (retreat_step net w)
  retreat_step-Walking w h = retreat_step_along w w.path h.climbs h.at_end h.caps

  -- The scan settles a dead end, or an arc out of the path's end that goes up.
  move_on-Walking :
      (w : Walk) (i : ℕ) (r : ℕ × Option ℕ)
      → Walking w
      → Scanned (out net w.u) i w.cap w.u r
      → Walking (move_on net w r)
  unfolding move_on Scanned
  move_on-Walking w i (j, none) h found =
      retreat_step-Walking (record w { next_arc = set w.next_arc w.u j })
        (record { climbs = h.climbs; at_end = h.at_end; caps = h.caps })
  move_on-Walking w i (j, some a) h (_, fit, rest, e) =
      let in_graph : w.u < nodes net = rw h.at_end (end_in w.path h.climbs) in
      let arcs : All (λ x. IsArc net x × (tail_of net x ≡ w.u)) (a ∷ rest) =
        subst (All (λ x. IsArc net x × (tail_of net x ≡ w.u))) e (
          All-drop (λ x. IsArc net x × (tail_of net x ≡ w.u)) j (out net w.u)
            (s.listed w.u in_graph)) in
      let at : get_or level w.u none ≡ some (length w.path) =
        ap (λ v. get_or level v none) h.at_end ∙ level_end w.path h.climbs in
      record {
        climbs = (
          usable-Up w.cap (length w.path) w.u a arcs.0.0 arcs.0.1 at fit,
          arcs.0.1 ∙ h.at_end,
          h.climbs,
        );
        at_end = refl;
        caps = h.caps;
      }

  advance_step-Walking : (w : Walk) → Walking w → Walking (advance_step net level w)
  unfolding advance_step
  advance_step-Walking w h =
      let from = get_or w.next_arc w.u 0 in
      move_on-Walking w from (scan net level w.cap w.u (drop from (out net w.u)) from) h
        (scan_lem (out net w.u) from w.cap w.u (drop from (out net w.u)) refl)

  -- One turn of the inner loop keeps the path a path of the level graph from the source to the node
  -- the loop stands at.
  pub step-Walking : (limit : ℕ) (w : Walk) → Walking w → Walking (step net level limit w)
  unfolding step
  step-Walking limit w h = elim (Bool-cases (leb limit w.total)) [
    | inl full ↦ rw full (record { climbs = h.climbs; at_end = h.at_end; caps = h.caps })
    | inr room ↦ rw room (elim (Bool-cases (w.u == net.snk)) [
      | inl there ↦ rw there (augment_step-Walking limit w h)
      | inr short ↦ rw short (advance_step-Walking w h)
    ])
  ]

  pub walk-Walking : (fuel limit : ℕ) (w : Walk) → Walking w → Walking (walk fuel net level limit w)
  unfolding walk
  walk-Walking zero limit w h = h
  walk-Walking (suc fuel) limit w h =
      settle w.halted (walk-Walking fuel limit (step net level limit w) (step-Walking limit w h))
    where
      next : Walk
      next = walk fuel net level limit (step net level limit w)

      settle : (b : Bool) → Walking next → Walking (elim b [ true ↦ w | false ↦ next ])
      settle true rest = h
      settle false rest = rest
