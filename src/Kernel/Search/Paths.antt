-- ===== src/Kernel/Search/Paths.antt =====
-- The path of the inner loop of `Network::flow`, up the level graph, and its augmentation.
use edet.Base.{
  ℕ, ◌+◌, ◌-◌, ◌≤◌, ◌≡◌, refl, ◌∙◌, Option, List, [], ◌∷◌, arith, ◌==◌, if◌then◌else◌, length, set,
  length-set, get_or-set_ne, get_or-set_self,
}
use edet.Kernel.Search.{augment, push_arc, path_end, cap_at}
use edet.Kernel.Search.Sound.{Sound, Up, tail_of, Up-ne, Up-ne-mate}
use edet.Kernel.Network.{Network, mate}

module _ (net : Network) (level : List (Option ℕ)) where
  -- A path that climbs the levels from the source, its last arc first.
  abbrev pub Climbs : List ℕ → Type 0
  Climbs [] = Unit
  Climbs (a ∷ path) =
      Up net level (length path) a × (tail_of net a ≡ path_end net path) × Climbs path

  -- The path has no arc of level `k` or above, so it has none of these arcs and none of their mates.
  pub augment_other :
      (push x k : ℕ) (path cap : List ℕ)
      → Sound net
      → Climbs path
      → Up net level k x
      → length path ≤ k
      → cap_at (augment push path cap).0 x ≡ cap_at cap x
  unfolding augment
  augment_other push x k [] cap s c u le = refl
  augment_other push x k (a ∷ path) cap s c u le =
      let rest = (augment push path cap).0 in
      ground (
        arith,
        augment_other push x k path cap s c.2 u (omega arith),
        Up-ne net level k (length path) x a u c.0 (omega arith),
        Up-ne-mate net level k (length path) x a s u c.0,
        get_or-set_ne rest a x (cap_at rest a - push) 0,
        get_or-set_ne (set rest a (cap_at rest a - push)) (mate a) x
            (cap_at (set rest a (cap_at rest a - push)) (mate a) + push) 0,
      )

  length-push_arc : (push a : ℕ) (cap : List ℕ) → length (push_arc push a cap) ≡ length cap
  length-push_arc push a cap =
      length-set (set cap a (cap_at cap a - push)) (mate a)
        (cap_at (set cap a (cap_at cap a - push)) (mate a) + push)
      ∙ length-set cap a (cap_at cap a - push)

  pub length-augment :
      (push : ℕ) (path cap : List ℕ) → length (augment push path cap).0 ≡ length cap
  unfolding augment
  length-augment push [] cap = refl
  length-augment push (a ∷ path) cap =
      length-push_arc push a (augment push path cap).0 ∙ length-augment push path cap

  -- An arc that goes up loses the pushed amount if it is the arc just pushed, and keeps what it has
  -- otherwise.
  pub cap_at-push_arc :
      (push k j a x : ℕ) (cap : List ℕ)
      → Sound net
      → length cap ≡ length net.to
      → Up net level k a
      → Up net level j x
      → cap_at (push_arc push a cap) x ≡ (if x == a then cap_at cap x - push else cap_at cap x)
  cap_at-push_arc push k j a x cap s len u v = ground (
    arith,
    Up-ne-mate net level j k x a s v u,
    u.arc,
    get_or-set_self cap a (cap_at cap a - push) 0,
    get_or-set_ne cap a x (cap_at cap a - push) 0,
    get_or-set_ne (set cap a (cap_at cap a - push)) (mate a) x
        (cap_at (set cap a (cap_at cap a - push)) (mate a) + push) 0,
  )
