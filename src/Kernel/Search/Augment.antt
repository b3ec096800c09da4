-- ===== src/Kernel/Search/Augment.antt =====
-- What one augmentation does to the capacities of the path's arcs, and where it cuts the path.
use edet.Base.{
  ℕ, ◌-◌, ◌≤◌, ◌<◌, ◌≡◌, refl, ◌∙◌, ◌⊎◌, inl, inr, Bool, true, false, Option, List, [], ◌∷◌, arith,
  ◌==◌, Bool-cases, length, All,
}
use edet.Kernel.Search.{augment, push_arc, path_end, cap_at}
use edet.Kernel.Search.Sound.{Sound, Up, tail_of, Up-ne}
use edet.Kernel.Search.Paths.{Climbs, augment_other, length-augment, cap_at-push_arc}
use edet.Kernel.Network.{Network}

pub All-map {ℓ κ μ} :
    {A : Type ℓ} {P : A → Type κ} {Q : A → Type μ} (xs : List A)
    → ((x : A) → P x → Q x)
    → All P xs
    → All Q xs
All-map [] f h = tt
All-map (x ∷ xs) f h = (f x h.0, All-map xs f h.1)

module _ (net : Network) (level : List (Option ℕ)) (s : Sound net) where
  -- Arcs below a level keep what they have when an arc of that level is pushed.
  push_above :
      (push : ℕ) (a : ℕ) (k : ℕ) (before cap : List ℕ) (path : List ℕ)
      → length cap ≡ length net.to
      → Up net level k a
      → Climbs net level path
      → length path ≤ k
      → All (λ x. cap_at cap x ≡ cap_at before x - push) path
      → All (λ x. cap_at (push_arc push a cap) x ≡ cap_at before x - push) path
  push_above push a k before cap [] len u c le h = tt
  push_above push a k before cap (x ∷ path) len u c le h = (
    ground (
      arith,
      cap_at-push_arc net level push k (length path) a x cap s len u c.0,
      Up-ne net level (length path) k x a c.0 u (omega arith),
      h.0,
    ),
    push_above push a k before cap path len u c.2 (omega arith) h.1,
  )

  -- Every arc of the path loses what is pushed.
  pub augment_each :
      (push : ℕ) (path cap : List ℕ)
      → length cap ≡ length net.to
      → Climbs net level path
      → All (λ x. cap_at (augment push path cap).0 x ≡ cap_at cap x - push) path
  unfolding augment
  augment_each push [] cap len c = tt
  augment_each push (a ∷ path) cap len c =
      let rest = (augment push path cap).0 in
      let len' : length rest ≡ length net.to = length-augment net level push path cap ∙ len in
      (
        ground (
          arith,
          cap_at-push_arc net level push (length path) (length path) a a rest s len' c.0 c.0,
          augment_other net level push a (length path) path cap s c.2 c.0 (omega arith),
        ),
        push_above push a (length path) cap rest path len' c.0 c.2 (omega arith)
            (augment_each push path cap len c.2),
      )

  -- Where the path is cut: no arc of it is saturated and it is whole, or what is kept climbs and the
  -- arc above it is saturated.
  abbrev pub CutOf : List ℕ → List ℕ × Bool × List ℕ → Type 0
  CutOf path (cap, hit, kept) =
      ((hit ≡ false) × (kept ≡ path) × All (λ x. 0 < cap_at cap x) path)
      ⊎ ((hit ≡ true)
          × (b : ℕ) × Up net level (length kept) b
          × (tail_of net b ≡ path_end net kept)
          × Climbs net level kept
          × (length kept < length path)
          × (cap_at cap b ≡ 0))

  push_positive :
      (push : ℕ) (a : ℕ) (k : ℕ) (cap : List ℕ) (path : List ℕ)
      → length cap ≡ length net.to
      → Up net level k a
      → Climbs net level path
      → length path ≤ k
      → All (λ x. 0 < cap_at cap x) path
      → All (λ x. 0 < cap_at (push_arc push a cap) x) path
  push_positive push a k cap [] len u c le h = tt
  push_positive push a k cap (x ∷ path) len u c le h = (
    ground (
      arith,
      cap_at-push_arc net level push k (length path) a x cap s len u c.0,
      Up-ne net level (length path) k x a c.0 u (omega arith),
      h.0,
    ),
    push_positive push a k cap path len u c.2 (omega arith) h.1,
  )

  pub augment_cut :
      (push : ℕ) (path cap : List ℕ)
      → length cap ≡ length net.to
      → Climbs net level path
      → CutOf path (augment push path cap)
  unfolding augment
  augment_cut push [] cap len c = inl (refl, refl, tt)
  augment_cut push (a ∷ path) cap len c =
      let (rest, hit, kept) = augment push path cap in
      let len' : length rest ≡ length net.to = length-augment net level push path cap ∙ len in
      elim (augment_cut push path cap len c.2) [
        | inl (clear, same, positive) ↦ elim (Bool-cases (cap_at (push_arc push a rest) a == 0)) [
          | inl gone ↦ rw (clear, gone) (inr (refl, a, c.0, c.1, c.2, omega arith, ground arith))
          | inr left ↦
              rw (clear, left)
                (inl (
                  refl,
                  refl,
                  (
                    ground arith,
                    push_positive push a (length path) rest path len' c.0 c.2 (omega arith)
                        positive,
                  ),
                ))
        ]
        | inr (found, b, up, joins, climbs, shorter, empty) ↦ rw found (
            inr (
              refl,
              b,
              up,
              joins,
              climbs,
              omega arith,
              ground (
                arith,
                cap_at-push_arc net level push (length path) (length kept) a b rest s len' c.0 up,
                Up-ne net level (length kept) (length path) b a up c.0 (omega arith),
                empty,
              ),
            ))
      ]
