-- ===== src/Kernel/Search/Sound.antt =====
-- What the search relies on in a network, and the arcs that go up the level graph.
use edet.Base.{ℕ, suc, ◌<◌, ◌≡◌, ap, ◌≢◌, Option, none, some, List, arith, length, get_or, All}
use edet.Kernel.Search.{nodes, head}
use edet.Kernel.Network.{Network, mate, out}

abbrev pub tail_of : Network → ℕ → ℕ
tail_of net a = get_or net.tail a 0

abbrev pub IsArc : Network → ℕ → Type 0
IsArc net a = a < length net.to

-- Every list of arcs is of arcs that leave its node, and an arc and its mate run between the same
-- two nodes in the two directions.
pub record Sound (net : Network) : Type 0 where
  pub listed : (u : ℕ) → u < nodes net → All (λ a. IsArc net a × (tail_of net a ≡ u)) (out net u)
  pub mates :
      (a : ℕ)
      → IsArc net a
      → IsArc net (mate a)
        × (head net (mate a) ≡ tail_of net a)
        × (tail_of net (mate a) ≡ head net a)
  pub heads : (a : ℕ) → IsArc net a → head net a < nodes net
  pub caps : length net.cap ≡ length net.to
  pub src_in : net.src < nodes net
  pub snk_in : net.snk < nodes net
  pub apart : net.src ≢ net.snk

-- The arc leaves level `k` for level `k + 1`.
pub record Up (net : Network) (level : List (Option ℕ)) (k a : ℕ) : Type 0 where
  pub arc : IsArc net a
  pub low : get_or level (tail_of net a) none ≡ some k
  pub high : get_or level (head net a) none ≡ some (suc k)

pub Up-ne :
    (net : Network) (level : List (Option ℕ)) (j k a b : ℕ)
    → Up net level j a
    → Up net level k b
    → j ≢ k
    → a ≢ b
Up-ne net level j k a b p q ne e = ne (cc (p.low, q.low, e))

-- The mate of an arc that goes up goes down, so it is no arc that goes up.
pub Up-ne-mate :
    (net : Network) (level : List (Option ℕ)) (j k a b : ℕ)
    → Sound net
    → Up net level j a
    → Up net level k b
    → a ≢ mate b
Up-ne-mate net level j k a b s p q e =
    let (_, h, t) = s.mates b q.arc in
    ground (arith, p.low, p.high, q.low, q.high, ap (head net) e, ap (tail_of net) e, h, t)
