-- ===== src/Kernel/Network/Counts.antt =====
-- The counts and the running sums of `Network::index`.
use edet.Base.{
  ℕ, zero, suc, ◌+◌, ◌≤◌, ◌<◌, ◌≡◌, refl, ◌∙◌, List, [], ◌∷◌, arith, dec_lt, dec_le, ltb, ◌==◌,
  if◌then◌else◌, length, get_or, set, All, get_or-set_ne, length-set, get_or-set_self,
}
use edet.Kernel.Network.{count_tails, running_sums}
use native.Mathlib.Numerals.{add-one}

-- How many arcs leave `u`, how many leave the nodes below it, and which leave it, counted from `id`.
abbrev pub count : ℕ → List ℕ → ℕ
count u [] = 0
count u (t ∷ tail) = if t == u then suc (count u tail) else count u tail

abbrev pub below : ℕ → List ℕ → ℕ
below zero tail = 0
below (suc u) tail = below u tail + count u tail

abbrev pub leaving : ℕ → ℕ → List ℕ → List ℕ
leaving u id [] = []
leaving u id (t ∷ tail) = if t == u then id ∷ leaving u (id + 1) tail else leaving u (id + 1) tail

abbrev pub AllUnder : ℕ → List ℕ → Type 0
AllUnder n = All (λ t. t < n)

pub length-leaving : (u id : ℕ) (tail : List ℕ) → length (leaving u id tail) ≡ count u tail
length-leaving u id [] = refl
length-leaving u id (t ∷ tail) = ground (arith, length-leaving u (id + 1) tail)

below-cons :
    (n t : ℕ) (tail : List ℕ) → below n (t ∷ tail) ≡ below n tail + (if ltb t n then 1 else 0)
below-cons zero t tail = ground arith
below-cons (suc n) t tail = ground (arith, below-cons n t tail)

pub below_all : (n : ℕ) (tail : List ℕ) → AllUnder n tail → below n tail ≡ length tail
below_all zero [] h = refl
below_all (suc n) [] h = omega (arith, below_all n [] tt)
below_all n (t ∷ tail) h = ground (arith, below-cons n t tail, below_all n tail h.1)

pub below_mono : (u n : ℕ) (tail : List ℕ) → u < n → below u tail + count u tail ≤ below n tail
below_mono u zero tail h = elim h [ ]
below_mono u (suc n) tail h = elim (dec_lt u n) [
  | yes lt ↦ omega (arith, below_mono u n tail lt)
  | no ge ↦ let e : u ≡ n = omega arith in rw e (omega arith)
]

-- Two lists of one length with the same elements at every index.
pub get_or_ext :
    (xs ys : List ℕ)
    → length xs ≡ length ys
    → ((i : ℕ) → i < length xs → get_or xs i 0 ≡ get_or ys i 0)
    → xs ≡ ys
get_or_ext [] [] e h = refl
get_or_ext [] (y ∷ ys) e h = absurd (omega arith)
get_or_ext (x ∷ xs) [] e h = absurd (omega arith)
get_or_ext (x ∷ xs) (y ∷ ys) e h =
    cc (h 0 (omega arith), get_or_ext xs ys (omega arith) (λ i lt. h (suc i) (omega arith)))

pub length-count_tails : (tail start : List ℕ) → length (count_tails tail start) ≡ length start
unfolding count_tails
length-count_tails [] start = refl
length-count_tails (t ∷ tail) start = length-count_tails tail _ ∙ length-set start (t + 1) _

pub count_tails-zero :
    (tail start : List ℕ) → get_or (count_tails tail start) 0 0 ≡ get_or start 0 0
unfolding count_tails
count_tails-zero [] start = refl
count_tails-zero (t ∷ tail) start =
    count_tails-zero tail _ ∙ get_or-set_ne start (t + 1) 0 _ 0 (omega arith)

pub count_tails-suc :
    (tail start : List ℕ) (u : ℕ)
    → suc u < length start
    → get_or (count_tails tail start) (suc u) 0 ≡ get_or start (suc u) 0 + count u tail
unfolding count_tails
count_tails-suc [] start u h = omega arith
count_tails-suc (t ∷ tail) start u h =
    let start' = set start (t + 1) (get_or start (t + 1) 0 + 1) in
    ground (
      arith,
      count_tails-suc tail start' u,
      length-set start (t + 1) (get_or start (t + 1) 0 + 1),
      get_or-set_ne start (t + 1) (suc u) (get_or start (t + 1) 0 + 1) 0,
      get_or-set_self start (t + 1) (get_or start (t + 1) 0 + 1) 0,
    )

pub length-running_sums :
    (k i : ℕ) (start : List ℕ) → length (running_sums k i start) ≡ length start
unfolding running_sums
length-running_sums zero i start = refl
length-running_sums (suc k) i start = length-running_sums k (i + 1) _ ∙ length-set start (i + 1) _

sum_step :
    (i : ℕ) (start tail : List ℕ)
    → get_or start i 0 ≡ below i tail
    → get_or start (suc i) 0 ≡ count i tail
    → get_or start (i + 1) 0 + get_or start i 0 ≡ below (i + 1) tail
sum_step i start tail e f = rw (add-one i) (omega (arith, e, f))

pub running_sums-below :
    (k i : ℕ) (start tail : List ℕ)
    → i + k < length start
    → ((j : ℕ) → j ≤ i → get_or start j 0 ≡ below j tail)
    → ((u : ℕ) → i ≤ u → suc u < length start → get_or start (suc u) 0 ≡ count u tail)
    → (j : ℕ) → j ≤ i + k
    → get_or (running_sums k i start) j 0 ≡ below j tail
unfolding running_sums
running_sums-below zero i start tail h low high j le = low j (omega arith)
running_sums-below (suc k) i start tail h low high j le =
    let v = get_or start (i + 1) 0 + get_or start i 0 in
    running_sums-below k (i + 1) (set start (i + 1) v) tail
      (omega (arith, length-set start (i + 1) v))
      (λ m lt. elim (dec_le m i) [
        | yes old ↦ get_or-set_ne start (i + 1) m v 0 (omega arith) ∙ low m old
        | no new ↦
            let e : m ≡ i + 1 = omega arith in
            rw e (
              get_or-set_self start (i + 1) v 0 (omega arith)
              ∙ (sum_step i start tail (low i (omega arith)) (high i (omega arith) (omega arith))))
      ])
      (λ u lt len.
        get_or-set_ne start (i + 1) (suc u) v 0 (omega arith)
        ∙ high u (omega arith) (omega (arith, length-set start (i + 1) v)))
      j (omega arith)
