-- ===== src/State/Loss/Handed.antt =====
-- The loops of crates/state/src/loss.rs that give the units left over.
use edet.Base.{
  ℕ, zero, suc, ◌+◌, ◌-◌, ◌≤◌, ◌<◌, ◌≡◌, refl, sym, ap, ◌∙◌, ◌≢◌, inl, inr, List, [], ◌∷◌, arith,
  dec_lt, ltb, ◌==◌, if◌then◌else◌, Bool-cases, length, get_or, set, All, get_or-set_ne, length-set,
  ltb→lt, subst,
}
use edet.Base.Sums.{sum_by}
use edet.State.Loss.{
  total_of, remainders, comes_first, place_remainder, sort_remainders, hand_out, hand_each,
}

-- No place occurs twice.
abbrev pub Elsewhere : ℕ → List (ℕ × ℕ) → Type 0
Elsewhere i rs = All (λ (x : ℕ × ℕ). x.1 ≢ i) rs

abbrev pub Spread : List (ℕ × ℕ) → Type 0
Spread [] = Unit
Spread ((r, i) ∷ rs) = Elsewhere i rs × Spread rs

place_remainder-All :
    (P : ℕ × ℕ → Type 0) (x : ℕ × ℕ) (ys : List (ℕ × ℕ))
    → P x
    → All P ys
    → All P (place_remainder x ys)
unfolding place_remainder
place_remainder-All P x [] p h = (p, tt)
place_remainder-All P x (y ∷ ys) p h = ground (arith, place_remainder-All P x ys p h.1, p, h.0, h.1)

pub sort_remainders-All :
    (P : ℕ × ℕ → Type 0) (xs : List (ℕ × ℕ)) → All P xs → All P (sort_remainders xs)
unfolding sort_remainders
sort_remainders-All P [] h = tt
sort_remainders-All P (x ∷ xs) h =
    place_remainder-All P x (sort_remainders xs) h.0 (sort_remainders-All P xs h.1)

place_remainder-Spread :
    (x : ℕ × ℕ) (ys : List (ℕ × ℕ)) → Elsewhere x.1 ys → Spread ys → Spread (place_remainder x ys)
unfolding place_remainder
place_remainder-Spread x [] e h = (tt, tt)
place_remainder-Spread x (y ∷ ys) e h = elim (Bool-cases (comes_first x y)) [
  | inl first ↦ rw first (e, h)
  | inr later ↦ rw later (
    place_remainder-All (λ z. z.1 ≢ y.1) x ys (λ q. e.0 (sym q)) h.0,
    place_remainder-Spread x ys e.1 h.1,
  )
]

pub sort_remainders-Spread : (xs : List (ℕ × ℕ)) → Spread xs → Spread (sort_remainders xs)
unfolding sort_remainders
sort_remainders-Spread [] h = tt
sort_remainders-Spread (x ∷ xs) h =
    place_remainder-Spread x (sort_remainders xs) (sort_remainders-All (λ z. z.1 ≢ x.1) xs h.0)
      (sort_remainders-Spread xs h.1)

place_remainder-sum :
    (f : ℕ × ℕ → ℕ) (x : ℕ × ℕ) (ys : List (ℕ × ℕ))
    → sum_by f (place_remainder x ys) ≡ f x + sum_by f ys
unfolding place_remainder
place_remainder-sum f x [] = refl
place_remainder-sum f x (y ∷ ys) = ground (arith, place_remainder-sum f x ys)

pub sort_remainders-sum :
    (f : ℕ × ℕ → ℕ) (xs : List (ℕ × ℕ)) → sum_by f (sort_remainders xs) ≡ sum_by f xs
unfolding sort_remainders
sort_remainders-sum f [] = refl
sort_remainders-sum f (x ∷ xs) =
    omega (arith, place_remainder-sum f x (sort_remainders xs), sort_remainders-sum f xs)

later-Elsewhere :
    (keep total i j : ℕ) (amounts : List ℕ) → i < j → Elsewhere i (remainders keep total j amounts)
unfolding remainders
later-Elsewhere keep total i j [] h = tt
later-Elsewhere keep total i j (a ∷ amounts) h =
    ((λ e. omega (arith, e, h)), later-Elsewhere keep total i (j + 1) amounts (omega arith))

pub remainders-Spread :
    (keep total i : ℕ) (amounts : List ℕ) → Spread (remainders keep total i amounts)
unfolding remainders
remainders-Spread keep total i [] = tt
remainders-Spread keep total i (a ∷ amounts) = (
  later-Elsewhere keep total i (i + 1) amounts (omega arith),
  remainders-Spread keep total (i + 1) amounts,
)

-- How many of the places have room.
abbrev pub room_of : List ℕ → List ℕ → List (ℕ × ℕ) → ℕ
room_of amounts out rs =
    sum_by (λ (x : ℕ × ℕ). if ltb (get_or out x.1 0) (get_or amounts x.1 0) then 1 else 0) rs

room_of-set :
    (amounts out : List ℕ) (i v : ℕ) (rs : List (ℕ × ℕ))
    → Elsewhere i rs
    → room_of amounts (set out i v) rs ≡ room_of amounts out rs
room_of-set amounts out i v [] e = refl
room_of-set amounts out i v (x ∷ rs) e =
    ground
      (arith, room_of-set amounts out i v rs e.1, get_or-set_ne out i x.1 v 0 (λ q. e.0 (sym q)))

total_of-set :
    (out : List ℕ) (i : ℕ)
    → i < length out
    → total_of (set out i (get_or out i 0 + 1)) ≡ total_of out + 1
total_of-set [] i h = elim h [ ]
total_of-set (x ∷ out) zero h = omega arith
total_of-set (x ∷ out) (suc i) h = omega (arith, total_of-set out i (omega arith))

get_or-beyond : (xs : List ℕ) (i : ℕ) → length xs ≤ i → get_or xs i 0 ≡ 0
get_or-beyond [] i h = refl
get_or-beyond (x ∷ xs) zero h = absurd (omega arith)
get_or-beyond (x ∷ xs) (suc i) h = get_or-beyond xs i (omega arith)

-- An entry that has room stands inside the list.
room-inside :
    (amounts out : List ℕ) (i : ℕ)
    → length out ≡ length amounts
    → get_or out i 0 < get_or amounts i 0
    → i < length out
room-inside amounts out i e h = elim (dec_lt i (length out)) [
  | yes inside ↦ inside
  | no outside ↦ absurd (omega (arith, get_or-beyond amounts i (omega (arith, e, outside)), h))
]

set-le :
    (out : List ℕ) (i j v n : ℕ)
    → get_or out j 0 ≤ n
    → (i ≡ j → v ≤ n)
    → get_or (set out i v) j 0 ≤ n
set-le [] i j v n h g = h
set-le (x ∷ out) zero zero v n h g = g refl
set-le (x ∷ out) zero (suc j) v n h g = h
set-le (x ∷ out) (suc i) zero v n h g = h
set-le (x ∷ out) (suc i) (suc j) v n h g = set-le out i j v n h (λ q. g (ap suc q))

-- With room for all that is left, it is given out to the last unit, and no entry grows past its amount.
pub hand_out-total :
    (amounts : List ℕ) (rs : List (ℕ × ℕ)) (left : ℕ) (out : List ℕ)
    → Spread rs
    → length out ≡ length amounts
    → left ≤ room_of amounts out rs
    → total_of (hand_out amounts rs left out) ≡ total_of out + left
unfolding hand_out
hand_out-total amounts [] left out s e h = omega (arith, h)
hand_out-total amounts ((r, i) ∷ rs) left out s e h = elim (Bool-cases (left == 0)) [
  | inl none_at ↦ rw none_at (ground (arith, none_at))
  | inr some_at ↦ elim (Bool-cases (ltb (get_or out i 0) (get_or amounts i 0))) [
    | inl room ↦
        let grown = set out i (get_or out i 0 + 1) in
        let same = room_of-set amounts out i (get_or out i 0 + 1) rs s.0 in
        let ih =
          hand_out-total amounts rs (left - 1) grown s.1 (length-set out i (get_or out i 0 + 1) ∙ e)
            (ground (arith, h, room, same)) in
        let more = total_of-set out i (room-inside amounts out i e (ltb→lt _ _ room)) in
        rw some_at (rw room (ground (arith, ih, more, some_at)))
    | inr full ↦
        rw some_at (rw full (hand_out-total amounts rs left out s.1 e (ground (arith, h, full))))
  ]
]

pub hand_out-le :
    (amounts : List ℕ) (rs : List (ℕ × ℕ)) (left : ℕ) (out : List ℕ)
    → ((j : ℕ) → get_or out j 0 ≤ get_or amounts j 0)
    → (j : ℕ) → get_or (hand_out amounts rs left out) j 0 ≤ get_or amounts j 0
unfolding hand_out
hand_out-le amounts [] left out b j = b j
hand_out-le amounts ((r, i) ∷ rs) left out b j = elim (Bool-cases (left == 0)) [
  | inl none_at ↦ rw none_at (b j)
  | inr some_at ↦ elim (Bool-cases (ltb (get_or out i 0) (get_or amounts i 0))) [
    | inl room ↦
        let grown = set out i (get_or out i 0 + 1) in
        let kept : (l : ℕ) → get_or grown l 0 ≤ get_or amounts l 0 = λ l.
          set-le out i l (get_or out i 0 + 1) (get_or amounts l 0) (b l)
            λ q. omega (arith, ltb→lt _ _ room, ap (λ x. get_or amounts x 0) q) in
        rw some_at (rw room (hand_out-le amounts rs (left - 1) grown kept j))
    | inr full ↦ rw some_at (rw full (hand_out-le amounts rs left out b j))
  ]
]

pub hand_each-total :
    (rs : List (ℕ × ℕ)) (left : ℕ) (out : List ℕ)
    → All (λ (x : ℕ × ℕ). x.1 < length out) rs
    → left ≤ sum_by (λ (x : ℕ × ℕ). 1) rs
    → total_of (hand_each rs left out) ≡ total_of out + left
unfolding hand_each
hand_each-total [] left out e h = omega (arith, h)
hand_each-total ((r, i) ∷ rs) left out e h = elim (Bool-cases (left == 0)) [
  | inl none_at ↦ rw none_at (ground (arith, none_at))
  | inr some_at ↦
      let grown = set out i (get_or out i 0 + 1) in
      let ih =
        hand_each-total rs (left - 1) grown
          (subst (λ n. All (λ (x : ℕ × ℕ). x.1 < n) rs)
            (sym (length-set out i (get_or out i 0 + 1))) e.1)
          (omega (arith, h)) in
      let more = total_of-set out i e.0 in rw some_at (ground (arith, ih, more, some_at))
]
