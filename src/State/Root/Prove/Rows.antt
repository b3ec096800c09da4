-- ===== src/State/Root/Prove/Rows.antt =====
-- The rows of crates/state/src/root.rs, against the reads of one id.
use edet.Base.{
  ℕ, zero, suc, ◌+◌, ◌≤◌, ◌≡◌, refl, ap, Bool, true, Option, none, some, List, [], ◌∷◌, arith, ltb,
  if◌then◌else◌, All, ◌^◌,
}
use mathlib.Core.Option
use edet.Map.{Map, get, insert, IsSorted}
use edet.Map.Laws.{get-Above}
use edet.Map.Keys.{nat_eq_iff, nat_ordered, pair_ordered}
use edet.Bytes.{Bytes}
use edet.State.Root.Leaves.{
  extend_keys, extend_creditors, last_epoch, in_window, range, epochs_from,
}
use edet.State.Root.Sections.{rows_of, ids_of, rows_at}
use edet.State.Root.Prove.{is_filled, is_some}
use mathlib.Core.Option.{IsSome}

abbrev pub fits : ℕ → Bool
fits n = ltb n (2 ^ 64)

-- What a map holds is what its reads return.
module _ {V : Type 0} (enc : V → Option Bytes) where
  pub rows_of-get :
      (m full : Map ℕ V)
      → IsSorted m
      → ((k : ℕ) (v : V) → get k m ≡ some v → get k full ≡ some v)
      → All
          (λ (row : ℕ × Option Bytes). Option.map enc (get row.0 full) ≡ some row.1)
          (rows_of enc m)
  rows_of-get [] full h same = tt
  rows_of-get ((k, v) ∷ m) full h same = (
    ap (Option.map enc) (same k v (ground arith)),
    rows_of-get m full h.1
        (λ i w e. same i w (ground (arith, e, get-Above k m h.0, nat_eq_iff i k))),
  )

pub insert-All :
    (p : ℕ → Bool) (i : ℕ) (keys : Map ℕ Unit)
    → p i ≡ true
    → All (λ (row : ℕ × Unit). p row.0 ≡ true) keys
    → All (λ (row : ℕ × Unit). p row.0 ≡ true) (insert i tt keys)
insert-All p i [] h k = (h, tt)
insert-All p i ((j, v) ∷ keys) h k = ground (arith, insert-All p i keys h k.1, h, k)

-- Every key of `extend_keys` is of the map or was there before, and none is lost.
module _ {V : Type 0} where
  pub keys_within :
      (p : ℕ → Bool) (m : Map ℕ V) (keys : Map ℕ Unit)
      → All (λ (row : ℕ × V). p row.0 ≡ true) m
      → All (λ (row : ℕ × Unit). p row.0 ≡ true) keys
      → All (λ (row : ℕ × Unit). p row.0 ≡ true) (extend_keys m keys)
  keys_within p [] keys h k = k
  keys_within p ((i, v) ∷ m) keys h k =
      keys_within p m (insert i tt keys) h.1 (insert-All p i keys h.0 k)

pub creditors_within :
    (p : ℕ → Bool) (m : Map (ℕ × ℕ) ℕ) (keys : Map ℕ Unit)
    → All (λ (row : (ℕ × ℕ) × ℕ). p row.0.0 ≡ true) m
    → All (λ (row : ℕ × Unit). p row.0 ≡ true) keys
    → All (λ (row : ℕ × Unit). p row.0 ≡ true) (extend_creditors m keys)
creditors_within p [] keys h k = k
creditors_within p (((c, d), w) ∷ m) keys h k =
    creditors_within p m (insert c tt keys) h.1 (insert-All p c keys h.0 k)

-- A map's own keys are read from it.
pub keys_read :
    {V : Type 0} (m full : Map ℕ V)
    → IsSorted m
    → ((k : ℕ) (v : V) → get k m ≡ some v → get k full ≡ some v)
    → All (λ (row : ℕ × V). is_some (get row.0 full) ≡ true) m
keys_read [] full h same = tt
keys_read ((k, v) ∷ m) full h same = (
  ap is_some (same k v (ground arith)),
  keys_read m full h.1 (λ i w e. same i w (ground (arith, e, get-Above k m h.0, nat_eq_iff i k))),
)

pub creditors_read :
    (m full : Map (ℕ × ℕ) ℕ)
    → ((c : ℕ) → is_filled (range c m) ≡ true → is_filled (range c full) ≡ true)
    → All (λ (row : (ℕ × ℕ) × ℕ). is_filled (range row.0.0 full) ≡ true) m
creditors_read [] full same = tt
creditors_read (((c, d), w) ∷ m) full same =
    (same c (ground arith), creditors_read m full (λ i h. same i (ground (arith, h))))

pub rows_at-reads :
    (p : ℕ → Bool) (f : ℕ → Option Bytes) (ks : List ℕ)
    → All (λ k. p k ≡ true) ks
    → All
        (λ (row : ℕ × Option Bytes). (if p row.0 then some (f row.0) else none) ≡ some row.1)
        (rows_at f ks)
rows_at-reads p f [] h = tt
rows_at-reads p f (k ∷ ks) h = (rw h.0 refl, rows_at-reads p f ks h.1)

pub rows_at-within :
    (p : ℕ → Bool) (f : ℕ → Option Bytes) (ks : List ℕ)
    → All (λ k. p k ≡ true) ks
    → All (λ (row : ℕ × Option Bytes). p row.0 ≡ true) (rows_at f ks)
rows_at-within p f [] h = tt
rows_at-within p f (k ∷ ks) h = (h.0, rows_at-within p f ks h.1)

pub rows_of-within :
    {V : Type 0} (p : ℕ → Bool) (enc : V → Option Bytes) (m : Map ℕ V)
    → All (λ (row : ℕ × V). p row.0 ≡ true) m
    → All (λ (row : ℕ × Option Bytes). p row.0 ≡ true) (rows_of enc m)
rows_of-within p enc [] h = tt
rows_of-within p enc ((k, v) ∷ m) h = (h.0, rows_of-within p enc m h.1)

pub ids_of-within :
    (p : ℕ → Bool) (m : Map ℕ Unit)
    → All (λ (row : ℕ × Unit). p row.0 ≡ true) m
    → All (λ k. p k ≡ true) (ids_of m)
ids_of-within p [] h = tt
ids_of-within p ((k, _) ∷ m) h = (h.0, ids_of-within p m h.1)

pub All_both :
    {A : Type 0} (p q : A → Type 0) (xs : List A) → All p xs → All q xs → All (λ x. p x × q x) xs
All_both p q [] h k = tt
All_both p q (x ∷ xs) h k = ((h.0, k.0), All_both p q xs h.1 k.1)

pub All_map :
    {A : Type 0} (p q : A → Type 0) (xs : List A) → ((x : A) → p x → q x) → All p xs → All q xs
All_map p q [] f h = tt
All_map p q (x ∷ xs) f h = (f x h.0, All_map p q xs f h.1)

pub epochs_within :
    (epoch from n : ℕ)
    → epoch ≤ from
    → from + n ≤ last_epoch epoch + 1
    → All (λ e. in_window epoch e ≡ true) (epochs_from from n)
epochs_within epoch from zero h k = tt
epochs_within epoch from (suc n) h k =
    (ground (arith, h, k), epochs_within epoch (from + 1) n (omega arith) (omega (arith, k)))
