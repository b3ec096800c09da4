-- ===== src/State/Root/Leaves.antt =====
-- The leaves of crates/state/src/root.rs: what each section of the ledger holds. `crate::codec`
-- writes values with bincode, which is a parameter: an encoder for each type of value.
use edet.Base.{
  ℕ, zero, suc, ◌+◌, ◌-◌, min, Bool, ◌&&◌, Option, none, some, List, [], ◌∷◌, leb, ◌==◌,
  if◌then◌else◌, or_else,
}
use edet.Map.{Map, get, insert}
use edet.Map.Keys.{nat_ordered, pair_ordered}
use edet.Bytes.{Bytes, u64_bytes}
use edet.Kernel.{u64_max, Committed}
use edet.State.Journal.{Journal}
use edet.State.Replay.{max_tx_lifetime_epochs}
use edet.State.Root.{Section}

-- `RootError`: an encoding that failed, by its section; a replay bucket outside the window; a leaf
-- without a value; a cold cache.
pub data RootError : Type 0 where
  encoding : Section → RootError
  outside_window : ℕ → ℕ → ℕ → RootError
  no_value : RootError
  cold : RootError

pub data Answered (A : Type 0) : Type 0 where
  ok : A → Answered A
  err : RootError → Answered A

-- `?`
abbrev pub and_then : {A B : Type 0} → Answered A → (A → Answered B) → Answered B
and_then (ok a) f = f a
and_then (err e) f = err e

abbrev pub Leaves : Type 0
Leaves = List (Bytes × Bytes)

-- Rows `(debtor, stake, reserved, seat_reserved)`, in the debtors' order.
abbrev pub StakeRow : Type 0
StakeRow = Map ℕ (ℕ × ℕ × ℕ)

abbrev pub IdSet : Type 0
IdSet = Map Bytes Unit

module _ (M C P Params : Type 0) where
  pub record LedgerLeaf : Type 0 where
    pub params : Params
    pub epoch : ℕ
    pub next_member : ℕ
    pub next_contract : ℕ
    pub next_proposal : ℕ
    pub seed_amended_this_epoch : ℕ
    pub chain_id : Bytes
    pub last_begin_secs : ℕ
    pub underwriters : Map ℕ ℕ
    pub committed : Committed
    pub seat_committed : Committed
    pub forfeit_reserve : Map ℕ ℕ

  -- The fields of `State` that the root commits to.
  pub record State : Type 0 where
    pub members : Journal ℕ M
    pub contracts : Journal ℕ C
    pub proposals : Journal ℕ P
    pub validators : Map ℕ ℕ
    pub edges : Journal (ℕ × ℕ) ℕ
    pub reserved : Journal (ℕ × ℕ) ℕ
    pub seat_reserved : Journal (ℕ × ℕ) ℕ
    pub applied_by_expiry : Journal ℕ IdSet
    pub root_salt : Bytes
    pub scalars : LedgerLeaf

  -- `bincode::serialize`, for each type of value that a leaf holds.
  pub record Codec : Type 0 where
    pub member : M → Option Bytes
    pub contract : C → Option Bytes
    pub proposal : P → Option Bytes
    pub weight : ℕ → Option Bytes
    pub stake_row : StakeRow → Option Bytes
    pub ids : IdSet → Option Bytes
    pub ledger : LedgerLeaf → Option Bytes

unfoldable pub encode : Section → Option Bytes → Answered Bytes
encode what none = err (RootError.encoding what)
encode what (some bytes) = ok bytes

unfoldable pub id_key : ℕ → Bytes
unfolding u64_bytes
id_key id = u64_bytes id

-- `map.range((c, 0)..=(c, usize::MAX))`, by the second parts of its keys.
abbrev pub range : ℕ → Map (ℕ × ℕ) ℕ → List (ℕ × ℕ)
range c [] = []
range c (((i, d), w) ∷ m) = if i == c then (d, w) ∷ range c m else range c m

-- `for … { row.entry(d).or_default()… = w; }`
abbrev pub fill_row :
    (ℕ → ℕ × ℕ × ℕ → ℕ × ℕ × ℕ) → List (ℕ × ℕ) → Map ℕ (ℕ × ℕ × ℕ) → Map ℕ (ℕ × ℕ × ℕ)
fill_row f [] row = row
fill_row f ((d, w) ∷ rest) row =
    fill_row f rest (insert d (f w (or_else (get d row) (0, 0, 0))) row)

unfoldable pub stake_row : Map (ℕ × ℕ) ℕ → Map (ℕ × ℕ) ℕ → Map (ℕ × ℕ) ℕ → ℕ → StakeRow
stake_row edges reserved seat_reserved c =
    let staked = fill_row (λ w (_, r, s). (w, r, s)) (range c edges) [] in
    let held = fill_row (λ v (w, _, s). (w, v, s)) (range c reserved) staked in
    fill_row (λ v (w, r, _). (w, r, v)) (range c seat_reserved) held

-- `keys.extend(map.keys())`
abbrev pub extend_keys : {V : Type 0} → Map ℕ V → Map ℕ Unit → Map ℕ Unit
extend_keys [] keys = keys
extend_keys ((k, _) ∷ m) keys = extend_keys m (insert k tt keys)

-- `keys.extend(map.keys().map(|&(c, _)| c as u64))`
abbrev pub extend_creditors : Map (ℕ × ℕ) ℕ → Map ℕ Unit → Map ℕ Unit
extend_creditors [] keys = keys
extend_creditors (((c, _), _) ∷ m) keys = extend_creditors m (insert c tt keys)

-- The epochs of `replay_window`, from the first to the last.
abbrev pub last_epoch : ℕ → ℕ
last_epoch epoch = min u64_max (epoch + max_tx_lifetime_epochs)

abbrev pub epochs_from : ℕ → ℕ → List ℕ
epochs_from epoch zero = []
epochs_from epoch (suc n) = epoch ∷ epochs_from (epoch + 1) n

abbrev pub replay_window : ℕ → List ℕ
replay_window epoch = epochs_from epoch (last_epoch epoch + 1 - epoch)

-- `replay_window(epoch).contains(&e)`
abbrev pub in_window : ℕ → ℕ → Bool
in_window epoch e = leb epoch e && leb e (last_epoch epoch)

abbrev pub first_key : {V : Type 0} → Map ℕ V → Option ℕ
first_key [] = none
first_key ((k, _) ∷ m) = some k

abbrev pub last_key : {V : Type 0} → Map ℕ V → Option ℕ
last_key [] = none
last_key ((k, _) ∷ []) = some k
last_key ((_, _) ∷ (k, v) ∷ m) = last_key ((k, v) ∷ m)

abbrev pub check_bucket : ℕ → Option ℕ → Answered Unit
check_bucket epoch none = ok tt
check_bucket epoch (some e) =
    if in_window epoch e then ok tt else err (RootError.outside_window e epoch (last_epoch epoch))

module _ {M C P Params : Type 0} where
  abbrev pub epoch_of : State M C P Params → ℕ
  epoch_of s = s.scalars.epoch

  unfoldable pub salt_marker : State M C P Params → ℕ
  salt_marker s = epoch_of s

  unfoldable pub stake_keys : State M C P Params → Map ℕ Unit
  stake_keys s = extend_creditors s.seat_reserved.rows (
      extend_creditors s.reserved.rows
        (extend_creditors s.edges.rows (extend_keys s.members.rows [])))

  unfoldable pub check_replay_window : State M C P Params → Answered Unit
  check_replay_window s =
      let epoch = epoch_of s in
      and_then (check_bucket epoch (first_key s.applied_by_expiry.rows))
        (λ _. check_bucket epoch (last_key s.applied_by_expiry.rows))
