-- ===== src/State/Replay.antt =====
-- The replay window of crates/state: the clock of `State::begin_block` and the applied ids of
-- state.rs, and the guards of `apply_with_cache` in apply.rs. The hash of an envelope is a key.
pub mod Reads
pub mod Spent
pub mod Once
pub mod Clock
use edet.Base.{
  ℕ, zero, suc, ◌+◌, ◌-◌, min, Bool, true, false, Option, none, some, List, [], ◌∷◌, ltb, ◌==◌,
  if◌then◌else◌, or_else, ◌/◌,
}
use edet.Map.{Map, get, insert, remove}
use edet.Map.Keys.{Ordered, nat_ordered}
use edet.Kernel.{u64_max}
use edet.State.Journal.{Journal, entry, get_mut, delete}

abbrev pub epoch_secs : ℕ
epoch_secs = 86_400

abbrev pub max_epoch_advance_per_block : ℕ
max_epoch_advance_per_block = 10_000

abbrev pub max_tx_lifetime_epochs : ℕ
max_tx_lifetime_epochs = 30

-- `horizon`
abbrev pub horizon : ℕ → ℕ → ℕ
horizon epoch n = min u64_max (epoch + n)

-- The fields of `State` that the window reads and writes: ids by the last epoch of their envelope.
pub record Window (I : Type 0) : Type 0 where
  pub epoch : ℕ
  pub last_begin_secs : ℕ
  pub applied : Journal ℕ (Map I Unit)

-- What becomes of an envelope past the window's guards: the gate refuses it, it runs, its
-- signatures authorise nothing, or it fails; a failed one keeps its id unless it was free and
-- nobody paid for that.
pub data Verdict : Type 0 where
  gate_refuses : Verdict
  runs : Verdict
  not_signer : Verdict
  fails : Bool → Verdict

-- The errors of the guards: `ET_TX_EXPIRED`, `ET_TX_WINDOW_TOO_LONG`, `ET_TX_REPLAY`.
pub data Bar : Type 0 where
  expired : Bar
  window_too_long : Bar
  replay : Bar

pub data Answer : Type 0 where
  barred : Bar → Answer
  judged : Verdict → Answer

module _ {I : Type 0} ⦃o : Ordered I⦄ where
  -- `is_some_and(|ids| ids.contains(tx_id))`
  abbrev pub holds : I → Option (Map I Unit) → Bool
  holds id none = false
  holds id (some ids) = elim (get id ids) [ none ↦ false | some _ ↦ true ]

  -- `is_applied`
  unfoldable pub is_applied : I → ℕ → Window I → Bool
  is_applied id e w = holds id (get e w.applied.rows)

  -- `record_applied`
  unfoldable pub record_applied : I → ℕ → Window I → Window I
  unfolding entry
  record_applied id e w = record w {
    applied = entry e (λ ids. some (insert id tt (or_else ids []))) w.applied;
  }

  -- An emptied bucket is removed rather than left behind.
  unfoldable pub drop_empty :
      ℕ → Option (Map I Unit) → Journal ℕ (Map I Unit) → Journal ℕ (Map I Unit)
  unfolding delete
  drop_empty e none j = j
  drop_empty e (some []) j = delete e j
  drop_empty e (some (_ ∷ _)) j = j

  -- `forget_applied`
  unfoldable pub forget_applied : I → ℕ → Window I → Window I
  unfolding get_mut drop_empty
  forget_applied id e w =
      let after = get_mut e (λ ids. remove id ids) w.applied in
      record w { applied = drop_empty e (get e after.rows) after }

  -- The keys of `range(..epoch)`.
  abbrev pub stale : ℕ → Map ℕ (Map I Unit) → List ℕ
  stale epoch [] = []
  stale epoch ((e, _) ∷ m) = if ltb e epoch then e ∷ stale epoch m else []

  unfoldable pub remove_each : List ℕ → Journal ℕ (Map I Unit) → Journal ℕ (Map I Unit)
  unfolding delete
  remove_each [] j = j
  remove_each (e ∷ es) j = remove_each es (delete e j)

  -- `prune_expired_applied_ids`
  unfoldable pub prune : Window I → Window I
  unfolding remove_each
  prune w = record w { applied = remove_each (stale w.epoch w.applied.rows) w.applied }

  -- The loop of `begin_block`, so many times.
  unfoldable pub close_epochs : ℕ → Window I → Window I
  unfolding prune
  close_epochs zero w = w
  close_epochs (suc n) w = close_epochs n (prune (record w { epoch = w.epoch + 1 }))

  -- `begin_block`: the loop runs until the epoch is the target.
  unfoldable pub begin_block : ℕ → Window I → Window I
  unfolding close_epochs
  begin_block now w =
      let target = min (now / epoch_secs) (min u64_max (w.epoch + max_epoch_advance_per_block)) in
      if now == w.last_begin_secs
      then w
      else close_epochs (target - w.epoch) (record w { last_begin_secs = now })

  -- What `apply_with_cache` does to the window past the guards.
  unfoldable pub settle : I → ℕ → Verdict → Window I → Window I
  unfolding record_applied forget_applied
  settle id e gate_refuses w = w
  settle id e runs w = record_applied id e w
  settle id e not_signer w = forget_applied id e (record_applied id e w)
  settle id e (fails true) w = record_applied id e w
  settle id e (fails false) w = forget_applied id e (record_applied id e w)

  -- The guards of `apply_with_cache`, in its order.
  unfoldable pub guard : I → ℕ → Window I → Option Bar
  unfolding is_applied
  guard id e w =
      if ltb e w.epoch
      then some expired
      else if ltb (horizon w.epoch max_tx_lifetime_epochs) e
      then some window_too_long
      else if is_applied id e w
      then some replay
      else none

  -- `apply_with_cache` from its guards on.
  unfoldable pub after_guard : I → ℕ → Verdict → Window I → Option Bar → Answer × Window I
  unfolding settle
  after_guard id e verdict w (some bar) = (barred bar, w)
  after_guard id e verdict w none = (judged verdict, settle id e verdict w)

  -- `apply_with_cache`, seen by the window.
  unfoldable pub apply_tx : I → ℕ → ℕ → Verdict → Window I → Answer × Window I
  unfolding begin_block guard after_guard
  apply_tx id e now verdict w =
      let w' = begin_block now w in after_guard id e verdict w' (guard id e w')
