-- ===== src/Node/Block/Time.antt =====
-- The time rules of crates/node/src/block.rs and the epoch clock of crates/state.
use edet.Base.{ℕ, ◌+◌, ◌≤◌, max, ◌≡◌, true, arith, ◌/◌}
use edet.Map.Keys.{Ordered}
use edet.State.Replay.{Window, begin_block, epoch_secs}
use edet.State.Replay.Clock.{epoch-begin_block}
use edet.Node.Block.{time_is_plausible, max_future_skew_secs}

plausible_le :
    (block_time now : ℕ)
    → time_is_plausible block_time now ≡ true
    → block_time ≤ now + max_future_skew_secs
unfolding time_is_plausible
plausible_le block_time now h = ground (arith, h)

module _ {I : Type 0} ⦃o : Ordered I⦄ where
  -- A block whose time is plausible at a node's clock moves the epoch no further than to the epoch
  -- of that clock and the allowed skew, where it was not further before.
  pub epoch-time_is_plausible :
      (w : Window I) (block_time now : ℕ)
      → time_is_plausible block_time now ≡ true
      → (begin_block block_time w).epoch ≤ max w.epoch ((now + max_future_skew_secs) / epoch_secs)
  epoch-time_is_plausible w block_time now h =
      let early = plausible_le block_time now h in
      ground (arith, epoch-begin_block block_time w, early)
