-- ===== src/State/Replay/Once.antt =====
-- The replay defence of `apply_with_cache`, crates/state/src/apply.rs.
use edet.Base.{
  ℕ, zero, suc, ◌+◌, ◌-◌, min, ◌≡◌, ◌≢◌, inr, true, false, Option, none, some, List, arith, ◌==◌,
  ◌/◌,
}
use edet.Kernel.{u64_max}
use edet.Map.Keys.{Ordered, nat_ordered}
use edet.Base.{either}
use edet.State.Replay.{
  Window, Verdict, Bar, gate_refuses, runs, not_signer, fails, judged, after_guard, record_applied,
  prune, close_epochs, begin_block, settle, guard, apply_tx, epoch_secs,
  max_epoch_advance_per_block,
}
use edet.State.Replay.Reads.{
  IsOrderly, is_applied-record_applied_self, record_applied-IsOrderly, prune-rows,
}
use edet.State.Replay.Spent.{Spent, Submission, keeps, stream, stream-Spent, apply_tx-judged}

module _ {I : Type 0} ⦃o : Ordered I⦄ where
  close_epochs-IsOrderly :
      (n : ℕ) (w : Window I) → IsOrderly w.applied.rows → IsOrderly (close_epochs n w).applied.rows
  unfolding close_epochs
  close_epochs-IsOrderly zero w h = h
  close_epochs-IsOrderly (suc n) w h =
      let next : Window I = record w { epoch = w.epoch + 1 } in
      close_epochs-IsOrderly n (prune next) (prune-rows next.epoch next h (omega arith)).0

  begin_block-IsOrderly :
      (now : ℕ) (w : Window I)
      → IsOrderly w.applied.rows
      → IsOrderly (begin_block now w).applied.rows
  unfolding begin_block
  begin_block-IsOrderly now w h =
      let target = min (now / epoch_secs) (min u64_max (w.epoch + max_epoch_advance_per_block)) in
      let later : Window I = record w { last_begin_secs = now } in
      either (λ (x : Window I). IsOrderly x.applied.rows) (now == w.last_begin_secs) w
        (close_epochs (target - w.epoch) later) h
        (close_epochs-IsOrderly (target - w.epoch) later h)

  -- Recording spends the id.
  record_applied-Spent :
      (id : I) (e : ℕ) (w : Window I)
      → IsOrderly w.applied.rows
      → Spent id e (record_applied id e w)
  record_applied-Spent id e w h = record {
    orderly = record_applied-IsOrderly id e w h;
    out = inr (is_applied-record_applied_self id e w);
  }

  settle-keeps :
      (id : I) (e : ℕ) (v : Verdict) (w : Window I)
      → IsOrderly w.applied.rows
      → keeps v ≡ true
      → Spent id e (settle id e v w)
  unfolding settle
  settle-keeps id e gate_refuses w h k = cc
  settle-keeps id e runs w h k = record_applied-Spent id e w h
  settle-keeps id e not_signer w h k = cc
  settle-keeps id e (fails true) w h k = record_applied-Spent id e w h
  settle-keeps id e (fails false) w h k = cc

  after_guard-keeps :
      (id : I) (e : ℕ) (v : Verdict) (w : Window I) (b : Option Bar)
      → IsOrderly w.applied.rows
      → keeps v ≡ true
      → (after_guard id e v w b).0 ≡ judged v
      → Spent id e (after_guard id e v w b).1
  unfolding after_guard
  after_guard-keeps id e v w none h k eq = settle-keeps id e v w h k
  after_guard-keeps id e v w (some bar) h k eq = cc

  -- Once an envelope was judged with a verdict that keeps its id, no later submission of it is
  -- judged, whatever blocks and submissions came between and whatever their times: the guards bar
  -- it. The window was in order at the start.
  pub apply_tx-stream :
      (id : I) (e now : ℕ) (v : Verdict) (w : Window I) (between : List (Submission I)) (later : ℕ)
      (u t : Verdict)
      → IsOrderly w.applied.rows
      → keeps v ≡ true
      → (apply_tx id e now v w).0 ≡ judged v
      → (apply_tx id e later u (stream between (apply_tx id e now v w).1)).0 ≢ judged t
  unfolding apply_tx
  apply_tx-stream id e now v w between later u t h k eq =
      let w' = begin_block now w in
      let spent =
        after_guard-keeps id e v w' (guard id e w') (begin_block-IsOrderly now w h) k eq in
      apply_tx-judged id e later u t _ (stream-Spent id e between (apply_tx id e now v w).1 spent)
