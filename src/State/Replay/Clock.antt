-- ===== src/State/Replay/Clock.antt =====
-- The epoch clock of `State::begin_block`, crates/state/src/state.rs, over a whole block: `apply`
-- calls it again for every transition.
use edet.Base.{
  ℕ, zero, suc, ◌+◌, ◌-◌, min, max, ◌≡◌, refl, sym, ap, ◌∙◌, true, false, Option, none, some, List,
  [], ◌∷◌, arith, ◌==◌, if◌then◌else◌, All, ◌/◌,
}
use edet.Kernel.{u64_max}
use edet.Map.Keys.{Ordered, nat_ordered}
use edet.State.Replay.{
  Window, Verdict, gate_refuses, runs, not_signer, fails, Bar, settle, guard, after_guard, apply_tx,
  record_applied, forget_applied, prune, close_epochs, begin_block, epoch_secs,
  max_epoch_advance_per_block,
}
use edet.State.Replay.Spent.{Submission, stream}

module _ {I : Type 0} ⦃o : Ordered I⦄ where
  epoch-close_epochs : (n : ℕ) (w : Window I) → (close_epochs n w).epoch ≡ w.epoch + n
  unfolding close_epochs prune
  epoch-close_epochs zero w = omega arith
  epoch-close_epochs (suc n) w =
      omega (arith, epoch-close_epochs n (prune (record w { epoch = w.epoch + 1 })))

  -- A block moves the epoch to its time's, but never back and never more than the limit at once;
  -- where the time is the one last recorded, the epoch stays.
  pub epoch-begin_block :
      (now : ℕ) (w : Window I)
      → (begin_block now w).epoch ≡ (
          if now == w.last_begin_secs
          then w.epoch
          else max w.epoch
              (min (now / epoch_secs) (min u64_max (w.epoch + max_epoch_advance_per_block))))
  unfolding begin_block
  epoch-begin_block now w =
      let target = min (now / epoch_secs) (min u64_max (w.epoch + max_epoch_advance_per_block)) in
      ground (arith, epoch-close_epochs (target - w.epoch) (record w { last_begin_secs = now }))

  last_begin_secs-close_epochs :
      (n : ℕ) (w : Window I) → (close_epochs n w).last_begin_secs ≡ w.last_begin_secs
  unfolding close_epochs prune
  last_begin_secs-close_epochs zero w = refl
  last_begin_secs-close_epochs (suc n) w =
      last_begin_secs-close_epochs n (prune (record w { epoch = w.epoch + 1 }))

  last_begin_secs-begin_block : (now : ℕ) (w : Window I) → (begin_block now w).last_begin_secs ≡ now
  unfolding begin_block
  last_begin_secs-begin_block now w =
      let target = min (now / epoch_secs) (min u64_max (w.epoch + max_epoch_advance_per_block)) in
      ground (
        arith,
        last_begin_secs-close_epochs (target - w.epoch) (record w { last_begin_secs = now }),
      )

  begin_block_stands : (now : ℕ) (w : Window I) → w.last_begin_secs ≡ now → begin_block now w ≡ w
  unfolding begin_block
  begin_block_stands now w e = ground (arith, e)

  -- What the clock of `begin_block` shows.
  abbrev clock : Window I → ℕ × ℕ
  clock w = (w.epoch, w.last_begin_secs)

  clock-settle : (id : I) (e : ℕ) (v : Verdict) (w : Window I) → clock (settle id e v w) ≡ clock w
  unfolding settle record_applied forget_applied
  clock-settle id e gate_refuses w = refl
  clock-settle id e runs w = refl
  clock-settle id e not_signer w = refl
  clock-settle id e (fails true) w = refl
  clock-settle id e (fails false) w = refl

  clock-after_guard :
      (id : I) (e : ℕ) (v : Verdict) (w : Window I) (b : Option Bar)
      → clock (after_guard id e v w b).1 ≡ clock w
  unfolding after_guard
  clock-after_guard id e v w none = clock-settle id e v w
  clock-after_guard id e v w (some bar) = refl

  -- A transition at the time last recorded leaves the clock, whatever becomes of it.
  clock-apply_tx :
      (id : I) (e now : ℕ) (v : Verdict) (w : Window I)
      → w.last_begin_secs ≡ now
      → clock (apply_tx id e now v w).1 ≡ clock w
  unfolding apply_tx
  clock-apply_tx id e now v w h =
      clock-after_guard id e v (begin_block now w) (guard id e (begin_block now w))
      ∙ ap clock (begin_block_stands now w h)

  clock-stream :
      (now : ℕ) (ss : List (Submission I)) (w : Window I)
      → All (λ (s : Submission I). s.now ≡ now) ss
      → w.last_begin_secs ≡ now
      → clock (stream ss w) ≡ clock w
  unfolding stream
  clock-stream now [] w at_now h = refl
  clock-stream now (s ∷ ss) w (same, at_now) h =
      let one = clock-apply_tx s.id s.last s.now s.verdict w (h ∙ sym same) in
      clock-stream now ss (apply_tx s.id s.last s.now s.verdict w).1 at_now (ap (λ p. p.1) one ∙ h)
      ∙ one

  -- A whole block, its `begin_block` and then any transitions at its time, moves the epoch to that
  -- of the time, but never back and, however many they are, never more than the limit once; where
  -- the time is the one last recorded, the epoch stays. After them `begin_block` at that time
  -- changes nothing.
  pub epoch-stream :
      (now : ℕ) (w : Window I) (ss : List (Submission I))
      → All (λ (s : Submission I). s.now ≡ now) ss
      → ((stream ss (begin_block now w)).epoch ≡ (
          if now == w.last_begin_secs
          then w.epoch
          else max w.epoch
              (min (now / epoch_secs) (min u64_max (w.epoch + max_epoch_advance_per_block)))))
        × (begin_block now (stream ss (begin_block now w)) ≡ stream ss (begin_block now w))
  epoch-stream now w ss at_now =
      let recorded = last_begin_secs-begin_block now w in
      let still = clock-stream now ss (begin_block now w) at_now recorded in
      (
        ap (λ p. p.0) still ∙ epoch-begin_block now w,
        begin_block_stands now (stream ss (begin_block now w)) (ap (λ p. p.1) still ∙ recorded),
      )
