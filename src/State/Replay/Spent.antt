-- ===== src/State/Replay/Spent.antt =====
-- The ids that are out, through each operation of the replay window.
use edet.Base.{
  ℕ, zero, suc, ◌+◌, ◌-◌, ◌<◌, min, ◌≡◌, refl, ap, ◌∙◌, ◌≢◌, ◌⊎◌, inl, inr, Bool, true, false,
  Option, none, some, List, [], ◌∷◌, arith, ltb, ◌==◌, Bool-cases, ◌/◌,
}
use edet.Map.Keys.{Ordered, nat_ordered}
use edet.Kernel.{u64_max}
use edet.Base.{either}
use edet.State.Replay.{
  Bar, after_guard, Window, Verdict, gate_refuses, runs, not_signer, fails, judged, Bar,
  after_guard, is_applied, holds, record_applied, forget_applied, prune, close_epochs, begin_block,
  settle, guard, apply_tx, epoch_secs, max_epoch_advance_per_block,
}
use edet.State.Replay.Reads.{
  IsOrderly, is_applied-record_applied, is_applied-forget_applied, record_applied-IsOrderly,
  forget_applied-IsOrderly, prune-rows,
}

-- The verdicts that keep the id of the envelope.
abbrev pub keeps : Verdict → Bool
keeps gate_refuses = false
keeps runs = true
keeps not_signer = false
keeps (fails kept) = kept

-- An envelope as the network brings it: its id and last epoch, the block's time, and what the
-- transition's own rules say of it.
pub record Submission (I : Type 0) : Type 0 where
  pub id : I
  pub last : ℕ
  pub now : ℕ
  pub verdict : Verdict

module _ {I : Type 0} ⦃o : Ordered I⦄ where
  -- The block stream, seen by the window.
  unfoldable pub stream : List (Submission I) → Window I → Window I
  unfolding apply_tx
  stream [] w = w
  stream (s ∷ ss) w = stream ss (apply_tx s.id s.last s.now s.verdict w).1

  -- The id is out: its epoch is over, or the window holds it.
  pub record Spent (id : I) (e : ℕ) (w : Window I) : Type 0 where
    pub orderly : IsOrderly w.applied.rows
    pub out : (e < w.epoch) ⊎ (is_applied id e w ≡ true)

  prune-Spent : (id : I) (e : ℕ) (w : Window I) → Spent id e w → Spent id e (prune w)
  unfolding prune is_applied
  prune-Spent id e w h = record {
    orderly = (prune-rows w.epoch w h.orderly (omega arith)).0;
    out = elim h.out [
      | inl over ↦ inl over
      | inr held ↦ elim (Bool-cases (ltb e w.epoch)) [
        | inl over ↦ inl (ground (arith, over))
        | inr still ↦
            inr (ap (holds id) (prune-rows e w h.orderly (ground (arith, still))).1 ∙ held)
      ]
    ];
  }

  close_epochs-Spent :
      (id : I) (e n : ℕ) (w : Window I) → Spent id e w → Spent id e (close_epochs n w)
  unfolding close_epochs is_applied
  close_epochs-Spent id e zero w h = h
  close_epochs-Spent id e (suc n) w h =
      let next : Window I = record w { epoch = w.epoch + 1 } in
      close_epochs-Spent id e n (prune next) (
        prune-Spent id e next (record {
          orderly = h.orderly;
          out = elim h.out [ inl over ↦ inl (omega (arith, over)) | inr held ↦ inr held ];
        }))

  begin_block-Spent :
      (id : I) (e now : ℕ) (w : Window I) → Spent id e w → Spent id e (begin_block now w)
  unfolding begin_block is_applied
  begin_block-Spent id e now w h =
      let target = min (now / epoch_secs) (min u64_max (w.epoch + max_epoch_advance_per_block)) in
      let later : Window I = record w { last_begin_secs = now } in
      either (λ (x : Window I). Spent id e x) (now == w.last_begin_secs) w
        (close_epochs (target - w.epoch) later) h
        (close_epochs-Spent id e (target - w.epoch) later
          (record { orderly = h.orderly; out = h.out }))

  record_applied-Spent :
      (i j : I) (e f : ℕ) (w : Window I) → Spent i e w → Spent i e (record_applied j f w)
  unfolding record_applied
  record_applied-Spent i j e f w h = record {
    orderly = record_applied-IsOrderly j f w h.orderly;
    out = elim h.out [
      | inl over ↦ inl over
      | inr held ↦ inr (is_applied-record_applied i j e f w held)
    ];
  }

  forget_applied-Spent :
      (i j : I) (e f : ℕ) (w : Window I)
      → (e ≡ f → i ≢ j)
      → Spent i e w
      → Spent i e (forget_applied j f w)
  unfolding forget_applied
  forget_applied-Spent i j e f w ne h = record {
    orderly = forget_applied-IsOrderly j f w h.orderly;
    out = elim h.out [
      | inl over ↦ inl over
      | inr held ↦ inr (is_applied-forget_applied i j e f w h.orderly ne held)
    ];
  }

  guard-Spent : (id : I) (e : ℕ) (w : Window I) → Spent id e w → guard id e w ≢ none
  unfolding guard is_applied
  guard-Spent id e w h none_found = elim h.out [
    | inl over ↦ ground (arith, over, none_found)
    | inr held ↦ ground (arith, held, none_found)
  ]

  settle-Spent :
      (i j : I) (e f : ℕ) (v : Verdict) (w : Window I)
      → guard j f w ≡ none
      → Spent i e w
      → Spent i e (settle j f v w)
  unfolding settle
  settle-Spent i j e f gate_refuses w g h = h
  settle-Spent i j e f runs w g h = record_applied-Spent i j e f w h
  settle-Spent i j e f not_signer w g h =
      forget_applied-Spent i j e f (record_applied j f w)
        (λ same_e same_i. guard-Spent i e w h (cc)) (record_applied-Spent i j e f w h)
  settle-Spent i j e f (fails true) w g h = record_applied-Spent i j e f w h
  settle-Spent i j e f (fails false) w g h =
      forget_applied-Spent i j e f (record_applied j f w)
        (λ same_e same_i. guard-Spent i e w h (cc)) (record_applied-Spent i j e f w h)

  after_guard-Spent :
      (i j : I) (e f : ℕ) (v : Verdict) (w : Window I) (b : Option Bar)
      → guard j f w ≡ b
      → Spent i e w
      → Spent i e (after_guard j f v w b).1
  unfolding after_guard
  after_guard-Spent i j e f v w none g h = settle-Spent i j e f v w g h
  after_guard-Spent i j e f v w (some bar) g h = h

  apply_tx-Spent :
      (i j : I) (e f now : ℕ) (v : Verdict) (w : Window I)
      → Spent i e w
      → Spent i e (apply_tx j f now v w).1
  unfolding apply_tx
  apply_tx-Spent i j e f now v w h =
      after_guard-Spent i j e f v (begin_block now w) (guard j f (begin_block now w)) refl
        (begin_block-Spent i e now w h)

  pub stream-Spent :
      (id : I) (e : ℕ) (ss : List (Submission I)) (w : Window I)
      → Spent id e w
      → Spent id e (stream ss w)
  unfolding stream
  stream-Spent id e [] w h = h
  stream-Spent id e (s ∷ ss) w h =
      stream-Spent id e ss (apply_tx s.id s.last s.now s.verdict w).1
        (apply_tx-Spent id s.id e s.last s.now s.verdict w h)

  after_guard-judged :
      (id : I) (e : ℕ) (v u : Verdict) (w : Window I) (b : Option Bar)
      → guard id e w ≡ b
      → Spent id e w
      → (after_guard id e v w b).0 ≢ judged u
  unfolding after_guard
  after_guard-judged id e v u w none g h = λ eq. guard-Spent id e w h g
  after_guard-judged id e v u w (some bar) g h = λ eq. cc

  pub apply_tx-judged :
      (id : I) (e now : ℕ) (v u : Verdict) (w : Window I)
      → Spent id e w
      → (apply_tx id e now v w).0 ≢ judged u
  unfolding apply_tx
  apply_tx-judged id e now v u w h =
      after_guard-judged id e v u (begin_block now w) (guard id e (begin_block now w)) refl
        (begin_block-Spent id e now w h)
