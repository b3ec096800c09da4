-- ===== src/Node/Block/Rules.antt =====
-- The rules of crates/node/src/block.rs on the transactions of a block.
use edet.Base.{
  ℕ, suc, ◌+◌, ◌≤◌, ◌<◌, ◌≡◌, refl, ap, ◌∙◌, ◌⊎◌, inl, inr, Bool, true, false, Option, none, some,
  List, [], ◌∷◌, ◌++◌, arith, ltb, Bool-cases, length, All,
}
use edet.Node.Block.{
  BlockRefusal, too_many_txs, unauthorised, check_txs, deterministic_validity, max_txs_per_block,
}

module _ {T : Type 0} (authorises : T → Bool) where
  -- The transaction at `k` is the first that nobody who must has signed.
  pub record First (k : ℕ) (txs : List T) : Type 0 where
    pub tx : T
    pub before : List T
    pub after : List T
    pub split : txs ≡ before ++ tx ∷ after
    pub place : k ≡ length before
    pub refused : authorises tx ≡ false
    pub passed : All (λ tx. authorises tx ≡ true) before

  -- What each answer says of a block's transactions.
  pub Tells : List T → Option BlockRefusal → Type 0
  Tells txs none = (length txs ≤ 512) × All (λ tx. authorises tx ≡ true) txs
  Tells txs (some (too_many_txs n)) = (512 < length txs) × (n ≡ length txs)
  Tells txs (some (unauthorised k)) = (length txs ≤ 512) × First k txs

  scan :
      (i : ℕ) (txs : List T)
      → ((check_txs authorises i txs ≡ none) × All (λ tx. authorises tx ≡ true) txs)
        ⊎ ((k : ℕ) × (check_txs authorises i txs ≡ some (unauthorised (i + k))) × First k txs)
  unfolding check_txs
  scan i [] = inl (refl, tt)
  scan i (tx ∷ txs) = elim (Bool-cases (authorises tx)) [
    | inr off ↦ inr (
      0,
      rw off (ap (λ n. some (unauthorised n)) (omega arith)),
      record {
        tx = tx;
        before = [];
        after = txs;
        split = refl;
        place = refl;
        refused = off;
        passed = tt;
      },
    )
    | inl on ↦ elim (scan (i + 1) txs) [
      | inl (none_left, rest) ↦ inl (rw on none_left, (on, rest))
      | inr (k, found, first) ↦
          let at_k : i + 1 + k ≡ i + suc k = omega arith in
          inr (
            suc k,
            rw on (found ∙ ap (λ n. some (unauthorised n)) at_k),
            record {
              tx = first.tx;
              before = tx ∷ first.before;
              after = first.after;
              split = ap (λ (xs : List T). tx ∷ xs) first.split;
              place = ap suc first.place;
              refused = first.refused;
              passed = (on, first.passed);
            },
          )
    ]
  ]

  -- A block that passes holds at most 512 transactions and all are authorised; one refused for its
  -- length holds more, and the refusal has how many; one refused for a transaction holds at most 512,
  -- and the refusal has the place of the first that is not authorised.
  pub deterministic_validity-Tells :
      (txs : List T) → Tells txs (deterministic_validity authorises txs)
  unfolding deterministic_validity Tells
  deterministic_validity-Tells txs = elim (Bool-cases (ltb max_txs_per_block (length txs))) [
    | inl long ↦ rw (long, deterministic_validity) (ground (arith, long), refl)
    | inr short ↦
        let size : length txs ≤ 512 = ground (arith, short) in
        elim (scan 0 txs) [
          | inl (passes, all) ↦ rw (short, deterministic_validity, passes) (size, all)
          | inr (k, found, first) ↦
              let at_k : 0 + k ≡ k = omega arith in
              rw (short, deterministic_validity, found, at_k) (size, first)
        ]
  ]
