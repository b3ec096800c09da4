-- ===== src/View/Pending/Closed.antt =====
-- What becomes of a proposal of crates/view/src/pending.rs that was declined or has completed.
use edet.Base.{
  ℕ, ◌<◌, ◌≡◌, sym, ap, ◌∙◌, inl, inr, Bool, true, some, List, arith, Bool-cases, length, All,
  subst,
}
use edet.Bytes.{Bytes}
use edet.Map.{contains_key}
use edet.Map.Strings.{bytes_ordered}
use edet.View.Pending.{
  Scheme, Registry, PendingSignReq, PendingPool, SignOutcome, Completed, Rejection, prune,
  tombstone, request_digest, max_tombstones,
}
use edet.View.Pending.Lasting.{Lasts, append-Lasts}
use edet.View.Pending.Runs.{Call, chain_of, run, Lasts-refused}
use edet.View.Pending.Sign.{sign, decline}
use edet.View.Pending.Sign.Complete.{sign-IsComplete}
use edet.View.Pending.Sign.Kept.{sign-IsSound, decline-IsSound, decline-cases}
use edet.View.Pending.Sound.{IsSound, prune-IsSound}

module _ {F : Type 0} (scheme : Scheme F) (sha256 : Bytes → Bytes) (st : Registry) where
  declined-Lasts :
      (d signer signature : Bytes) (pool : PendingPool F)
      → IsSound scheme st.chain_id pool
      → (decline scheme sha256 st d signer signature pool).0 ≡ true
      → Lasts d 0 (decline scheme sha256 st d signer signature pool).1.tombstone_order
  unfolding tombstone
  declined-Lasts d signer signature pool h r =
      elim (decline-cases scheme sha256 st d signer signature pool) [
        | inl same ↦ absurd (ground (arith, r, same))
        | inr (entry, there, same) ↦ elim (Bool-cases (contains_key d pool.tombstones)) [
          | inl shut ↦ absurd (ground (arith, h.apart d shut, there))
          | inr free ↦
              rw (same, tombstone)
                (rw free (append-Lasts d pool.tombstone_order (sym (h.stones.same d) ∙ free)))
        ]
      ]

  -- The ways in which a proposal with digest `d` is closed: a decline that is taken, or the signature
  -- that completes it.
  pub data Closes (d : Bytes) (pool after : PendingPool F) : Type 0 where
    declined :
        (signer signature : Bytes)
        → decline scheme sha256 st d signer signature pool ≡ (true, after)
        → Closes d pool after
    completed :
        (req : PendingSignReq F) (now_secs : ℕ) (c : Completed F)
        → request_digest scheme st req ≡ some d
        → sign scheme st req now_secs pool ≡ (SignOutcome.complete c, after)
        → Closes d pool after

  Closes-IsSound :
      (d : Bytes) (pool after : PendingPool F)
      → IsSound scheme st.chain_id pool
      → Closes d pool after
      → IsSound scheme st.chain_id after
  Closes-IsSound d pool after h (Closes.declined signer signature r) =
      subst (λ (p : Bool × PendingPool F). IsSound scheme st.chain_id p.1) r
        (decline-IsSound scheme st sha256 d signer signature pool h)
  Closes-IsSound d pool after h (Closes.completed req now_secs c e r) =
      subst (λ (p : SignOutcome F × PendingPool F). IsSound scheme st.chain_id p.1) r
        (sign-IsSound scheme st req now_secs pool h)

  Closes-Lasts :
      (d : Bytes) (pool after : PendingPool F)
      → IsSound scheme st.chain_id pool
      → Closes d pool after
      → Lasts d 0 after.tombstone_order
  Closes-Lasts d pool after h (Closes.declined signer signature r) =
      subst (λ (p : Bool × PendingPool F). Lasts d 0 p.1.tombstone_order) r
        (declined-Lasts d signer signature pool h (ap (λ (p : Bool × PendingPool F). p.0) r))
  Closes-Lasts d pool after h (Closes.completed req now_secs c e r) =
      let (x, done, free, order) = sign-IsComplete scheme st req now_secs pool c after h r in
      let pruned = prune-IsSound scheme st.chain_id now_secs pool h in
      let same : x ≡ d = ground (arith, done.requested, e) in
      subst (λ y. Lasts y 0 after.tombstone_order) same
        (subst (Lasts x 0) (sym order) (
          append-Lasts x (prune now_secs pool).tombstone_order
            (sym (pruned.0.stones.same x) ∙ free)))

  -- Once a proposal of a sound pool was declined or has completed, no signature opens or completes it
  -- again within fewer than 4,096 calls, whatever the ledgers of that chain: it is refused as closed.
  pub Closes-refused :
      (d : Bytes) (pool after : PendingPool F)
      → IsSound scheme st.chain_id pool
      → Closes d pool after
      → (cs : List (Call F)) → All (λ c. chain_of c ≡ st.chain_id) cs
      → length cs < max_tombstones
      → (later : Registry) → later.chain_id ≡ st.chain_id
      → (req : PendingSignReq F) (now_secs : ℕ) → request_digest scheme later req ≡ some d
      → sign scheme later req now_secs (run scheme sha256 cs after)
        ≡ (SignOutcome.rejected Rejection.closed, prune now_secs (run scheme sha256 cs after))
  Closes-refused d pool after h closing cs e few later same req now_secs at =
      Lasts-refused scheme sha256 later req now_secs d cs after
        (subst (λ x. All (λ c. chain_of c ≡ x) cs) (sym same) e)
        (subst (λ x. IsSound scheme x after) (sym same) (Closes-IsSound d pool after h closing)) few
        (Closes-Lasts d pool after h closing) at
