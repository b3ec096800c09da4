-- ===== src/View/Pending/Runs.antt =====
-- Sequences of the calls `sign` and `decline` of crates/view/src/pending.rs, each against the ledger of
-- its moment.
use edet.Base.{
  ℕ, ◌+◌, ◌≤◌, ◌<◌, ◌≡◌, refl, sym, ◌∙◌, inl, inr, true, some, List, [], ◌∷◌, arith, Option-cases,
  length, All, subst,
}
use edet.Bytes.{Bytes}
use edet.Map.{remove, contains_key}
use edet.Map.Strings.{bytes_ordered}
use edet.View.Pending.{
  Scheme, Registry, PendingSignReq, PendingPool, SignOutcome, Rejection, prune, request_digest,
  max_tombstones,
}
use edet.View.Pending.Lasting.{Lasts, tombstone-Lasts, prune-Lasts, later-Lasts, cosign-Lasts}
use edet.View.Pending.Sign.{sign_at, sign, decline}
use edet.View.Pending.Sign.Course.{Turn, sign_at-Course}
use edet.View.Pending.Sign.Kept.{sign-IsSound, decline-IsSound, decline-cases}
use edet.View.Pending.Sound.{IsSound, prune-IsSound}

-- A call, with the ledger it meets.
pub data Call (F : Type 0) : Type 0 where
  signs : Registry → PendingSignReq F → ℕ → Call F
  declines : Registry → Bytes → Bytes → Bytes → Call F

-- The chain of the ledger that a call meets.
abbrev pub chain_of : {F : Type 0} → Call F → Bytes
chain_of (Call.signs st req now_secs) = st.chain_id
chain_of (Call.declines st d signer signature) = st.chain_id

module _ {F : Type 0} (scheme : Scheme F) (sha256 : Bytes → Bytes) where
  unfoldable pub call : Call F → PendingPool F → PendingPool F
  unfolding sign decline
  call (Call.signs st req now_secs) pool = (sign scheme st req now_secs pool).1
  call (Call.declines st d signer signature) pool =
      (decline scheme sha256 st d signer signature pool).1

  unfoldable pub run : List (Call F) → PendingPool F → PendingPool F
  unfolding call
  run [] pool = pool
  run (c ∷ cs) pool = run cs (call c pool)

  call-IsSound :
      (chain_id : Bytes) (c : Call F) (pool : PendingPool F)
      → chain_of c ≡ chain_id
      → IsSound scheme chain_id pool
      → IsSound scheme chain_id (call c pool)
  unfolding call
  call-IsSound chain_id (Call.signs st req now_secs) pool e h =
      subst (λ x. IsSound scheme x (sign scheme st req now_secs pool).1) e
        (sign-IsSound scheme st req now_secs pool (subst (λ x. IsSound scheme x pool) (sym e) h))
  call-IsSound chain_id (Call.declines st d signer signature) pool e h =
      subst (λ x. IsSound scheme x (decline scheme sha256 st d signer signature pool).1) e
        (decline-IsSound scheme st sha256 d signer signature pool
          (subst (λ x. IsSound scheme x pool) (sym e) h))

  -- Any run of signatures and declines, whatever the ledgers of one chain they meet and the times, keeps
  -- a sound pool sound: at most 1,024 entries and 8 by invitation of one member, entries and tombstones
  -- together at most 5,120, the tombstones those of the order, no entry with a tombstone, and on every
  -- entry verified signatures only, of the digest that it stands under.
  pub run-IsSound :
      (chain_id : Bytes) (cs : List (Call F)) (pool : PendingPool F)
      → All (λ c. chain_of c ≡ chain_id) cs
      → IsSound scheme chain_id pool
      → IsSound scheme chain_id (run cs pool)
  unfolding run
  run-IsSound chain_id [] pool e h = h
  run-IsSound chain_id (c ∷ cs) pool e h =
      run-IsSound chain_id cs (call c pool) e.1 (call-IsSound chain_id c pool e.0 h)

  call-Lasts :
      (chain_id d : Bytes) (n : ℕ) (c : Call F) (pool : PendingPool F)
      → chain_of c ≡ chain_id
      → IsSound scheme chain_id pool
      → n < max_tombstones
      → Lasts d n pool.tombstone_order
      → Lasts d (n + 1) (call c pool).tombstone_order
  unfolding call sign
  call-Lasts chain_id d n (Call.signs st req now_secs) pool e h few l =
      let h' = subst (λ x. IsSound scheme x pool) (sym e) h in
      let pruned = prune-IsSound scheme st.chain_id now_secs pool h' in
      let stays = prune-Lasts now_secs d n pool few l in
      let later = later-Lasts d n (prune now_secs pool).tombstone_order stays in
      elim (Option-cases (request_digest scheme st req)) [
        | inl none_at ↦ rw (none_at, call, sign) later
        | inr (x, at) ↦
            elim (sign_at-Course scheme st req x now_secs (prune now_secs pool) pruned.0.held at) [
              | Turn.refused why same ↦ rw (at, call, sign) (rw same later)
              | Turn.joined found entries same held gone signed joins asks open_digest ok ↦
                  rw (at, call, sign)
                    (rw same (
                      cosign-Lasts st req x d n found
                        (record (prune now_secs pool) { entries = entries }) stays))
            ]
      ]
  call-Lasts chain_id d n (Call.declines st x signer signature) pool e h few l =
      elim (decline-cases scheme sha256 st x signer signature pool) [
        | inl same ↦ rw (same, call) (later-Lasts d n pool.tombstone_order l)
        | inr (entry, there, same) ↦
            rw (same, call)
              (tombstone-Lasts x d n (record pool { entries = remove x pool.entries }) l)
      ]

  run-Lasts :
      (chain_id d : Bytes) (n : ℕ) (cs : List (Call F)) (pool : PendingPool F)
      → All (λ c. chain_of c ≡ chain_id) cs
      → IsSound scheme chain_id pool
      → n + length cs ≤ max_tombstones
      → Lasts d n pool.tombstone_order
      → Lasts d (n + length cs) (run cs pool).tombstone_order
  unfolding run
  run-Lasts chain_id d n [] pool e h few l = record { there = l.there; few = omega (arith, l.few) }
  run-Lasts chain_id d n (c ∷ cs) pool e h few l =
      let next = call-Lasts chain_id d n c pool e.0 h (omega (arith, few)) l in
      let rest =
        run-Lasts chain_id d (n + 1) cs (call c pool) e.1 (call-IsSound chain_id c pool e.0 h)
          (omega (arith, few)) next in
      record { there = rest.there; few = omega (arith, rest.few) }

  -- A digest with a fresh tombstone stays refused for fewer than `max_tombstones` calls.
  pub Lasts-refused :
      (st : Registry) (req : PendingSignReq F) (now_secs : ℕ) (d : Bytes) (cs : List (Call F))
      (pool : PendingPool F)
      → All (λ c. chain_of c ≡ st.chain_id) cs
      → IsSound scheme st.chain_id pool
      → length cs < max_tombstones
      → Lasts d 0 pool.tombstone_order
      → request_digest scheme st req ≡ some d
      → sign scheme st req now_secs (run cs pool)
        ≡ (SignOutcome.rejected Rejection.closed, prune now_secs (run cs pool))
  unfolding sign sign_at
  Lasts-refused st req now_secs d cs pool e h few l at =
      let ended = run cs pool in
      let sound =
        prune-IsSound scheme st.chain_id now_secs ended (run-IsSound st.chain_id cs pool e h) in
      let lasts =
        prune-Lasts now_secs d (0 + length cs) ended (omega (arith, few))
          (run-Lasts st.chain_id d 0 cs pool e h (omega (arith, few)) l) in
      let shut : contains_key d (prune now_secs ended).tombstones ≡ true =
        sound.0.stones.same d ∙ lasts.there in
      rw (at, sign) (rw (shut, sign_at) refl)
