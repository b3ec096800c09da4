-- ===== src/Node/Block.antt =====
-- crates/node/src/block.rs: the rules on a block's time and on its transactions, and the digest that
-- a transaction's signers sign. `authorises` of crates/state, SHA-256 and the encoding of an envelope
-- are parameters.
pub mod Rules
pub mod Digest
pub mod Time
use edet.Base.{
  ℕ, zero, suc, ◌+◌, min, Bool, not, Option, none, some, List, [], ◌∷◌, ltb, leb, if◌then◌else◌,
  length, ◌%◌, ◌/◌,
}
use edet.Kernel.{u64_max}
use edet.Bytes.{Bytes, concat}

abbrev pub max_future_skew_secs : ℕ
max_future_skew_secs = 600

abbrev pub max_txs_per_block : ℕ
max_txs_per_block = 512

-- `b"edet-tx-v1"`
abbrev pub tx_domain : Bytes
tx_domain = 101 ∷ 100 ∷ 101 ∷ 116 ∷ 45 ∷ 116 ∷ 120 ∷ 45 ∷ 118 ∷ 49 ∷ []

unfoldable pub time_is_monotonic : ℕ → ℕ → Bool
time_is_monotonic block_time parent_time = leb parent_time block_time

unfoldable pub time_is_plausible : ℕ → ℕ → Bool
time_is_plausible block_time now_secs =
    leb block_time (min u64_max (now_secs + max_future_skew_secs))

pub data BlockRefusal : Type 0 where
  too_many_txs : ℕ → BlockRefusal
  unauthorised : ℕ → BlockRefusal

-- The loop of `deterministic_validity`, from an index on.
unfoldable pub check_txs : {T : Type 0} → (T → Bool) → ℕ → List T → Option BlockRefusal
check_txs authorises i [] = none
check_txs authorises i (tx ∷ txs) =
    let rest = check_txs authorises (i + 1) txs in
    if not (authorises tx) then some (BlockRefusal.unauthorised i) else rest

-- `deterministic_validity`: the refusal, or none.
unfoldable pub deterministic_validity : {T : Type 0} → (T → Bool) → List T → Option BlockRefusal
unfolding check_txs
deterministic_validity authorises txs =
    if ltb max_txs_per_block (length txs)
    then some (BlockRefusal.too_many_txs (length txs))
    else check_txs authorises 0 txs

-- `to_le_bytes`
unfoldable pub le_bytes : ℕ → ℕ → Bytes
le_bytes zero n = []
le_bytes (suc w) n = (n % 256) ∷ le_bytes w (n / 256)

-- `tx_digest`, of an envelope that encodes so, if it does.
unfoldable pub tx_digest : (Bytes → Bytes) → Bytes → Option Bytes → Option Bytes
unfolding le_bytes
tx_digest sha256 chain_id none = none
tx_digest sha256 chain_id (some payload) =
    some (sha256 (concat (tx_domain ∷ le_bytes 8 (length chain_id) ∷ chain_id ∷ payload ∷ [])))
