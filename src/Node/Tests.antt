-- ===== src/Node/Tests.antt =====
-- The theorems on the node at inputs that meet their hypotheses. A transaction is its own hash.
use edet.Base.{
  ℕ, ◌+◌, ◌≤◌, max, ◌≡◌, refl, ◌⊎◌, Bool, false, not, ◌&&◌, Option, none, some, List, [], ◌∷◌,
  arith, ltb, ◌/◌,
}
use edet.Bytes.{Bytes, concat}
use edet.State.Root.Tree.Binding.{Collision}
use edet.Node.Block.{deterministic_validity, tx_domain, le_bytes, tx_digest, time_is_plausible}
use edet.State.Journal.{Dirty}
use edet.State.Replay.{Window, begin_block}
use edet.Node.Block.Time.{epoch-time_is_plausible}
use edet.Node.Block.Rules.{Tells, deterministic_validity-Tells}
use edet.Node.Block.Digest.{tx_digest-binding}
use edet.Map.{Map}
use edet.Map.Keys.{nat_ordered}
use edet.Node.Mempool.{Mempool, push, remove_committed, has, committed_of}
use edet.Node.Mempool.Agreement.{IsWell, listed, in_queue, push-IsWell, remove_committed-IsWell}

-- Transactions 5 and 3 are queued; 9 was committed.
abbrev pool : Mempool ℕ ℕ
pool = record {
  queue = (5, 5) ∷ (3, 3) ∷ [];
  queued = (3, tt) ∷ (5, tt) ∷ [];
  seen = 9 ∷ [];
  seen_set = (9, tt) ∷ [];
}

pool-IsWell : IsWell pool
pool-IsWell = record {
  sorted = ground arith;
  agree = λ g. ground arith;
  bounded = omega arith;
  seen_bounded = omega arith;
}

push-IsWell_example : IsWell (push 4 (some 4) pool).1
push-IsWell_example = push-IsWell 4 (some 4) pool pool-IsWell

push_again : (push 9 (some 9) pool).0 ≡ false
unfolding push
push_again = refl

-- The set walked in key order.
abbrev in_order : Map ℕ Unit → List ℕ
in_order [] = []
in_order ((h, _) ∷ s) = h ∷ in_order s

listed-in_order : (s : Map ℕ Unit) (g : ℕ) → listed g (in_order s) ≡ has g s
listed-in_order [] g = refl
listed-in_order ((h, _) ∷ s) g = ground (arith, listed-in_order s g)

remove_committed-IsWell_example :
    IsWell (remove_committed in_order (some 5 ∷ none ∷ some 7 ∷ []) pool)
    × ((g : ℕ)
        → in_queue g (remove_committed in_order (some 5 ∷ none ∷ some 7 ∷ []) pool).queue
          ≡ (in_queue g pool.queue && not (has g (committed_of (some 5 ∷ none ∷ some 7 ∷ []) []))))
remove_committed-IsWell_example =
    remove_committed-IsWell in_order (some 5 ∷ none ∷ some 7 ∷ []) pool listed-in_order pool-IsWell

-- Transactions below 5 are authorised.
abbrev small_ones : ℕ → Bool
small_ones tx = ltb tx 5

deterministic_validity-Tells_example :
    Tells small_ones (1 ∷ 7 ∷ 2 ∷ []) (deterministic_validity small_ones (1 ∷ 7 ∷ 2 ∷ []))
deterministic_validity-Tells_example = deterministic_validity-Tells small_ones (1 ∷ 7 ∷ 2 ∷ [])

-- The digest of a chain's name and a payload, where the hash is the identity.
abbrev digest : Bytes
digest = concat (tx_domain ∷ le_bytes 8 2 ∷ (97 ∷ 98 ∷ []) ∷ (5 ∷ 6 ∷ []) ∷ [])

digest-tx_digest : tx_digest (λ bytes. bytes) (97 ∷ 98 ∷ []) (some (5 ∷ 6 ∷ [])) ≡ some digest
unfolding tx_digest
digest-tx_digest = refl

abbrev chain_name : Bytes
chain_name = 97 ∷ 98 ∷ []

abbrev payload : Option Bytes
payload = some (5 ∷ 6 ∷ [])

tx_digest-binding_example :
    ((chain_name ≡ chain_name) × (payload ≡ payload)) ⊎ Collision (λ bytes. bytes)
tx_digest-binding_example =
    tx_digest-binding (λ bytes. bytes) chain_name chain_name payload payload digest (omega arith)
      (omega arith) digest-tx_digest digest-tx_digest

-- A window with no ids, in epoch 10.
abbrev young : Window ℕ
young = record {
  epoch = 10;
  last_begin_secs = 0;
  applied = record { rows = []; dirty = Dirty.clean };
}

epoch-time_is_plausible_example :
    (begin_block 1_000_500 young).epoch ≤ max 10 ((1_000_000 + 600) / 86_400)
unfolding time_is_plausible
epoch-time_is_plausible_example = epoch-time_is_plausible young 1_000_500 1_000_000 refl
