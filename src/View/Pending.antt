-- ===== src/View/Pending.antt =====
-- crates/view/src/pending.rs: the pool of proposals that wait for signatures. A transaction is its
-- kind, the two sides of a trade and the rest of its fields; what signatures are and which bytes they
-- sign (`Scheme`) and SHA-256 are parameters, and `Registry` is what the pool reads of the ledger.
pub mod Invitation
pub mod Reclaim
pub mod Sign
pub mod Inbox
pub mod Stones
pub mod Counts
pub mod Sound
pub mod Lasting
pub mod Runs
pub mod Closed
use edet.Base.{
  ℕ, zero, suc, ◌+◌, ◌-◌, ◌*◌, ◌≤◌, ◌<◌, min, max, Ordering, ◌≡◌, refl, sym, ap, ◌∙◌, ◌≢◌, ◌↔◌, ◌⊎◌,
  inl, inr, Bool, true, false, not, ◌&&◌, ◌||◌, Option, none, some, List, [], ◌∷◌, ◌++◌, arith,
  dec_lt, dec_le, ℕ_discrete, ltb, leb, ◌==◌, if◌then◌else◌, Bool-cases, Option-cases, or_else,
  length, get_or, set, replicate, take, drop, All,
}
use edet.Map.{Map, get, insert, remove, retain, contains_key}
use edet.Map.Strings.{bytes_ordered}
use edet.Bytes.{Bytes}
use edet.Kernel.{u64_max}
use edet.View.Party.{Party, party_ordered, names}

abbrev pub pending_ttl_secs : ℕ
pending_ttl_secs = 90 * 86_400

abbrev pub max_entries : ℕ
max_entries = 1_024

abbrev pub max_tombstones : ℕ
max_tombstones = 4_096

abbrev pub max_invited_per_member : ℕ
max_invited_per_member = 8

abbrev pub max_entries_per_initiator_when_full : ℕ
max_entries_per_initiator_when_full = 16

-- `Tx` as the pool reads it: `Tx::Sale`, `Tx::Accept` or any other, with the remaining fields.
pub data Tx (F : Type 0) : Type 0 where
  sale : Party → Party → F → Tx F
  accept : Party → Party → F → Tx F
  other : F → Tx F

pub record Scheme (F : Type 0) : Type 0 where
  pub digest : Bytes → Tx F → Bytes → ℕ → Option Bytes
  pub verify : Bytes → Bytes → Bytes → Bool

-- The fields of `State` that the pool reads.
pub record Registry : Type 0 where
  pub chain_id : Bytes
  pub key_index : Map Bytes ℕ

pub record Invite : Type 0 where
  pub key : Bytes
  pub not_after_secs : ℕ
  pub nonce : Bytes
  pub signature : Bytes

pub record PendingSignReq (F : Type 0) : Type 0 where
  pub tx : Tx F
  pub nonce : Bytes
  pub not_after_epoch : ℕ
  pub required : List Party
  pub min_sigs : ℕ
  pub signer : Bytes
  pub signature : Bytes
  pub invite : Option Invite

pub record PendingEntry (F : Type 0) : Type 0 where
  pub tx : Tx F
  pub nonce : Bytes
  pub not_after_epoch : ℕ
  pub required : List Party
  pub min_sigs : ℕ
  pub initiator : ℕ
  pub opener : Party
  pub created_secs : ℕ
  pub sigs : Map Bytes Bytes

-- A completed entry: its signatures by key, in key order.
pub record Completed (F : Type 0) : Type 0 where
  pub tx : Tx F
  pub nonce : Bytes
  pub not_after_epoch : ℕ
  pub signed : Map Bytes Bytes

pub record PendingPool (F : Type 0) : Type 0 where
  pub entries : Map Bytes (PendingEntry F)
  pub tombstones : Map Bytes Unit
  pub tombstone_order : List Bytes

-- The reasons of `SignOutcome::Rejected`.
pub data Rejection : Type 0 where
  undigestable : Rejection
  closed : Rejection
  bad_requirements : Rejection
  bad_signature : Rejection
  not_required : Rejection
  too_many_invitations : Rejection
  may_not_open : Rejection
  pool_full : Rejection

pub data SignOutcome (F : Type 0) : Type 0 where
  recorded : Bool → SignOutcome F
  complete : Completed F → SignOutcome F
  rejected : Rejection → SignOutcome F

-- `PendingPool::default`
abbrev pub empty_pool : {F : Type 0} → PendingPool F
empty_pool = record { entries = []; tombstones = []; tombstone_order = [] }

unfoldable pub member_of_key : Registry → Bytes → Option ℕ
member_of_key st k = get k st.key_index

-- The party that a key stands for.
abbrev pub party_of_key : Registry → Bytes → Party
party_of_key st k = elim (member_of_key st k) [ none ↦ Party.key k | some id ↦ Party.member id ]

-- The required parties among the signers of a list of signatures.
unfoldable pub signers_of : Registry → List Party → Map Bytes Bytes → Map Party Unit
signers_of st required [] = []
signers_of st required ((k, _) ∷ sigs) =
    let rest = signers_of st required sigs in
    let p = party_of_key st k in if names p required then insert p tt rest else rest

-- The end of `prune`: the oldest tombstones go while there are too many.
unfoldable pub drop_oldest : Map Bytes Unit → List Bytes → Map Bytes Unit × List Bytes
drop_oldest stones [] = (stones, [])
drop_oldest stones (oldest ∷ later) =
    let rest = drop_oldest (remove oldest stones) later in
    if ltb max_tombstones (length (oldest ∷ later)) then rest else (stones, oldest ∷ later)

module _ {F : Type 0} where
  unfoldable pub verified_signer : Scheme F → Registry → PendingSignReq F → Bytes → Option Party
  verified_signer scheme st req d =
      if scheme.verify req.signer d req.signature then some (party_of_key st req.signer) else none

  unfoldable pub request_digest : Scheme F → Registry → PendingSignReq F → Option Bytes
  request_digest scheme st req = scheme.digest st.chain_id req.tx req.nonce req.not_after_epoch

  unfoldable pub signed_parties : Registry → PendingEntry F → Map Party Unit
  unfolding signers_of
  signed_parties st entry = signers_of st entry.required entry.sigs

  -- Is a proposal within its time?
  abbrev pub is_fresh : ℕ → PendingEntry F → Bool
  is_fresh now e = ltb now (min u64_max (e.created_secs + pending_ttl_secs))

  unfoldable pub prune : ℕ → PendingPool F → PendingPool F
  unfolding drop_oldest
  prune now pool =
      let (stones, order) = drop_oldest pool.tombstones pool.tombstone_order in
      record {
        entries = retain (λ _ e. is_fresh now e) pool.entries;
        tombstones = stones;
        tombstone_order = order;
      }

  unfoldable pub tombstone : Bytes → PendingPool F → PendingPool F
  tombstone d pool = if contains_key d pool.tombstones then pool else record pool {
    tombstones = insert d tt pool.tombstones;
    tombstone_order = pool.tombstone_order ++ d ∷ [];
  }
