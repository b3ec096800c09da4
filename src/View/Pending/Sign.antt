-- ===== src/View/Pending/Sign.antt =====
-- `PendingPool::sign` and `decline` of crates/view/src/pending.rs.
pub mod Opening
pub mod Course
pub mod Kept
pub mod Complete
use edet.Base.{
  ℕ, ◌⊎◌, inl, inr, Bool, true, false, not, ◌&&◌, ◌||◌, none, some, [], ◌∷◌, ◌++◌, ltb, leb, ◌==◌,
  if◌then◌else◌, or_else, length,
}
use edet.Bytes.{Bytes}
use edet.Map.{get, insert, remove, contains_key}
use edet.Map.Strings.{bytes_ordered}
use edet.View.Party.{Party, party_ordered, names, same_party}
use edet.View.Pending.{
  Scheme, Registry, PendingSignReq, PendingEntry, PendingPool, Completed, Rejection, SignOutcome,
  max_invited_per_member, party_of_key, verified_signer, request_digest, signed_parties, prune,
  tombstone,
}
use edet.View.Pending.Invitation.{invited_by}
use edet.View.Pending.Reclaim.{count_entries, make_room}

-- `b"edet-decline"`
abbrev pub decline_domain : Bytes
decline_domain = 101 ∷ 100 ∷ 101 ∷ 116 ∷ 45 ∷ 100 ∷ 101 ∷ 99 ∷ 108 ∷ 105 ∷ 110 ∷ 101 ∷ []

unfoldable pub decline_message : (Bytes → Bytes) → Bytes → Bytes
decline_message sha256 d = sha256 (d ++ decline_domain)

-- `matches!(p, Party::Key(_))`
abbrev pub is_key : Party → Bool
is_key (Party.member _) = false
is_key (Party.key _) = true

module _ {F : Type 0} where
  -- Was the entry opened on an invitation of this member?
  abbrev pub is_invited : ℕ → PendingEntry F → Bool
  is_invited inviter e = e.initiator == inviter && is_key e.opener

  -- The `match (party, contains_key)` of `sign`: the member charged and the opener, or a refusal.
  unfoldable pub opening :
      Scheme F
      → Registry
      → PendingSignReq F
      → ℕ
      → Bytes
      → PendingPool F
      → Party
      → Rejection ⊎ (ℕ × Party)
  unfolding invited_by count_entries
  opening scheme st req now_secs d pool (Party.member id) = inr (id, Party.member id)
  opening scheme st req now_secs d pool (Party.key k) = elim (get d pool.entries) [
    | some e ↦ inr (e.initiator, e.opener)
    | none ↦ elim (invited_by scheme st req now_secs) [
      | none ↦ inl Rejection.may_not_open
      | some (inviter, _) ↦
          if leb max_invited_per_member (count_entries (is_invited inviter) pool.entries)
          then inl Rejection.too_many_invitations
          else inr (inviter, Party.key k)
    ]
  ]

  -- The entry that `or_insert_with` makes.
  abbrev pub fresh_entry : PendingSignReq F → ℕ → ℕ → Party → PendingEntry F
  fresh_entry req now_secs charged opener = record {
    tx = req.tx;
    nonce = req.nonce;
    not_after_epoch = req.not_after_epoch;
    required = req.required;
    min_sigs = req.min_sigs;
    initiator = charged;
    opener = opener;
    created_secs = now_secs;
    sigs = [];
  }

  -- `sign` from `or_insert_with` on, with the entry found or made.
  unfoldable pub cosign :
      Registry
      → PendingSignReq F
      → Bytes
      → PendingEntry F
      → PendingPool F
      → SignOutcome F × PendingPool F
  unfolding signed_parties tombstone
  cosign st req d found pool =
      let entry : PendingEntry F = record found {
        sigs = insert req.signer req.signature found.sigs;
      } in
      let is_new = not (contains_key req.signer found.sigs) in
      let held : PendingPool F = record pool { entries = insert d entry pool.entries } in
      let closed : PendingPool F = record held { entries = remove d held.entries } in
      let completed : Completed F = record {
        tx = entry.tx;
        nonce = entry.nonce;
        not_after_epoch = entry.not_after_epoch;
        signed = entry.sigs;
      } in
      if leb entry.min_sigs (length (signed_parties st entry))
      then (SignOutcome.complete completed, tombstone d closed)
      else (SignOutcome.recorded is_new, held)

  -- `sign` once the signer is known to be a required party.
  unfoldable pub sign_as :
      Scheme F
      → Registry
      → PendingSignReq F
      → ℕ
      → Bytes
      → PendingPool F
      → Party
      → SignOutcome F × PendingPool F
  unfolding opening make_room cosign
  sign_as scheme st req now_secs d pool party = elim (opening scheme st req now_secs d pool party) [
    | inl why ↦ (SignOutcome.rejected why, pool)
    | inr (charged, opener) ↦ elim (make_room d charged pool.entries) [
      | none ↦ (SignOutcome.rejected Rejection.pool_full, pool)
      | some entries ↦
          cosign st req d (or_else (get d entries) (fresh_entry req now_secs charged opener))
            (record pool { entries = entries })
    ]
  ]

  -- `sign` from the digest on.
  unfoldable pub sign_at :
      Scheme F
      → Registry
      → PendingSignReq F
      → ℕ
      → Bytes
      → PendingPool F
      → SignOutcome F × PendingPool F
  unfolding verified_signer sign_as
  sign_at scheme st req now_secs d pool =
      if contains_key d pool.tombstones
      then (SignOutcome.rejected Rejection.closed, pool)
      else if length req.required == 0
          || req.min_sigs == 0
          || ltb (length req.required) req.min_sigs
      then (SignOutcome.rejected Rejection.bad_requirements, pool)
      else elim (verified_signer scheme st req d) [
        | none ↦ (SignOutcome.rejected Rejection.bad_signature, pool)
        | some party ↦
            if not (names party req.required)
            then (SignOutcome.rejected Rejection.not_required, pool)
            else sign_as scheme st req now_secs d pool party
      ]

  unfoldable pub sign :
      Scheme F → Registry → PendingSignReq F → ℕ → PendingPool F → SignOutcome F × PendingPool F
  unfolding prune request_digest sign_at
  sign scheme st req now_secs pool =
      let pruned = prune now_secs pool in
      elim (request_digest scheme st req) [
        | none ↦ (SignOutcome.rejected Rejection.undigestable, pruned)
        | some d ↦ sign_at scheme st req now_secs d pruned
      ]

  unfoldable pub decline :
      Scheme F
      → (Bytes → Bytes)
      → Registry
      → Bytes
      → Bytes
      → Bytes
      → PendingPool F
      → Bool × PendingPool F
  unfolding decline_message tombstone
  decline scheme sha256 st d signer signature pool =
      if not (scheme.verify signer (decline_message sha256 d) signature)
      then (false, pool)
      else elim (get d pool.entries) [
        | none ↦ (false, pool)
        | some entry ↦
            let party = party_of_key st signer in
            if not (names party entry.required)
              && not (same_party (Party.member entry.initiator) party)
            then (false, pool)
            else (true, tombstone d (record pool { entries = remove d pool.entries }))
      ]
