-- ===== src/View/Pending/Invitation.antt =====
-- `invite_message` and `invited_by` of crates/view/src/pending.rs, with the formatting of hexadecimal
-- bytes and decimal numbers.
use edet.Base.{
  ℕ, zero, suc, ◌+◌, Bool, false, not, ◌&&◌, ◌||◌, Option, none, some, List, [], ◌∷◌, ltb, ◌==◌,
  if◌then◌else◌, length, ◌%◌, ◌/◌,
}
use edet.Bytes.{Bytes, concat}
use edet.View.Party.{Party, same_party, names}
use edet.View.Pending.{Tx, Scheme, Registry, PendingSignReq, member_of_key}

-- `b"edet-invite-v1"`
abbrev pub invite_domain : Bytes
invite_domain = 101 ∷ 100 ∷ 101 ∷ 116 ∷ 45 ∷ 105 ∷ 110 ∷ 118 ∷ 105 ∷ 116 ∷ 101 ∷ 45 ∷ 118 ∷ 49 ∷ []

-- A hexadecimal digit, lower case.
abbrev pub hex_digit : ℕ → ℕ
hex_digit n = if ltb n 10 then 48 + n else 87 + n

-- `format!("{b:02x}")` of every byte.
unfoldable pub hex : Bytes → Bytes
hex [] = []
hex (b ∷ bs) = hex_digit (b / 16) ∷ hex_digit (b % 16) ∷ hex bs

-- The decimal digits of a number before `acc`: twenty are enough for 64 bits.
unfoldable pub decimal_from : ℕ → ℕ → Bytes → Bytes
decimal_from zero n acc = acc
decimal_from (suc fuel) n acc =
    let digits = (48 + n % 10) ∷ acc in
    let rest = decimal_from fuel (n / 10) digits in if ltb n 10 then digits else rest

abbrev pub decimal : ℕ → Bytes
unfolding decimal_from
decimal n = decimal_from 20 n []

unfoldable pub invite_message : Bytes → Bytes → ℕ → Bytes → Bytes
unfolding decimal hex
invite_message chain_id k not_after_secs nonce = concat (
    invite_domain
    ∷ (10 ∷ [])
    ∷ chain_id
    ∷ (10 ∷ [])
    ∷ hex k
    ∷ (10 ∷ [])
    ∷ decimal not_after_secs
    ∷ (10 ∷ [])
    ∷ hex nonce
    ∷ [])

-- `names_inviter`
abbrev pub names_inviter : ℕ → Bytes → Party → Bool
names_inviter inviter k p = same_party p (Party.member inviter) || same_party p (Party.key k)

-- `required.iter().any(names_inviter)`
unfoldable pub any_inviter : ℕ → Bytes → List Party → Bool
any_inviter inviter k [] = false
any_inviter inviter k (p ∷ ps) = names_inviter inviter k p || any_inviter inviter k ps

module _ {F : Type 0} where
  -- Is the transaction a purchase by `buyer` from the inviter?
  unfoldable pub is_purchase : Party → ℕ → Bytes → Tx F → Bool
  is_purchase buyer inviter k (Tx.sale seller b rest) =
      same_party b buyer && names_inviter inviter k seller
  is_purchase buyer inviter k (Tx.accept debtor creditor rest) =
      same_party debtor buyer && names_inviter inviter k creditor
  is_purchase buyer inviter k (Tx.other rest) = false

  -- `invited_by`, past the invitation's signature.
  unfoldable pub invites : PendingSignReq F → ℕ → Bytes → Option (ℕ × Bytes)
  unfolding is_purchase any_inviter
  invites req inviter k =
      let buyer = Party.key req.signer in
      if not (is_purchase buyer inviter k req.tx)
      then none
      else if not (length req.required == 2)
          || not (req.min_sigs == 2)
          || not (names buyer req.required)
          || not (any_inviter inviter k req.required)
      then none
      else some (inviter, k)

  unfoldable pub invited_by : Scheme F → Registry → PendingSignReq F → ℕ → Option (ℕ × Bytes)
  unfolding invites invite_message
  invited_by scheme st req now_secs = elim req.invite [
    | none ↦ none
    | some inv ↦ if ltb inv.not_after_secs now_secs then none else elim (member_of_key st inv.key) [
      | none ↦ none
      | some inviter ↦
          if not (
            scheme.verify inv.key (invite_message st.chain_id inv.key inv.not_after_secs inv.nonce)
              inv.signature)
          then none
          else invites req inviter inv.key
    ]
  ]
