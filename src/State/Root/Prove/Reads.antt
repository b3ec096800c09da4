-- ===== src/State/Root/Prove/Reads.antt =====
-- The rows of every section of crates/state/src/root.rs, against `record_value`.
use edet.Base.{ℕ, ◌<◌, ◌≡◌, Bool, true, Option, some, [], arith, All, ◌^◌}
use edet.Map.{get, IsSorted}
use edet.Map.Keys.{nat_ordered, pair_ordered}
use edet.Bytes.{Bytes}
use edet.State.Root.{Section, members, contracts, proposals, validators, stakes, replay, ledger}
use edet.State.Root.Leaves.{State, Codec, epoch_of, in_window, stake_keys, replay_window, range}
use edet.State.Root.Sections.{ids_of, section_rows}
use edet.State.Root.Prove.{holds_a_stake_row, row_value, is_some, is_filled}
use edet.State.Root.Prove.Rows.{
  fits, rows_of-get, keys_within, creditors_within, keys_read, creditors_read, rows_at-reads,
  rows_at-within, rows_of-within, ids_of-within, All_both, All_map, epochs_within,
}

-- The types of the source: its maps are ordered and its numbers are `u64`.
pub record IsKept {M C P Params : Type 0} (s : State M C P Params) : Type 0 where
  pub members : IsSorted s.members.rows
  pub contracts : IsSorted s.contracts.rows
  pub proposals : IsSorted s.proposals.rows
  pub validators : IsSorted s.validators
  pub member_ids : All (λ (row : ℕ × M). fits row.0 ≡ true) s.members.rows
  pub contract_ids : All (λ (row : ℕ × C). fits row.0 ≡ true) s.contracts.rows
  pub proposal_ids : All (λ (row : ℕ × P). fits row.0 ≡ true) s.proposals.rows
  pub validator_ids : All (λ (row : ℕ × ℕ). fits row.0 ≡ true) s.validators
  pub edge_ids : All (λ (row : (ℕ × ℕ) × ℕ). fits row.0.0 ≡ true) s.edges.rows
  pub reserved_ids : All (λ (row : (ℕ × ℕ) × ℕ). fits row.0.0 ≡ true) s.reserved.rows
  pub seat_ids : All (λ (row : (ℕ × ℕ) × ℕ). fits row.0.0 ≡ true) s.seat_reserved.rows
  pub epoch : epoch_of s < 2 ^ 64

module _ {M C P Params : Type 0} (s : State M C P Params) where
  pub in_window-fits : (e : ℕ) → in_window (epoch_of s) e ≡ true → fits e ≡ true
  in_window-fits e h = ground (arith, h)

  pub holds_member : (i : ℕ) → is_some (get i s.members.rows) ≡ true → holds_a_stake_row s i ≡ true
  unfolding holds_a_stake_row
  holds_member i h = ground (arith, h)

  pub holds_edge : (i : ℕ) → is_filled (range i s.edges.rows) ≡ true → holds_a_stake_row s i ≡ true
  unfolding holds_a_stake_row
  holds_edge i h = ground (arith, h)

  pub holds_reserved :
      (i : ℕ) → is_filled (range i s.reserved.rows) ≡ true → holds_a_stake_row s i ≡ true
  unfolding holds_a_stake_row
  holds_reserved i h = ground (arith, h)

  pub holds_seat :
      (i : ℕ) → is_filled (range i s.seat_reserved.rows) ≡ true → holds_a_stake_row s i ≡ true
  unfolding holds_a_stake_row
  holds_seat i h = ground (arith, h)

  stakes_within :
      (p : ℕ → Bool)
      → All (λ (row : ℕ × M). p row.0 ≡ true) s.members.rows
      → All (λ (row : (ℕ × ℕ) × ℕ). p row.0.0 ≡ true) s.edges.rows
      → All (λ (row : (ℕ × ℕ) × ℕ). p row.0.0 ≡ true) s.reserved.rows
      → All (λ (row : (ℕ × ℕ) × ℕ). p row.0.0 ≡ true) s.seat_reserved.rows
      → All (λ k. p k ≡ true) (ids_of (stake_keys s))
  unfolding stake_keys
  stakes_within p m e r t = ids_of-within p _ (
      creditors_within p s.seat_reserved.rows _ t (
        creditors_within p s.reserved.rows _ r
          (creditors_within p s.edges.rows _ e (keys_within p s.members.rows [] m tt))))

  stake_keys-held :
      IsSorted s.members.rows → All (λ k. holds_a_stake_row s k ≡ true) (ids_of (stake_keys s))
  stake_keys-held h =
      stakes_within (holds_a_stake_row s)
        (All_map _ _ s.members.rows (λ row. holds_member row.0)
          (keys_read s.members.rows s.members.rows h (λ k v e. e)))
        (All_map _ _ s.edges.rows (λ row. holds_edge row.0.0)
          (creditors_read s.edges.rows s.edges.rows (λ c e. e)))
        (All_map _ _ s.reserved.rows (λ row. holds_reserved row.0.0)
          (creditors_read s.reserved.rows s.reserved.rows (λ c e. e)))
        (All_map _ _ s.seat_reserved.rows (λ row. holds_seat row.0.0)
          (creditors_read s.seat_reserved.rows s.seat_reserved.rows (λ c e. e)))

  window_within :
      epoch_of s < 2 ^ 64 → All (λ e. in_window (epoch_of s) e ≡ true) (replay_window (epoch_of s))
  window_within h = epochs_within (epoch_of s) (epoch_of s) _ (omega arith) (omega (arith, h))

  module _ (codec : Codec M C P Params) where
    -- Every row of a section is read back by its id, which fits a `u64`.
    pub section_rows-reads :
        IsKept s
        → (section : Section)
        → All
            (λ (row : ℕ × Option Bytes).
              (row_value codec s section row.0 ≡ some row.1) × (fits row.0 ≡ true))
            (section_rows codec s section)
    unfolding section_rows row_value
    section_rows-reads h members =
        All_both _ _ _
          (rows_of-get codec.member s.members.rows s.members.rows h.members (λ k v e. e))
          (rows_of-within fits codec.member s.members.rows h.member_ids)
    section_rows-reads h contracts =
        All_both _ _ _
          (rows_of-get codec.contract s.contracts.rows s.contracts.rows h.contracts (λ k v e. e))
          (rows_of-within fits codec.contract s.contracts.rows h.contract_ids)
    section_rows-reads h proposals =
        All_both _ _ _
          (rows_of-get codec.proposal s.proposals.rows s.proposals.rows h.proposals (λ k v e. e))
          (rows_of-within fits codec.proposal s.proposals.rows h.proposal_ids)
    section_rows-reads h validators =
        All_both _ _ _
          (rows_of-get codec.weight s.validators s.validators h.validators (λ k v e. e))
          (rows_of-within fits codec.weight s.validators h.validator_ids)
    section_rows-reads h stakes =
        All_both _ _ _ (rows_at-reads (holds_a_stake_row s) _ _ (stake_keys-held h.members)) (
          rows_at-within fits _ _
            (stakes_within fits h.member_ids h.edge_ids h.reserved_ids h.seat_ids))
    section_rows-reads h replay =
        All_both _ _ _ (rows_at-reads (in_window (epoch_of s)) _ _ (window_within h.epoch))
          (rows_at-within fits _ _ (All_map _ _ _ in_window-fits (window_within h.epoch)))
    section_rows-reads h ledger = tt
