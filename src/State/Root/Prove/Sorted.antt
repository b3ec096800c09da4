-- ===== src/State/Root/Prove/Sorted.antt =====
-- The leaves of a section of crates/state/src/root.rs stand in key order.
use edet.Base.{ℕ, zero, suc, ◌+◌, ◌<◌, ◌≡◌, true, Option, List, [], ◌∷◌, arith, All, subst}
use edet.Map.{Map, insert, IsSorted, Above}
use edet.Map.Keys.{nat_ordered, pair_ordered}
use edet.Map.Strings.{bytes_ordered}
use edet.Map.Strings.Numbers.{cmp_bytes-u64_bytes}
use edet.Map.Laws.{insert-IsSorted}
use edet.Bytes.{Bytes}
use edet.State.Root.{Section, members, contracts, proposals, validators, stakes, replay, ledger}
use edet.State.Root.Leaves.{
  State, Codec, Leaves, ok, id_key, extend_keys, extend_creditors, epochs_from, stake_keys,
}
use edet.State.Root.Sections.{rows_of, rows_at, ids_of, record_leaves, section_rows}
use edet.State.Root.Prove.Rows.{fits}
use edet.State.Root.Prove.Reads.{IsKept}
use edet.State.Root.Prove.Found.{record_leaves_step, ok_inj}

Above-rows_of :
    {V : Type 0} (enc : V → Option Bytes) (k : ℕ) (m : Map ℕ V)
    → Above k m
    → Above k (rows_of enc m)
Above-rows_of enc k [] h = tt
Above-rows_of enc k ((i, v) ∷ m) h = (h.0, Above-rows_of enc k m h.1)

rows_of-IsSorted :
    {V : Type 0} (enc : V → Option Bytes) (m : Map ℕ V) → IsSorted m → IsSorted (rows_of enc m)
rows_of-IsSorted enc [] h = tt
rows_of-IsSorted enc ((i, v) ∷ m) h = (Above-rows_of enc i m h.0, rows_of-IsSorted enc m h.1)

Above-ids_of :
    (f : ℕ → Option Bytes) (k : ℕ) (m : Map ℕ Unit) → Above k m → Above k (rows_at f (ids_of m))
Above-ids_of f k [] h = tt
Above-ids_of f k ((i, v) ∷ m) h = (h.0, Above-ids_of f k m h.1)

ids_of-IsSorted :
    (f : ℕ → Option Bytes) (m : Map ℕ Unit) → IsSorted m → IsSorted (rows_at f (ids_of m))
ids_of-IsSorted f [] h = tt
ids_of-IsSorted f ((i, v) ∷ m) h = (Above-ids_of f i m h.0, ids_of-IsSorted f m h.1)

Above-epochs_from :
    (f : ℕ → Option Bytes) (k from n : ℕ) → k < from → Above k (rows_at f (epochs_from from n))
Above-epochs_from f k from zero h = tt
Above-epochs_from f k from (suc n) h =
    (ground (arith, h), Above-epochs_from f k (from + 1) n (omega arith))

epochs_from-IsSorted :
    (f : ℕ → Option Bytes) (from n : ℕ) → IsSorted (rows_at f (epochs_from from n))
epochs_from-IsSorted f from zero = tt
epochs_from-IsSorted f from (suc n) =
    (Above-epochs_from f from (from + 1) n (omega arith), epochs_from-IsSorted f (from + 1) n)

extend_keys-IsSorted :
    {V : Type 0} (m : Map ℕ V) (keys : Map ℕ Unit) → IsSorted keys → IsSorted (extend_keys m keys)
extend_keys-IsSorted [] keys h = h
extend_keys-IsSorted ((k, v) ∷ m) keys h =
    extend_keys-IsSorted m (insert k tt keys) (insert-IsSorted k tt keys h)

extend_creditors-IsSorted :
    (m : Map (ℕ × ℕ) ℕ) (keys : Map ℕ Unit) → IsSorted keys → IsSorted (extend_creditors m keys)
extend_creditors-IsSorted [] keys h = h
extend_creditors-IsSorted (((c, d), w) ∷ m) keys h =
    extend_creditors-IsSorted m (insert c tt keys) (insert-IsSorted c tt keys h)

module _ {M C P Params : Type 0} (codec : Codec M C P Params) where
  stake_keys-IsSorted : (s : State M C P Params) → IsSorted (stake_keys s)
  unfolding stake_keys
  stake_keys-IsSorted s = extend_creditors-IsSorted s.seat_reserved.rows _ (
      extend_creditors-IsSorted s.reserved.rows _
        (extend_creditors-IsSorted s.edges.rows _ (extend_keys-IsSorted s.members.rows [] tt)))

  pub section_rows-IsSorted :
      (s : State M C P Params)
      → IsKept s
      → (section : Section) → IsSorted (section_rows codec s section)
  unfolding section_rows
  section_rows-IsSorted s h members = rows_of-IsSorted codec.member s.members.rows h.members
  section_rows-IsSorted s h contracts = rows_of-IsSorted codec.contract s.contracts.rows h.contracts
  section_rows-IsSorted s h proposals = rows_of-IsSorted codec.proposal s.proposals.rows h.proposals
  section_rows-IsSorted s h validators = rows_of-IsSorted codec.weight s.validators h.validators
  section_rows-IsSorted s h stakes = ids_of-IsSorted _ (stake_keys s) (stake_keys-IsSorted s)
  section_rows-IsSorted s h replay = epochs_from-IsSorted _ _ _
  section_rows-IsSorted s h ledger = tt

module _ (sha256 : Bytes → Bytes) (root_salt : Bytes) (marker : ℕ) (section : Section) where
  Above-record_leaves :
      (k index : ℕ) (rows : List (ℕ × Option Bytes)) (leaves : Leaves)
      → fits k ≡ true
      → All (λ (row : ℕ × Option Bytes). fits row.0 ≡ true) rows
      → Above k rows
      → record_leaves sha256 root_salt marker section index rows ≡ ok leaves
      → Above (id_key k) leaves
  unfolding record_leaves id_key
  Above-record_leaves k index [] leaves fit all h e = subst (Above (id_key k)) (ok_inj e) tt
  Above-record_leaves k index ((id, value) ∷ rows) leaves fit all h e =
      let (bytes, later, _, rest, shape) =
        record_leaves_step sha256 root_salt marker section index id value rows leaves e in
      subst (Above (id_key k)) shape (
        cmp_bytes-u64_bytes k id (ground (arith, fit)) (ground (arith, all.0))
            (ground (arith, h.0)),
        Above-record_leaves k (index + 1) rows later fit all.1 h.1 rest,
      )

  pub record_leaves-IsSorted :
      (index : ℕ) (rows : List (ℕ × Option Bytes)) (leaves : Leaves)
      → All (λ (row : ℕ × Option Bytes). fits row.0 ≡ true) rows
      → IsSorted rows
      → record_leaves sha256 root_salt marker section index rows ≡ ok leaves
      → IsSorted leaves
  unfolding record_leaves
  record_leaves-IsSorted index [] leaves all h e = subst IsSorted (ok_inj e) tt
  record_leaves-IsSorted index ((id, value) ∷ rows) leaves all h e =
      let (bytes, later, _, rest, shape) =
        record_leaves_step sha256 root_salt marker section index id value rows leaves e in
      subst IsSorted shape (
        Above-record_leaves id (index + 1) rows later all.0 all.1 h.0 rest,
        record_leaves-IsSorted (index + 1) rows later all.1 h.1 rest,
      )
