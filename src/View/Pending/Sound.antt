-- ===== src/View/Pending/Sound.antt =====
-- The invariant of `PendingPool` in crates/view/src/pending.rs, and `prune` and `tombstone`.
use edet.Base.{
  ℕ, ◌+◌, ◌≤◌, ◌<◌, ◌≡◌, refl, inl, inr, Bool, true, none, some, [], ◌∷◌, arith, Bool-cases, length,
  length-append,
}
use edet.Bytes.{Bytes}
use edet.Map.{Map, get, contains_key, retain, IsSorted}
use edet.Map.Sizes.{length-retain_le}
use edet.Map.Laws.{get-insert, get-retain, retain-IsSorted}
use edet.Map.Strings.{bytes_eq_iff, bytes_ordered}
use edet.View.Pending.{
  Scheme, PendingEntry, PendingPool, prune, tombstone, max_entries, max_tombstones,
  max_invited_per_member, is_fresh, empty_pool,
}
use edet.View.Pending.Counts.{count_entries-retain}
use edet.View.Pending.Reclaim.{count_entries}
use edet.View.Pending.Sign.{is_invited}
use edet.View.Pending.Stones.{
  contains_key-drop_oldest, IsOrdered, drop_oldest-IsOrdered, length-drop_oldest, add-IsOrdered,
}

module _ {F : Type 0} (scheme : Scheme F) (chain_id : Bytes) where
  -- An entry under digest `d`: it has that digest, its threshold can be met and is not nothing, and
  -- every signature on it is one of the digest.
  pub record IsSigned (d : Bytes) (e : PendingEntry F) : Type 0 where
    pub digest : scheme.digest chain_id e.tx e.nonce e.not_after_epoch ≡ some d
    pub some_sigs : 0 < e.min_sigs
    pub enough : e.min_sigs ≤ length e.required
    pub sorted : IsSorted e.sigs
    pub verified : (k s : Bytes) → get k e.sigs ≡ some s → scheme.verify k d s ≡ true

  -- A sound map of entries: in order, within the bounds, every entry with its signatures.
  pub record IsHeld (entries : Map Bytes (PendingEntry F)) : Type 0 where
    pub sorted : IsSorted entries
    pub bounded : length entries ≤ max_entries
    pub signed : (d : Bytes) (e : PendingEntry F) → get d entries ≡ some e → IsSigned d e
    pub invited : (i : ℕ) → count_entries (is_invited i) entries ≤ max_invited_per_member

  pub record IsSound (pool : PendingPool F) : Type 0 where
    pub held : IsHeld pool.entries
    pub stones : IsOrdered pool.tombstones pool.tombstone_order
    pub room : length pool.tombstone_order + length pool.entries ≤ max_tombstones + max_entries
    pub apart : (d : Bytes) → contains_key d pool.tombstones ≡ true → get d pool.entries ≡ none

  pub empty_pool-IsSound : IsSound empty_pool
  unfolding count_entries
  empty_pool-IsSound = record {
    held = record {
      sorted = tt;
      bounded = omega arith;
      signed = λ d e g. ground arith;
      invited = λ i. omega arith;
    };
    stones = record { sorted = tt; distinct = tt; same = λ d. refl; count = refl };
    room = omega arith;
    apart = λ d h. refl;
  }

  retain-IsHeld :
      (q : Bytes → PendingEntry F → Bool) (m : Map Bytes (PendingEntry F))
      → IsHeld m
      → IsHeld (retain q m)
  retain-IsHeld q m h = record {
    sorted = retain-IsSorted q m h.sorted;
    bounded = omega (arith, h.bounded, length-retain_le q m);
    signed = λ d e g. h.signed d e (ground (arith, get-retain d q m h.sorted, g));
    invited = λ i. omega (arith, h.invited i, count_entries-retain (is_invited i) q m);
  }

  pub prune-IsSound :
      (now : ℕ) (pool : PendingPool F)
      → IsSound pool
      → IsSound (prune now pool) × (length (prune now pool).tombstone_order ≤ max_tombstones)
  unfolding prune
  prune-IsSound now pool h = (
    record {
      held = retain-IsHeld (λ _ e. is_fresh now e) pool.entries h.held;
      stones = drop_oldest-IsOrdered pool.tombstones pool.tombstone_order h.stones;
      room = omega (
        arith,
        length-drop_oldest pool.tombstones pool.tombstone_order,
        length-retain_le (λ _ e. is_fresh now e) pool.entries,
        h.held.bounded,
      );
      apart = λ d g. ground (
        arith,
        h.apart d (contains_key-drop_oldest pool.tombstones pool.tombstone_order d h.stones g),
        get-retain d (λ _ e. is_fresh now e) pool.entries h.held.sorted,
      );
    },
    omega (arith, length-drop_oldest pool.tombstones pool.tombstone_order),
  )

  pub tombstone-IsSound :
      (d : Bytes) (pool : PendingPool F)
      → IsHeld pool.entries
      → IsOrdered pool.tombstones pool.tombstone_order
      → length pool.tombstone_order + length pool.entries < max_tombstones + max_entries
      → ((x : Bytes) → contains_key x pool.tombstones ≡ true → get x pool.entries ≡ none)
      → get d pool.entries ≡ none
      → IsSound (tombstone d pool)
  unfolding tombstone
  tombstone-IsSound d pool held stones room apart gone =
      elim (Bool-cases (contains_key d pool.tombstones)) [
        | inl old ↦
            rw old
              (record { held = held; stones = stones; room = omega (arith, room); apart = apart })
        | inr new ↦ rw new (record {
          held = held;
          stones = add-IsOrdered d pool.tombstones pool.tombstone_order stones new;
          room = omega (arith, room, length-append pool.tombstone_order (d ∷ []));
          apart = λ x g.
              ground (arith, g, get-insert x d tt pool.tombstones, bytes_eq_iff x d, apart x, gone);
        })
      ]
