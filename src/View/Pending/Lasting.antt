-- ===== src/View/Pending/Lasting.antt =====
-- How long a tombstone of crates/view/src/pending.rs lasts.
use edet.Base.{
  ℕ, ◌+◌, ◌≤◌, ◌<◌, Ordering, ◌≡◌, inl, inr, true, false, List, [], ◌∷◌, ◌++◌, arith, leb,
  Bool-cases, length, length-append,
}
use edet.Bytes.{Bytes}
use edet.Map.{Map, insert, remove}
use edet.Map.Laws.{cmp_self}
use edet.Map.Strings.{bytes_ordered, cmp_bytes}
use edet.View.Pending.{
  Registry, PendingSignReq, PendingEntry, PendingPool, prune, tombstone, drop_oldest,
  max_tombstones, signed_parties,
}
use edet.View.Pending.Sign.{cosign}
use edet.View.Pending.Stones.{listed, listed-append}

-- How many tombstones are younger than that of `d`.
abbrev pub younger : Bytes → List Bytes → ℕ
younger d [] = 0
younger d (x ∷ xs) = elim (cmp_bytes d x) [ Ordering.eq ↦ length xs | _ ↦ younger d xs ]

younger-append :
    (d x : Bytes) (xs : List Bytes)
    → listed d xs ≡ true
    → younger d (xs ++ x ∷ []) ≡ younger d xs + 1
younger-append d x [] h = ground arith
younger-append d x (y ∷ xs) h = ground (arith, younger-append d x xs, length-append xs (x ∷ []), h)

younger-append_new :
    (d : Bytes) (xs : List Bytes) → listed d xs ≡ false → younger d (xs ++ d ∷ []) ≡ 0
younger-append_new d [] h = ground (arith, cmp_self d)
younger-append_new d (y ∷ xs) h = ground (arith, younger-append_new d xs, h)

listed-drop_oldest :
    (d : Bytes) (stones : Map Bytes Unit) (order : List Bytes)
    → listed d order ≡ true
    → younger d order < max_tombstones
    → (listed d (drop_oldest stones order).1 ≡ true)
      × (younger d (drop_oldest stones order).1 ≡ younger d order)
unfolding drop_oldest
listed-drop_oldest d stones [] h few = ground arith
listed-drop_oldest d stones (x ∷ order) h few =
    ground (arith, listed-drop_oldest d (remove x stones) order, h, few)

-- The digest has a tombstone, and at most `n` are younger.
pub record Lasts (d : Bytes) (n : ℕ) (order : List Bytes) : Type 0 where
  pub there : listed d order ≡ true
  pub few : younger d order ≤ n

pub append-Lasts : (d : Bytes) (xs : List Bytes) → listed d xs ≡ false → Lasts d 0 (xs ++ d ∷ [])
append-Lasts d xs h = record {
  there = ground (arith, listed-append d d xs, cmp_self d);
  few = omega (arith, younger-append_new d xs h);
}

pub later-Lasts : (d : Bytes) (n : ℕ) (order : List Bytes) → Lasts d n order → Lasts d (n + 1) order
later-Lasts d n order h = record { there = h.there; few = omega (arith, h.few) }

module _ {F : Type 0} where
  pub tombstone-Lasts :
      (x d : Bytes) (n : ℕ) (pool : PendingPool F)
      → Lasts d n pool.tombstone_order
      → Lasts d (n + 1) (tombstone x pool).tombstone_order
  unfolding tombstone
  tombstone-Lasts x d n pool h = record {
    there = ground (arith, h.there, listed-append d x pool.tombstone_order);
    few = ground (arith, h.there, h.few, younger-append d x pool.tombstone_order);
  }

  pub prune-Lasts :
      (now_secs : ℕ) (d : Bytes) (n : ℕ) (pool : PendingPool F)
      → n < max_tombstones
      → Lasts d n pool.tombstone_order
      → Lasts d n (prune now_secs pool).tombstone_order
  unfolding prune
  prune-Lasts now_secs d n pool few h =
      let stays =
        listed-drop_oldest d pool.tombstones pool.tombstone_order h.there
          (omega (arith, few, h.few)) in
      record { there = stays.0; few = omega (arith, stays.1, h.few) }

  pub cosign-Lasts :
      (st : Registry) (req : PendingSignReq F) (x d : Bytes) (n : ℕ) (found : PendingEntry F)
      (pool : PendingPool F)
      → Lasts d n pool.tombstone_order
      → Lasts d (n + 1) (cosign st req x found pool).1.tombstone_order
  unfolding cosign
  cosign-Lasts st req x d n found pool h =
      let entry : PendingEntry F = record found {
        sigs = insert req.signer req.signature found.sigs;
      } in
      elim (Bool-cases (leb entry.min_sigs (length (signed_parties st entry)))) [
        | inl done ↦
            rw (done, cosign)
              (tombstone-Lasts x d n
                (record pool { entries = remove x (insert x entry pool.entries) }) h)
        | inr more ↦ rw (more, cosign) (later-Lasts d n pool.tombstone_order h)
      ]
