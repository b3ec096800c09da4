-- ===== src/View/Pending/Sign/Kept.antt =====
-- `sign` and `decline` of crates/view/src/pending.rs keep the pool sound.
use edet.Base.{
  ℕ, ◌+◌, ◌≤◌, ◌≡◌, refl, ◌⊎◌, inl, inr, true, false, not, ◌&&◌, none, some, arith, leb, Bool-cases,
  Option-cases, length,
}
use edet.Bytes.{Bytes}
use edet.Map.{Map, get, insert, remove, contains_key}
use edet.Map.Laws.{get-insert, get-remove, insert-IsSorted, remove-IsSorted, cmp_self}
use edet.Map.Sizes.{length-insert, length-remove_held, length-remove_le}
use edet.Map.Strings.{bytes_ordered, bytes_eq_iff}
use edet.View.Party.{Party, party_ordered, names, same_party}
use edet.View.Pending.{
  party_of_key, Scheme, PendingEntry, PendingPool, tombstone, max_entries, max_tombstones, Registry,
  PendingSignReq, request_digest, signed_parties, prune,
}
use edet.View.Pending.Counts.{count_entries-insert, count_entries-insert_same, count_entries-remove}
use edet.View.Pending.Sign.{decline_message, is_invited, cosign, decline, sign, sign_at}
use edet.View.Pending.Sign.Course.{Turn, Joins, sign_at-Course}
use edet.View.Pending.Sound.{IsSigned, IsHeld, IsSound, tombstone-IsSound, prune-IsSound}

module _ {F : Type 0} (scheme : Scheme F) (chain_id : Bytes) where
  -- A verified signature more.
  add-IsSigned :
      (d k s : Bytes) (e : PendingEntry F)
      → IsSigned scheme chain_id d e
      → scheme.verify k d s ≡ true
      → IsSigned scheme chain_id d (record e { sigs = insert k s e.sigs })
  add-IsSigned d k s e h ok = record {
    digest = h.digest;
    some_sigs = h.some_sigs;
    enough = h.enough;
    sorted = insert-IsSorted k s e.sigs h.sorted;
    verified =
        λ j t g. ground (arith, g, get-insert j k s e.sigs, h.verified j t, bytes_eq_iff j k, ok);
  }

  insert-IsHeld :
      (d : Bytes) (found e : PendingEntry F) (m : Map Bytes (PendingEntry F))
      → IsHeld scheme chain_id m
      → Joins m d found
      → IsSigned scheme chain_id d e
      → ((i : ℕ) → is_invited i e ≡ is_invited i found)
      → IsHeld scheme chain_id (insert d e m)
  insert-IsHeld d found e m h (Joins.old there) s same = record {
    sorted = insert-IsSorted d e m h.sorted;
    bounded = ground (arith, length-insert d e m h.sorted, there, h.bounded);
    signed = λ x w g. ground (arith, g, get-insert x d e m, h.signed x w, bytes_eq_iff x d, s);
    invited = λ i. omega (
      arith,
      h.invited i,
      count_entries-insert_same (is_invited i) d e found m h.sorted there (same i),
    );
  }
  insert-IsHeld d found e m h (Joins.fresh new free fits) s same = record {
    sorted = insert-IsSorted d e m h.sorted;
    bounded = ground (arith, length-insert d e m h.sorted, new, free);
    signed = λ x w g. ground (arith, g, get-insert x d e m, h.signed x w, bytes_eq_iff x d, s);
    invited =
        λ i. ground (arith, fits i, same i, count_entries-insert (is_invited i) d e m h.sorted new);
  }

  remove-IsHeld :
      (d : Bytes) (m : Map Bytes (PendingEntry F))
      → IsHeld scheme chain_id m
      → IsHeld scheme chain_id (remove d m)
  remove-IsHeld d m h = record {
    sorted = remove-IsSorted d m h.sorted;
    bounded = omega (arith, h.bounded, length-remove_le d m);
    signed = λ x w g. ground (arith, g, get-remove x d m h.sorted, h.signed x w);
    invited = λ i. omega (arith, h.invited i, count_entries-remove (is_invited i) d m);
  }

  -- An entry that is there closes: it goes, and its digest is kept.
  close-IsSound :
      (d : Bytes) (pool : PendingPool F) (m : Map Bytes (PendingEntry F))
      → IsSound scheme chain_id pool
      → IsHeld scheme chain_id m
      → length pool.tombstone_order + length m ≤ max_tombstones + max_entries
      → contains_key d m ≡ true
      → ((x : Bytes) → contains_key x pool.tombstones ≡ true → get x (remove d m) ≡ none)
      → IsSound scheme chain_id (tombstone d (record pool { entries = remove d m }))
  close-IsSound d pool m h held room there apart =
      tombstone-IsSound scheme chain_id d (record pool { entries = remove d m })
        (remove-IsHeld d m held) h.stones (omega (arith, room, length-remove_held d m there)) apart
        (ground (arith, get-remove d d m held.sorted, cmp_self d))

  cosign-IsSound :
      (st : Registry) (req : PendingSignReq F) (d : Bytes) (pool : PendingPool F)
      (found : PendingEntry F) (entries : Map Bytes (PendingEntry F))
      → IsSound scheme chain_id pool
      → length pool.tombstone_order ≤ max_tombstones
      → IsHeld scheme chain_id entries
      → ((x : Bytes) → get x pool.entries ≡ none → get x entries ≡ none)
      → IsSigned scheme chain_id d found
      → Joins entries d found
      → contains_key d pool.tombstones ≡ false
      → scheme.verify req.signer d req.signature ≡ true
      → IsSound scheme chain_id (cosign st req d found (record pool { entries = entries })).1
  unfolding cosign
  cosign-IsSound st req d pool found entries h few held gone signed joins open_digest ok =
      let entry : PendingEntry F = record found {
        sigs = insert req.signer req.signature found.sigs;
      } in
      let kept =
        insert-IsHeld d found entry entries held joins
          (add-IsSigned d req.signer req.signature found signed ok) (λ i. refl) in
      let there : contains_key d (insert d entry entries) ≡ true =
        ground (arith, get-insert d d entry entries, cmp_self d) in
      let apart : (x : Bytes)
          → contains_key x pool.tombstones ≡ true
          → get x (insert d entry entries) ≡ none =
        λ x g. ground (
          arith,
          g,
          get-insert x d entry entries,
          bytes_eq_iff x d,
          gone x (h.apart x g),
          open_digest,
        ) in
      let room : length pool.tombstone_order + length (insert d entry entries)
          ≤ max_tombstones + max_entries =
        omega (arith, few, kept.bounded) in
      elim (Bool-cases (leb entry.min_sigs (length (signed_parties st entry)))) [
        | inl done ↦ rw done (
            close-IsSound d pool (insert d entry entries) h kept room there
              λ x g. ground (arith, get-remove x d (insert d entry entries) kept.sorted, apart x g))
        | inr more ↦ rw more (record { held = kept; stones = h.stones; room = room; apart = apart })
      ]

-- The two ends of a decline: nothing, or an entry that was there is closed.
pub decline-cases :
    {F : Type 0} (scheme : Scheme F) (sha256 : Bytes → Bytes) (st : Registry)
    (d signer signature : Bytes) (pool : PendingPool F)
    → (decline scheme sha256 st d signer signature pool ≡ (false, pool))
      ⊎ ((entry : PendingEntry F) × (get d pool.entries ≡ some entry)
          × (decline scheme sha256 st d signer signature pool
              ≡ (true, tombstone d (record pool { entries = remove d pool.entries }))))
unfolding decline
decline-cases scheme sha256 st d signer signature pool =
    elim (Bool-cases (scheme.verify signer (decline_message sha256 d) signature)) [
      | inl ok ↦ elim (Option-cases (get d pool.entries)) [
        | inl gone ↦ inl (rw (ok, gone, decline) refl)
        | inr (entry, there) ↦
            elim (Bool-cases (
              not (names (party_of_key st signer) entry.required)
              && not (same_party (Party.member entry.initiator) (party_of_key st signer)))) [
                | inl barred ↦ inl (rw (ok, there, decline) (rw barred refl))
                | inr free ↦ inr (entry, there, rw (ok, there, decline) (rw free refl))
              ]
      ]
      | inr wrong ↦ inl (rw (wrong, decline) refl)
    ]

module _ {F : Type 0} (scheme : Scheme F) (st : Registry) where
  pub sign_at-IsSound :
      (req : PendingSignReq F) (now_secs : ℕ) (d : Bytes) (pool : PendingPool F)
      → IsSound scheme st.chain_id pool
      → length pool.tombstone_order ≤ max_tombstones
      → request_digest scheme st req ≡ some d
      → IsSound scheme st.chain_id (sign_at scheme st req now_secs d pool).1
  sign_at-IsSound req now_secs d pool h few e =
      elim (sign_at-Course scheme st req d now_secs pool h.held e) [
        | Turn.refused why same ↦ rw same h
        | Turn.joined found entries same held gone signed joins asks open_digest ok ↦ rw same (
            cosign-IsSound scheme st.chain_id st req d pool found entries h few held gone signed
              joins open_digest ok)
      ]

  pub sign-IsSound :
      (req : PendingSignReq F) (now_secs : ℕ) (pool : PendingPool F)
      → IsSound scheme st.chain_id pool
      → IsSound scheme st.chain_id (sign scheme st req now_secs pool).1
  unfolding sign
  sign-IsSound req now_secs pool h =
      let pruned = prune-IsSound scheme st.chain_id now_secs pool h in
      elim (Option-cases (request_digest scheme st req)) [
        | inl e ↦ rw (e, sign) pruned.0
        | inr (d, e) ↦
            rw (e, sign) (sign_at-IsSound req now_secs d (prune now_secs pool) pruned.0 pruned.1 e)
      ]

  pub decline-IsSound :
      (sha256 : Bytes → Bytes) (d signer signature : Bytes) (pool : PendingPool F)
      → IsSound scheme st.chain_id pool
      → IsSound scheme st.chain_id (decline scheme sha256 st d signer signature pool).1
  decline-IsSound sha256 d signer signature pool h =
      elim (decline-cases scheme sha256 st d signer signature pool) [
        | inl same ↦ rw same h
        | inr (entry, there, same) ↦ rw same (
            close-IsSound scheme st.chain_id d pool pool.entries h h.held h.room
              (ground (arith, there))
              λ x g. ground (arith, h.apart x g, get-remove x d pool.entries h.held.sorted))
      ]
