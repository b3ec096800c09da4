-- ===== src/View/Pending/Sign/Course.antt =====
-- The two courses of `PendingPool::sign` in crates/view/src/pending.rs past `prune`: a refusal, or a
-- signature on an entry that is there or may be.
use edet.Base.{
  ℕ, ◌+◌, ◌≤◌, ◌<◌, ◌≡◌, refl, sym, ap, ◌∙◌, ◌⊎◌, inl, inr, true, false, ◌||◌, none, some, List,
  arith, ltb, ◌==◌, if◌then◌else◌, Bool-cases, Option-cases, or_else, length, subst,
}
use edet.Bytes.{Bytes}
use edet.Map.{Map, get, contains_key}
use edet.Map.Sizes.{contains_key-none}
use edet.Map.Strings.{bytes_ordered}
use edet.View.Party.{Party, names}
use edet.View.Pending.{
  Scheme, Registry, PendingSignReq, PendingEntry, PendingPool, SignOutcome, Rejection,
  request_digest, max_entries, max_invited_per_member, verified_signer, party_of_key,
}
use edet.View.Pending.Counts.{count_entries-remove_all}
use edet.View.Pending.Reclaim.{count_entries, make_room}
use edet.View.Pending.Reclaim.Room.{Room, make_room-Room}
use edet.View.Pending.Sign.{is_invited, opening, fresh_entry, cosign, sign_as, sign_at}
use edet.View.Pending.Sign.Opening.{
  Opens, remove_all-IsHeld, remove_all-gone, opening-Opens, fresh-IsSigned,
}
use edet.View.Pending.Sound.{IsSigned, IsHeld}

Sum-cases : {A B : Type 0} (s : A ⊎ B) → ((a : A) × (s ≡ inl a)) ⊎ ((b : B) × (s ≡ inr b))
Sum-cases (inl a) = inl (a, refl)
Sum-cases (inr b) = inr (b, refl)

module _ {F : Type 0} where
  -- The entry is the one under `d`, or there is none and room for this one.
  pub data Joins (entries : Map Bytes (PendingEntry F)) (d : Bytes) (found : PendingEntry F)
      : Type 0 where
    old : get d entries ≡ some found → Joins entries d found
    fresh :
        get d entries ≡ none
        → length entries < max_entries
        → ((i : ℕ)
            → (if is_invited i found then 1 else 0) + count_entries (is_invited i) entries
              ≤ max_invited_per_member)
        → Joins entries d found

  -- The entry has the requirements of the pool's entry under `d`, or of the request if it has none.
  pub data Asks (entries : Map Bytes (PendingEntry F)) (req : PendingSignReq F) (d : Bytes)
      (required : List Party) (min_sigs : ℕ) : Type 0 where
    held :
        (e : PendingEntry F)
        → get d entries ≡ some e
        → required ≡ e.required
        → min_sigs ≡ e.min_sigs
        → Asks entries req d required min_sigs
    asked :
        get d entries ≡ none
        → required ≡ req.required
        → min_sigs ≡ req.min_sigs
        → Asks entries req d required min_sigs

module _ {F : Type 0} (scheme : Scheme F) (st : Registry) (req : PendingSignReq F) (d : Bytes) where
  pub data Turn (pool : PendingPool F) (r : SignOutcome F × PendingPool F) : Type 0 where
    refused : (why : Rejection) → r ≡ (SignOutcome.rejected why, pool) → Turn pool r
    joined :
        (found : PendingEntry F) (entries : Map Bytes (PendingEntry F))
        → r ≡ cosign st req d found (record pool { entries = entries })
        → IsHeld scheme st.chain_id entries
        → ((x : Bytes) → get x pool.entries ≡ none → get x entries ≡ none)
        → IsSigned scheme st.chain_id d found
        → Joins entries d found
        → Asks pool.entries req d found.required found.min_sigs
        → contains_key d pool.tombstones ≡ false
        → scheme.verify req.signer d req.signature ≡ true
        → Turn pool r

  -- A new entry on what room there is.
  new-Course :
      (now_secs charged : ℕ) (opener : Party) (pool : PendingPool F)
      (entries : Map Bytes (PendingEntry F))
      → IsHeld scheme st.chain_id entries
      → ((x : Bytes) → get x pool.entries ≡ none → get x entries ≡ none)
      → length entries < max_entries
      → ((i : ℕ) → count_entries (is_invited i) entries ≤ count_entries (is_invited i) pool.entries)
      → get d pool.entries ≡ none
      → Opens scheme st req d pool (charged, opener)
      → IsSigned scheme st.chain_id d (fresh_entry req now_secs charged opener)
      → contains_key d pool.tombstones ≡ false
      → scheme.verify req.signer d req.signature ≡ true
      → Turn pool (
          cosign st req d
            (or_else (get d entries) (fresh_entry req now_secs charged opener))
            (record pool { entries = entries }))
  new-Course now_secs charged opener pool entries h gone free fewer new opens signed open_digest
        ok =
      let made = fresh_entry req now_secs charged opener in
      Turn.joined made entries
        (ap (λ o. cosign st req d (or_else o made) (record pool { entries = entries }))
          (gone d new))
        h gone signed (Joins.fresh (gone d new) free (λ i. omega (arith, fewer i, opens new i)))
        (Asks.asked new refl refl) open_digest ok

  room-Course :
      (now_secs charged : ℕ) (opener : Party) (pool : PendingPool F)
      (entries : Map Bytes (PendingEntry F))
      → IsHeld scheme st.chain_id pool.entries
      → Room d pool.entries entries
      → Opens scheme st req d pool (charged, opener)
      → IsSigned scheme st.chain_id d (fresh_entry req now_secs charged opener)
      → contains_key d pool.tombstones ≡ false
      → scheme.verify req.signer d req.signature ≡ true
      → Turn pool (
          cosign st req d
            (or_else (get d entries) (fresh_entry req now_secs charged opener))
            (record pool { entries = entries }))
  room-Course now_secs charged opener pool entries h (Room.kept same free) opens signed open_digest
        ok =
      let made = fresh_entry req now_secs charged opener in
      let back =
        subst
          (λ m. Turn pool (cosign st req d (or_else (get d m) made) (record pool { entries = m })))
          (sym same) in
      elim (Option-cases (get d pool.entries)) [
        | inl new ↦ back (
            new-Course now_secs charged opener pool pool.entries h (λ x g. g)
              (ground (arith, free, new)) (λ i. omega arith) new opens signed open_digest ok)
        | inr (w, there) ↦ back (
            Turn.joined w pool.entries (ap (λ o. cosign st req d (or_else o made) pool) there) h
              (λ x g. g) (h.signed d w there) (Joins.old there) (Asks.held w there refl refl)
              open_digest ok)
      ]
  room-Course now_secs charged opener pool entries h (Room.freed ds same new less) opens signed
        open_digest ok =
      let fewer =
        remove_all-IsHeld scheme st req d ds pool.entries h (omega (arith, less, ap length same)) in
      new-Course now_secs charged opener pool entries
        (subst (IsHeld scheme st.chain_id) (sym same) fewer)
        (λ x g. ap (get x) same ∙ remove_all-gone scheme st req d ds pool.entries x h.sorted g)
        (omega (arith, less, h.bounded))
        (λ i. omega (
          arith,
          ap (count_entries (is_invited i)) same,
          count_entries-remove_all (is_invited i) ds pool.entries,
        ))
        (contains_key-none d pool.entries new) opens signed open_digest ok

  sign_as-Course :
      (now_secs : ℕ) (pool : PendingPool F) (party : Party)
      → IsHeld scheme st.chain_id pool.entries
      → ((charged : ℕ) (opener : Party)
          → IsSigned scheme st.chain_id d (fresh_entry req now_secs charged opener))
      → contains_key d pool.tombstones ≡ false
      → scheme.verify req.signer d req.signature ≡ true
      → Turn pool (sign_as scheme st req now_secs d pool party)
  unfolding sign_as
  sign_as-Course now_secs pool party h signed open_digest ok =
      elim (Sum-cases (opening scheme st req now_secs d pool party)) [
        | inl (why, bars) ↦ Turn.refused why (rw (bars, sign_as) refl)
        | inr ((charged, opener), opens) ↦ elim (Option-cases (make_room d charged pool.entries)) [
          | inl full ↦ Turn.refused Rejection.pool_full (rw (opens, sign_as) (rw full refl))
          | inr (entries, room) ↦
              rw (opens, sign_as)
                (rw room (
                  room-Course now_secs charged opener pool entries h
                    (make_room-Room d charged pool.entries entries h.sorted room)
                    (opening-Opens scheme st req d now_secs pool party (charged, opener) h opens)
                    (signed charged opener) open_digest ok))
        ]
      ]

  pub sign_at-Course :
      (now_secs : ℕ) (pool : PendingPool F)
      → IsHeld scheme st.chain_id pool.entries
      → request_digest scheme st req ≡ some d
      → Turn pool (sign_at scheme st req now_secs d pool)
  unfolding sign_at verified_signer
  sign_at-Course now_secs pool h e = elim (Bool-cases (contains_key d pool.tombstones)) [
    | inl shut ↦ Turn.refused Rejection.closed (rw shut refl)
    | inr open_digest ↦
        elim (Bool-cases (
          length req.required == 0
          || req.min_sigs == 0
          || ltb (length req.required) req.min_sigs)) [
            | inl bad ↦ Turn.refused Rejection.bad_requirements (rw open_digest (rw bad refl))
            | inr good ↦ elim (Bool-cases (scheme.verify req.signer d req.signature)) [
              | inl ok ↦ elim (Bool-cases (names (party_of_key st req.signer) req.required)) [
                | inl named ↦ rw open_digest (
                    rw good (
                      rw ok (
                        rw named (
                          sign_as-Course now_secs pool (party_of_key st req.signer) h
                            (λ charged opener.
                              fresh-IsSigned scheme st req d now_secs charged opener e
                                (ground (arith, good)) (ground (arith, good)))
                            open_digest ok))))
                | inr unnamed ↦
                    Turn.refused Rejection.not_required
                      (rw open_digest (rw good (rw ok (rw unnamed refl))))
              ]
              | inr wrong ↦
                  Turn.refused Rejection.bad_signature (rw open_digest (rw good (rw wrong refl)))
            ]
          ]
  ]
