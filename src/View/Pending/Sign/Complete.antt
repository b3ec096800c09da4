-- ===== src/View/Pending/Sign/Complete.antt =====
-- What `sign` of crates/view/src/pending.rs hands over when a proposal is complete.
use edet.Base.{
  ℕ, ◌≤◌, ◌<◌, Ordering, ◌≡◌, sym, ap, ◌∙◌, ◌⊎◌, inl, inr, true, false, some, List, [], ◌∷◌, ◌++◌,
  arith, leb, Bool-cases, Option-cases, length, subst, leb→le,
}
use edet.Bytes.{Bytes}
use edet.Map.{Map, get, insert, remove, contains_key, IsSorted}
use edet.Map.Laws.{get-insert, insert-IsSorted, cmp_self, cmp_cases, get-cons_later}
use edet.Map.Strings.{bytes_ordered, bytes_eq_iff}
use edet.View.Party.{Party, party_ordered, party_eq_iff, cmp_party, names}
use edet.View.Pending.{
  Scheme, Registry, PendingSignReq, PendingEntry, PendingPool, SignOutcome, Completed, prune,
  tombstone, request_digest, signed_parties, signers_of, party_of_key,
}
use edet.View.Pending.Sign.{cosign, sign}
use edet.View.Pending.Sign.Course.{Asks, Turn, sign_at-Course}
use edet.View.Pending.Sound.{IsSigned, IsSound, prune-IsSound}

-- The parties are distinct, each is required, and a key of each has signed.
pub record HasSigned (st : Registry) (required : List Party) (sigs : Map Bytes Bytes)
    (parties : Map Party Unit) : Type 0 where
  pub distinct : IsSorted parties
  pub named : (p : Party) → get p parties ≡ some tt → names p required ≡ true
  pub by :
      (p : Party)
      → get p parties ≡ some tt
      → (k : Bytes) × (s : Bytes) × (get k sigs ≡ some s) × (party_of_key st k ≡ p)

signers_of-HasSigned :
    (st : Registry) (required : List Party) (sigs : Map Bytes Bytes)
    → IsSorted sigs
    → HasSigned st required sigs (signers_of st required sigs)
unfolding signers_of
signers_of-HasSigned st required [] h = record {
  distinct = tt;
  named = λ p g. ground (arith, g);
  by = λ p g. ground (arith, g);
}
signers_of-HasSigned st required ((k, s) ∷ sigs) h =
    let rest = signers_of-HasSigned st required sigs h.1 in
    let later : (p : Party)
        → get p (signers_of st required sigs) ≡ some tt
        → (j : Bytes) × (t : Bytes) × (get j ((k, s) ∷ sigs) ≡ some t) × (party_of_key st j ≡ p) =
      λ p g. let b = rest.by p g in (b.0, b.1, get-cons_later k b.0 s b.1 sigs h.0 b.2, b.3) in
    elim (Bool-cases (names (party_of_key st k) required)) [
      | inl named ↦ rw named (record {
        distinct =
            insert-IsSorted (party_of_key st k) tt (signers_of st required sigs) rest.distinct;
        named = λ p g. ground (
          arith,
          g,
          get-insert p (party_of_key st k) tt (signers_of st required sigs),
          rest.named p,
          party_eq_iff p (party_of_key st k),
          named,
        );
        by = λ p g. elim (party_cases p (party_of_key st k)) [
          | inl (eq, same) ↦ (k, s, ground (arith, cmp_self k), sym same)
          | inr ne ↦ later p (ne (signers_of st required sigs) g)
        ];
      })
      | inr unnamed ↦
          rw unnamed (record { distinct = rest.distinct; named = rest.named; by = later })
    ]
  where
    party_cases :
        (p q : Party)
        → ((cmp_party p q ≡ Ordering.eq) × (p ≡ q))
          ⊎ ((m : Map Party Unit) → get p (insert q tt m) ≡ some tt → get p m ≡ some tt)
    party_cases p q = elim (cmp_cases p q) [
      | inl lt ↦ inr λ m g. ground (arith, g, get-insert p q tt m, lt)
      | inr (inl both) ↦ inl both
      | inr (inr (gt, _)) ↦ inr λ m g. ground (arith, g, get-insert p q tt m, gt)
    ]

module _ {F : Type 0} (scheme : Scheme F) (st : Registry) where
  -- A completed transaction `c` with digest `d`, for the requirements that `Asks` tells.
  pub record IsComplete (entries : Map Bytes (PendingEntry F)) (req : PendingSignReq F) (d : Bytes)
      (c : Completed F) : Type 0 where
    pub requested : request_digest scheme st req ≡ some d
    pub digest : scheme.digest st.chain_id c.tx c.nonce c.not_after_epoch ≡ some d
    pub verified : (k s : Bytes) → get k c.signed ≡ some s → scheme.verify k d s ≡ true
    pub required : List Party
    pub min_sigs : ℕ
    pub asks : Asks entries req d required min_sigs
    pub some_sigs : 0 < min_sigs
    pub parties : Map Party Unit
    pub signed : HasSigned st required c.signed parties
    pub enough : min_sigs ≤ length parties

  completed-IsComplete :
      (req : PendingSignReq F) (d : Bytes) (found : PendingEntry F) (m : Map Bytes (PendingEntry F))
      → IsSigned scheme st.chain_id d found
      → Asks m req d found.required found.min_sigs
      → request_digest scheme st req ≡ some d
      → scheme.verify req.signer d req.signature ≡ true
      → found.min_sigs
        ≤ length (signers_of st found.required (insert req.signer req.signature found.sigs))
      → IsComplete m req d (record {
        tx = found.tx;
        nonce = found.nonce;
        not_after_epoch = found.not_after_epoch;
        signed = insert req.signer req.signature found.sigs;
      })
  completed-IsComplete req d found m h asks e ok enough = record {
    requested = e;
    digest = h.digest;
    verified = λ k s g. ground (
      arith,
      g,
      get-insert k req.signer req.signature found.sigs,
      h.verified k s,
      bytes_eq_iff k req.signer,
      ok,
    );
    required = found.required;
    min_sigs = found.min_sigs;
    asks = asks;
    some_sigs = h.some_sigs;
    parties = signers_of st found.required (insert req.signer req.signature found.sigs);
    signed =
        signers_of-HasSigned st found.required _
          (insert-IsSorted req.signer req.signature found.sigs h.sorted);
    enough = enough;
  }

  cosign-IsComplete :
      (req : PendingSignReq F) (d : Bytes) (pool : PendingPool F) (found : PendingEntry F)
      (entries m : Map Bytes (PendingEntry F)) (c : Completed F) (after : PendingPool F)
      → IsSigned scheme st.chain_id d found
      → Asks m req d found.required found.min_sigs
      → request_digest scheme st req ≡ some d
      → scheme.verify req.signer d req.signature ≡ true
      → cosign st req d found (record pool { entries = entries }) ≡ (SignOutcome.complete c, after)
      → contains_key d pool.tombstones ≡ false
      → IsComplete m req d c × (after.tombstone_order ≡ pool.tombstone_order ++ d ∷ [])
  unfolding cosign tombstone signed_parties
  cosign-IsComplete req d pool found entries m c after h asks e ok r open_digest =
      let sigs = insert req.signer req.signature found.sigs in
      let entry : PendingEntry F = record found { sigs = sigs } in
      let held : PendingPool F = record pool { entries = insert d entry entries } in
      let closed : PendingPool F = record held { entries = remove d held.entries } in
      let completed : Completed F = record {
        tx = found.tx;
        nonce = found.nonce;
        not_after_epoch = found.not_after_epoch;
        signed = sigs;
      } in
      elim (Bool-cases (leb found.min_sigs (length (signers_of st found.required sigs)))) [
        | inl done ↦
            let outcome : SignOutcome F = SignOutcome.complete completed in
            let same : outcome ≡ SignOutcome.complete c = ground (arith, r, done) in
            let left : tombstone d closed ≡ after = ground (arith, r, done) in
            (
              subst (IsComplete m req d) (ground (arith, same))
                  (completed-IsComplete req d found m h asks e ok (leb→le _ _ done)),
              ap (λ (p : PendingPool F). p.tombstone_order) (sym left)
                  ∙ ground (arith, open_digest),
            )
        | inr more ↦ absurd (ground (arith, r, more))
      ]

  -- Of a sound pool, what a completing signature hands over has the digest of the request, every
  -- signature in it is verified over that digest, and distinct required parties, at least as many as are
  -- asked, have signed with keys of theirs; required and asked is what the pool's entry says, or the
  -- request if there was none; the digest had no tombstone after pruning and now has the youngest.
  pub sign-IsComplete :
      (req : PendingSignReq F) (now_secs : ℕ) (pool : PendingPool F) (c : Completed F)
      (after : PendingPool F)
      → IsSound scheme st.chain_id pool
      → sign scheme st req now_secs pool ≡ (SignOutcome.complete c, after)
      → (d : Bytes) × IsComplete (prune now_secs pool).entries req d c
        × (contains_key d (prune now_secs pool).tombstones ≡ false)
        × (after.tombstone_order ≡ (prune now_secs pool).tombstone_order ++ d ∷ [])
  unfolding sign
  sign-IsComplete req now_secs pool c after h r =
      let pruned = prune-IsSound scheme st.chain_id now_secs pool h in
      elim (Option-cases (request_digest scheme st req)) [
        | inl e ↦ absurd (ground (arith, r, e))
        | inr (d, e) ↦
            elim (sign_at-Course scheme st req d now_secs (prune now_secs pool) pruned.0.held e) [
              | Turn.refused why same ↦ absurd (ground (arith, r, e, same))
              | Turn.joined found entries same held gone signed joins asks open_digest ok ↦
                  let r' = sym same ∙ ground (arith, r, e) in
                  let done =
                    cosign-IsComplete req d (prune now_secs pool) found entries
                      (prune now_secs pool).entries c after signed asks e ok r' open_digest in
                  (d, done.0, open_digest, done.1)
            ]
      ]
