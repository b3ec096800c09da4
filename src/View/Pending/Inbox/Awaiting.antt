-- ===== src/View/Pending/Inbox/Awaiting.antt =====
-- What `for_party` of crates/view/src/pending.rs lists once a party has signed.
use edet.Base.{
  ℕ, ◌≡◌, sym, ap, ◌∙◌, inl, inr, Bool, true, false, none, some, List, [], ◌∷◌, arith, Bool-cases,
  Option-cases, subst,
}
use edet.Bytes.{Bytes}
use edet.Map.{Map, get, insert, contains_key, IsSorted}
use edet.Map.Laws.{get-insert, get-insert_self, insert-IsSorted, cmp_self, get-Above}
use edet.Map.Strings.{bytes_ordered, bytes_eq_iff}
use edet.View.Party.{Party, party_ordered, names}
use edet.View.Pending.{
  Scheme, Registry, PendingSignReq, PendingEntry, PendingPool, SignOutcome, prune, request_digest,
  signed_parties, signers_of, party_of_key,
}
use edet.View.Pending.Inbox.{for_each, for_party}
use edet.View.Pending.Sign.{cosign, sign}
use edet.View.Pending.Sign.Course.{Turn, sign_at-Course}
use edet.View.Pending.Sound.{IsSound, prune-IsSound}

-- A required party with a signature is among the signers.
signers_of-contains :
    (st : Registry) (required : List Party) (k s : Bytes) (sigs : Map Bytes Bytes)
    → get k sigs ≡ some s
    → names (party_of_key st k) required ≡ true
    → contains_key (party_of_key st k) (signers_of st required sigs) ≡ true
unfolding signers_of
signers_of-contains st required k s [] g n = ground (arith, g)
signers_of-contains st required k s ((j, t) ∷ sigs) g n =
    elim (Bool-cases (names (party_of_key st j) required)) [
      | inl named ↦ rw named (
          ground (
            arith,
            get-insert (party_of_key st k) (party_of_key st j) tt (signers_of st required sigs),
            signers_of-contains st required k s sigs,
            bytes_eq_iff k j,
            cmp_self (party_of_key st k),
            g,
            n,
          ))
      | inr unnamed ↦ rw unnamed (
          signers_of-contains st required k s sigs (ground (arith, g, bytes_eq_iff k j, n, unnamed))
            n)
    ]

module _ {F : Type 0} where
  -- What awaits a party is an entry that requires it and that it has not signed.
  for_each-awaiting :
      (st : Registry) (p : Party) (d : Bytes) (m : Map Bytes (PendingEntry F)) (e : PendingEntry F)
      → IsSorted m
      → get d (for_each st p m).0 ≡ some e
      → (get d m ≡ some e)
        × (names p e.required ≡ true)
        × (contains_key p (signed_parties st e) ≡ false)
  unfolding for_each
  for_each-awaiting st p d [] e h g = ground (arith, g)
  for_each-awaiting st p d ((j, w) ∷ m) e h g =
      ground (arith, g, for_each-awaiting st p d m e h.1, get-Above j m h.0, bytes_eq_iff d j)

  cosign-recorded :
      (st : Registry) (req : PendingSignReq F) (d : Bytes) (found : PendingEntry F)
      (pool after : PendingPool F) (is_new : Bool)
      → cosign st req d found pool ≡ (SignOutcome.recorded is_new, after)
      → after.entries
        ≡ insert d (record found { sigs = insert req.signer req.signature found.sigs }) pool.entries
  unfolding cosign
  cosign-recorded st req d found pool after is_new r = ground (arith, r)

  signed-not_awaiting :
      (st : Registry) (req : PendingSignReq F) (found : PendingEntry F)
      → names (party_of_key st req.signer) found.required ≡ true
      → ¬ (
          contains_key
            (party_of_key st req.signer)
            (signers_of st found.required (insert req.signer req.signature found.sigs))
          ≡ false)
  signed-not_awaiting st req found n c = ground (
    arith,
    c,
    signers_of-contains st found.required req.signer req.signature
        (insert req.signer req.signature found.sigs)
        (get-insert_self req.signer req.signature found.sigs) n,
  )

  -- A signature that is recorded in a sound pool is on the entry of its digest, and that entry no longer
  -- awaits the signer.
  pub sign-awaiting :
      (scheme : Scheme F) (st : Registry) (req : PendingSignReq F) (now_secs : ℕ)
      (pool after : PendingPool F) (d : Bytes) (is_new : Bool)
      → IsSound scheme st.chain_id pool
      → request_digest scheme st req ≡ some d
      → sign scheme st req now_secs pool ≡ (SignOutcome.recorded is_new, after)
      → ((e : PendingEntry F) × (get d after.entries ≡ some e)
          × (get req.signer e.sigs ≡ some req.signature))
        × (get d (for_party st (party_of_key st req.signer) after).0 ≡ none)
  unfolding sign for_party signed_parties
  sign-awaiting scheme st req now_secs pool after d is_new h e r =
      let pruned = prune-IsSound scheme st.chain_id now_secs pool h in
      let p = party_of_key st req.signer in
      elim (sign_at-Course scheme st req d now_secs (prune now_secs pool) pruned.0.held e) [
        | Turn.refused why same ↦ absurd (ground (arith, r, e, same))
        | Turn.joined found entries same held gone signed joins asks open_digest ok ↦
            let entry : PendingEntry F = record found {
              sigs = insert req.signer req.signature found.sigs;
            } in
            let left =
              cosign-recorded st req d found (record (prune now_secs pool) { entries = entries })
                after is_new (sym same ∙ ground (arith, r, e)) in
            let there : get d after.entries ≡ some entry =
              ap (get d) left ∙ get-insert_self d entry entries in
            let sorted = subst IsSorted (sym left) (insert-IsSorted d entry entries held.sorted) in
            (
              (entry, there, get-insert_self req.signer req.signature found.sigs),
              elim (Option-cases (get d (for_party st p after).0)) [
                | inl none_at ↦ none_at
                | inr (w, listed_at) ↦
                    let found_at = for_each-awaiting st p d after.entries w sorted listed_at in
                    let same_entry : w ≡ entry = ground (arith, found_at.0, there) in
                    absurd (
                      signed-not_awaiting st req found
                        (subst (λ (x : PendingEntry F). names p x.required ≡ true) same_entry
                          found_at.1)
                        (subst
                          (λ (x : PendingEntry F). contains_key p (signed_parties st x) ≡ false)
                          same_entry found_at.2))
              ],
            )
      ]
