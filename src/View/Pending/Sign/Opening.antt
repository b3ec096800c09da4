-- ===== src/View/Pending/Sign/Opening.antt =====
-- The entry that `sign` of crates/view/src/pending.rs opens, and what a full pool gives up for it.
use edet.Base.{
  ℕ, ◌+◌, ◌≤◌, ◌<◌, ◌≡◌, inl, inr, ◌&&◌, none, some, List, arith, ◌==◌, if◌then◌else◌, Option-cases,
  length,
}
use edet.Bytes.{Bytes}
use edet.Map.{Map, get, IsSorted}
use edet.Map.Strings.{bytes_ordered}
use edet.View.Party.{Party}
use edet.View.Pending.{
  Scheme, Registry, PendingSignReq, PendingEntry, PendingPool, request_digest,
  max_invited_per_member,
}
use edet.View.Pending.Counts.{count_entries-remove_all}
use edet.View.Pending.Reclaim.{count_entries, remove_all}
use edet.View.Pending.Reclaim.Room.{remove_all-IsSorted, get-remove_all}
use edet.View.Pending.Sign.{is_key, is_invited, opening, fresh_entry}
use edet.View.Pending.Sound.{IsSigned, IsHeld}

module _ {F : Type 0} (scheme : Scheme F) (st : Registry) (req : PendingSignReq F) (d : Bytes) where
  pub remove_all-IsHeld :
      (ds : List Bytes) (m : Map Bytes (PendingEntry F))
      → IsHeld scheme st.chain_id m
      → length (remove_all ds m) < length m
      → IsHeld scheme st.chain_id (remove_all ds m)
  remove_all-IsHeld ds m h less = record {
    sorted = remove_all-IsSorted ds m h.sorted;
    bounded = omega (arith, less, h.bounded);
    signed = λ x e g. h.signed x e (get-remove_all ds m x e h.sorted g);
    invited = λ i. omega (arith, h.invited i, count_entries-remove_all (is_invited i) ds m);
  }

  pub remove_all-gone :
      (ds : List Bytes) (m : Map Bytes (PendingEntry F)) (x : Bytes)
      → IsSorted m
      → get x m ≡ none
      → get x (remove_all ds m) ≡ none
  remove_all-gone ds m x h g = elim (Option-cases (get x (remove_all ds m))) [
    | inl e ↦ e
    | inr (w, e) ↦ ground (arith, get-remove_all ds m x w h e, g)
  ]

  -- An entry made now has the invitations of its opener within their bound.
  abbrev pub Opens : PendingPool F → ℕ × Party → Type 0
  Opens pool (charged, opener) =
      get d pool.entries ≡ none
      → (i : ℕ)
      → (if charged == i && is_key opener then 1 else 0) + count_entries (is_invited i) pool.entries
        ≤ max_invited_per_member

  pub opening-Opens :
      (now_secs : ℕ) (pool : PendingPool F) (party : Party) (c : ℕ × Party)
      → IsHeld scheme st.chain_id pool.entries
      → opening scheme st req now_secs d pool party ≡ inr c
      → Opens pool c
  unfolding opening
  opening-Opens now_secs pool (Party.member id) (charged, opener) h e new i =
      ground (arith, e, h.invited i)
  opening-Opens now_secs pool (Party.key k) (charged, opener) h e new i =
      ground (arith, e, new, h.invited i)

  pub fresh-IsSigned :
      (now_secs charged : ℕ) (opener : Party)
      → request_digest scheme st req ≡ some d
      → 0 < req.min_sigs
      → req.min_sigs ≤ length req.required
      → IsSigned scheme st.chain_id d (fresh_entry req now_secs charged opener)
  unfolding request_digest
  fresh-IsSigned now_secs charged opener e p q = record {
    digest = e;
    some_sigs = p;
    enough = q;
    sorted = tt;
    verified = λ k s g. ground (arith, g);
  }
