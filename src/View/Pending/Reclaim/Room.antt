-- ===== src/View/Pending/Reclaim/Room.antt =====
-- What a full pool gives up in crates/view/src/pending.rs, and that it makes room.
use edet.Base.{
  ℕ, ◌≤◌, ◌<◌, ◌≡◌, refl, sym, ap, ◌∙◌, ◌⊎◌, inl, inr, true, false, some, List, [], ◌∷◌, arith, leb,
  ◌==◌, Bool-cases, length, All, ==_iff, subst,
}
use edet.Bytes.{Bytes}
use edet.Map.{Map, get, remove, contains_key, IsSorted}
use edet.Map.Keys.{nat_ordered}
use edet.Map.Sizes.{length-remove_held, length-remove_le}
use edet.Map.Laws.{cmp_self, remove-IsSorted, get-remove, get-cons_later}
use edet.Map.Strings.{bytes_ordered}
use edet.View.Pending.{PendingEntry, max_entries, max_entries_per_initiator_when_full}
use edet.View.Pending.Reclaim.{
  Dated, count_entries, by_initiator, hogs, remove_all, reclaim, make_room,
}
use edet.View.Pending.Reclaim.Groups.{
  Within, dates_of, length-dates_of, first_digest-sort_dated, first_each-All, by_initiator-IsSorted,
  get-by_initiator,
}

module _ {F : Type 0} where
  -- The digest is of an entry that no other of its initiator is younger than, and the initiator is
  -- above its share.
  pub record IsYoungest (entries : Map Bytes (PendingEntry F)) (d : Bytes) : Type 0 where
    pub entry : PendingEntry F
    pub held : get d entries ≡ some entry
    pub youngest :
        (x : Bytes) (e : PendingEntry F)
        → get x entries ≡ some e
        → e.initiator ≡ entry.initiator
        → e.created_secs ≤ entry.created_secs
    pub over :
        max_entries_per_initiator_when_full
        < count_entries (λ e. e.initiator == entry.initiator) entries

  -- A date of the initiator's comes from one of its entries.
  abbrev From : ℕ → Map Bytes (PendingEntry F) → Dated → Type 0
  From i entries x =
      (e : PendingEntry F) × (get x.0 entries ≡ some e) × (e.initiator ≡ i) × (e.created_secs ≡ x.1)

  dates_of-From :
      (i : ℕ) (entries m : Map Bytes (PendingEntry F))
      → IsSorted m
      → ((d : Bytes) (e : PendingEntry F) → get d m ≡ some e → get d entries ≡ some e)
      → All (From i entries) (dates_of i m)
  unfolding dates_of
  dates_of-From i entries [] h back = tt
  dates_of-From i entries ((d, e) ∷ m) h back =
      let rest = dates_of-From i entries m h.1 λ x w g. back x w (get-cons_later d x e w m h.0 g) in
      elim (Bool-cases (e.initiator == i)) [
        | inl mine ↦
            rw mine (
              (e, back d e (ground (arith, cmp_self d)), (==_iff e.initiator i).0 mine, refl),
              rest,
            )
        | inr others ↦ rw others rest
      ]

  dates_of-Within :
      (i t : ℕ) (d : Bytes) (e : PendingEntry F) (m : Map Bytes (PendingEntry F))
      → All (Within t) (dates_of i m)
      → get d m ≡ some e
      → e.initiator ≡ i
      → e.created_secs ≤ t
  unfolding dates_of
  dates_of-Within i t d e [] h g q = ground arith
  dates_of-Within i t d e ((j, w) ∷ m) h g q = ground (arith, dates_of-Within i t d e m, h, g, q)

  -- Every digest that a full pool gives up is of an entry whose initiator holds more than 16, and that no
  -- other entry of that initiator is younger than, if the entries are in order.
  pub hogs-IsYoungest :
      (entries : Map Bytes (PendingEntry F))
      → IsSorted entries
      → All (IsYoungest entries) (hogs entries)
  unfolding hogs
  hogs-IsYoungest entries h =
      first_each-All (IsYoungest entries) (by_initiator entries [])
        (by_initiator-IsSorted entries [] tt)
        λ i v g over.
          let own : v ≡ dates_of i entries = ground (arith, g, get-by_initiator i entries []) in
          first_digest-sort_dated (From i entries) (IsYoungest entries) v
            (subst (All (From i entries)) (sym own)
              (dates_of-From i entries entries h (λ d e q. q)))
            λ x from latest. record {
              entry = from.0;
              held = from.1;
              youngest = λ d e q same.
                  let bound =
                    dates_of-Within i x.1 d e entries (subst (All (Within x.1)) own latest) q
                      (same ∙ from.2) in
                  omega (arith, bound, from.3);
              over = rw from.2 (omega (arith, over, length-dates_of i entries, ap length own));
            }

  remove_all-length :
      (ds : List Bytes) (m : Map Bytes (PendingEntry F)) → length (remove_all ds m) ≤ length m
  unfolding remove_all
  remove_all-length [] m = omega arith
  remove_all-length (d ∷ ds) m =
      omega (arith, remove_all-length ds (remove d m), length-remove_le d m)

  pub remove_all-IsSorted :
      (ds : List Bytes) (m : Map Bytes (PendingEntry F)) → IsSorted m → IsSorted (remove_all ds m)
  unfolding remove_all
  remove_all-IsSorted [] m h = h
  remove_all-IsSorted (d ∷ ds) m h = remove_all-IsSorted ds (remove d m) (remove-IsSorted d m h)

  -- A removal loses entries, and changes none.
  pub get-remove_all :
      (ds : List Bytes) (m : Map Bytes (PendingEntry F)) (x : Bytes) (e : PendingEntry F)
      → IsSorted m
      → get x (remove_all ds m) ≡ some e
      → get x m ≡ some e
  unfolding remove_all
  get-remove_all [] m x e h g = g
  get-remove_all (d ∷ ds) m x e h g =
      let inner = get-remove_all ds (remove d m) x e (remove-IsSorted d m h) g in
      ground (arith, get-remove x d m h, inner)

  -- What `make_room` returns: the entries, or a full pool's without its hogs.
  pub data Room (d : Bytes) (m n : Map Bytes (PendingEntry F)) : Type 0 where
    kept : n ≡ m → (length m < max_entries) ⊎ (contains_key d m ≡ true) → Room d m n
    freed :
        (ds : List Bytes)
        → n ≡ remove_all ds m
        → contains_key d m ≡ false
        → length n < length m
        → Room d m n

  reclaim-Room :
      (d : Bytes) (ds : List Bytes) (m n : Map Bytes (PendingEntry F))
      → All (IsYoungest m) ds
      → contains_key d m ≡ false
      → reclaim ds m ≡ some n
      → Room d m n
  unfolding reclaim remove_all
  reclaim-Room d [] m n h new e = ground (arith, e)
  reclaim-Room d (x ∷ ds) m n h new e =
      let same : n ≡ remove_all (x ∷ ds) m = ground (arith, e) in
      let one = length-remove_held x m (ground (arith, h.0.held)) in
      Room.freed (x ∷ ds) same new
        (omega (arith, one, remove_all-length ds (remove x m), ap length same))

  pub make_room-Room :
      (d : Bytes) (member : ℕ) (m n : Map Bytes (PendingEntry F))
      → IsSorted m
      → make_room d member m ≡ some n
      → Room d m n
  unfolding make_room
  make_room-Room d member m n h e = elim (Bool-cases (leb max_entries (length m))) [
    | inl full ↦ elim (Bool-cases (contains_key d m)) [
      | inl old ↦ Room.kept (ground (arith, e, full, old)) (inr old)
      | inr new ↦
          reclaim-Room d (hogs m) m n (hogs-IsYoungest m h) new (ground (arith, e, full, new))
    ]
    | inr free ↦ Room.kept (ground (arith, e, free)) (inl (ground (arith, free)))
  ]
