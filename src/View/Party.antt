-- ===== src/View/Party.antt =====
-- `Party` of crates/state/src/types.rs: a side of a trade, by account or by key, with the order that
-- it derives; and sets of parties.
use edet.Base.{ℕ, Ordering, ◌≡◌, refl, ◌↔◌, Bool, true, false, ◌||◌, List, [], ◌∷◌, arith, compare}
use edet.Map.Keys.{Ordered, nat_eq_iff, nat_lt_flip, nat_lt_trans}
use edet.Map.Strings.{cmp_bytes, bytes_eq_iff, bytes_lt_flip, bytes_lt_trans}
use edet.Bytes.{Bytes}

pub data Party : Type 0 where
  member : ℕ → Party
  key : Bytes → Party

abbrev pub cmp_party : Party → Party → Ordering
cmp_party (Party.member a) (Party.member b) = compare a b
cmp_party (Party.member a) (Party.key l) = Ordering.lt
cmp_party (Party.key k) (Party.member b) = Ordering.gt
cmp_party (Party.key k) (Party.key l) = cmp_bytes k l

pub party_eq_iff : (a b : Party) → (cmp_party a b ≡ Ordering.eq) ↔ (a ≡ b)
party_eq_iff (Party.member a) (Party.member b) = ground (arith, nat_eq_iff a b)
party_eq_iff (Party.member a) (Party.key l) = ground arith
party_eq_iff (Party.key k) (Party.member b) = ground arith
party_eq_iff (Party.key k) (Party.key l) = ground (arith, bytes_eq_iff k l)

pub party_lt_flip : (a b : Party) → (cmp_party a b ≡ Ordering.lt) ↔ (cmp_party b a ≡ Ordering.gt)
party_lt_flip (Party.member a) (Party.member b) = nat_lt_flip a b
party_lt_flip (Party.member a) (Party.key l) = ground arith
party_lt_flip (Party.key k) (Party.member b) = ground arith
party_lt_flip (Party.key k) (Party.key l) = bytes_lt_flip k l

pub party_lt_trans :
    (a b c : Party)
    → cmp_party a b ≡ Ordering.lt
    → cmp_party b c ≡ Ordering.lt
    → cmp_party a c ≡ Ordering.lt
party_lt_trans (Party.member a) (Party.member b) (Party.member c) h k = nat_lt_trans a b c h k
party_lt_trans (Party.member a) b (Party.key m) h k = refl
party_lt_trans (Party.member a) (Party.key l) (Party.member c) h k = ground (arith, k)
party_lt_trans (Party.key l) (Party.member b) c h k = ground (arith, h)
party_lt_trans (Party.key l) (Party.key m) (Party.member c) h k = ground (arith, k)
party_lt_trans (Party.key l) (Party.key m) (Party.key n) h k = bytes_lt_trans l m n h k

instance abbrev pub party_ordered : Ordered Party
party_ordered = record {
  cmp = cmp_party;
  eq_iff = party_eq_iff;
  lt_flip = party_lt_flip;
  lt_trans = party_lt_trans;
}

-- `a == b`
abbrev pub same_party : Party → Party → Bool
same_party a b = elim (cmp_party a b) [ Ordering.eq ↦ true | _ ↦ false ]

-- `list.contains(&p)`
abbrev pub names : Party → List Party → Bool
names p [] = false
names p (q ∷ qs) = same_party p q || names p qs

pub same_party_iff : (a b : Party) → (same_party a b ≡ true) ↔ (a ≡ b)
same_party_iff a b = ground (arith, party_eq_iff a b)
