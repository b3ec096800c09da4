-- ===== src/State/Journal/Record.antt =====
-- The record of written keys under `mark`.
use edet.Base.{◌≡◌, refl, ◌≢◌, true, false, arith}
use edet.Map.Keys.{Ordered}
use edet.State.Journal.{Dirty, mark_key, reports}
use edet.Map.Laws.{get-insert, cmp_self}

module _ {K : Type 0} ⦃o : Ordered K⦄ where
  pub reports-mark_key_self : (k : K) (d : Dirty K) → reports (mark_key k d) k ≡ true
  unfolding mark_key reports
  reports-mark_key_self k Dirty.clean = ground (arith, cmp_self k)
  reports-mark_key_self k (Dirty.keys ks) = ground (arith, cmp_self k, get-insert k k tt ks)
  reports-mark_key_self k Dirty.all = refl

  pub reports-mark_key :
      (j k : K) (d : Dirty K) → reports (mark_key k d) j ≡ false → reports d j ≡ false
  unfolding mark_key reports
  reports-mark_key j k Dirty.clean h = refl
  reports-mark_key j k (Dirty.keys ks) h = ground (arith, h, get-insert j k tt ks)
  reports-mark_key j k Dirty.all h = h

  -- A key that the record does not report after a mark is another key.
  pub reports-mark_key_ne : (j k : K) (d : Dirty K) → reports (mark_key k d) j ≡ false → j ≢ k
  reports-mark_key_ne j k d h e = ground (arith, reports-mark_key_self k d, h, e)
