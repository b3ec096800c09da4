-- ===== src/State/Journal/Changes.antt =====
-- The journal's record and the rows that change, for each operation of journal.rs.
use edet.Base.{
  ◌≡◌, refl, ◌∙◌, ◌≢◌, inl, inr, false, Option, List, [], ◌∷◌, arith, Option-cases, All,
}
use edet.Map.{Map, get, insert, remove, update, IsSorted}
use edet.Map.Keys.{Ordered}
use edet.Map.Laws.{
  get-insert, get-update, get-remove, insert-IsSorted, update-IsSorted, remove-IsSorted,
}
use edet.State.Journal.{
  Dirty, Journal, mark_key, mark, reports, touch, put, delete, get_mut, entry, take_dirty, raw_mut,
  touch_each,
}
use edet.State.Journal.Record.{reports-mark_key, reports-mark_key_ne}

-- The key is none of these.
abbrev pub Unlisted : {K : Type 0} → K → List K → Type 0
Unlisted i ks = All (λ k. i ≢ k) ks

module _ {K V : Type 0} ⦃o : Ordered K⦄ where
  -- The journal accounts for every change to `old`: a key that it does not report reads as before.
  pub record Tracks (old : Map K V) (j : Journal K V) : Type 0 where
    pub sorted : IsSorted j.rows
    pub unchanged : (k : K) → reports j.dirty k ≡ false → get k j.rows ≡ get k old

  pub take_dirty-Tracks : (j : Journal K V) → IsSorted j.rows → Tracks j.rows (take_dirty j).1
  unfolding take_dirty
  take_dirty-Tracks j s = record { sorted = s; unchanged = λ k h. refl }

  -- A write to one marked key.
  pub mark-Tracks :
      (old m : Map K V) (k : K) (j : Journal K V)
      → Tracks old j
      → IsSorted m
      → ((i : K) → i ≢ k → get i m ≡ get i j.rows)
      → Tracks old (record { rows = m; dirty = mark_key k j.dirty })
  mark-Tracks old m k j t s same = record {
    sorted = s;
    unchanged = λ i h.
        same i (reports-mark_key_ne i k j.dirty h) ∙ t.unchanged i (reports-mark_key i k j.dirty h);
  }

  pub touch-Tracks :
      (old : Map K V) (k : K) (j : Journal K V) → Tracks old j → Tracks old (touch k j)
  unfolding touch mark
  touch-Tracks old k j t = mark-Tracks old j.rows k j t t.sorted (λ i ne. refl)

  pub put-Tracks :
      (old : Map K V) (k : K) (v : V) (j : Journal K V) → Tracks old j → Tracks old (put k v j)
  unfolding put mark
  put-Tracks old k v j t =
      mark-Tracks old (insert k v j.rows) k j t (insert-IsSorted k v j.rows t.sorted)
        (λ i ne. ground (arith, get-insert i k v j.rows, o.eq_iff i k, ne))

  pub delete-Tracks :
      (old : Map K V) (k : K) (j : Journal K V) → Tracks old j → Tracks old (delete k j)
  unfolding delete mark
  delete-Tracks old k j t =
      mark-Tracks old (remove k j.rows) k j t (remove-IsSorted k j.rows t.sorted)
        (λ i ne. ground (arith, get-remove i k j.rows t.sorted, o.eq_iff i k, ne))

  pub get_mut-Tracks :
      (old : Map K V) (k : K) (f : V → V) (j : Journal K V)
      → Tracks old j
      → Tracks old (get_mut k f j)
  unfolding get_mut mark
  get_mut-Tracks old k f j t =
      mark-Tracks old (update k f j.rows) k j t (update-IsSorted k f j.rows t.sorted)
        (λ i ne. ground (arith, get-update i k f j.rows, o.eq_iff i k, ne))

  pub entry-Tracks :
      (old : Map K V) (k : K) (f : Option V → Option V) (j : Journal K V)
      → Tracks old j
      → Tracks old (entry k f j)
  unfolding entry mark
  entry-Tracks old k f j t = elim (Option-cases (f (get k j.rows))) [
    | inl gone ↦ rw gone (
        mark-Tracks old (remove k j.rows) k j t (remove-IsSorted k j.rows t.sorted)
          (λ i ne. ground (arith, get-remove i k j.rows t.sorted, o.eq_iff i k, ne)))
    | inr (v, there) ↦ rw there (
        mark-Tracks old (insert k v j.rows) k j t (insert-IsSorted k v j.rows t.sorted)
          (λ i ne. ground (arith, get-insert i k v j.rows, o.eq_iff i k, ne)))
  ]

  -- Everything is reported of a journal that marks all.
  pub all-Tracks :
      (old m : Map K V) → IsSorted m → Tracks old (record { rows = m; dirty = Dirty.all })
  unfolding reports
  all-Tracks old m s = record { sorted = s; unchanged = λ k h. cc }

  reports-touch_each :
      (ks : List K) (i : K) (j : Journal K V)
      → reports (touch_each ks j).dirty i ≡ false
      → Unlisted i ks × (reports j.dirty i ≡ false)
  unfolding touch_each touch mark
  reports-touch_each [] i j h = (tt, h)
  reports-touch_each (k ∷ ks) i j h =
      let (rest, here) = reports-touch_each ks i (touch k j) h in
      ((reports-mark_key_ne i k j.dirty here, rest), reports-mark_key i k j.dirty here)

  pub rows-touch_each : (ks : List K) (j : Journal K V) → (touch_each ks j).rows ≡ j.rows
  unfolding touch_each touch mark
  rows-touch_each [] j = refl
  rows-touch_each (k ∷ ks) j = rows-touch_each ks (touch k j)

  -- A raw write whose keys are touched after it.
  pub raw_mut-Tracks :
      (old : Map K V) (g : Map K V → Map K V) (ks : List K) (j : Journal K V)
      → Tracks old j
      → IsSorted (g j.rows)
      → ((i : K) → Unlisted i ks → get i (g j.rows) ≡ get i j.rows)
      → Tracks old (touch_each ks (raw_mut g j))
  unfolding raw_mut
  raw_mut-Tracks old g ks j t s same = record {
    sorted = rw (rows-touch_each ks (raw_mut g j)) s;
    unchanged = λ i h.
        let (unlisted, before) = reports-touch_each ks i (raw_mut g j) h in
        rw (rows-touch_each ks (raw_mut g j)) (same i unlisted ∙ t.unchanged i before);
  }

  -- The touches may also come first: they leave the rows alone and the write leaves the record alone.
  pub raw_mut-touch_each :
      (g : Map K V → Map K V) (ks : List K) (j : Journal K V)
      → raw_mut g (touch_each ks j) ≡ touch_each ks (raw_mut g j)
  unfolding raw_mut touch_each touch mark
  raw_mut-touch_each g [] j = refl
  raw_mut-touch_each g (k ∷ ks) j = raw_mut-touch_each g ks (touch k j)
