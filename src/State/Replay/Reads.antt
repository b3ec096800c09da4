-- ===== src/State/Replay/Reads.antt =====
-- Reads of the window after each of its writes.
use edet.Base.{
  ℕ, ◌≤◌, ◌≡◌, refl, ◌∙◌, ◌≢◌, inl, inr, true, Option, none, some, List, [], ◌∷◌, arith, ◌==◌,
  Bool-cases, Option-cases, or_else, All, subst,
}
use edet.Map.{Map, get, insert, remove, update, IsSorted}
use edet.Map.Keys.{Ordered, nat_ordered}
use edet.Map.Laws.{
  get-insert, get-update, get-remove, cmp_self, insert-IsSorted, update-IsSorted, remove-IsSorted,
}
use edet.State.Journal.{Journal, entry, get_mut, delete, mark}
use edet.State.Replay.{
  Window, is_applied, record_applied, forget_applied, holds, drop_empty, stale, remove_each, prune,
}

module _ {I : Type 0} ⦃o : Ordered I⦄ where
  -- The buckets are in order, and each is.
  pub record IsOrderly (rows : Map ℕ (Map I Unit)) : Type 0 where
    pub sorted : IsSorted rows
    pub buckets : (e : ℕ) (ids : Map I Unit) → get e rows ≡ some ids → IsSorted ids

  pub insert-IsOrderly :
      (e : ℕ) (ids : Map I Unit) (rows : Map ℕ (Map I Unit))
      → IsSorted ids
      → IsOrderly rows
      → IsOrderly (insert e ids rows)
  insert-IsOrderly e ids rows s h = record {
    sorted = insert-IsSorted e ids rows h.sorted;
    buckets = λ f found eq. elim (Bool-cases (f == e)) [
      | inl same ↦ subst IsSorted (ground (arith, get-insert f e ids rows, eq)) s
      | inr other ↦ h.buckets f found (ground (arith, get-insert f e ids rows, eq))
    ];
  }

  pub remove-IsOrderly :
      (e : ℕ) (rows : Map ℕ (Map I Unit)) → IsOrderly rows → IsOrderly (remove e rows)
  remove-IsOrderly e rows h = record {
    sorted = remove-IsSorted e rows h.sorted;
    buckets = λ f found eq. h.buckets f found (ground (arith, get-remove f e rows h.sorted, eq));
  }

  pub update-IsOrderly :
      (e : ℕ) (id : I) (rows : Map ℕ (Map I Unit))
      → IsOrderly rows
      → IsOrderly (update e (λ ids. remove id ids) rows)
  update-IsOrderly e id rows h = record {
    sorted = update-IsSorted e _ rows h.sorted;
    buckets = λ f found eq. elim (Option-cases (get f rows)) [
      | inl gone ↦ ground (arith, get-update f e (λ ids. remove id ids) rows, eq, gone)
      | inr (ids, there) ↦ elim (Bool-cases (f == e)) [
        | inl same ↦
            subst IsSorted (ground (arith, get-update f e (λ ids. remove id ids) rows, eq, there))
              (remove-IsSorted id ids (h.buckets f ids there))
        | inr other ↦
            h.buckets f found (ground (arith, get-update f e (λ ids. remove id ids) rows, eq))
      ]
    ];
  }

  -- Recording an id, and reading any.
  pub is_applied-record_applied_self :
      (id : I) (e : ℕ) (w : Window I) → is_applied id e (record_applied id e w) ≡ true
  unfolding is_applied record_applied entry mark
  is_applied-record_applied_self id e w = ground (
    arith,
    cmp_self id,
    get-insert e e (insert id tt (or_else (get e w.applied.rows) [])) w.applied.rows,
    get-insert id id tt (or_else (get e w.applied.rows) []),
  )

  pub is_applied-record_applied :
      (i j : I) (e f : ℕ) (w : Window I)
      → is_applied i e w ≡ true
      → is_applied i e (record_applied j f w) ≡ true
  unfolding is_applied record_applied entry mark
  is_applied-record_applied i j e f w h = ground (
    arith,
    h,
    get-insert e f (insert j tt (or_else (get f w.applied.rows) [])) w.applied.rows,
    get-insert i j tt (or_else (get f w.applied.rows) []),
  )

  holds-drop_empty :
      (i : I) (e f : ℕ) (b : Option (Map I Unit)) (j : Journal ℕ (Map I Unit))
      → IsSorted j.rows
      → get f j.rows ≡ b
      → holds i (get e j.rows) ≡ true
      → holds i (get e (drop_empty f b j).rows) ≡ true
  unfolding drop_empty delete mark
  holds-drop_empty i e f none j s eq h = h
  holds-drop_empty i e f (some []) j s eq h = ground (arith, get-remove e f j.rows s, eq, h)
  holds-drop_empty i e f (some (_ ∷ _)) j s eq h = h

  -- Forgetting one id keeps every other.
  pub is_applied-forget_applied :
      (i j : I) (e f : ℕ) (w : Window I)
      → IsOrderly w.applied.rows
      → (e ≡ f → i ≢ j)
      → is_applied i e w ≡ true
      → is_applied i e (forget_applied j f w) ≡ true
  unfolding is_applied forget_applied get_mut mark
  is_applied-forget_applied i j e f w s ne h =
      holds-drop_empty i e f (get f (update f (λ ids. remove j ids) w.applied.rows))
        (get_mut f (λ ids. remove j ids) w.applied)
        (update-IsSorted f (λ ids. remove j ids) w.applied.rows s.sorted) refl
        (elim (Option-cases (get e w.applied.rows)) [
          | inl gone ↦ ground (arith, h, gone)
          | inr (ids, there) ↦ ground (
            arith,
            h,
            there,
            ne,
            o.eq_iff i j,
            get-remove i j ids (s.buckets e ids there),
            get-update e f (λ ids. remove j ids) w.applied.rows,
          )
        ])

  drop_empty-IsOrderly :
      (f : ℕ) (b : Option (Map I Unit)) (j : Journal ℕ (Map I Unit))
      → IsOrderly j.rows
      → IsOrderly (drop_empty f b j).rows
  unfolding drop_empty delete mark
  drop_empty-IsOrderly f none j h = h
  drop_empty-IsOrderly f (some []) j h = remove-IsOrderly f j.rows h
  drop_empty-IsOrderly f (some (_ ∷ _)) j h = h

  pub forget_applied-IsOrderly :
      (id : I) (e : ℕ) (w : Window I)
      → IsOrderly w.applied.rows
      → IsOrderly (forget_applied id e w).applied.rows
  unfolding forget_applied get_mut mark
  forget_applied-IsOrderly id e w h =
      drop_empty-IsOrderly e (get e (update e (λ ids. remove id ids) w.applied.rows))
        (get_mut e (λ ids. remove id ids) w.applied) (update-IsOrderly e id w.applied.rows h)

  pub record_applied-IsOrderly :
      (id : I) (e : ℕ) (w : Window I)
      → IsOrderly w.applied.rows
      → IsOrderly (record_applied id e w).applied.rows
  unfolding record_applied entry mark
  record_applied-IsOrderly id e w h =
      insert-IsOrderly e (insert id tt (or_else (get e w.applied.rows) [])) w.applied.rows
        (insert-IsSorted id tt (or_else (get e w.applied.rows) [])
          (elim (Option-cases (get e w.applied.rows)) [
            | inl gone ↦ rw gone tt
            | inr (ids, there) ↦ rw there (h.buckets e ids there)
          ]))
        h

  -- Pruning keeps the buckets of the epochs that are still open.
  remove_each-rows :
      (e : ℕ) (es : List ℕ) (j : Journal ℕ (Map I Unit))
      → IsOrderly j.rows
      → All (λ f. e ≢ f) es
      → IsOrderly (remove_each es j).rows × (get e (remove_each es j).rows ≡ get e j.rows)
  unfolding remove_each delete mark
  remove_each-rows e [] j h a = (h, refl)
  remove_each-rows e (f ∷ es) j h a =
      let (later, same) = remove_each-rows e es (delete f j) (remove-IsOrderly f j.rows h) a.1 in
      (later, same ∙ ground (arith, get-remove e f j.rows h.sorted, a.0))

  stale_below :
      (e epoch : ℕ) (m : Map ℕ (Map I Unit)) → epoch ≤ e → All (λ f. e ≢ f) (stale epoch m)
  stale_below e epoch [] h = tt
  stale_below e epoch ((f, _) ∷ m) h = ground (arith, stale_below e epoch m h)

  pub prune-rows :
      (e : ℕ) (w : Window I)
      → IsOrderly w.applied.rows
      → w.epoch ≤ e
      → IsOrderly (prune w).applied.rows × (get e (prune w).applied.rows ≡ get e w.applied.rows)
  unfolding prune
  prune-rows e w h le =
      remove_each-rows e (stale w.epoch w.applied.rows) w.applied h
        (stale_below e w.epoch w.applied.rows le)
