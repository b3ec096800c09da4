-- ===== src/Node/Mempool/Agreement.antt =====
-- The sets of the mempool, its queues and their caps.
use edet.Base.{
  ◌+◌, ◌≤◌, Ordering, ◌≡◌, refl, ap, ◌∙◌, inl, inr, Bool, true, false, not, ◌&&◌, ◌||◌, Option,
  none, some, List, [], ◌∷◌, ◌++◌, arith, leb, Bool-cases, length, length-append,
}
use edet.Map.{Map, insert, remove, IsSorted}
use edet.Map.Keys.{Ordered}
use edet.Map.Laws.{get-insert, get-remove, insert-IsSorted, remove-IsSorted}
use edet.Base.{either}
use edet.Node.Mempool.{
  Mempool, has, push, committed_of, keep_uncommitted, shorten, commit_one, commit_each,
  remove_committed, seen_cap, max_queue_len,
}

module _ {H : Type 0} ⦃o : Ordered H⦄ where
  -- The list has the hash.
  abbrev pub listed : H → List H → Bool
  listed g [] = false
  listed g (h ∷ hs) = elim (o.cmp g h) [ Ordering.eq ↦ true | _ ↦ listed g hs ]

module _ {T H : Type 0} ⦃o : Ordered H⦄ where
  abbrev pub in_queue : H → List (T × H) → Bool
  in_queue g [] = false
  in_queue g ((_, h) ∷ queue) = elim (o.cmp g h) [ Ordering.eq ↦ true | _ ↦ in_queue g queue ]

  -- The set of queued hashes is the queue's, and neither queue is over its cap.
  pub record IsWell (mp : Mempool T H) : Type 0 where
    pub sorted : IsSorted mp.queued
    pub agree : (g : H) → has g mp.queued ≡ in_queue g mp.queue
    pub bounded : length mp.queue ≤ max_queue_len
    pub seen_bounded : length mp.seen ≤ seen_cap

  in_queue-append :
      (g h : H) (tx : T) (queue : List (T × H))
      → in_queue g (queue ++ (tx, h) ∷ [])
        ≡ elim (o.cmp g h) [ Ordering.eq ↦ true | _ ↦ in_queue g queue ]
  in_queue-append g h tx [] = ground arith
  in_queue-append g h tx ((_, k) ∷ queue) = ground (arith, in_queue-append g h tx queue)

  -- A push keeps the mempool in order, whether or not it takes the transaction.
  pub push-IsWell : (tx : T) (h : Option H) (mp : Mempool T H) → IsWell mp → IsWell (push tx h mp).1
  unfolding push
  push-IsWell tx none mp w = w
  push-IsWell tx (some h) mp w =
      either (λ (x : Bool × Mempool T H). IsWell x.1) (has h mp.queued || has h mp.seen_set)
        (false, mp) _ w
        (elim (Bool-cases (leb max_queue_len (length mp.queue))) [
          | inl full ↦ rw full w
          | inr room ↦ rw room (record {
            sorted = insert-IsSorted h tt mp.queued w.sorted;
            agree = λ g.
                ground
                  (arith, get-insert g h tt mp.queued, in_queue-append g h tx mp.queue, w.agree g);
            bounded = ground (arith, room, length-append mp.queue ((tx, h) ∷ []));
            seen_bounded = w.seen_bounded;
          })
        ])

  in_queue-keep_uncommitted :
      (g : H) (s : Map H Unit) (queue : List (T × H))
      → in_queue g (keep_uncommitted s queue) ≡ (in_queue g queue && not (has g s))
  unfolding keep_uncommitted
  in_queue-keep_uncommitted g s [] = refl
  in_queue-keep_uncommitted g s ((tx, h) ∷ queue) =
      ground (arith, in_queue-keep_uncommitted g s queue, o.eq_iff g h)

  length-keep_uncommitted :
      (s : Map H Unit) (queue : List (T × H)) → length (keep_uncommitted s queue) ≤ length queue
  unfolding keep_uncommitted
  length-keep_uncommitted s [] = omega arith
  length-keep_uncommitted s ((tx, h) ∷ queue) = ground (arith, length-keep_uncommitted s queue)

  length-shorten :
      (seen : List H) (mp : Mempool T H)
      → mp.seen ≡ seen
      → length seen ≤ seen_cap + 1
      → length (shorten seen mp).seen ≤ seen_cap
  unfolding shorten
  length-shorten [] mp e le = ground (arith, e)
  length-shorten (old ∷ seen) mp e le = ground (arith, e, le)

  shorten-rest :
      (seen : List H) (mp : Mempool T H)
      → ((shorten seen mp).queued ≡ mp.queued) × ((shorten seen mp).queue ≡ mp.queue)
  unfolding shorten
  shorten-rest [] mp = (refl, refl)
  shorten-rest (old ∷ seen) mp = ground arith

  -- What a turn leaves of the queued hashes, of the queue and of the hashes seen.
  commit_one-rest :
      (h : H) (mp : Mempool T H)
      → length mp.seen ≤ seen_cap
      → ((commit_one h mp).queued ≡ remove h mp.queued)
        × ((commit_one h mp).queue ≡ mp.queue)
        × (length (commit_one h mp).seen ≤ seen_cap)
  unfolding commit_one
  commit_one-rest h mp le =
      let grown = mp.seen ++ h ∷ [] in
      let next : Mempool T H = record mp {
        queued = remove h mp.queued;
        seen = grown;
        seen_set = insert h tt mp.seen_set;
      } in
      either
        (λ (x : Mempool T H).
          (x.queued ≡ remove h mp.queued) × (x.queue ≡ mp.queue) × (length x.seen ≤ seen_cap))
        (has h mp.seen_set) _ _ (refl, refl, le)
        (
          (shorten-rest grown next).0,
          (shorten-rest grown next).1,
          length-shorten grown next refl (ground (arith, length-append mp.seen (h ∷ []), le)),
        )

  commit_each-rest :
      (hs : List H) (mp : Mempool T H)
      → IsSorted mp.queued
      → length mp.seen ≤ seen_cap
      → IsSorted (commit_each hs mp).queued
        × ((commit_each hs mp).queue ≡ mp.queue)
        × (length (commit_each hs mp).seen ≤ seen_cap)
        × ((g : H) → has g (commit_each hs mp).queued ≡ (has g mp.queued && not (listed g hs)))
  unfolding commit_each
  commit_each-rest [] mp s le = (s, refl, le, λ g. ground arith)
  commit_each-rest (h ∷ hs) mp s le =
      let (queued, queue, short) = commit_one-rest h mp le in
      let next = commit_one h mp in
      let sorted : IsSorted next.queued = rw queued (remove-IsSorted h mp.queued s) in
      let (sorted', queue', short', left) = commit_each-rest hs next sorted short in
      (
        sorted',
        queue' ∙ queue,
        short',
        λ g.
            left g
            ∙ ap (λ (q : Map H Unit). has g q && not (listed g hs)) queued
            ∙ ground (arith, get-remove g h mp.queued s),
      )

  -- Removing a block's transactions keeps the mempool in order and leaves in the queue exactly the
  -- transactions that the block has not, in whatever order the set of committed hashes is walked.
  pub remove_committed-IsWell :
      (walk : Map H Unit → List H) (hashes : List (Option H)) (mp : Mempool T H)
      → ((s : Map H Unit) (g : H) → listed g (walk s) ≡ has g s)
      → IsWell mp
      → IsWell (remove_committed walk hashes mp)
        × ((g : H)
            → in_queue g (remove_committed walk hashes mp).queue
              ≡ (in_queue g mp.queue && not (has g (committed_of hashes []))))
  unfolding remove_committed
  remove_committed-IsWell walk hashes mp all w =
      let committed = committed_of hashes [] in
      let next : Mempool T H = record mp { queue = keep_uncommitted committed mp.queue } in
      let (sorted, queue, short, left) =
        commit_each-rest (walk committed) next w.sorted w.seen_bounded in
      let kept : (g : H)
          → in_queue g (commit_each (walk committed) next).queue
            ≡ (in_queue g mp.queue && not (has g committed)) =
        λ g. ap (in_queue g) queue ∙ in_queue-keep_uncommitted g committed mp.queue in
      (
        record {
          sorted = sorted;
          agree = λ g. ground (arith, left g, kept g, w.agree g, all committed g);
          bounded =
              ground
                (arith, ap length queue, length-keep_uncommitted committed mp.queue, w.bounded);
          seen_bounded = short;
        },
        kept,
      )
