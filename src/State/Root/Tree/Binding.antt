-- ===== src/State/Root/Tree/Binding.antt =====
-- Two foldings that end at one root: of one node, or of two inputs of SHA-256 with one digest.
use edet.Base.{
  ℕ, zero, suc, ◌+◌, ◌≡◌, refl, sym, ◌∙◌, ◌≢◌, ◌⊎◌, inl, inr, true, false, Option, none, some, List,
  [], ◌∷◌, arith, ltb, ◌==◌, Bool-cases, Option-cases, length, All, ◌%◌, subst, ◌/◌,
}
use edet.Bytes.{Bytes, concat}
use edet.Bytes.Digits.{append_inj, last_part}
use edet.State.Root.{inner_hash, sha}
use edet.State.Root.Tree.Round.{fold_steps_one, fold_steps_more}
use edet.State.Root.Tree.{rise, with_next, fold_steps}

pub bytes_eq : (xs ys : Bytes) → (xs ≡ ys) ⊎ (xs ≢ ys)
bytes_eq [] [] = inl refl
bytes_eq [] (y ∷ ys) = inr (λ e. cc)
bytes_eq (x ∷ xs) [] = inr (λ e. cc)
bytes_eq (x ∷ xs) (y ∷ ys) = elim (bytes_eq xs ys) [
  | inl same ↦ elim (Bool-cases (x == y)) [
    | inl here ↦ inl (ground (arith, here, same))
    | inr differ ↦ inr (λ e. ground (arith, differ, e))
  ]
  | inr differ ↦ inr (λ e. ground (arith, differ, e))
]

abbrev pub IsDigest : Bytes → Type 0
IsDigest d = length d ≡ 32

module _ (sha256 : Bytes → Bytes) where
  -- Two inputs with one digest.
  pub record Collision : Type 0 where
    pub one : Bytes
    pub other : Bytes
    pub differ : one ≢ other
    pub same : sha256 one ≡ sha256 other

  -- Equal hashes are of equal inputs, or collide.
  pub sha-binding :
      (ps qs : List Bytes) → sha sha256 ps ≡ sha sha256 qs → (concat ps ≡ concat qs) ⊎ Collision
  unfolding sha
  sha-binding ps qs e = elim (bytes_eq (concat ps) (concat qs)) [
    | inl same ↦ inl same
    | inr differ ↦ inr (record { one = concat ps; other = concat qs; differ = differ; same = e })
  ]

  inner_hash-binding :
      (l r l' r' : Bytes)
      → length l ≡ length l'
      → inner_hash sha256 l r ≡ inner_hash sha256 l' r'
      → ((l ≡ l') × (r ≡ r')) ⊎ Collision
  unfolding inner_hash
  inner_hash-binding l r l' r' len e =
      elim (sha-binding ((1 ∷ []) ∷ l ∷ r ∷ []) ((1 ∷ []) ∷ l' ∷ r' ∷ []) e) [
        | inl same ↦
            let (_, rest) = append_inj (1 ∷ []) (1 ∷ []) refl same in
            let (left, right) = append_inj l l' len rest in inl (left, last_part r r' right)
        | inr found ↦ inr found
      ]

  module _ (digests : (x : Bytes) → length (sha256 x) ≡ 32) where
    length-inner_hash : (l r : Bytes) → IsDigest (inner_hash sha256 l r)
    unfolding inner_hash sha
    length-inner_hash l r = digests _

some_pair :
    {x y : Bytes × List Bytes}
    → ◌≡◌ {A = Option (Bytes × List Bytes)} (some x) (some y)
    → (x.0 ≡ y.0) × (x.1 ≡ y.1)
some_pair e = (cc, cc)

with_next-some :
    (f : Bytes → Bytes) (p : List Bytes) (a : Bytes) (q : List Bytes)
    → with_next f p ≡ some (a, q)
    → (s : Bytes) × (p ≡ s ∷ q) × (f s ≡ a)
with_next-some f [] a q e = cc
with_next-some f (s ∷ p) a q e = (s, cc, cc)

module _ (sha256 : Bytes → Bytes) where
  -- The three turns of `fold_path`.
  pub rise_left :
      (acc : Bytes) (t m : ℕ) (p : List Bytes)
      → t % 2 == 0 ≡ true
      → ltb (t + 1) m ≡ true
      → rise sha256 acc t m p ≡ with_next (λ s. inner_hash sha256 acc s) p
  unfolding rise
  rise_left acc t m p even more = rw (even, more, rise) refl

  pub rise_only :
      (acc : Bytes) (t m : ℕ) (p : List Bytes)
      → t % 2 == 0 ≡ true
      → ltb (t + 1) m ≡ false
      → rise sha256 acc t m p ≡ some (acc, p)
  unfolding rise
  rise_only acc t m p even last = rw (even, last, rise) refl

  pub rise_right :
      (acc : Bytes) (t m : ℕ) (p : List Bytes)
      → t % 2 == 0 ≡ false
      → rise sha256 acc t m p ≡ with_next (λ s. inner_hash sha256 s acc) p
  unfolding rise
  rise_right acc t m p odd = rw (odd, rise) refl

  -- One turn keeps digests, and two turns to one node are of one node.
  record Turns (acc acc' a a' : Bytes) (q q' : List Bytes) : Type 0 where
    above : IsDigest a
    above' : IsDigest a'
    left : All IsDigest q
    left' : All IsDigest q'
    back : a ≡ a' → (acc ≡ acc') ⊎ Collision sha256

  rise-Turns :
      (acc acc' : Bytes) (t m : ℕ) (p p' : List Bytes) (a a' : Bytes) (q q' : List Bytes)
      → ((x : Bytes) → length (sha256 x) ≡ 32)
      → IsDigest acc
      → IsDigest acc'
      → All IsDigest p
      → All IsDigest p'
      → rise sha256 acc t m p ≡ some (a, q)
      → rise sha256 acc' t m p' ≡ some (a', q')
      → Turns acc acc' a a' q q'
  rise-Turns acc acc' t m p p' a a' q q' digests d d' ds ds' e e' = elim (Bool-cases (t % 2 == 0)) [
    | inl even ↦ elim (Bool-cases (ltb (t + 1) m)) [
      | inl more ↦
          let (s, is, on) = with_next-some _ p a q (sym (rise_left acc t m p even more) ∙ e) in
          let (s', is', on') =
            with_next-some _ p' a' q' (sym (rise_left acc' t m p' even more) ∙ e') in
          let us : All IsDigest (s ∷ q) = subst (All IsDigest) is ds in
          let us' : All IsDigest (s' ∷ q') = subst (All IsDigest) is' ds' in
          record {
            above = subst IsDigest on (length-inner_hash sha256 digests acc s);
            above' = subst IsDigest on' (length-inner_hash sha256 digests acc' s');
            left = us.1;
            left' = us'.1;
            back = λ same.
                elim (inner_hash-binding sha256 acc s acc' s' (d ∙ sym d') (on ∙ same ∙ sym on')) [
                  | inl (x, _) ↦ inl x
                  | inr found ↦ inr found
                ];
          }
      | inr last ↦
          let (here, is) = some_pair (sym (rise_only acc t m p even last) ∙ e) in
          let (here', is') = some_pair (sym (rise_only acc' t m p' even last) ∙ e') in
          record {
            above = subst IsDigest here d;
            above' = subst IsDigest here' d';
            left = subst (All IsDigest) is ds;
            left' = subst (All IsDigest) is' ds';
            back = λ same. inl (here ∙ same ∙ sym here');
          }
    ]
    | inr odd ↦
        let (s, is, on) = with_next-some _ p a q (sym (rise_right acc t m p odd) ∙ e) in
        let (s', is', on') = with_next-some _ p' a' q' (sym (rise_right acc' t m p' odd) ∙ e') in
        let us : All IsDigest (s ∷ q) = subst (All IsDigest) is ds in
        let us' : All IsDigest (s' ∷ q') = subst (All IsDigest) is' ds' in
        record {
          above = subst IsDigest on (length-inner_hash sha256 digests s acc);
          above' = subst IsDigest on' (length-inner_hash sha256 digests s' acc');
          left = us.1;
          left' = us'.1;
          back = λ same.
              elim (inner_hash-binding sha256 s acc s' acc' (us.0 ∙ sym us'.0)
                (on ∙ same ∙ sym on')) [ inl (_, x) ↦ inl x | inr found ↦ inr found ];
        }
  ]

  fold_steps_stuck :
      (fuel : ℕ) (acc : Bytes) (t m : ℕ) (p : List Bytes)
      → ltb 1 m ≡ true
      → rise sha256 acc t m p ≡ none
      → fold_steps sha256 (suc fuel) acc t m p ≡ none
  unfolding fold_steps
  fold_steps_stuck fuel acc t m p h e = rw (h, e, fold_steps) refl

  fold_steps_cases :
      (fuel : ℕ) (acc : Bytes) (t m : ℕ) (p : List Bytes) (r : Bytes × List Bytes)
      → ltb 1 m ≡ true
      → fold_steps sha256 (suc fuel) acc t m p ≡ some r
      → (a : Bytes) × (q : List Bytes) × (rise sha256 acc t m p ≡ some (a, q))
        × (fold_steps sha256 fuel a (t / 2) ((m + 1) / 2) q ≡ some r)
  fold_steps_cases fuel acc t m p r h e = elim (Option-cases (rise sha256 acc t m p)) [
    | inl stuck ↦ let k : none ≡ some r = sym (fold_steps_stuck fuel acc t m p h stuck) ∙ e in cc k
    | inr ((a, q), on) ↦ (a, q, on, sym (fold_steps_more sha256 fuel acc t m p a q h on) ∙ e)
  ]

  -- Two foldings over one tree that end at one node start at one node, or SHA-256 collides.
  pub fold_steps-binding :
      (fuel : ℕ) (acc acc' : Bytes) (t m : ℕ) (p p' : List Bytes) (r : Bytes) (q q' : List Bytes)
      → ((x : Bytes) → length (sha256 x) ≡ 32)
      → IsDigest acc
      → IsDigest acc'
      → All IsDigest p
      → All IsDigest p'
      → fold_steps sha256 fuel acc t m p ≡ some (r, q)
      → fold_steps sha256 fuel acc' t m p' ≡ some (r, q')
      → (acc ≡ acc') ⊎ Collision sha256
  unfolding fold_steps
  fold_steps-binding zero acc acc' t m p p' r q q' digests d d' ds ds' e e' = inl (cc)
  fold_steps-binding (suc fuel) acc acc' t m p p' r q q' digests d d' ds ds' e e' =
      elim (Bool-cases (ltb 1 m)) [
        | inr one ↦
            let here = some_pair (sym (fold_steps_one sha256 (suc fuel) acc t m p one) ∙ e) in
            let here' = some_pair (sym (fold_steps_one sha256 (suc fuel) acc' t m p' one) ∙ e') in
            inl (here.0 ∙ sym here'.0)
        | inl more ↦
            let (a, u, on, rest) = fold_steps_cases fuel acc t m p (r, q) more e in
            let (a', u', on', rest') = fold_steps_cases fuel acc' t m p' (r, q') more e' in
            let turns = rise-Turns acc acc' t m p p' a a' u u' digests d d' ds ds' on on' in
            elim (fold_steps-binding fuel a a' (t / 2) ((m + 1) / 2) u u' r q q' digests turns.above
              turns.above' turns.left turns.left' rest rest') [
                | inl same ↦ turns.back same
                | inr found ↦ inr found
              ]
      ]
