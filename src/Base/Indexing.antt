-- ===== src/Base/Indexing.antt =====
-- Reads of a list by index.
use edet.Base.{
  ℕ, zero, suc, ◌-◌, ◌<◌, ◌≡◌, refl, List, [], ◌∷◌, ◌++◌, arith, ltb, if◌then◌else◌, length, get_or,
}

module _ {ℓ} {A : Type ℓ} where
  pub get_or-append_if :
      (xs ys : List A) (i : ℕ) (d : A)
      → get_or (xs ++ ys) i d
        ≡ (if ltb i (length xs) then get_or xs i d else get_or ys (i - length xs) d)
  get_or-append_if [] ys i d = ground arith
  get_or-append_if (x ∷ xs) ys zero d = ground arith
  get_or-append_if (x ∷ xs) ys (suc i) d = ground (arith, get_or-append_if xs ys i d)

  pub list_ext :
      (d : A) (xs ys : List A)
      → length xs ≡ length ys
      → ((i : ℕ) → i < length xs → get_or xs i d ≡ get_or ys i d)
      → xs ≡ ys
  list_ext d [] [] e h = refl
  list_ext d [] (y ∷ ys) e h = absurd (omega arith)
  list_ext d (x ∷ xs) [] e h = absurd (omega arith)
  list_ext d (x ∷ xs) (y ∷ ys) e h =
      cc (h 0 (omega arith), list_ext d xs ys (omega arith) (λ i lt. h (suc i) (omega arith)))
