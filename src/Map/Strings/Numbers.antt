-- ===== src/Map/Strings/Numbers.antt =====
-- The order of the byte strings of numbers.
use edet.Base.{
  ℕ, zero, suc, ◌<◌, Ordering, ◌≡◌, refl, sym, ◌∙◌, [], ◌∷◌, ◌++◌, arith, dec_lt, length, ◌^◌, ◌/◌,
  ◌%◌,
}
use edet.Bytes.{Bytes, be_bytes, u64_bytes}
use edet.Bytes.Digits.{length-be_bytes}
use edet.Map.Strings.{cmp_bytes, bytes_eq_iff}

cmp_bytes-append :
    (xs ys us vs : Bytes)
    → length xs ≡ length ys
    → cmp_bytes (xs ++ us) (ys ++ vs) ≡ elim (cmp_bytes xs ys) [
      | Ordering.lt ↦ Ordering.lt
      | Ordering.eq ↦ cmp_bytes us vs
      | Ordering.gt ↦ Ordering.gt
    ]
cmp_bytes-append [] [] us vs e = refl
cmp_bytes-append [] (y ∷ ys) us vs e = absurd (omega (arith, e))
cmp_bytes-append (x ∷ xs) [] us vs e = absurd (omega (arith, e))
cmp_bytes-append (x ∷ xs) (y ∷ ys) us vs e = ground (arith, cmp_bytes-append xs ys us vs, e)

cmp_bytes-be_bytes :
    (w a b : ℕ)
    → a < 256 ^ w
    → b < 256 ^ w
    → a < b
    → cmp_bytes (be_bytes w a) (be_bytes w b) ≡ Ordering.lt
unfolding be_bytes
cmp_bytes-be_bytes zero a b ha hb h = absurd (omega arith)
cmp_bytes-be_bytes (suc w) a b ha hb h =
    let same = length-be_bytes w (a / 256) ∙ sym (length-be_bytes w (b / 256)) in
    let split =
      cmp_bytes-append (be_bytes w (a / 256)) (be_bytes w (b / 256)) ((a % 256) ∷ [])
        ((b % 256) ∷ []) same in
    elim (dec_lt (a / 256) (b / 256)) [
      | yes less ↦
          split
          ∙ rw (cmp_bytes-be_bytes w (a / 256) (b / 256) (omega arith) (omega arith) less) refl
      | no more ↦
          let high : a / 256 ≡ b / 256 = omega (arith, more) in
          let low : a % 256 < b % 256 = omega (arith, high) in
          split
          ∙ rw (high, (bytes_eq_iff (be_bytes w (b / 256)) (be_bytes w (b / 256))).1 refl)
              (ground (arith, low))
    ]

pub cmp_bytes-u64_bytes :
    (a b : ℕ)
    → a < 2 ^ 64
    → b < 2 ^ 64
    → a < b
    → cmp_bytes (u64_bytes a) (u64_bytes b) ≡ Ordering.lt
unfolding u64_bytes
cmp_bytes-u64_bytes a b ha hb h = cmp_bytes-be_bytes 8 a b (omega arith) (omega arith) h
