-- ===== src/Bytes/Digits.antt =====
-- The digits of a number in base 256.
use edet.Base.{
  ℕ, zero, suc, ◌+◌, ◌*◌, ◌<◌, ◌≡◌, refl, sym, ap, ◌∙◌, List, [], ◌∷◌, ◌++◌, arith, length,
  length-append, ◌^◌, ◌/◌, ◌%◌,
}
use edet.Bytes.{Bytes, concat, be_bytes, from_be_bytes, u64_bytes}

pub length-be_bytes : (w n : ℕ) → length (be_bytes w n) ≡ w
unfolding be_bytes
length-be_bytes zero n = refl
length-be_bytes (suc w) n =
    ground
      (arith, length-append (be_bytes w (n / 256)) ((n % 256) ∷ []), length-be_bytes w (n / 256))

from_be_bytes-append :
    (n : ℕ) (xs : Bytes) (b : ℕ) → from_be_bytes n (xs ++ b ∷ []) ≡ from_be_bytes n xs * 256 + b
unfolding from_be_bytes
from_be_bytes-append n [] b = refl
from_be_bytes-append n (x ∷ xs) b = from_be_bytes-append (n * 256 + x) xs b

fits : (w n : ℕ) → n < 256 ^ suc w → n / 256 < 256 ^ w
fits w n h = omega arith

-- Reading back what was written, of a number that fits.
pub from_be_bytes-be_bytes : (w n : ℕ) → n < 256 ^ w → from_be_bytes 0 (be_bytes w n) ≡ n
unfolding be_bytes from_be_bytes
from_be_bytes-be_bytes zero n h = omega arith
from_be_bytes-be_bytes (suc w) n h =
    from_be_bytes-append 0 (be_bytes w (n / 256)) (n % 256)
    ∙ ap (λ m. m * 256 + n % 256) (from_be_bytes-be_bytes w (n / 256) (fits w n h))
    ∙ omega arith

pub u64_bytes_inj : (m n : ℕ) → m < 2 ^ 64 → n < 2 ^ 64 → u64_bytes m ≡ u64_bytes n → m ≡ n
unfolding u64_bytes
u64_bytes_inj m n hm hn e =
    sym (from_be_bytes-be_bytes 8 m (omega arith))
    ∙ ap (from_be_bytes 0) e
    ∙ from_be_bytes-be_bytes 8 n (omega arith)

-- A prefix of a known length is determined.
pub append_inj {ℓ} :
    {A : Type ℓ} (xs ys : List A) {us vs : List A}
    → length xs ≡ length ys
    → xs ++ us ≡ ys ++ vs
    → (xs ≡ ys) × (us ≡ vs)
append_inj [] [] l e = (refl, e)
append_inj [] (y ∷ ys) l e = ground arith
append_inj (x ∷ xs) [] l e = ground arith
append_inj {A} (x ∷ xs) (y ∷ ys) {us} {vs} l e =
    let tail : xs ++ us ≡ ys ++ vs = cc in
    let (same, rest) = append_inj xs ys (omega arith) tail in (cc, rest)

append-nil : (xs : Bytes) → xs ++ [] ≡ xs
append-nil [] = refl
append-nil (x ∷ xs) = ap (λ ys. x ∷ ys) (append-nil xs)

pub last_part : (p q : Bytes) → concat (p ∷ []) ≡ concat (q ∷ []) → p ≡ q
last_part p q e = sym (append-nil p) ∙ e ∙ append-nil q
