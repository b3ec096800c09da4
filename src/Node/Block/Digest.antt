-- ===== src/Node/Block/Digest.antt =====
-- What the digest of crates/node/src/block.rs binds.
use edet.Base.{
  ℕ, zero, suc, ◌<◌, ◌≡◌, refl, sym, ap, ◌∙◌, ◌⊎◌, inl, inr, Option, none, some, [], ◌∷◌, arith,
  length, ◌/◌, ◌^◌, ◌%◌,
}
use edet.Bytes.{Bytes, concat}
use edet.Bytes.Digits.{append_inj, last_part}
use edet.State.Root.Tree.Binding.{Collision, bytes_eq}
use edet.State.Root.Prove.Found.{some_inj}
use edet.Node.Block.{tx_domain, le_bytes, tx_digest}

le_bytes_inj : (w m n : ℕ) → m < 256 ^ w → n < 256 ^ w → le_bytes w m ≡ le_bytes w n → m ≡ n
unfolding le_bytes
le_bytes_inj zero m n hm hn e = omega arith
le_bytes_inj (suc w) m n hm hn e =
    let high = le_bytes_inj w (m / 256) (n / 256) (omega arith) (omega arith) (cc) in
    let low : m % 256 ≡ n % 256 = cc in omega (arith, high, low)

length-le_bytes : (w n : ℕ) → length (le_bytes w n) ≡ w
unfolding le_bytes
length-le_bytes zero n = refl
length-le_bytes (suc w) n = ap suc (length-le_bytes w (n / 256))

-- Two envelopes that have one digest are of one chain and encode to the same bytes, or two inputs of
-- SHA-256 have one digest, if the chains' names are shorter than 2 ^ 64 bytes.
pub tx_digest-binding :
    (sha256 : Bytes → Bytes) (chain chain' : Bytes) (payload payload' : Option Bytes)
    (digest : Bytes)
    → length chain < 2 ^ 64
    → length chain' < 2 ^ 64
    → tx_digest sha256 chain payload ≡ some digest
    → tx_digest sha256 chain' payload' ≡ some digest
    → ((chain ≡ chain') × (payload ≡ payload')) ⊎ Collision sha256
unfolding tx_digest
tx_digest-binding sha256 chain chain' none payload' digest h h' e e' = cc
tx_digest-binding sha256 chain chain' (some body) none digest h h' e e' = cc
tx_digest-binding sha256 chain chain' (some body) (some body') digest h h' e e' =
    let input = concat (tx_domain ∷ le_bytes 8 (length chain) ∷ chain ∷ body ∷ []) in
    let input' = concat (tx_domain ∷ le_bytes 8 (length chain') ∷ chain' ∷ body' ∷ []) in
    elim (bytes_eq input input') [
      | inr differ ↦
          inr
            (record { one = input; other = input'; differ = differ; same = some_inj (e ∙ sym e') })
      | inl same ↦
          let (_, after) = append_inj tx_domain tx_domain refl same in
          let (size, rest) =
            append_inj (le_bytes 8 (length chain)) (le_bytes 8 (length chain'))
              (length-le_bytes 8 (length chain) ∙ sym (length-le_bytes 8 (length chain'))) after in
          let sizes =
            le_bytes_inj 8 (length chain) (length chain') (omega (arith, h)) (omega (arith, h'))
              size in
          let (names, last) = append_inj chain chain' sizes rest in
          inl (names, ap some (last_part body body' last))
    ]
