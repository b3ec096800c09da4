-- ===== src/State/Root/Proof/Encoding.antt =====
-- What the hashes of leaves and sections of crates/state/src/root.rs bind.
use edet.Base.{ℕ, ◌<◌, ◌≡◌, refl, sym, ◌∙◌, ◌⊎◌, inl, inr, [], ◌∷◌, ◌++◌, length, ◌^◌}
use edet.Bytes.{Bytes, u64_bytes}
use edet.Bytes.Digits.{append_inj, last_part, u64_bytes_inj, length-be_bytes}
use edet.State.Root.{Section, leaf_domain, section_domain, tag, leaf_hash, section_hash, be_len}
use edet.State.Root.Tree.Binding.{IsDigest, Collision, sha-binding}

length-u64_bytes : (n : ℕ) → length (u64_bytes n) ≡ 8
unfolding u64_bytes
length-u64_bytes n = length-be_bytes 8 n

u64_prefix :
    (m n : ℕ) {us vs : Bytes}
    → m < 2 ^ 64
    → n < 2 ^ 64
    → u64_bytes m ++ us ≡ u64_bytes n ++ vs
    → (m ≡ n) × (us ≡ vs)
u64_prefix m n hm hn e =
    let (same, rest) =
      append_inj (u64_bytes m) (u64_bytes n) (length-u64_bytes m ∙ sym (length-u64_bytes n)) e in
    (u64_bytes_inj m n hm hn same, rest)

-- A byte string after its length.
sized_prefix :
    (xs ys : Bytes) {us vs : Bytes}
    → length xs < 2 ^ 64
    → length ys < 2 ^ 64
    → be_len xs ++ xs ++ us ≡ be_len ys ++ ys ++ vs
    → (xs ≡ ys) × (us ≡ vs)
unfolding be_len
sized_prefix xs ys hx hy e =
    let (same, rest) = u64_prefix (length xs) (length ys) hx hy e in append_inj xs ys same rest

same_prefix : (p : Bytes) {us vs : Bytes} → p ++ us ≡ p ++ vs → us ≡ vs
same_prefix p e = (append_inj p p refl e).1

module _ (sha256 : Bytes → Bytes) where
  pub section_hash-binding :
      (section : Section) (m n : ℕ) (r r' : Bytes)
      → m < 2 ^ 64
      → n < 2 ^ 64
      → section_hash sha256 section m r ≡ section_hash sha256 section n r'
      → ((m ≡ n) × (r ≡ r')) ⊎ Collision sha256
  unfolding section_hash
  section_hash-binding section m n r r' hm hn e =
      elim (sha-binding sha256
        ((2 ∷ []) ∷ section_domain ∷ (tag section ∷ []) ∷ u64_bytes m ∷ r ∷ [])
        ((2 ∷ []) ∷ section_domain ∷ (tag section ∷ []) ∷ u64_bytes n ∷ r' ∷ []) e) [
          | inl same ↦
              let after =
                same_prefix (tag section ∷ [])
                  (same_prefix section_domain (same_prefix (2 ∷ []) same)) in
              let (count, rest) = u64_prefix m n hm hn after in inl (count, last_part r r' rest)
          | inr found ↦ inr found
        ]

  pub leaf_hash-binding :
      (section : Section) (index : ℕ) (salt salt' key key' value value' : Bytes)
      → IsDigest salt
      → IsDigest salt'
      → length key < 2 ^ 64
      → length key' < 2 ^ 64
      → length value < 2 ^ 64
      → length value' < 2 ^ 64
      → leaf_hash sha256 salt section index key value
        ≡ leaf_hash sha256 salt' section index key' value'
      → ((salt ≡ salt') × (key ≡ key') × (value ≡ value')) ⊎ Collision sha256
  unfolding leaf_hash
  leaf_hash-binding section index salt salt' key key' value value' d d' hk hk' hv hv' e =
      elim (sha-binding sha256
        ((0 ∷ [])
          ∷ leaf_domain
          ∷ salt
          ∷ (tag section ∷ [])
          ∷ u64_bytes index
          ∷ be_len key
          ∷ key
          ∷ be_len value
          ∷ value
          ∷ [])
        ((0 ∷ [])
          ∷ leaf_domain
          ∷ salt'
          ∷ (tag section ∷ [])
          ∷ u64_bytes index
          ∷ be_len key'
          ∷ key'
          ∷ be_len value'
          ∷ value'
          ∷ [])
        e) [
          | inl same ↦
              let (salts, after) =
                append_inj salt salt' (d ∙ sym d')
                  (same_prefix leaf_domain (same_prefix (0 ∷ []) same)) in
              let (keys, rest) =
                sized_prefix key key' hk hk'
                  (same_prefix (u64_bytes index) (same_prefix (tag section ∷ []) after)) in
              inl (salts, keys, (sized_prefix value value' hv hv' rest).0)
          | inr found ↦ inr found
        ]
