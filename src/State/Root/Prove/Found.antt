-- ===== src/State/Root/Prove/Found.antt =====
-- The leaf that `prove` of crates/state/src/root.rs finds for a key.
use edet.Base.{
  ℕ, suc, ◌+◌, ◌<◌, ◌≡◌, refl, sym, ap, ◌∙◌, inl, inr, true, false, Option, none, some, List, [],
  ◌∷◌, arith, Bool-cases, length, get_or, All, subst, ap₂,
}
use mathlib.Core.Option
use edet.Bytes.{Bytes, same_bytes, from_be_bytes, u64_bytes, be_bytes}
use edet.Bytes.Digits.{from_be_bytes-be_bytes}
use edet.State.Root.{Section, leaf_hash, leaf_salt, value_digest}
use edet.State.Root.Levels.{hashes}
use edet.State.Root.Proof.Binding.{same_bytes_eq}
use edet.State.Root.Leaves.{Leaves, Answered, ok, err, and_then, encode, id_key}
use edet.State.Root.Sections.{one, record_leaves}
use edet.State.Root.Prove.{find_key, read_id}
use edet.State.Root.Prove.Rows.{fits}

-- A chain of results that ends well went well at its first step.
pub and_then_ok :
    {A B : Type 0} (r : Answered A) (f : A → Answered B) (b : B)
    → and_then r f ≡ ok b
    → (a : A) × (r ≡ ok a) × (f a ≡ ok b)
and_then_ok (ok a) f b e = (a, refl, e)
and_then_ok (err x) f b e = cc

pub ok_inj : {A : Type 0} {a b : A} → Answered.ok a ≡ ok b → a ≡ b
ok_inj e = cc

pub encode_ok :
    (what : Section) (value : Option Bytes) (bytes : Bytes)
    → encode what value ≡ ok bytes
    → value ≡ some bytes
unfolding encode
encode_ok what none bytes e = cc
encode_ok what (some b) bytes e = ap some (ok_inj e)

pub some_inj : {A : Type 0} {a b : A} → Option.some a ≡ some b → a ≡ b
some_inj e = cc

pub find_key_here :
    (key k h : Bytes) (entries : Leaves)
    → same_bytes k key ≡ true
    → find_key key ((k, h) ∷ entries) ≡ some 0
find_key_here key k h entries same = rw same refl

pub find_key_later :
    (key k h : Bytes) (entries : Leaves)
    → same_bytes k key ≡ false
    → find_key key ((k, h) ∷ entries) ≡ Option.map suc (find_key key entries)
find_key_later key k h entries differ = rw differ refl

pub map-suc :
    (o : Option ℕ) (j : ℕ) → Option.map suc o ≡ some j → (i : ℕ) × (o ≡ some i) × (suc i ≡ j)
map-suc none j e = cc
map-suc (some i) j e = (i, refl, cc)

pub read_id-id_key : (id : ℕ) → fits id ≡ true → read_id (id_key id) ≡ some id
unfolding read_id id_key u64_bytes be_bytes from_be_bytes
read_id-id_key id h = ap some (from_be_bytes-be_bytes 8 id (ground (arith, h)))

module _ (sha256 : Bytes → Bytes) (root_salt : Bytes) (marker : ℕ) (section : Section) where
  -- The hash of a leaf.
  abbrev pub hash_of : ℕ → Bytes → Bytes → Bytes
  hash_of index key bytes =
      leaf_hash sha256 (leaf_salt sha256 root_salt marker section key (value_digest sha256 bytes))
        section index key bytes

  one_ok :
      (index id : ℕ) (value : Option Bytes) (leaf : Bytes × Bytes)
      → one sha256 root_salt marker section index id value ≡ ok leaf
      → (bytes : Bytes) × (value ≡ some bytes)
        × ((id_key id, hash_of index (id_key id) bytes) ≡ leaf)
  one_ok index id value leaf e =
      let (bytes, first, rest) = and_then_ok (encode section value) _ leaf e in
      (bytes, encode_ok section value bytes first, ok_inj rest)

  pub record_leaves_step :
      (index id : ℕ) (value : Option Bytes) (rows : List (ℕ × Option Bytes)) (leaves : Leaves)
      → record_leaves sha256 root_salt marker section index ((id, value) ∷ rows) ≡ ok leaves
      → (bytes : Bytes) × (later : Leaves) × (value ≡ some bytes)
        × (record_leaves sha256 root_salt marker section (index + 1) rows ≡ ok later)
        × ((id_key id, hash_of index (id_key id) bytes) ∷ later ≡ leaves)
  unfolding record_leaves
  record_leaves_step index id value rows leaves e =
      let (leaf, first, rest) =
        and_then_ok (one sha256 root_salt marker section index id value) _ leaves e in
      let (later, second, all) =
        and_then_ok (record_leaves sha256 root_salt marker section (index + 1) rows) _ leaves
          rest in
      let (bytes, is, leaf_is) = one_ok index id value leaf first in
      (bytes, later, is, second, ap (λ (l : Bytes × Bytes). l ∷ later) leaf_is ∙ ok_inj all)

  -- What is at the place where a key is found.
  pub record Found (R : ℕ × Option Bytes → Type 0) (key : Bytes) (index j : ℕ) (leaves : Leaves)
      : Type 0 where
    pub id : ℕ
    pub bytes : Bytes
    pub row : R (id, some bytes)
    pub is_key : id_key id ≡ key
    pub hash : get_or (hashes leaves) j [] ≡ hash_of (index + j) key bytes
    pub within : j < length leaves

  here_or_later :
      (R : ℕ × Option Bytes → Type 0) (key : Bytes) (index j id : ℕ) (bytes : Bytes)
      (later : Leaves)
      → R (id, some bytes)
      → ((i : ℕ) → find_key key later ≡ some i → Found R key (index + 1) i later)
      → find_key key ((id_key id, hash_of index (id_key id) bytes) ∷ later) ≡ some j
      → Found R key index j ((id_key id, hash_of index (id_key id) bytes) ∷ later)
  here_or_later R key index j id bytes later r next f =
      elim (Bool-cases (same_bytes (id_key id) key)) [
        | inl same ↦
            let is_key = same_bytes_eq (id_key id) key same in
            let here : 0 ≡ j = some_inj (
              sym (find_key_here key (id_key id) (hash_of index (id_key id) bytes) later same)
              ∙ f) in
            subst (λ i. Found R key index i ((id_key id, hash_of index (id_key id) bytes) ∷ later))
              here
              (record {
                id = id;
                bytes = bytes;
                row = r;
                is_key = is_key;
                hash = ap₂ (λ n k. hash_of n k bytes) (omega arith) is_key;
                within = omega arith;
              })
        | inr differ ↦
            let (i, on, is) = map-suc (find_key key later) j (
              sym (find_key_later key (id_key id) (hash_of index (id_key id) bytes) later differ)
              ∙ f) in
            let found = next i on in
            subst (λ i. Found R key index i ((id_key id, hash_of index (id_key id) bytes) ∷ later))
              is
              (record {
                id = found.id;
                bytes = found.bytes;
                row = found.row;
                is_key = found.is_key;
                hash = found.hash ∙ ap (λ n. hash_of n key found.bytes) (omega arith);
                within = omega (arith, found.within);
              })
      ]

  pub find_key-Found :
      (R : ℕ × Option Bytes → Type 0) (key : Bytes) (index j : ℕ) (rows : List (ℕ × Option Bytes))
      (leaves : Leaves)
      → All R rows
      → record_leaves sha256 root_salt marker section index rows ≡ ok leaves
      → find_key key leaves ≡ some j
      → Found R key index j leaves
  unfolding record_leaves
  find_key-Found R key index j [] [] all e f = cc
  find_key-Found R key index j [] (leaf ∷ leaves) all e f =
      let k : Answered.ok [] ≡ ok (leaf ∷ leaves) = e in cc
  find_key-Found R key index j ((id, value) ∷ rows) leaves all e f =
      let (bytes, later, is, rest, shape) = record_leaves_step index id value rows leaves e in
      let leaf : Bytes × Bytes = (id_key id, hash_of index (id_key id) bytes) in
      subst (Found R key index j) shape (
        here_or_later R key index j id bytes later (subst (λ v. R (id, v)) is all.0)
          (λ i. find_key-Found R key (index + 1) i rows later all.1 rest)
          (ap (find_key key) shape ∙ f))
