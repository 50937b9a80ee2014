-- ===== src/Fsverity/Merkle/Leaves.antt =====
-- What `resize` and `update_hash` of fsverity/builder.rs do to the leaves.
use android_packages_modules.Common.{
  ℕ, zero, suc, ◌+◌, ◌-◌, ◌≡◌, refl, ◌∙◌, inl, inr, max, none, some, List, [], ◌∷◌, arith, ltb, leb,
  ◌==◌, Bool-cases, if◌then◌else◌, length, get_elem?, set, take, replicate, tests, length-append,
  length-take, length-replicate, length-set, get_elem?-set_self, get_elem?-set_ne, get_elem?-ge,
}
use android_packages_modules.Crypto.{Sha256Hash, hash_of_4096_zeros}
use android_packages_modules.Fsverity.Merkle.{MerkleLeaves, resize_vec, update_hash}

module _ {ℓ} {A : Type ℓ} where
  get_elem?-replicate :
      (n j : ℕ) (v : A) → get_elem? (replicate n v) j ≡ (if ltb j n then some v else none)
  unfolding replicate
  get_elem?-replicate zero j v = ground arith
  get_elem?-replicate (suc n) zero v = ground arith
  get_elem?-replicate (suc n) (suc j) v = ground (arith, get_elem?-replicate n j v)

  -- An element of a resized vector: an old one, or the new value.
  pub get_elem?-resize_vec :
      (xs : List A) (n j : ℕ) (v : A)
      → get_elem? (resize_vec xs n v) j
        ≡ (if ltb j n then (if ltb j (length xs) then get_elem? xs j else some v) else none)
  unfolding resize_vec
  get_elem?-resize_vec [] zero j v = ground (arith, get_elem?-replicate 0 j v)
  get_elem?-resize_vec [] (suc n) j v =
      let e : suc n - 0 ≡ suc n = omega arith in
      rw e (ground (arith, get_elem?-replicate (suc n) j v))
  get_elem?-resize_vec (x ∷ xs) zero j v =
      let e : 0 - suc (length xs) ≡ 0 = omega arith in
      rw e (ground (arith, get_elem?-replicate 0 j v))
  get_elem?-resize_vec (x ∷ xs) (suc n) zero v = ground arith
  get_elem?-resize_vec (x ∷ xs) (suc n) (suc j) v =
      let e : suc n - suc (length xs) ≡ n - length xs = omega arith in
      rw e (ground (arith, get_elem?-resize_vec xs n j v))

  pub length-resize_vec : (xs : List A) (n : ℕ) (v : A) → length (resize_vec xs n v) ≡ n
  unfolding resize_vec
  length-resize_vec xs n v = omega (
    arith,
    length-append (take n xs) (replicate (n - length xs) v),
    length-take n xs,
    length-replicate (n - length xs) v,
  )

module _ (self : MerkleLeaves) (index : ℕ) (hash : Sha256Hash) (size : ℕ) where
  grown : List Sha256Hash
  grown =
      if ltb (length self.leaves) (index + 1)
      then resize_vec self.leaves (index + 1) hash_of_4096_zeros
      else self.leaves

  length-grown : length grown ≡ max (length self.leaves) (index + 1)
  unfolding grown
  length-grown = elim (Bool-cases (ltb (length self.leaves) (index + 1))) [
    | inl short ↦
        rw short (length-resize_vec self.leaves (index + 1) hash_of_4096_zeros ∙ omega tests)
    | inr long ↦ rw long (omega tests)
  ]

  get_elem?-grown :
      (j : ℕ)
      → get_elem? grown j ≡ (
          if ltb j (length self.leaves)
          then get_elem? self.leaves j
          else if leb j index
          then some hash_of_4096_zeros
          else none)
  unfolding grown
  get_elem?-grown j = elim (Bool-cases (ltb (length self.leaves) (index + 1))) [
    | inl short ↦
        rw short (ground (arith, get_elem?-resize_vec self.leaves (index + 1) j hash_of_4096_zeros))
    | inr long ↦ rw long (ground (arith, get_elem?-ge self.leaves j))
  ]

  leaves-update_hash : (update_hash self index hash size).leaves ≡ set grown index hash
  unfolding update_hash grown
  leaves-update_hash = refl

  pub length-update_hash :
      length (update_hash self index hash size).leaves ≡ max (length self.leaves) (index + 1)
  unfolding update_hash grown
  length-update_hash = length-set grown index hash ∙ length-grown

  -- The leaf at `index` is the hash; a leaf that is filled in below it is that of zeros; the other
  -- leaves stay.
  pub get_elem?-update_hash :
      (j : ℕ)
      → get_elem? (update_hash self index hash size).leaves j ≡ (
          if j == index
          then some hash
          else if ltb j (length self.leaves)
          then get_elem? self.leaves j
          else if ltb j index
          then some hash_of_4096_zeros
          else none)
  get_elem?-update_hash j = elim (Bool-cases (j == index)) [
    | inl here ↦
        let e : j ≡ index = omega tests in
        rw (here, leaves-update_hash, e)
          (get_elem?-set_self grown index hash (omega (arith, length-grown)))
    | inr away ↦
        rw (away, leaves-update_hash)
          (get_elem?-set_ne grown index j hash (omega tests) ∙ (get_elem?-grown j ∙ ground arith))
  ]

  pub file_size-update_hash : (update_hash self index hash size).file_size ≡ max self.file_size size
  unfolding update_hash
  file_size-update_hash = ground arith
