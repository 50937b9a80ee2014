-- ===== src/Fsverity/Editor/Tracks.antt =====
-- The tree of an editor tracks a content: each leaf is the digest of the content's chunk.
use mathlib.Core.List.{append-nil}
use android_packages_modules.Common.{
  ℕ, zero, suc, ◌+◌, ◌*◌, ◌/◌, ◌%◌, ◌≤◌, ◌≡◌, refl, sym, ap, ◌∙◌, inl, inr, ◌⊎◌, none, some, List,
  [], ◌∷◌, ◌++◌, true, arith, ltb, ◌==◌, Bool-cases, Option-cases, if◌then◌else◌, length, get_elem?,
  take, drop, replicate, tests, ok, err, >>=-eq-ok, map_err, bytes_eq→eq,
}
use android_packages_modules.Chunks.{chunk_size}
use android_packages_modules.Crypto.{Sha256Ffi, Sha256Hash, hash_of_4096_zeros, hash_parts}
use android_packages_modules.Crypto.Digest.{
  IsSha256, Collision, flatten, hash_parts_lem, same_or_Collision,
}
use android_packages_modules.File.{invalid_data, ReadByChunk, RandomWrite}
use android_packages_modules.Fsverity.Merkle.{
  MerkleLeaves, update_hash, is_index_valid, is_consistent,
}
use android_packages_modules.Fsverity.Merkle.Leaves.{get_elem?-update_hash, length-update_hash}
use android_packages_modules.Fsverity.Editor.{
  VerifiedFileEditor, io_of_crypto, read_chunk, verify_orig, read_back, orig_data,
  new_hash_for_incomplete_write, new_chunk_hash,
}
use android_packages_modules.Fsverity.Editor.Content.{
  Content, chunk_of, splice, chunk_of_zero, length-chunk_of,
}
use android_packages_modules.Fsverity.Editor.Content.Splice.{
  splice_after, chunk_of-splice, chunk_of-splice_ne,
}

pub record Tracks (digest : List ℕ → List ℕ) (f : Content) (tree : MerkleLeaves) : Type 0 where
  pub hashes :
      (k : ℕ) (hash : Sha256Hash)
      → get_elem? tree.leaves k ≡ some hash
      → hash ≡ digest (chunk_of f k)
  pub zeros : (i : ℕ) → length tree.leaves * chunk_size ≤ i → f i ≡ 0

pub drop_all {ℓ} : {A : Type ℓ} (n : ℕ) (xs : List A) → length xs ≤ n → drop n xs ≡ []
drop_all zero [] h = refl
drop_all (suc n) [] h = refl
drop_all zero (x ∷ xs) h = absurd (omega arith)
drop_all (suc n) (x ∷ xs) h = drop_all n xs (omega arith)

module _ {Ctx F : Type 0} {ffi : Sha256Ffi Ctx} {digest : List ℕ → List ℕ}
    (sha : IsSha256 ffi digest) (rd : ReadByChunk F) (wr : RandomWrite F) where
  -- A chunk past the leaves has the hash of zeros.
  pub hole-hash :
      (f : Content) (tree : MerkleLeaves) (k : ℕ)
      → Tracks digest f tree
      → length tree.leaves ≤ k
      → hash_of_4096_zeros ≡ digest (chunk_of f k)
  hole-hash f tree k t h =
      sym sha.zeros_lem ∙ ap digest (sym (chunk_of_zero f k (λ i lo. t.zeros i (omega arith))))

  leaf_after :
      (f : Content) (tree : MerkleLeaves) (offset : ℕ) (source : List ℕ) (hash : Sha256Hash) (k : ℕ)
      (leaf : Sha256Hash)
      → Tracks digest f tree
      → offset % chunk_size + length source ≤ chunk_size
      → hash ≡ digest (chunk_of (splice f offset source) (offset / chunk_size))
      → (if k == offset / chunk_size
          then some hash
          else if ltb k (length tree.leaves)
          then get_elem? tree.leaves k
          else if ltb k (offset / chunk_size)
          then some hash_of_4096_zeros
          else none)
        ≡ some leaf
      → leaf ≡ digest (chunk_of (splice f offset source) k)
  leaf_after f tree offset source hash k leaf t h e at =
      elim (Bool-cases (k == offset / chunk_size)) [
        | inl here ↦
            let same : k ≡ offset / chunk_size = omega tests in rw same (sym (ground arith) ∙ e)
        | inr away ↦
            let keep = ap digest (chunk_of-splice_ne f offset source k h (omega tests)) in
            elim (Bool-cases (ltb k (length tree.leaves))) [
              | inl old ↦ t.hashes k leaf (ground arith) ∙ sym keep
              | inr hole ↦
                  let zero_hash : leaf ≡ hash_of_4096_zeros = ground arith in
                  zero_hash ∙ (hole-hash f tree k t (omega tests) ∙ sym keep)
            ]
      ]

  -- A leaf that is set to the digest of the new chunk keeps the tree in step.
  pub update_hash-Tracks :
      (f : Content) (tree : MerkleLeaves) (offset : ℕ) (source : List ℕ) (hash : Sha256Hash)
      (size : ℕ)
      → Tracks digest f tree
      → offset % chunk_size + length source ≤ chunk_size
      → hash ≡ digest (chunk_of (splice f offset source) (offset / chunk_size))
      → Tracks digest (splice f offset source) (update_hash tree (offset / chunk_size) hash size)
  update_hash-Tracks f tree offset source hash size t h e = record {
    hashes = λ k leaf at.
        leaf_after f tree offset source hash k leaf t h e
          (sym (get_elem?-update_hash tree (offset / chunk_size) hash size k) ∙ at);
    zeros = λ i lo.
        let n = length-update_hash tree (offset / chunk_size) hash size in
        splice_after f offset source i (omega (arith, n)) ∙ t.zeros i (omega (arith, n));
  }

  hash_parts_one : (m : List ℕ) → hash_parts ffi (m ∷ []) ≡ ok (digest m)
  hash_parts_one m = hash_parts_lem sha (m ∷ []) ∙ ap (λ x. ok (digest x)) (append-nil m)

  verify_orig_lem :
      (self : VerifiedFileEditor F) (k : ℕ) (got : List ℕ)
      → verify_orig ffi rd wr self k got
        ≡ (if is_consistent self.merkle_tree k (digest got) then ok got else err invalid_data)
  unfolding verify_orig
  verify_orig_lem self k got = rw (hash_parts_one got) (ground arith)

  consistent_leaf :
      (tree : MerkleLeaves) (k : ℕ) (hash : Sha256Hash)
      → is_consistent tree k hash ≡ true
      → get_elem? tree.leaves k ≡ some hash
  unfolding is_consistent
  consistent_leaf tree k hash h = elim (Option-cases (get_elem? tree.leaves k)) [
    | inl missing ↦ ground arith
    | inr (leaf, e) ↦ e ∙ ap some (bytes_eq→eq leaf hash (ground arith))
  ]

  -- Data that passes the check is the chunk's, or a collision.
  verify_orig-chunk :
      (f : Content) (self : VerifiedFileEditor F) (k : ℕ) (got orig : List ℕ)
      → Tracks digest f self.merkle_tree
      → verify_orig ffi rd wr self k got ≡ ok orig
      → (orig ≡ chunk_of f k) ⊎ Collision digest
  verify_orig-chunk f self k got orig t h =
      let e = sym (verify_orig_lem self k got) ∙ h in
      elim (Bool-cases (is_consistent self.merkle_tree k (digest got))) [
        | inl good ↦
            let same : got ≡ orig = ground arith in
            let leaf =
              t.hashes k (digest got) (consistent_leaf self.merkle_tree k (digest got) good) in
            rw (← same) (same_or_Collision digest got (chunk_of f k) leaf)
        | inr bad ↦ inl (ground arith)
      ]

  read_back-chunk :
      (f : Content) (self : VerifiedFileEditor F) (k : ℕ) (orig : List ℕ)
      → Tracks digest f self.merkle_tree
      → read_back ffi rd wr self k ≡ ok orig
      → (orig ≡ chunk_of f k) ⊎ Collision digest
  unfolding read_back
  read_back-chunk f self k orig t h =
      let (r, _, e) = >>=-eq-ok (read_chunk ffi rd wr self k (replicate chunk_size 0)) _ h in
      verify_orig-chunk f self k r.1 orig t e

  orig_data-chunk :
      (f : Content) (self : VerifiedFileEditor F) (k : ℕ) (orig : List ℕ)
      → Tracks digest f self.merkle_tree
      → orig_data ffi rd wr self k ≡ ok orig
      → (orig ≡ chunk_of f k) ⊎ Collision digest
  unfolding orig_data is_index_valid
  orig_data-chunk f self k orig t h = elim (Bool-cases (ltb k (length self.merkle_tree.leaves))) [
    | inl old ↦
        let e : read_back ffi rd wr self k ≡ ok orig = ground arith in
        read_back-chunk f self k orig t e
    | inr hole ↦
        let e : replicate chunk_size 0 ≡ orig = ground arith in
        inl (sym e ∙ sym (chunk_of_zero f k (λ i lo. t.zeros i (omega tests))))
  ]

  pub hash_of_parts :
      (parts : List (List ℕ)) (hash : Sha256Hash)
      → map_err io_of_crypto (hash_parts ffi parts) ≡ ok hash
      → digest (flatten parts) ≡ hash
  hash_of_parts parts hash h =
      let e : ok (digest (flatten parts)) ≡ ok hash =
        sym (ap (map_err io_of_crypto) (hash_parts_lem sha parts)) ∙ h in
      cc

  new_hash_for_incomplete_write-digest :
      (f : Content) (self : VerifiedFileEditor F) (offset : ℕ) (source : List ℕ) (hash : Sha256Hash)
      → Tracks digest f self.merkle_tree
      → offset % chunk_size + length source ≤ chunk_size
      → new_hash_for_incomplete_write ffi rd wr self source
          (offset % chunk_size)
          (offset / chunk_size)
        ≡ ok hash
      → (hash ≡ digest (chunk_of (splice f offset source) (offset / chunk_size))) ⊎ Collision digest
  unfolding new_hash_for_incomplete_write
  new_hash_for_incomplete_write-digest f self offset source hash t h e =
      let k = offset / chunk_size in
      let off = offset % chunk_size in
      let (orig, from, rest) = >>=-eq-ok (orig_data ffi rd wr self k) _ e in
      let parts = take off orig ∷ source ∷ drop (off + length source) orig ∷ [] in
      let value = hash_of_parts parts hash rest in
      let spliced =
        ap (λ d. take off orig ++ (source ++ d)) (append-nil (drop (off + length source) orig)) in
      elim (orig_data-chunk f self k orig t from) [
        | inl chunk ↦
            let new : take off orig ++ (source ++ drop (off + length source) orig)
                ≡ chunk_of (splice f offset source) k =
              ap (λ o. take off o ++ (source ++ drop (off + length source) o)) chunk
              ∙ sym (chunk_of-splice f offset source h) in
            inl (sym value ∙ ap digest (spliced ∙ new))
        | inr collision ↦ inr collision
      ]

  -- The new hash of a chunk is the digest of the chunk after the write, whatever the storage
  -- returned, or a collision is at hand.
  pub new_chunk_hash-digest :
      (f : Content) (self : VerifiedFileEditor F) (offset : ℕ) (source : List ℕ) (hash : Sha256Hash)
      → Tracks digest f self.merkle_tree
      → offset % chunk_size + length source ≤ chunk_size
      → new_chunk_hash ffi rd wr self source
          (offset % chunk_size)
          (length source)
          (offset / chunk_size)
        ≡ ok hash
      → (hash ≡ digest (chunk_of (splice f offset source) (offset / chunk_size))) ⊎ Collision digest
  unfolding new_chunk_hash
  new_chunk_hash-digest f self offset source hash t h e =
      elim (Bool-cases (length source == chunk_size)) [
        | inl full ↦
            let old = chunk_of f (offset / chunk_size) in
            let none_before : offset % chunk_size ≡ 0 = omega tests in
            let none_after : drop (offset % chunk_size + length source) old ≡ [] =
              drop_all (offset % chunk_size + length source) old
                (omega (tests, length-chunk_of f (offset / chunk_size))) in
            let new : chunk_of (splice f offset source) (offset / chunk_size) ≡ source ++ [] =
              chunk_of-splice f offset source h
              ∙ cc (ap (λ n. take n old) none_before, none_after) in
            let value = hash_of_parts (source ∷ []) hash (ground arith) in
            inl (sym value ∙ ap digest (sym new))
        | inr part ↦
            new_hash_for_incomplete_write-digest f self offset source hash t h (ground arith)
      ]
