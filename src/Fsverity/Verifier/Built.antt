-- ===== src/Fsverity/Verifier/Built.antt =====
-- The root hash of fsverity/builder.rs and the one that fsverity/verifier.rs checks against.
use mathlib.Core.Path.{subst}
use android_packages_modules.Common.{
  ℕ, suc, ◌*◌, ◌%◌, ◌^◌, ◌≤◌, ◌<◌, ◌≡◌, refl, sym, ap, ◌∙◌, inl, inr, ◌⊎◌, some, List, [], ◌∷◌, ok,
  >>=-eq-ok, eq-ok_unique, map_err-eq-ok, map_err, arith, length, take, replicate,
}
use android_packages_modules.Chunks.{chunk_size, u64_mod, divide_roundup}
use android_packages_modules.Crypto.{Sha256Ffi, Sha256Hash, hash_size}
use android_packages_modules.Crypto.Digest.{IsSha256, Collision, same_or_Collision}
use android_packages_modules.File.{ReadByChunk}
use android_packages_modules.Fsverity.{
  io, merkle_tree_height, log128_ceil, leading_zeros, bit_length,
}
use android_packages_modules.Fsverity.Merkle.{
  MerkleLeaves, single_hash, root_of_leaves, root_hash_of, calculate_root_hash,
}
use android_packages_modules.Fsverity.Merkle.Root.{next_level, hash_all_pages_lem}
use android_packages_modules.Fsverity.Merkle.Levels.{level, level_next, fold_pages-level}
use android_packages_modules.Fsverity.Verifier.{
  fsverity_walk, leaves_size_per_node, check_steps, check_node, verity_check, root_to_leaf_steps,
}
use android_packages_modules.Fsverity.Verifier.Binding.{
  KeepsLength, padded, padded_full, verity_check-eq-ok, check_node-eq-ok,
}
use android_packages_modules.Fsverity.Verifier.Positions.{chunk_count, level_position_lem}
use android_packages_modules.Fsverity.Verifier.Complete.{height_chunks}

height_of_chunk : merkle_tree_height chunk_size ≡ some 0
unfolding merkle_tree_height log128_ceil leading_zeros bit_length divide_roundup
height_of_chunk = refl

module _ {Ctx : Type 0} {ffi : Sha256Ffi Ctx} {digest : List ℕ → List ℕ}
    (sha : IsSha256 ffi digest) where
  single_hash-eq-ok :
      (xs : List Sha256Hash) (root : Sha256Hash) → single_hash ffi xs ≡ ok root → xs ≡ root ∷ []
  unfolding single_hash
  single_hash-eq-ok [] root h = absurd (cc h)
  single_hash-eq-ok (x ∷ []) root h = let e : x ≡ root = cc h in cc e
  single_hash-eq-ok (x ∷ y ∷ xs) root h = absurd (cc h)

  root_hash_of-root_of_leaves :
      (leaves : List Sha256Hash)
      → 1 < length leaves
      → root_hash_of ffi leaves ≡ root_of_leaves ffi leaves
  unfolding root_hash_of
  root_hash_of-root_of_leaves [] h = absurd (omega arith)
  root_hash_of-root_of_leaves (x ∷ []) h = absurd (omega arith)
  root_hash_of-root_of_leaves (x ∷ y ∷ xs) h = refl

  root_of_leaves-top :
      (leaves : List Sha256Hash) (root : Sha256Hash) (file_size max_level : ℕ)
      → file_size ≤ 2 ^ 61
      → length leaves ≡ chunk_count file_size
      → merkle_tree_height file_size ≡ some max_level
      → root_of_leaves ffi leaves ≡ ok root
      → level digest (suc max_level) leaves ≡ root ∷ []
  unfolding root_of_leaves
  root_of_leaves-top leaves root file_size max_level small count height h =
      let w : length leaves * chunk_size % u64_mod ≡ chunk_count file_size * chunk_size =
        omega (arith, count) in
      let tall : merkle_tree_height (length leaves * chunk_size % u64_mod) ≡ some max_level =
        ap merkle_tree_height w ∙ (sym (height_chunks file_size small) ∙ height) in
      let second = hash_all_pages_lem sha leaves in
      let pages =
        fold_pages-level sha max_level (next_level digest leaves)
        ∙ ap (λ z. ok z) (level_next digest max_level leaves) in
      let hashes = level digest (suc max_level) leaves in
      let one : root_of_leaves ffi leaves ≡ single_hash ffi hashes =
        rw (tall, second, pages) refl in
      single_hash-eq-ok hashes root (sym one ∙ h)

  -- For a file of at least two chunks and at most 2 ^ 61 bytes, the root hash that the builder computes
  -- from the leaves is the one hash at the top of the tree that the reader checks against.
  pub calculate_root_hash-top :
      (self : MerkleLeaves) (root : Sha256Hash) (file_size max_level : ℕ)
      → 1 < length self.leaves
      → file_size ≤ 2 ^ 61
      → length self.leaves ≡ chunk_count file_size
      → merkle_tree_height file_size ≡ some max_level
      → calculate_root_hash ffi self ≡ ok root
      → level digest (suc max_level) self.leaves ≡ root ∷ []
  unfolding calculate_root_hash
  calculate_root_hash-top self root file_size max_level many small count height h =
      root_of_leaves-top self.leaves root file_size max_level small count height
        (sym (root_hash_of-root_of_leaves self.leaves many) ∙ h)

  walk_of_one_chunk :
      (file_size : ℕ)
      → 0 < file_size
      → file_size ≤ chunk_size
      → fsverity_walk 0 file_size ≡ ok ((0, 0) ∷ [])
  unfolding fsverity_walk root_to_leaf_steps leaves_size_per_node
  walk_of_one_chunk file_size p h =
      let n : chunk_count file_size ≡ 1 = omega arith in
      let e =
        height_chunks file_size (omega arith)
        ∙ (ap (λ k. merkle_tree_height (k * chunk_size)) n ∙ height_of_chunk) in
      let position = level_position_lem 0 file_size 0 (omega arith) (omega arith) (omega arith) in
      rw (e, position) refl

  -- Against the root hash that the builder computes for a file of at most one chunk, which is the hash
  -- of the chunk, the reader's check passes, with whatever Merkle tree, only if the chunk begins with
  -- its own SHA-256 digest; or a SHA-256 collision is at hand.
  pub one_chunk_refused :
      {M : Type 0} (rd : ReadByChunk M) (tree : M) (self : MerkleLeaves) (root : Sha256Hash)
      (chunk : List ℕ) (file_size : ℕ)
      → KeepsLength rd
      → 0 < file_size
      → file_size ≤ chunk_size
      → self.leaves ≡ digest (padded chunk) ∷ []
      → calculate_root_hash ffi self ≡ ok root
      → verity_check ffi rd tree chunk 0 file_size ≡ ok root
      → (take hash_size (padded chunk) ≡ digest (padded chunk)) ⊎ Collision digest
  unfolding calculate_root_hash root_hash_of check_steps
  one_chunk_refused rd tree self root chunk file_size keeps p h one built checked =
      let (steps, walk, run) = verity_check-eq-ok sha rd tree chunk 0 file_size root checked in
      let hash = digest (padded chunk) in
      let same = eq-ok_unique (fsverity_walk 0 file_size) walk (walk_of_one_chunk file_size p h) in
      let leaf : root_hash_of ffi (hash ∷ []) ≡ ok root = ap (root_hash_of ffi) (sym one) ∙ built in
      let own : hash ≡ root = cc leaf in
      let run' = subst (λ z. check_steps ffi rd tree z hash ≡ ok root) same run in
      let zeros : List ℕ = replicate chunk_size 0 in
      let (node, read, step) = >>=-eq-ok (map_err io (rd.read_chunk tree 0 zeros)) _ run' in
      let (up, node_ok, last) = >>=-eq-ok (check_node ffi rd tree 0 hash node) _ step in
      let (holds, hashed) = check_node-eq-ok sha rd 0 hash up node.0 node.1 tree node_ok in
      let n =
        keeps.keeps tree 0 node.0 node.1 (map_err-eq-ok io (rd.read_chunk tree 0 zeros) read) in
      let full = padded_full node.1 n in
      let top : up ≡ root = cc last in
      let e : hash ≡ digest node.1 = own ∙ (sym top ∙ (hashed ∙ ap digest full)) in
      elim (same_or_Collision digest (padded chunk) node.1 e) [
        | inl equal ↦ inl (ap (take hash_size) equal ∙ sym holds)
        | inr collision ↦ inr collision
      ]
