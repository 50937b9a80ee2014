-- ===== src/Fsverity/Editor/Cut.antt =====
-- The leaves that a resize of fsverity/editor.rs keeps.
use mathlib.Core.Path.{fun_ext, subst}
use android_packages_modules.Common.{
  ℕ, ◌+◌, ◌*◌, ◌/◌, ◌%◌, ◌^◌, ◌≤◌, ◌<◌, ◌≡◌, sym, ap, ◌∙◌, inl, inr, ◌&&◌, none, some, List, arith,
  ltb, ◌==◌, false, Bool-cases, if◌then◌else◌, tests, length, get_elem?,
}
use android_packages_modules.Chunks.{chunk_size, divide_roundup}
use android_packages_modules.Chunks.Cuts.{divide_roundup_lem}
use android_packages_modules.Crypto.{Sha256Ffi, Sha256Hash, hash_of_4096_zeros}
use android_packages_modules.Crypto.Digest.{IsSha256}
use android_packages_modules.File.{ReadByChunk, RandomWrite}
use android_packages_modules.Fsverity.Merkle.{MerkleLeaves, update_hash}
use android_packages_modules.Fsverity.Merkle
use android_packages_modules.Fsverity.Merkle.Leaves.{
  get_elem?-resize_vec, length-resize_vec, get_elem?-update_hash, length-update_hash,
}
use android_packages_modules.Fsverity.Editor.Content.{Content, chunk_of, chunk_of_zero}
use android_packages_modules.Fsverity.Editor.Content.Truncate.{
  truncate, truncate_past, chunk_of-truncate_full, truncate_id,
}
use android_packages_modules.Fsverity.Editor.Tracks.{Tracks, hole-hash}

-- The leaves that a resize to `size` keeps are right.
pub record TracksBelow (digest : List ℕ → List ℕ) (g : Content) (size : ℕ) (tree : MerkleLeaves)
    : Type 0 where
  pub hashes :
      (k : ℕ) (hash : Sha256Hash)
      → get_elem? tree.leaves k ≡ some hash
      → k * chunk_size < size
      → hash ≡ digest (chunk_of g k)
  pub zeros : (i : ℕ) → length tree.leaves * chunk_size ≤ i → g i ≡ 0

pub leaves_size : (size : ℕ) → size < 2 ^ 63 → divide_roundup size chunk_size ≡ (size + 4095) / 4096
leaves_size size h =
    divide_roundup_lem size chunk_size (omega arith) (omega arith)
    ∙ ap (λ t. t / 4096) (omega arith)

module _ {Ctx F : Type 0} {ffi : Sha256Ffi Ctx} {digest : List ℕ → List ℕ}
    (sha : IsSha256 ffi digest) (rd : ReadByChunk F) (wr : RandomWrite F) where
  pub resize-Tracks_tree :
      (g : Content) (size : ℕ) (tree : MerkleLeaves)
      → size < 2 ^ 63
      → ((i : ℕ) → size ≤ i → g i ≡ 0)
      → TracksBelow digest g size tree
      → Tracks digest g (Merkle.resize tree size)
  unfolding Merkle.resize
  resize-Tracks_tree g size tree h past t = record {
    hashes = λ k hash at. leaf k hash (
        sym (get_elem?-resize_vec tree.leaves (divide_roundup size chunk_size) k hash_of_4096_zeros)
        ∙ at);
    zeros = λ i lo. past i (
        omega (
          arith,
          leaves_size size h,
          length-resize_vec tree.leaves (divide_roundup size chunk_size) hash_of_4096_zeros,
        ));
  }
    where
      leaf :
          (k : ℕ) (hash : Sha256Hash)
          → (if ltb k (divide_roundup size chunk_size)
              then (if ltb k (length tree.leaves)
                  then get_elem? tree.leaves k
                  else some hash_of_4096_zeros)
              else none)
            ≡ some hash
          → hash ≡ digest (chunk_of g k)
      leaf k hash at = elim (Bool-cases (ltb k (divide_roundup size chunk_size))) [
        | inl inside ↦ elim (Bool-cases (ltb k (length tree.leaves))) [
          | inl old ↦ t.hashes k hash (ground arith) (omega (tests, leaves_size size h))
          | inr hole ↦
              let e : hash ≡ hash_of_4096_zeros = ground arith in
              e
              ∙ (sym sha.zeros_lem
                  ∙ ap digest (sym (chunk_of_zero g k (λ i lo. t.zeros i (omega tests)))))
        ]
        | inr outside ↦ ground arith
      ]

  -- A chunk that ends within the new size.
  pub full_leaf :
      (f : Content) (tree : MerkleLeaves) (size k : ℕ) (hash : Sha256Hash)
      → Tracks digest f tree
      → (k + 1) * chunk_size ≤ size
      → get_elem? tree.leaves k ≡ some hash
      → hash ≡ digest (chunk_of (truncate f size) k)
  full_leaf f tree size k hash t full at =
      t.hashes k hash at ∙ ap digest (sym (chunk_of-truncate_full f size k full))

  pub shrunk-TracksBelow :
      (f : Content) (tree : MerkleLeaves) (size : ℕ) (new_hash : Sha256Hash)
      → Tracks digest f tree
      → new_hash ≡ digest (chunk_of (truncate f size) (size / chunk_size))
      → TracksBelow digest
          (truncate f size)
          size
          (update_hash tree (size / chunk_size) new_hash size)
  shrunk-TracksBelow f tree size new_hash t e = record {
    hashes = λ k hash at below.
        leaf k hash (sym (get_elem?-update_hash tree (size / chunk_size) new_hash size k) ∙ at)
          below;
    zeros = λ i lo.
        truncate_past f size i
          (omega (arith, length-update_hash tree (size / chunk_size) new_hash size));
  }
    where
      leaf :
          (k : ℕ) (hash : Sha256Hash)
          → (if k == size / chunk_size
              then some new_hash
              else if ltb k (length tree.leaves)
              then get_elem? tree.leaves k
              else if ltb k (size / chunk_size)
              then some hash_of_4096_zeros
              else none)
            ≡ some hash
          → k * chunk_size < size
          → hash ≡ digest (chunk_of (truncate f size) k)
      leaf k hash at below = elim (Bool-cases (k == size / chunk_size)) [
        | inl tail ↦
            let same : k ≡ size / chunk_size = omega tests in rw same (sym (ground arith) ∙ e)
        | inr other ↦ elim (Bool-cases (ltb k (length tree.leaves))) [
          | inl old ↦ full_leaf f tree size k hash t (omega tests) (ground arith)
          | inr hole ↦
              let zero_hash : hash ≡ hash_of_4096_zeros = ground arith in
              zero_hash
              ∙ (hole-hash sha rd wr f tree k t (omega tests)
                  ∙ ap digest (sym (chunk_of-truncate_full f size k (omega tests))))
        ]
      ]

  pub kept-TracksBelow :
      (f : Content) (tree : MerkleLeaves) (size : ℕ)
      → Tracks digest f tree
      → ((i : ℕ) → tree.file_size ≤ i → f i ≡ 0)
      → (ltb size tree.file_size && ltb 0 (size % chunk_size)) ≡ false
      → TracksBelow digest (truncate f size) size tree
  kept-TracksBelow f tree size t past e = elim (Bool-cases (ltb size tree.file_size)) [
    | inl shrinks ↦
        let aligned : ltb 0 (size % chunk_size) ≡ false = ground arith in
        record {
          hashes = λ k hash at below. full_leaf f tree size k hash t (omega tests) at;
          zeros = λ i lo. cut i (t.zeros i lo);
        }
    | inr grows ↦
        let same : truncate f size ≡ f =
          fun_ext (truncate_id f tree.file_size size past (omega tests)) in
        subst (λ g. TracksBelow digest g size tree) (sym same)
          (record { hashes = λ k hash at below. t.hashes k hash at; zeros = t.zeros })
  ]
    where
      cut : (i : ℕ) → f i ≡ 0 → truncate f size i ≡ 0
      cut i z = unfold truncate in ground arith
