-- ===== src/Fsverity/Merkle/Bytes.antt =====
-- The bytes of a Merkle tree, and the hashes of a file's chunks, as fsverity/verifier.rs finds them.
use mathlib.Core.List.{append-nil}
use native.Mathlib.Nat.{suc-mul}
use android_packages_modules.Common.{
  ℕ, zero, suc, ◌*◌, ◌/◌, ◌^◌, ◌≤◌, ◌<◌, ◌≡◌, refl, sym, ap, ◌∙◌, some, List, [], ◌∷◌, ◌++◌, map,
  arith, length, get_elem?, take, drop, All, All-take, All-drop, All-map, length-append, length-map,
  length-take, get_elem?-map,
}
use android_packages_modules.Chunks.{chunk_size}
use android_packages_modules.Crypto.{Sha256Ffi, Sha256Hash}
use android_packages_modules.Crypto.Digest.{IsSha256, flatten}
use android_packages_modules.Fsverity.Height.{pages}
use android_packages_modules.Fsverity.Merkle.{chunks, chunks_fuel, hash_per_page}
use android_packages_modules.Fsverity.Merkle.Root.{length-chunks_fuel}
use android_packages_modules.Fsverity.Merkle.Levels.{
  page_bytes, HasHashSize, level, tree_pages, length-page_bytes, length-level, level-HasHashSize,
  get_elem?-chunks_fuel, slice-flatten,
}
use android_packages_modules.Fsverity.Verifier.Binding.{padded}
use android_packages_modules.Fsverity.Verifier.Positions.{chunk_count, pages_iter-le}

All-append : {A : Type 0} (P : A → Type 0) (xs ys : List A) → All P xs → All P ys → All P (xs ++ ys)
All-append P [] ys p q = q
All-append P (x ∷ xs) ys p q = (p.0, All-append P xs ys p.1 q)

All-of_map :
    (f : List Sha256Hash → List ℕ) (xs : List (List Sha256Hash))
    → All (λ x. length (f x) ≡ chunk_size) xs
    → All (λ p. length p ≡ chunk_size) (map f xs)
All-of_map f [] p = tt
All-of_map f (x ∷ xs) p = (p.0, All-of_map f xs p.1)

-- The length of parts of one size.
length-flatten-All :
    (n : ℕ) (parts : List (List ℕ))
    → All (λ p. length p ≡ n) parts
    → length (flatten parts) ≡ length parts * n
length-flatten-All n [] sizes = omega arith
length-flatten-All n (x ∷ parts) sizes = omega (
  arith,
  length-append x (flatten parts),
  length-flatten-All n parts sizes.1,
  sizes.0,
  suc-mul (length parts) n,
)

abbrev FullPage : List Sha256Hash → Type 0
FullPage page = length (page_bytes page) ≡ chunk_size

chunks_fuel-FullPage :
    (fuel size : ℕ) (hashes : List Sha256Hash)
    → size ≡ 128
    → All HasHashSize hashes
    → All FullPage (chunks_fuel fuel size hashes)
unfolding chunks_fuel
chunks_fuel-FullPage zero size hashes e sizes = tt
chunks_fuel-FullPage (suc fuel) size [] e sizes = tt
chunks_fuel-FullPage (suc fuel) size (x ∷ hashes) e sizes = (
  length-page_bytes (take size (x ∷ hashes)) (All-take HasHashSize size (x ∷ hashes) sizes)
      (omega (arith, length-take size (x ∷ hashes))),
  chunks_fuel-FullPage fuel size (drop size (x ∷ hashes)) e
      (All-drop HasHashSize size (x ∷ hashes) sizes),
)

module _ (digest : List ℕ → List ℕ) where
  -- The hashes of the chunks of a file.
  abbrev pub chunk_hashes : List ℕ → List Sha256Hash
  chunk_hashes content = map (λ chunk. digest (padded chunk)) (chunks chunk_size content)

  -- The tree that is stored for a file.
  abbrev pub tree_bytes : ℕ → List Sha256Hash → List ℕ
  tree_bytes max_level leaves = flatten (map page_bytes (tree_pages digest max_level leaves))

  pub length-chunk_hashes :
      (content : List ℕ) → length (chunk_hashes content) ≡ chunk_count (length content)
  length-chunk_hashes content =
      length-map (λ chunk. digest (padded chunk)) (chunks chunk_size content)
      ∙ (length-chunks_fuel (length content) chunk_size content (omega arith) (omega arith)
          ∙ ap (λ n. n / chunk_size) (omega arith))

  pub get_elem?-chunk_hashes :
      (content : List ℕ) (index : ℕ)
      → index * chunk_size < length content
      → get_elem? (chunk_hashes content) index
        ≡ some (digest (padded (take chunk_size (drop (index * chunk_size) content))))
  get_elem?-chunk_hashes content index h =
      get_elem?-map (λ chunk. digest (padded chunk)) (chunks chunk_size content) index _
        (get_elem?-chunks_fuel index (length content) chunk_size content (omega arith) (omega arith)
          h)

  length-chunks :
      (hashes : List Sha256Hash) → length (chunks hash_per_page hashes) ≡ pages (length hashes)
  length-chunks hashes =
      length-chunks_fuel (length hashes) hash_per_page hashes (omega arith) (omega arith)
      ∙ ap (λ n. n / hash_per_page) (omega arith)

  -- A bound on the size of the tree, for files of up to 2 ^ 61 bytes.
  pub length-tree_pages-le :
      (x : ℕ) (leaves : List Sha256Hash)
      → length leaves ≤ 2 ^ 49
      → length (tree_pages digest x leaves) ≤ suc x * 2 ^ 43
  unfolding tree_pages
  length-tree_pages-le zero leaves h = omega (arith, length-chunks leaves)
  length-tree_pages-le (suc x) leaves h =
      let hashes = level digest (suc x) leaves in
      omega (
        arith,
        length-append (chunks hash_per_page hashes) (tree_pages digest x leaves),
        length-chunks hashes,
        length-level digest (suc x) leaves,
        pages_iter-le (suc x) (length leaves),
        length-tree_pages-le x leaves h,
      )

module _ {Ctx : Type 0} {ffi : Sha256Ffi Ctx} {digest : List ℕ → List ℕ}
    (sha : IsSha256 ffi digest) where
  pub chunk_hashes-HasHashSize : (content : List ℕ) → All HasHashSize (chunk_hashes digest content)
  chunk_hashes-HasHashSize content =
      All-map HasHashSize (λ chunk. digest (padded chunk)) (λ chunk. sha.length_lem _)
        (chunks chunk_size content)

  tree_pages-FullPage :
      (x : ℕ) (leaves : List Sha256Hash)
      → All HasHashSize leaves
      → All FullPage (tree_pages digest x leaves)
  unfolding tree_pages
  tree_pages-FullPage zero leaves sizes =
      chunks_fuel-FullPage (length leaves) hash_per_page leaves refl sizes
  tree_pages-FullPage (suc x) leaves sizes =
      let here = level digest (suc x) leaves in
      All-append FullPage (chunks hash_per_page here) (tree_pages digest x leaves)
        (chunks_fuel-FullPage (length here) hash_per_page here refl
          (level-HasHashSize sha (suc x) leaves sizes))
        (tree_pages-FullPage x leaves sizes)

  module _ (x : ℕ) (leaves : List Sha256Hash) (sizes : All HasHashSize leaves) where
    parts_full : All (λ p. length p ≡ chunk_size) (map page_bytes (tree_pages digest x leaves))
    parts_full =
        All-of_map page_bytes (tree_pages digest x leaves) (tree_pages-FullPage x leaves sizes)

    pub length-tree_bytes :
        length (tree_bytes digest x leaves) ≡ length (tree_pages digest x leaves) * chunk_size
    length-tree_bytes =
        length-flatten-All chunk_size (map page_bytes (tree_pages digest x leaves)) parts_full
        ∙ ap (λ n. n * chunk_size) (length-map page_bytes (tree_pages digest x leaves))

    -- The chunk of the tree that holds a page.
    pub slice-tree_bytes :
        (i : ℕ) (page : List Sha256Hash)
        → get_elem? (tree_pages digest x leaves) i ≡ some page
        → take chunk_size (drop (i * chunk_size) (tree_bytes digest x leaves)) ≡ page_bytes page
    slice-tree_bytes i page at =
        let parts = map page_bytes (tree_pages digest x leaves) in
        ap (λ t. take chunk_size (drop (i * chunk_size) (flatten t))) (sym (append-nil parts))
        ∙ slice-flatten chunk_size parts [] i (page_bytes page) parts_full
            (get_elem?-map page_bytes (tree_pages digest x leaves) i page at)
