-- ===== src/Fsverity/Verifier/Complete.antt =====
-- What fsverity/verifier.rs accepts: the chunks of a file whose Merkle tree is its own.
use mathlib.Core.List.{append-nil}
use android_packages_modules.Common.{
  ℕ, zero, suc, ◌*◌, ◌/◌, ◌^◌, ◌≤◌, ◌<◌, ◌≡◌, refl, sym, ap, ◌∙◌, inl, inr, some, List, [], ◌∷◌, ok,
  arith, leb, ltb, ◌==◌, true, false, bytes_eq_refl, Bool-cases, tests, length, get_elem?, take,
  replicate, All, get_elem?-below, map-eq-single, length-take,
}
use android_packages_modules.Chunks.{chunk_size}
use android_packages_modules.Chunks.Cuts.{divide_roundup_lem}
use android_packages_modules.Crypto.{Sha256Ffi, Sha256Hash, hash_parts}
use android_packages_modules.Crypto.Digest.{IsSha256, hash_parts_lem}
use android_packages_modules.File.{ReadByChunk}
use android_packages_modules.Fsverity.{merkle_tree_height, log128_ceil}
use android_packages_modules.Fsverity.Height.{pages_iter, merkle_tree_height_lem}
use android_packages_modules.Fsverity.Merkle.{chunks, hash_per_page}
use android_packages_modules.Fsverity.Merkle.Root.{page_digest}
use android_packages_modules.Fsverity.Merkle.Levels.{
  page_bytes, HasHashSize, level, tree_pages, tree_pages_first,
}
use android_packages_modules.Fsverity.Verifier.{
  Authenticator, VerifiedFileReader, leaves_size_per_node, verity_check, fsverity_walk,
  build_fsverity_formatted_digest, new, read_chunk, check_chunk,
}
use android_packages_modules.Fsverity.Verifier.Binding.{padded}
use android_packages_modules.Fsverity.Verifier.Positions.{chunk_count}
use android_packages_modules.Fsverity.Verifier.Honest.{Stores, hash_with_padding_lem, climb}

-- The height depends on the number of chunks only.
pub height_chunks :
    (n : ℕ) → n ≤ 2 ^ 61 → merkle_tree_height n ≡ merkle_tree_height (chunk_count n * chunk_size)
unfolding merkle_tree_height
height_chunks n h =
    let count = chunk_count n in
    let e =
      divide_roundup_lem (count * chunk_size) (4096 / 32 * 4096) (omega arith) (omega arith) in
    let f = divide_roundup_lem n (4096 / 32 * 4096) (omega arith) (omega arith) in
    ap log128_ceil (f ∙ (omega arith ∙ sym e))

-- The tree of a file of up to 2 ^ 61 bytes has at most seven levels, and one root.
pub height_lem :
    (n : ℕ)
    → 0 < n
    → n ≤ 2 ^ 61
    → (max_level : ℕ) × (merkle_tree_height n ≡ some max_level)
      × (pages_iter (suc max_level) (chunk_count n) ≡ 1)
      × (max_level < 7)
unfolding pages_iter
height_lem n p h =
    let (top, e, one, more) = merkle_tree_height_lem (chunk_count n) (omega arith) (omega arith) in
    let few : top < 7 = elim (Bool-cases (ltb top 7)) [
      | inl below ↦ omega tests
      | inr above ↦ absurd (omega (tests, more 6 (omega tests)))
    ] in
    (top, height_chunks n h ∙ e, one, few)

pub height-lt :
    (n max_level : ℕ) → 0 < n → n ≤ 2 ^ 61 → merkle_tree_height n ≡ some max_level → max_level < 7
height-lt n max_level p small height =
    let (level, same, _, low) = height_lem n p small in
    let e : level ≡ max_level = let f = sym same ∙ height in cc f in omega (arith, low, e)

-- The divisors of seven levels do not wrap to 0.
node_size_positive : (x : ℕ) → x < 7 → (leaves_size_per_node x == 0) ≡ false
unfolding leaves_size_per_node
node_size_positive zero h = refl
node_size_positive (suc zero) h = refl
node_size_positive (suc (suc zero)) h = refl
node_size_positive (suc (suc (suc zero))) h = refl
node_size_positive (suc (suc (suc (suc zero)))) h = refl
node_size_positive (suc (suc (suc (suc (suc zero))))) h = refl
node_size_positive (suc (suc (suc (suc (suc (suc zero)))))) h = refl
node_size_positive (suc (suc (suc (suc (suc (suc (suc x))))))) h = absurd (omega arith)

-- The tree of a file of `file_size` bytes over the hashes `leaves` of its chunks: its height, the
-- hash that is left at the top, and its pages from the root's down, as the chunks of `tree`.
pub record IsTreeOf (digest : List ℕ → List ℕ) {M : Type 0} (rd : ReadByChunk M) (tree : M)
    (leaves : List Sha256Hash) (root : Sha256Hash) (file_size : ℕ) : Type 0 where
  pub count_lem : length leaves ≡ chunk_count file_size
  pub sizes : All HasHashSize leaves
  pub max_level : ℕ
  pub height : merkle_tree_height file_size ≡ some max_level
  pub top : level digest (suc max_level) leaves ≡ root ∷ []
  pub stored : Stores rd tree (tree_pages digest max_level leaves) 0

only : {A : Type 0} (xs : List A) (i : ℕ) (x y : A) → xs ≡ x ∷ [] → get_elem? xs i ≡ some y → y ≡ x
only xs zero x y e at = let f : some x ≡ some y = ap (λ l. get_elem? l 0) (sym e) ∙ at in cc f
only xs (suc i) x y e at = absurd (cc (ap (λ l. get_elem? l (suc i)) (sym e) ∙ at))

module _ {Ctx : Type 0} {ffi : Sha256Ffi Ctx} {digest : List ℕ → List ℕ} (sha : IsSha256 ffi digest)
    {M : Type 0} (rd : ReadByChunk M) (tree : M) (leaves : List Sha256Hash) (root : Sha256Hash)
    (file_size : ℕ) (own : IsTreeOf digest rd tree leaves root file_size) (p : 0 < file_size)
    (small : file_size ≤ 2 ^ 61) where
  -- A chunk of the file passes the check, against the root of the tree.
  verity_check-ok :
      (chunk : List ℕ) (index : ℕ)
      → length chunk ≤ chunk_size
      → get_elem? leaves index ≡ some (digest (padded chunk))
      → verity_check ffi rd tree chunk index file_size ≡ ok root
  unfolding verity_check fsverity_walk
  verity_check-ok chunk index fits at =
      let low = height-lt file_size own.max_level p small own.height in
      let index_below : index ≤ 2 ^ 49 =
        omega (arith, get_elem?-below leaves index _ at, own.count_lem) in
      let (up, steps, above) =
        climb sha rd tree leaves own.sizes file_size small own.count_lem index index_below
          own.max_level 0 (digest (padded chunk)) low (omega (arith, low)) own.stored at in
      let more : (file_size == 0) ≡ false = ground arith in
      rw
        (
          more,
          hash_with_padding_lem sha chunk fits,
          own.height,
          node_size_positive own.max_level low,
          steps,
        )
        (ap (λ z. ok z) (only _ _ root up own.top above))

  -- The page that the reader hashes when it is made.
  root_page :
      (page : List Sha256Hash) × (rd.read_chunk tree 0 (replicate chunk_size 0)
        ≡ ok (chunk_size, page_bytes page))
      × (digest (page_bytes page) ≡ root)
  unfolding level
  root_page =
      let pages = chunks hash_per_page (level digest own.max_level leaves) in
      let (page, one, e) = map-eq-single (page_digest digest) pages root own.top in
      let first : get_elem? pages 0 ≡ some page = ap (λ z. get_elem? z 0) one in
      (page, own.stored 0 page (tree_pages_first digest own.max_level leaves page first), e)

  module _ {F : Type 0} (file_rd : ReadByChunk F) where
    -- For a file of 1 to 2 ^ 61 bytes whose Merkle tree is stored in full, from the root's page to the
    -- leaves' pages, and whose signature is valid for the tree's root, the reader is made, and a read
    -- of a chunk whose hash is the leaf of its index succeeds with what the file returned.
    pub read_chunk-serves :
        (verify : Authenticator) (chunked_file : F) (sig formatted_digest : List ℕ) (index size : ℕ)
        (buf bytes : List ℕ)
        → build_fsverity_formatted_digest ffi root file_size ≡ ok formatted_digest
        → verify sig formatted_digest ≡ ok true
        → file_rd.read_chunk chunked_file index buf ≡ ok (size, bytes)
        → size ≤ length bytes
        → size ≤ chunk_size
        → get_elem? leaves index ≡ some (digest (padded (take size bytes)))
        → (self : VerifiedFileReader F M) × (new ffi file_rd rd verify chunked_file file_size sig
              tree
            ≡ ok self)
          × (read_chunk ffi file_rd rd self index buf ≡ ok (size, bytes))
    unfolding new read_chunk check_chunk
    read_chunk-serves verify chunked_file sig formatted index size buf bytes f v read fits chunk
          at =
        let (page, first, e) = root_page in
        let self : VerifiedFileReader F M = record {
          chunked_file = chunked_file;
          file_size = file_size;
          merkle_tree = tree;
          root_hash = root;
        } in
        let hashed : hash_parts ffi (page_bytes page ∷ []) ≡ ok root =
          hash_parts_lem sha (page_bytes page ∷ [])
          ∙ ap (λ z. ok z) (ap digest (append-nil (page_bytes page)) ∙ e) in
        let short : length (take size bytes) ≤ chunk_size = omega (arith, length-take size bytes) in
        let passes = verity_check-ok (take size bytes) index short at in
        let whole : leb size (length bytes) ≡ true = ground arith in
        (self, rw (first, hashed, f, v) refl, rw (read, whole, passes, bytes_eq_refl root) refl)
