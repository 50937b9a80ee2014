-- ===== src/Remote/Verified.antt =====
-- Reading a file that authfs/fd_server serves, with the checks of authfs/src/fsverity/verifier.rs.
use mathlib.Core.List.{append-nil}
use android_packages_modules.Common.{
  ℕ, zero, suc, ◌-◌, ◌+◌, ◌*◌, ◌^◌, ◌≤◌, ◌<◌, ◌≡◌, refl, sym, ap, ◌∙◌, min, some, List, [], ◌∷◌,
  ◌++◌, ok, true, length, take, drop, replicate, arith, length-take, length-drop, length-append,
  length-replicate, take-append_length, get_elem?-below,
}
use android_packages_modules.Chunks.{chunk_size}
use android_packages_modules.Crypto.{Sha256Ffi, Sha256Hash}
use android_packages_modules.Crypto.Digest.{IsSha256}
use android_packages_modules.FdServer.{HostFile, FdConfig, FdService, file_of}
use android_packages_modules.Fsverity.{merkle_tree_height}
use android_packages_modules.Fsverity.Merkle.Levels.{level, tree_pages}
use android_packages_modules.Fsverity.Merkle.Bytes.{
  chunk_hashes, tree_bytes, length-chunk_hashes, get_elem?-chunk_hashes, chunk_hashes-HasHashSize,
  length-tree_bytes, slice-tree_bytes, length-tree_pages-le,
}
use android_packages_modules.Fsverity.Verifier.{
  Authenticator, VerifiedFileReader, build_fsverity_formatted_digest, new, read_chunk,
}
use android_packages_modules.Fsverity.Verifier.Binding.{padded}
use android_packages_modules.Fsverity.Verifier.Honest.{Stores}
use android_packages_modules.Fsverity.Verifier.Complete.{IsTreeOf, read_chunk-serves, height-lt}
use android_packages_modules.Handles
use android_packages_modules.Remote.{read_tree_chunk, remote_file_reader, remote_merkle_tree_reader}
use android_packages_modules.Remote.Served.{IsFile, connected, remote_read_chunk-IsFile}
use android_packages_modules.Remote.Tree.{HasTree, read_tree_chunk-HasTree}

drop_all {ℓ} : {A : Type ℓ} (xs : List A) → drop (length xs) xs ≡ []
drop_all [] = refl
drop_all (x ∷ xs) = drop_all xs

take-min {ℓ} : {A : Type ℓ} (n : ℕ) (xs : List A) → take (min (length xs) n) xs ≡ take n xs
take-min zero xs = let e : min (length xs) 0 ≡ 0 = omega arith in ap (λ k. take k xs) e
take-min (suc n) [] = let e : min 0 (suc n) ≡ 0 = omega arith in ap (λ k. take k []) e
take-min (suc n) (x ∷ xs) =
    let e : min (suc (length xs)) (suc n) ≡ suc (min (length xs) n) = omega arith in
    ap (λ k. take k (x ∷ xs)) e ∙ ap (◌∷◌ x) (take-min n xs)

module _ {Ctx F : Type 0} {ffi : Sha256Ffi Ctx} {digest : List ℕ → List ℕ}
    (sha : IsSha256 ffi digest) (host : HostFile F) (fd_pool : FdService F) (id : ℕ)
    (config : FdConfig F) (content : List ℕ) (max_level : ℕ) (root : Sha256Hash)
    (at : Handles.get fd_pool id ≡ some config) (file : IsFile host (file_of host config) content)
    (tree : HasTree host config (tree_bytes digest max_level (chunk_hashes digest content)))
    (some_bytes : 0 < length content) (small : length content ≤ 2 ^ 61)
    (height : merkle_tree_height (length content) ≡ some max_level)
    (top : level digest (suc max_level) (chunk_hashes digest content) ≡ root ∷ []) where
  stored :
      Stores
        (remote_merkle_tree_reader (connected host id))
        fd_pool
        (tree_pages digest max_level (chunk_hashes digest content))
        0
  stored i page found =
      let leaves = chunk_hashes digest content in
      let sizes = chunk_hashes-HasHashSize sha content in
      let bytes = tree_bytes digest max_level leaves in
      let zeros : List ℕ = replicate chunk_size 0 in
      let start = drop (i * chunk_size) bytes in
      let first : 0 + i ≡ i = omega arith in
      let some_zeros = length-replicate {A = ℕ} chunk_size 0 in
      let place = get_elem?-below (tree_pages digest max_level leaves) i page found in
      let near : i * chunk_size < 2 ^ 63 = omega (
        arith,
        place,
        length-tree_pages-le digest max_level leaves
            (omega (arith, length-chunk_hashes digest content)),
        height-lt (length content) max_level some_bytes small height,
      ) in
      let whole : min (length bytes - i * chunk_size) (length zeros) ≡ chunk_size =
        omega (arith, length-tree_bytes sha max_level leaves sizes, place, some_zeros) in
      let none_left = ap (λ n. drop n zeros) (sym some_zeros) ∙ drop_all zeros in
      ap (λ n. read_tree_chunk (connected host id) fd_pool n zeros) first
      ∙ (read_tree_chunk-HasTree host fd_pool id config bytes i zeros at tree near
            (omega (arith, some_zeros))
          ∙ (ap (λ n. ok (n, take n start ++ drop n zeros)) whole
              ∙ ap (λ b. ok (chunk_size, b))
                  (ap (λ z. take chunk_size start ++ z) none_left
                    ∙ (append-nil (take chunk_size start)
                        ∙ slice-tree_bytes sha max_level leaves sizes i page found))))

  own :
      IsTreeOf digest
        (remote_merkle_tree_reader (connected host id))
        fd_pool
        (chunk_hashes digest content)
        root
        (length content)
  own = record {
    count_lem = length-chunk_hashes digest content;
    sizes = chunk_hashes-HasHashSize sha content;
    max_level = max_level;
    height = height;
    top = top;
    stored = stored;
  }

  -- For a file of 1 to 2 ^ 61 bytes that fd_server serves with its Merkle tree, from a file or from
  -- the kernel's metadata, and a valid signature of the tree's root, the reader of authfs is made, and
  -- a read of any chunk of the file succeeds with the bytes of the file in the chunk's range, and with
  -- zeros after the end of the file.
  pub read_chunk-served :
      (verify : Authenticator) (sig formatted_digest : List ℕ) (index : ℕ)
      → build_fsverity_formatted_digest ffi root (length content) ≡ ok formatted_digest
      → verify sig formatted_digest ≡ ok true
      → index * chunk_size < length content
      → let service = connected host id in
        let n = min (length content - index * chunk_size) chunk_size in
        (self : VerifiedFileReader (FdService F) (FdService F)) × (new ffi
            (remote_file_reader service)
            (remote_merkle_tree_reader service)
            verify
            fd_pool
            (length content)
            sig
            fd_pool
          ≡ ok self)
        × (read_chunk ffi
              (remote_file_reader service)
              (remote_merkle_tree_reader service)
              self
              index
              (replicate chunk_size 0)
            ≡ ok (n, take n (drop (index * chunk_size) content) ++ drop n (replicate chunk_size 0)))
  read_chunk-served verify sig formatted index f v inside =
      let service = connected host id in
      let zeros : List ℕ = replicate chunk_size 0 in
      let some_zeros = length-replicate {A = ℕ} chunk_size 0 in
      let start = drop (index * chunk_size) content in
      let n = min (length content - index * chunk_size) chunk_size in
      let bytes = take n start ++ drop n zeros in
      let read =
        remote_read_chunk-IsFile host fd_pool id config content index zeros at file (omega arith)
          (omega (arith, some_zeros))
        ∙ ap
            (λ m.
              let k = min (length content - index * chunk_size) m in
              ok (k, take k start ++ drop k zeros))
            some_zeros in
      let count : length (take n start) ≡ n =
        omega (arith, length-take n start, length-drop (index * chunk_size) content) in
      let chunk : take n bytes ≡ take chunk_size start =
        ap (λ k. take k bytes) (sym count)
        ∙ (take-append_length (take n start) (drop n zeros)
            ∙ (ap (λ k. take (min k chunk_size) start)
                  (sym (length-drop (index * chunk_size) content))
                ∙ take-min chunk_size start)) in
      read_chunk-serves sha (remote_merkle_tree_reader service) fd_pool
        (chunk_hashes digest content) root (length content) own some_bytes small
        (remote_file_reader service) verify fd_pool sig formatted index n zeros bytes f v read
        (omega (arith, length-append (take n start) (drop n zeros), count)) (omega arith)
        (get_elem?-chunk_hashes digest content index inside
          ∙ ap (λ c. some (digest (padded c))) (sym chunk))
