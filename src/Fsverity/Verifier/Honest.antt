-- ===== src/Fsverity/Verifier/Honest.antt =====
-- The checks of fsverity/verifier.rs on a Merkle tree that is the file's own.
use mathlib.Core.List.{append-nil, reverse, reverse-cons}
use mathlib.Core.Path.{transport}
use native.Mathlib.Nat.{div-div-eq-div-mul, pow-suc, div-le_self}
use android_packages_modules.Common.{
  ℕ, zero, suc, ◌+◌, ◌-◌, ◌*◌, ◌/◌, ◌%◌, ◌^◌, ◌≤◌, ◌<◌, ◌≡◌, refl, sym, ap, ◌∙◌, some, List, [],
  ◌∷◌, ◌++◌, ok, >>=-eq-ok, map_err, arith, leb, bytes_eq, bytes_eq_refl, true, length, get_elem?,
  take, drop, replicate, All, All-take, All-drop, length-take, get_elem?-append_left,
  get_elem?-append_right, get_elem?-below,
}
use android_packages_modules.Chunks.{chunk_size, u64_mod}
use android_packages_modules.Crypto.{Sha256Ffi, Sha256Hash}
use android_packages_modules.Crypto.Digest.{IsSha256, hash_parts_lem}
use android_packages_modules.File.{ReadByChunk}
use android_packages_modules.Fsverity.{io}
use android_packages_modules.Fsverity.Height.{pages, pages_iter}
use android_packages_modules.Fsverity.Merkle.{chunks, hash_per_page}
use android_packages_modules.Fsverity.Merkle.Root.{next_level, length-chunks_fuel}
use android_packages_modules.Fsverity.Merkle.Levels.{
  page_bytes, page_at, HasHashSize, level, tree_pages, length-page_bytes, get_elem?-chunks,
  slice-page_bytes, length-level, level-HasHashSize, get_elem?-next_level,
}
use android_packages_modules.Fsverity.Verifier.{
  hash_with_padding, check_node, check_steps, root_to_leaf_steps, split_offset, level_position,
}
use android_packages_modules.Fsverity.Verifier.Binding.{padded}
use android_packages_modules.Fsverity.Verifier.Positions.{
  chunk_count, pages_iter-pages, pages_iter-le_pages, level_position_lem, split_offset_lem,
}

module _ {M : Type 0} (rd : ReadByChunk M) (tree : M) where
  -- The chunks of the tree from `base` on hold these pages.
  abbrev pub Stores : List (List Sha256Hash) → ℕ → Type 0
  Stores pages base =
      (i : ℕ) (page : List Sha256Hash)
      → get_elem? pages i ≡ some page
      → rd.read_chunk tree (base + i) (replicate chunk_size 0) ≡ ok (chunk_size, page_bytes page)

  Stores-append_left :
      (xs ys : List (List Sha256Hash)) (base : ℕ) → Stores (xs ++ ys) base → Stores xs base
  Stores-append_left xs ys base s i page at =
      s i page (get_elem?-append_left xs ys i (get_elem?-below xs i page at) ∙ at)

  Stores-append_right :
      (xs ys : List (List Sha256Hash)) (base : ℕ)
      → Stores (xs ++ ys) base
      → Stores ys (base + length xs)
  Stores-append_right xs ys base s i page at =
      let e : base + length xs + i ≡ base + (length xs + i) = omega arith in
      rw e (s (length xs + i) page (get_elem?-append_right xs ys i ∙ at))

module _ {Ctx : Type 0} {ffi : Sha256Ffi Ctx} {digest : List ℕ → List ℕ}
    (sha : IsSha256 ffi digest) where
  pub hash_with_padding_lem :
      (chunk : List ℕ)
      → length chunk ≤ chunk_size
      → hash_with_padding ffi chunk chunk_size ≡ ok (digest (padded chunk))
  unfolding hash_with_padding
  hash_with_padding_lem chunk h =
      let fill : List ℕ = replicate (chunk_size - length chunk) 0 in
      let fits : leb (length chunk) chunk_size ≡ true = ground arith in
      let value =
        hash_parts_lem sha (chunk ∷ fill ∷ [])
        ∙ ap (λ z. ok (digest (chunk ++ z))) (append-nil fill) in
      rw fits value

  hash_with_padding_full :
      (node : List ℕ)
      → length node ≡ chunk_size
      → hash_with_padding ffi node chunk_size ≡ ok (digest node)
  hash_with_padding_full node h =
      let e : chunk_size - length node ≡ 0 = omega arith in
      hash_with_padding_lem node (omega arith)
      ∙ ap (λ z. ok (digest z))
          (ap (λ n. node ++ replicate n 0) e ∙ (unfold replicate in append-nil node))

  module _ {M : Type 0} (rd : ReadByChunk M) (tree : M) where
    check_steps-append :
        (xs ys : List (ℕ × ℕ)) (hash up : Sha256Hash)
        → check_steps ffi rd tree xs hash ≡ ok up
        → check_steps ffi rd tree (xs ++ ys) hash ≡ check_steps ffi rd tree ys up
    unfolding check_steps
    check_steps-append [] ys hash up h = ap (check_steps ffi rd tree ys) cc
    check_steps-append ((index, offset) ∷ xs) ys hash up h =
        let zeros : List ℕ = replicate chunk_size 0 in
        let (node, read, checked) = >>=-eq-ok (map_err io (rd.read_chunk tree index zeros)) _ h in
        let (next, step, more) = >>=-eq-ok (check_node ffi rd tree offset hash node) _ checked in
        rw (read, step) (check_steps-append xs ys next up more)

    -- One step up a level: the node that is read holds the hash, and its digest is a hash of the
    -- next level.
    check_steps_one :
        (hashes : List Sha256Hash) (base i : ℕ) (hash : Sha256Hash)
        → All HasHashSize hashes
        → Stores rd tree (chunks hash_per_page hashes) base
        → get_elem? hashes i ≡ some hash
        → check_steps ffi rd tree ((base + i / 128, i % 128 * 32) ∷ []) hash
          ≡ ok (digest (page_bytes (page_at hashes (i / 128))))
    unfolding check_steps check_node
    check_steps_one hashes base i hash sizes stored at =
        let page = page_at hashes (i / 128) in
        let own = All-take HasHashSize 128 _ (All-drop HasHashSize (i / 128 * 128) hashes sizes) in
        let few : length page ≤ 128 =
          omega (arith, length-take 128 (drop (i / 128 * 128) hashes)) in
        let read = stored (i / 128) page (get_elem?-chunks hashes i hash at) in
        let fits : leb (i % 128 * 32 + 32) 4096 ≡ true = ground arith in
        let slice = slice-page_bytes hashes i hash at sizes in
        let same : bytes_eq hash (take 32 (drop (i % 128 * 32) (page_bytes page))) ≡ true =
          ap (bytes_eq hash) slice ∙ bytes_eq_refl hash in
        let full = hash_with_padding_full (page_bytes page) (length-page_bytes page own few) in
        rw (read, fits, same, full) refl

pub div_pow_suc : (index x : ℕ) → index / 128 ^ x / 128 ≡ index / 128 ^ suc x
div_pow_suc index x =
    div-div-eq-div-mul index (128 ^ x) 128 ∙ ap (λ d. index / d) (sym (pow-suc 128 x))

module _ {Ctx : Type 0} {ffi : Sha256Ffi Ctx} {digest : List ℕ → List ℕ} (sha : IsSha256 ffi digest)
    {M : Type 0} (rd : ReadByChunk M) (tree : M) (leaves : List Sha256Hash)
    (sizes : All HasHashSize leaves) (file_size : ℕ) (small : file_size ≤ 2 ^ 61)
    (count : length leaves ≡ chunk_count file_size) (index : ℕ) (below : index ≤ 2 ^ 49) where
  -- The walk's step at level `x`, from a hash of that level to the one above.
  level_step :
      (x base : ℕ) (hash : Sha256Hash)
      → x < 7
      → base ≤ 2 ^ 47
      → Stores rd tree (chunks hash_per_page (level digest x leaves)) base
      → get_elem? (level digest x leaves) (index / 128 ^ x) ≡ some hash
      → let (level_size, offset_in_level) = level_position index file_size x in
        (up : Sha256Hash) × (check_steps ffi rd tree
            (split_offset ((base * chunk_size + offset_in_level) % u64_mod) ∷ [])
            hash
          ≡ ok up)
        × (get_elem? (level digest (suc x) leaves) (index / 128 ^ suc x) ≡ some up)
  unfolding level
  level_step x base hash h b stored at =
      let i = index / 128 ^ x in
      let o = ap (λ p. p.1) (level_position_lem index file_size x small below h) in
      let near : i ≤ 2 ^ 49 = omega (arith, div-le_self index (128 ^ x)) in
      let place =
        ap (λ n. split_offset ((base * chunk_size + n) % u64_mod)) o
        ∙ split_offset_lem base i b near in
      let hashes = level digest x leaves in
      let up = digest (page_bytes (page_at hashes (i / 128))) in
      let one =
        check_steps_one sha rd tree hashes base i hash (level-HasHashSize sha x leaves sizes) stored
          at in
      (
        up,
        ap (λ s. check_steps ffi rd tree (s ∷ []) hash) place ∙ one,
        ap (get_elem? (next_level digest hashes)) (sym (div_pow_suc index x))
            ∙ get_elem?-next_level digest hashes i hash at,
      )

  length-tree_level :
      (x : ℕ)
      → length (chunks hash_per_page (level digest x leaves))
        ≡ pages_iter (suc x) (chunk_count file_size)
  length-tree_level x =
      let hashes = level digest x leaves in
      length-chunks_fuel (length hashes) hash_per_page hashes (omega arith) (omega arith)
      ∙ ap (λ n. n / hash_per_page) (omega arith)
      ∙ (ap pages (length-level digest x leaves ∙ ap (pages_iter x) count)
          ∙ pages_iter-pages x (chunk_count file_size))

  -- The walk from level 0 up to level `x`.
  pub climb :
      (x base : ℕ) (hash : Sha256Hash)
      → x < 7
      → base + x * 2 ^ 43 ≤ 2 ^ 46
      → Stores rd tree (tree_pages digest x leaves) base
      → get_elem? leaves index ≡ some hash
      → (up : Sha256Hash) × (check_steps ffi rd tree
            (reverse (root_to_leaf_steps index file_size x (base * chunk_size)))
            hash
          ≡ ok up)
        × (get_elem? (level digest (suc x) leaves) (index / 128 ^ suc x) ≡ some up)
  unfolding root_to_leaf_steps tree_pages
  climb zero base hash h b stored at =
      let e : get_elem? (level digest 0 leaves) (index / 128 ^ 0) ≡ some hash =
        ap (get_elem? leaves) (omega arith) ∙ at in
      level_step 0 base hash h (omega arith) stored e
  climb (suc x) base hash h b stored at =
      let here = chunks hash_per_page (level digest (suc x) leaves) in
      let n = pages_iter (suc (suc x)) (chunk_count file_size) in
      let size = ap (λ p. p.0) (level_position_lem index file_size (suc x) small below h) in
      let few : n ≤ 2 ^ 43 = omega (arith, pages_iter-le_pages (suc x) (chunk_count file_size)) in
      let next : (base * chunk_size + n * chunk_size) % u64_mod ≡ (base + n) * chunk_size =
        omega arith in
      let top =
        split_offset ((base * chunk_size + (level_position index file_size (suc x)).1) % u64_mod) in
      let off = ap (λ l. (base * chunk_size + l) % u64_mod) size ∙ next in
      let many : length here ≡ n = length-tree_level (suc x) in
      let under = ap (Stores rd tree (tree_pages digest x leaves)) (ap (λ l. base + l) many) in
      let rest =
        transport under
          (Stores-append_right rd tree here (tree_pages digest x leaves) base stored) in
      let (mid, steps, got) = climb x (base + n) hash (omega arith) (omega arith) rest at in
      let (up, step, above) =
        level_step (suc x) base mid h (omega arith)
          (Stores-append_left rd tree here (tree_pages digest x leaves) base stored) got in
      let walk = root_to_leaf_steps index file_size x in
      (
        up,
        ap (λ o. check_steps ffi rd tree (reverse (top ∷ walk o)) hash) off
            ∙ (ap (λ s. check_steps ffi rd tree s hash)
                  (reverse-cons top (walk ((base + n) * chunk_size)))
                ∙ (check_steps-append sha rd tree (reverse (walk ((base + n) * chunk_size)))
                      (top ∷ []) hash mid steps
                    ∙ step)),
        above,
      )
