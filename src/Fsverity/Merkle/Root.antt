-- ===== src/Fsverity/Merkle/Root.antt =====
-- `calculate_root_hash` of fsverity/builder.rs against the definition of the Merkle tree.
use native.Mathlib.Nat.{div-eq_of_lt, add-div_right}
use android_packages_modules.Common.{
  ℕ, zero, suc, ◌+◌, ◌/◌, sym, inl, inr, Bool-cases, leb, tests, ◌-◌, ◌*◌, ◌^◌, ◌%◌, ◌≤◌, ◌<◌, ◌≡◌,
  refl, ap, ◌∙◌, List, [], ◌∷◌, ◌++◌, map, ok, map_ok-ok, arith, length, length-map, length-drop,
  drop, replicate,
}
use android_packages_modules.Chunks.{chunk_size, u64_mod}
use android_packages_modules.Crypto.{Sha256Ffi, Sha256Hash, hash_size}
use android_packages_modules.Crypto.Digest.{IsSha256, flatten, hash_parts_lem}
use android_packages_modules.Fsverity.Height.{pages, pages_iter, merkle_tree_height_lem}
use android_packages_modules.Fsverity.Merkle.{
  MerkleLeaves, chunks, chunks_fuel, hash_per_page, hash_page, hash_all_pages, fold_pages,
  root_of_leaves, root_hash_of, calculate_root_hash,
}

pub length-chunks_fuel :
    {A : Type 0} (fuel size : ℕ) (xs : List A)
    → 0 < size
    → length xs ≤ fuel
    → length (chunks_fuel fuel size xs) ≡ (length xs + size - 1) / size
unfolding chunks_fuel
length-chunks_fuel zero size [] p h = sym (div-eq_of_lt (omega arith))
length-chunks_fuel zero size (x ∷ xs) p h = absurd (omega arith)
length-chunks_fuel (suc fuel) size [] p h = sym (div-eq_of_lt (omega arith))
length-chunks_fuel (suc fuel) size (x ∷ xs) p h =
    let rest = drop size (x ∷ xs) in
    let d = length-drop size (x ∷ xs) in
    let e : suc (length xs) + size - 1 ≡ length xs + size = omega arith in
    let same : (length rest + size - 1) / size ≡ length xs / size =
      elim (Bool-cases (leb size (suc (length xs)))) [
        | inl full ↦ ap (λ n. n / size) (omega (tests, d))
        | inr last ↦ div-eq_of_lt (omega (tests, d, p)) ∙ sym (div-eq_of_lt (omega tests))
      ] in
    omega (
      arith,
      length-chunks_fuel fuel size rest p (omega (arith, d)),
      same,
      add-div_right (length xs) p,
      ap (λ n. n / size) e,
    )

module _ (digest : List ℕ → List ℕ) where
  -- The hash of a page of hashes, filled up with zeros to a chunk.
  abbrev pub page_digest : List Sha256Hash → Sha256Hash
  page_digest page =
      digest (flatten (page ++ (replicate ((hash_per_page - length page) * hash_size) 0 ∷ [])))

  abbrev pub next_level : List Sha256Hash → List Sha256Hash
  next_level hashes = map page_digest (chunks hash_per_page hashes)

  -- The root of a tree over hashes: the hash that is left, after a new level as long as there are
  -- two hashes or more.
  pub data IsRoot : List Sha256Hash → Sha256Hash → Type 0 where
    single : (hash : Sha256Hash) → IsRoot (hash ∷ []) hash
    above :
        {hashes : List Sha256Hash} {root : Sha256Hash}
        → 1 < length hashes
        → IsRoot (next_level hashes) root
        → IsRoot hashes root

  pub length-next_level : (xs : List Sha256Hash) → length (next_level xs) ≡ pages (length xs)
  length-next_level xs =
      length-map page_digest (chunks hash_per_page xs)
      ∙ (length-chunks_fuel (length xs) hash_per_page xs (omega arith) (omega arith)
          ∙ ap (λ n. n / hash_per_page) (omega arith))

module _ {Ctx : Type 0} {ffi : Sha256Ffi Ctx} {digest : List ℕ → List ℕ}
    (sha : IsSha256 ffi digest) where
  pub hash_all_pages_lem :
      (xs : List Sha256Hash) → hash_all_pages ffi xs ≡ ok (next_level digest xs)
  unfolding hash_all_pages
  hash_all_pages_lem xs =
      map_ok-ok (hash_page ffi) (page_digest digest) (λ page. hash_parts_lem sha _)
        (chunks hash_per_page xs)

  fold_pages-IsRoot :
      (level : ℕ) (xs : List Sha256Hash)
      → pages_iter level (length xs) ≡ 1
      → ((j : ℕ) → j < level → 1 < pages_iter j (length xs))
      → (root : Sha256Hash) × (fold_pages ffi level xs ≡ ok (root ∷ [])) × IsRoot digest xs root
  unfolding fold_pages pages_iter
  fold_pages-IsRoot zero [] e h = absurd (omega arith)
  fold_pages-IsRoot zero (x ∷ []) e h = (x, refl, single x)
  fold_pages-IsRoot zero (x ∷ y ∷ xs) e h = absurd (omega arith)
  fold_pages-IsRoot (suc level) xs e h =
      let n = length-next_level digest xs in
      let (root, f, r) =
        fold_pages-IsRoot level (next_level digest xs) (ap (pages_iter level) n ∙ e)
          (λ j below. rw n (h (suc j) (omega arith))) in
      (root, rw (hash_all_pages_lem xs) f, above (h 0 (omega arith)) r)

  -- For two leaves or more.
  root_of_leaves-IsRoot :
      (xs : List Sha256Hash)
      → 1 < length xs
      → length xs * chunk_size < 2 ^ 63
      → (root : Sha256Hash) × (root_of_leaves ffi xs ≡ ok root) × IsRoot digest xs root
  unfolding root_of_leaves
  root_of_leaves-IsRoot xs p h =
      let (level, e, one, more) = merkle_tree_height_lem (length xs) (omega arith) h in
      let n = length-next_level digest xs in
      let (root, f, r) =
        fold_pages-IsRoot level (next_level digest xs) (ap (pages_iter level) n ∙ one)
          (λ j below. rw n (more j below)) in
      let w : length xs * chunk_size % u64_mod ≡ length xs * chunk_size = omega arith in
      (root, rw (w, e, hash_all_pages_lem xs, f), above p r)

  root_hash_of-IsRoot :
      (xs : List Sha256Hash)
      → 0 < length xs
      → length xs * chunk_size < 2 ^ 63
      → (root : Sha256Hash) × (root_hash_of ffi xs ≡ ok root) × IsRoot digest xs root
  unfolding root_hash_of
  root_hash_of-IsRoot [] p h = absurd (omega arith)
  root_hash_of-IsRoot (x ∷ []) p h = (x, refl, single x)
  root_hash_of-IsRoot (x ∷ y ∷ xs) p h = root_of_leaves-IsRoot (x ∷ y ∷ xs) (omega arith) h

  -- For a file of one chunk or more, with chunks for less than 2 ^ 63 bytes, the root hash is
  -- computed without an error or a panic, and is the root of the tree over the leaves.
  pub calculate_root_hash-IsRoot :
      (self : MerkleLeaves)
      → 0 < length self.leaves
      → length self.leaves * chunk_size < 2 ^ 63
      → (root : Sha256Hash) × (calculate_root_hash ffi self ≡ ok root)
        × IsRoot digest self.leaves root
  unfolding calculate_root_hash
  calculate_root_hash-IsRoot self p h = root_hash_of-IsRoot self.leaves p h
