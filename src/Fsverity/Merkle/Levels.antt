-- ===== src/Fsverity/Merkle/Levels.antt =====
-- The levels of a Merkle tree, and how its pages lie in the tree that a file system keeps: the root's
-- page first, the pages over the leaves last (fsverity/builder.rs, fsverity/common.rs).
use native.Mathlib.Nat.{suc-mul}
use android_packages_modules.Common.{
  ℕ, zero, suc, ◌+◌, ◌-◌, ◌*◌, ◌/◌, ◌%◌, ◌≤◌, ◌<◌, ◌≡◌, refl, sym, ap, ◌∙◌, some, List, [], ◌∷◌,
  ◌++◌, arith, length, get_elem?, take, drop, replicate, All, All-take, All-drop, length-append,
  length-replicate, length-drop, take-append_length, drop-append_right, drop-drop, get_elem?-take,
  get_elem?-drop, get_elem?-map, get_elem?-below, get_elem?-append_left, All-map, ok,
}
use android_packages_modules.Chunks.{chunk_size}
use android_packages_modules.Crypto.{Sha256Ffi, Sha256Hash, hash_size}
use android_packages_modules.Crypto.Digest.{IsSha256, flatten}
use android_packages_modules.Fsverity.Height.{pages_iter}
use android_packages_modules.Fsverity.Merkle.{chunks, chunks_fuel, hash_per_page, fold_pages}
use android_packages_modules.Fsverity.Merkle.Root.{
  page_digest, next_level, length-next_level, hash_all_pages_lem,
}

-- A page of the tree: the hashes one after the other, filled up with zeros.
abbrev pub page_bytes : List Sha256Hash → List ℕ
page_bytes page = flatten (page ++ (replicate ((hash_per_page - length page) * hash_size) 0 ∷ []))

abbrev pub HasHashSize : Sha256Hash → Type 0
HasHashSize hash = length hash ≡ hash_size

-- The page `p` of a list of hashes.
abbrev pub page_at : List Sha256Hash → ℕ → List Sha256Hash
page_at hashes p = take hash_per_page (drop (p * hash_per_page) hashes)

suc-mul-add : (j n : ℕ) → suc j * n ≡ n + j * n
suc-mul-add j n = omega (arith, suc-mul j n)

-- The pieces of a list, by their places in it.
pub get_elem?-chunks_fuel :
    {A : Type 0} (p fuel size : ℕ) (xs : List A)
    → 0 < size
    → length xs ≤ fuel
    → p * size < length xs
    → get_elem? (chunks_fuel fuel size xs) p ≡ some (take size (drop (p * size) xs))
unfolding chunks_fuel
get_elem?-chunks_fuel p fuel size [] e f h = absurd (omega arith)
get_elem?-chunks_fuel p zero size (x ∷ xs) e f h = absurd (omega arith)
get_elem?-chunks_fuel zero (suc fuel) size (x ∷ xs) e f h =
    let z : 0 ≡ 0 * size = omega arith in ap (λ n. some (take size (drop n (x ∷ xs)))) z
get_elem?-chunks_fuel (suc p) (suc fuel) size (x ∷ xs) e f h =
    let d = length-drop size (x ∷ xs) in
    let q : suc p * size ≡ size + p * size = suc-mul-add p size in
    get_elem?-chunks_fuel p fuel size (drop size (x ∷ xs)) e (omega (arith, d))
      (omega (arith, d, q, h))
    ∙ ap (λ z. some (take size z))
        (sym (drop-drop size (p * size) (x ∷ xs)) ∙ ap (λ n. drop n (x ∷ xs)) (sym q))

-- A piece of the bytes that pieces of one size make up.
pub slice-flatten :
    (n : ℕ) (parts rest : List (List ℕ)) (j : ℕ) (part : List ℕ)
    → All (λ p. length p ≡ n) parts
    → get_elem? parts j ≡ some part
    → take n (drop (j * n) (flatten (parts ++ rest))) ≡ part
slice-flatten n [] rest j part sizes at = absurd (cc at)
slice-flatten n (x ∷ parts) rest zero part sizes at =
    let e : x ≡ part = cc at in
    let z : 0 * n ≡ 0 = omega arith in
    let all = x ++ flatten (parts ++ rest) in
    ap (λ k. take n (drop k all)) z
    ∙ (ap (λ k. take k all) (sym sizes.0) ∙ (take-append_length x (flatten (parts ++ rest)) ∙ e))
slice-flatten n (x ∷ parts) rest (suc j) part sizes at =
    let e : suc j * n ≡ length x + j * n = suc-mul-add j n ∙ ap (λ k. k + j * n) (sym sizes.0) in
    ap (take n) (
      ap (λ k. drop k (x ++ flatten (parts ++ rest))) e
      ∙ drop-append_right x (flatten (parts ++ rest)) (j * n))
    ∙ slice-flatten n parts rest j part sizes.1 at

length-flatten :
    (page : List Sha256Hash) (last : List ℕ)
    → All HasHashSize page
    → length (flatten (page ++ (last ∷ []))) ≡ length page * hash_size + length last
length-flatten [] last sizes = omega (arith, length-append last [])
length-flatten (x ∷ page) last sizes = omega (
  arith,
  length-append x (flatten (page ++ (last ∷ []))),
  length-flatten page last sizes.1,
  sizes.0,
)

pub length-page_bytes :
    (page : List Sha256Hash)
    → All HasHashSize page
    → length page ≤ hash_per_page
    → length (page_bytes page) ≡ chunk_size
length-page_bytes page sizes h = omega (
  arith,
  length-flatten page (replicate ((hash_per_page - length page) * hash_size) 0) sizes,
  length-replicate {A = ℕ} ((hash_per_page - length page) * hash_size) 0,
)

module _ (hashes : List Sha256Hash) (i : ℕ) (hash : Sha256Hash)
    (at : get_elem? hashes i ≡ some hash) where
  pub get_elem?-page_at :
      get_elem? (page_at hashes (i / hash_per_page)) (i % hash_per_page) ≡ some hash
  get_elem?-page_at =
      let e : i / hash_per_page * hash_per_page + i % hash_per_page ≡ i = omega arith in
      get_elem?-take hash_per_page (i % hash_per_page) _ (omega arith)
      ∙ (get_elem?-drop (i / hash_per_page * hash_per_page) (i % hash_per_page) hashes
          ∙ (ap (get_elem? hashes) e ∙ at))

  pub get_elem?-chunks :
      get_elem? (chunks hash_per_page hashes) (i / hash_per_page)
      ≡ some (page_at hashes (i / hash_per_page))
  get_elem?-chunks =
      get_elem?-chunks_fuel (i / hash_per_page) (length hashes) hash_per_page hashes (omega arith)
        (omega arith) (omega (arith, get_elem?-below hashes i hash at))

  -- The page that holds a hash, in the tree's bytes.
  pub slice-page_bytes :
      All HasHashSize hashes
      → take hash_size
          (drop (i % hash_per_page * hash_size) (page_bytes (page_at hashes (i / hash_per_page))))
        ≡ hash
  slice-page_bytes sizes =
      slice-flatten hash_size (page_at hashes (i / hash_per_page)) _ (i % hash_per_page) hash
        (All-take HasHashSize hash_per_page _ (All-drop HasHashSize _ hashes sizes))
        get_elem?-page_at

module _ (digest : List ℕ → List ℕ) where
  -- The hashes of a level; level 0 is the leaves.
  unfoldable pub level : ℕ → List Sha256Hash → List Sha256Hash
  level zero leaves = leaves
  level (suc k) leaves = next_level digest (level k leaves)

  -- The pages of the levels from `x` down to 0, in the order of the tree's bytes.
  unfoldable pub tree_pages : ℕ → List Sha256Hash → List (List Sha256Hash)
  unfolding level
  tree_pages zero leaves = chunks hash_per_page leaves
  tree_pages (suc x) leaves = chunks hash_per_page (level (suc x) leaves) ++ tree_pages x leaves

  pub tree_pages_first :
      (x : ℕ) (leaves : List Sha256Hash) (page : List Sha256Hash)
      → get_elem? (chunks hash_per_page (level x leaves)) 0 ≡ some page
      → get_elem? (tree_pages x leaves) 0 ≡ some page
  unfolding level tree_pages
  tree_pages_first zero leaves page at = at
  tree_pages_first (suc x) leaves page at =
      let here = chunks hash_per_page (level (suc x) leaves) in
      get_elem?-append_left here (tree_pages x leaves) 0 (get_elem?-below here 0 page at) ∙ at

  pub level_next :
      (k : ℕ) (leaves : List Sha256Hash) → level k (next_level digest leaves) ≡ level (suc k) leaves
  unfolding level
  level_next zero leaves = refl
  level_next (suc k) leaves = ap (next_level digest) (level_next k leaves)

  pub length-level :
      (k : ℕ) (leaves : List Sha256Hash) → length (level k leaves) ≡ pages_iter k (length leaves)
  unfolding level pages_iter
  length-level zero leaves = refl
  length-level (suc k) leaves =
      ap length (sym (level_next k leaves))
      ∙ (length-level k (next_level digest leaves)
          ∙ ap (pages_iter k) (length-next_level digest leaves))

  -- A hash of a level, and the one above it.
  pub get_elem?-next_level :
      (hashes : List Sha256Hash) (i : ℕ) (hash : Sha256Hash)
      → get_elem? hashes i ≡ some hash
      → get_elem? (next_level digest hashes) (i / hash_per_page)
        ≡ some (digest (page_bytes (page_at hashes (i / hash_per_page))))
  get_elem?-next_level hashes i hash at =
      get_elem?-map (page_digest digest) _ (i / hash_per_page) _ (get_elem?-chunks hashes i hash at)

module _ {Ctx : Type 0} {ffi : Sha256Ffi Ctx} {digest : List ℕ → List ℕ}
    (sha : IsSha256 ffi digest) where
  pub level-HasHashSize :
      (k : ℕ) (leaves : List Sha256Hash)
      → All HasHashSize leaves
      → All HasHashSize (level digest k leaves)
  unfolding level
  level-HasHashSize zero leaves sizes = sizes
  level-HasHashSize (suc k) leaves sizes =
      All-map HasHashSize (page_digest digest) (λ page. sha.length_lem _) _

  pub fold_pages-level :
      (k : ℕ) (leaves : List Sha256Hash) → fold_pages ffi k leaves ≡ ok (level digest k leaves)
  unfolding fold_pages level
  fold_pages-level zero leaves = refl
  fold_pages-level (suc k) leaves =
      rw (hash_all_pages_lem sha leaves) (
        fold_pages-level k (next_level digest leaves) ∙ ap (λ z. ok z) (level_next digest k leaves))
