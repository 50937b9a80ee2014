-- ===== src/Fsverity/Tests/Serving.antt =====
-- Reading a file of two chunks whose tree is its own, and one of one chunk.
use android_packages_modules.Common.{
  ℕ, zero, suc, map_ok, bytes_eq, ◌≡◌, ◌⊎◌, refl, ap, sym, ok, some, true, List, [], ◌∷◌, ◌++◌,
  arith, replicate, take, length, get_elem?,
}
use android_packages_modules.Chunks.{divide_roundup}
use android_packages_modules.Crypto.{hash_size, hash_parts}
use android_packages_modules.Crypto.Digest.{Collision, flatten}
use android_packages_modules.Crypto.Toy.{toy, toy_digest, toy_digest_if, toy-IsSha256}
use android_packages_modules.File.{ReadByChunk}
use android_packages_modules.Fsverity.{
  fs_verity_magic, fs_verity_hash_alg_sha256, to_le_bytes, descriptor_parts, merkle_tree_height,
  log128_ceil, leading_zeros, bit_length,
}
use android_packages_modules.Fsverity.Digest.{build_fsverity_digest_lem}
use android_packages_modules.Fsverity.Merkle.{
  MerkleLeaves, calculate_root_hash, root_hash_of, root_of_leaves, hash_all_pages, hash_page,
  fold_pages, single_hash, chunks_fuel,
}
use android_packages_modules.Fsverity.Merkle.Levels.{page_bytes, level, tree_pages}
use android_packages_modules.Fsverity.Verifier.{
  VerifiedFileReader, fake_authenticator, new, read_chunk, build_fsverity_formatted_digest,
}
use android_packages_modules.Fsverity.Verifier.Binding.{padded}
use android_packages_modules.Fsverity.Verifier.Complete.{IsTreeOf, read_chunk-serves}
use android_packages_modules.Fsverity.Verifier.Built.{calculate_root_hash-top, one_chunk_refused}
use android_packages_modules.Fsverity.Tests.Reading.{
  chunk, leaf, node_reader, constant_reader, node_reader-KeepsLength, small_file_passes,
}

abbrev two_leaves : List (List ℕ)
two_leaves = leaf ∷ leaf ∷ []

abbrev page_reader : ReadByChunk (Unit {0})
page_reader = record { read_chunk = λ file index buf. ok (4096, page_bytes two_leaves) }

length-leaf : length leaf ≡ 32
unfolding replicate
length-leaf = refl

height_of_two : merkle_tree_height 4099 ≡ some 0
unfolding merkle_tree_height log128_ceil leading_zeros bit_length divide_roundup
height_of_two = refl

top_of_two : level toy_digest 1 two_leaves ≡ leaf ∷ []
unfolding level toy_digest chunks_fuel replicate bytes_eq toy_digest_if
top_of_two = refl

stored_pages :
    (i : ℕ) (page : List (List ℕ))
    → get_elem? (tree_pages toy_digest 0 two_leaves) i ≡ some page
    → page_reader.read_chunk tt i (replicate 4096 0) ≡ ok (4096, page_bytes page)
unfolding tree_pages chunks_fuel
stored_pages zero page at =
    let same : two_leaves ≡ page = cc at in ap (λ p. ok (4096, page_bytes p)) same
stored_pages (suc i) page at = absurd (cc at)

two-IsTreeOf : IsTreeOf toy_digest page_reader tt two_leaves leaf 4099
two-IsTreeOf = record {
  count_lem = refl;
  sizes = (length-leaf, (length-leaf, tt));
  max_level = 0;
  height = height_of_two;
  top = top_of_two;
  stored = stored_pages;
}

abbrev tree_of_two : MerkleLeaves
tree_of_two = record { leaves = two_leaves; file_size = 4099 }

abbrev tree_of_one : MerkleLeaves
tree_of_one = record { leaves = leaf ∷ []; file_size = 3 }

leaf_of_chunk : toy_digest (padded chunk) ≡ leaf
unfolding toy_digest toy_digest_if bytes_eq replicate
leaf_of_chunk = refl

second_leaf : get_elem? two_leaves 1 ≡ some (toy_digest (padded (take 3 chunk)))
second_leaf = ap (λ h. some h) (sym leaf_of_chunk)

root_of_two : calculate_root_hash toy tree_of_two ≡ ok leaf
unfolding calculate_root_hash root_of_leaves merkle_tree_height log128_ceil leading_zeros bit_length
    divide_roundup hash_all_pages map_ok hash_page chunks_fuel toy_digest toy_digest_if bytes_eq
    replicate hash_parts fold_pages single_hash
root_of_two = refl

root_of_one : calculate_root_hash toy tree_of_one ≡ ok leaf
unfolding calculate_root_hash root_hash_of
root_of_one = refl

formatted : List ℕ
formatted =
    fs_verity_magic
    ++ (to_le_bytes 2 fs_verity_hash_alg_sha256
        ++ (to_le_bytes 2 hash_size ++ toy_digest (flatten (descriptor_parts leaf 4099))))

digest_of_two : build_fsverity_formatted_digest toy leaf 4099 ≡ ok formatted
unfolding build_fsverity_formatted_digest formatted
digest_of_two = rw (build_fsverity_digest_lem toy-IsSha256 leaf 4099) refl

read_chunk-serves_example :
    (self : VerifiedFileReader (List ℕ) (Unit {0})) × (new toy constant_reader page_reader
        (fake_authenticator true)
        chunk
        4099
        []
        tt
      ≡ ok self)
    × (read_chunk toy constant_reader page_reader self 1 [] ≡ ok (3, chunk))
read_chunk-serves_example =
    read_chunk-serves toy-IsSha256 page_reader tt two_leaves leaf 4099 two-IsTreeOf (omega arith)
      (omega arith) constant_reader (fake_authenticator true) chunk [] formatted 1 3 [] chunk
      digest_of_two refl refl (omega arith) (omega arith) second_leaf

calculate_root_hash-top_example : level toy_digest 1 two_leaves ≡ leaf ∷ []
calculate_root_hash-top_example =
    calculate_root_hash-top toy-IsSha256 tree_of_two leaf 4099 0 (omega arith) (omega arith) refl
      height_of_two root_of_two

one_chunk_refused_example :
    (take hash_size (padded chunk) ≡ toy_digest (padded chunk)) ⊎ Collision toy_digest
one_chunk_refused_example =
    one_chunk_refused toy-IsSha256 node_reader tt tree_of_one leaf chunk 3 node_reader-KeepsLength
      (omega arith) (omega arith) (ap (λ h. h ∷ []) (sym leaf_of_chunk)) root_of_one
      small_file_passes
