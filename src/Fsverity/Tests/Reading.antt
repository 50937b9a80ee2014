-- ===== src/Fsverity/Tests/Reading.antt =====
-- Reading with verification, and the fs-verity digest.
use android_packages_modules.Common.{
  ℕ, ◌*◌, ◌<◌, bytes_eq, ap, ◌∙◌, sym, ◌≡◌, ◌⊎◌, refl, ok, some, List, [], ◌∷◌, ◌++◌, arith,
  replicate, take, length, length-replicate, length-append, All,
}
use android_packages_modules.Chunks.{chunk_size, divide_roundup}
use android_packages_modules.Crypto.{hash_parts}
use android_packages_modules.Crypto.Digest.{Collision}
use android_packages_modules.Crypto.Toy.{toy, toy_digest, toy-IsSha256}
use android_packages_modules.File.{ReadByChunk}
use android_packages_modules.Fsverity.{
  build_fsverity_digest, merkle_tree_height, log128_ceil, leading_zeros, bit_length,
}
use android_packages_modules.Fsverity.Digest.{build_fsverity_digest_binds}
use android_packages_modules.Fsverity.Height.{pages, pages_iter, merkle_tree_height_lem}
use android_packages_modules.Fsverity.Verifier.{
  VerifiedFileReader, verity_check, fsverity_walk, root_to_leaf_steps, leaves_size_per_node,
  level_position, read_chunk,
}
use android_packages_modules.Fsverity.Verifier.Walk.{StepFits, fsverity_walk-StepFits}
use android_packages_modules.Fsverity.Verifier.Binding.{
  KeepsLength, padded, verity_check_binds, read_chunk_binds,
}

abbrev some_root : List ℕ
some_root = 1 ∷ 2 ∷ []

build_fsverity_digest_binds_example :
    (value : List ℕ) × (build_fsverity_digest toy some_root chunk_size ≡ ok value)
    × (((some_root ≡ some_root) × (chunk_size ≡ chunk_size)) ⊎ Collision toy_digest)
build_fsverity_digest_binds_example =
    build_fsverity_digest_binds toy-IsSha256 some_root some_root chunk_size chunk_size refl
      (omega arith) (omega arith) refl

merkle_tree_height_lem_example :
    (level : ℕ) × (merkle_tree_height (200 * chunk_size) ≡ some level)
    × (pages_iter level (pages 200) ≡ 1)
    × ((j : ℕ) → j < level → 1 < pages_iter j (pages 200))
merkle_tree_height_lem_example = merkle_tree_height_lem 200 (omega arith) (omega arith)

walk_of_small_file : fsverity_walk 0 5 ≡ ok ((0, 0) ∷ [])
unfolding fsverity_walk leaves_size_per_node merkle_tree_height log128_ceil divide_roundup
    root_to_leaf_steps leading_zeros bit_length level_position
walk_of_small_file = refl

fsverity_walk-StepFits_example : All StepFits ((0, 0) ∷ [])
fsverity_walk-StepFits_example = fsverity_walk-StepFits 0 5 ((0, 0) ∷ []) walk_of_small_file

-- A file of one chunk: the tree has one node, which holds the hash of the chunk.
abbrev pub chunk : List ℕ
chunk = 1 ∷ 2 ∷ 3 ∷ []

abbrev pub leaf : List ℕ
leaf = chunk ++ replicate 29 0

abbrev pub node : List ℕ
node = leaf ++ replicate 4064 0

-- Returns the same bytes for each chunk.
abbrev pub constant_reader : ReadByChunk (List ℕ)
constant_reader = record { read_chunk = λ file index buf. ok (length file, file) }

abbrev pub node_reader : ReadByChunk (Unit {0})
node_reader = record { read_chunk = λ file index buf. ok (4096, node) }

length-node : length node ≡ chunk_size
length-node = omega (
  arith,
  length-append leaf (replicate 4064 0),
  length-append chunk (replicate 29 0),
  length-replicate {A = ℕ} 4064 0,
  length-replicate {A = ℕ} 29 0,
)

pub node_reader-KeepsLength : KeepsLength node_reader
node_reader-KeepsLength = record {
  keeps = λ file index size bytes read.
      let same : node ≡ bytes = cc read in ap length (sym same) ∙ length-node;
}

pub small_file_passes : verity_check toy node_reader tt chunk 0 3 ≡ ok leaf
unfolding verity_check leaves_size_per_node toy_digest hash_parts merkle_tree_height log128_ceil
    divide_roundup root_to_leaf_steps leading_zeros bit_length level_position bytes_eq replicate
small_file_passes = refl

verity_check_binds_example : (padded chunk ≡ padded chunk) ⊎ Collision toy_digest
verity_check_binds_example =
    verity_check_binds toy-IsSha256 node_reader node_reader node_reader-KeepsLength
      node_reader-KeepsLength tt tt chunk chunk 0 3 leaf small_file_passes small_file_passes

abbrev reader : VerifiedFileReader (List ℕ) (Unit {0})
reader = record { chunked_file = chunk; file_size = 3; merkle_tree = tt; root_hash = leaf }

reader_reads : read_chunk toy constant_reader node_reader reader 0 [] ≡ ok (3, chunk)
unfolding read_chunk bytes_eq replicate
reader_reads = rw small_file_passes refl

read_chunk_binds_example : (padded (take 3 chunk) ≡ padded (take 3 chunk)) ⊎ Collision toy_digest
read_chunk_binds_example =
    read_chunk_binds toy-IsSha256 node_reader node_reader constant_reader constant_reader
      node_reader-KeepsLength node_reader-KeepsLength reader reader 0 3 3 [] [] chunk chunk refl
      refl reader_reads reader_reads
