-- ===== src/Remote/Tests.antt =====
-- The service over files that are lists of bytes.
use android_packages_modules.Common.{
  ℕ, ◌-◌, ◌++◌, ◌==◌, if◌then◌else◌, min, true, some, replicate, bytes_eq, ◌≡◌, refl, none, List,
  [], ◌∷◌, ok, length, take, drop, arith,
}
use android_packages_modules.Chunks.{divide_roundup}
use android_packages_modules.Crypto.{hash_size}
use android_packages_modules.Crypto.Digest.{flatten}
use android_packages_modules.Crypto.Toy.{toy, toy_digest, toy_digest_if, toy-IsSha256}
use android_packages_modules.Fsverity.{
  fs_verity_magic, fs_verity_hash_alg_sha256, to_le_bytes, descriptor_parts, merkle_tree_height,
  log128_ceil, leading_zeros, bit_length,
}
use android_packages_modules.Fsverity.Digest.{build_fsverity_digest_lem}
use android_packages_modules.Fsverity.Merkle.{chunks_fuel}
use android_packages_modules.Fsverity.Merkle.Levels.{level}
use android_packages_modules.Fsverity.Merkle.Bytes.{chunk_hashes, tree_bytes}
use android_packages_modules.Fsverity.Verifier.{
  VerifiedFileReader, fake_authenticator, build_fsverity_formatted_digest, new, read_chunk,
}
use android_packages_modules.Remote.Tree.{KernelTree, in_kernel}
use android_packages_modules.Remote.Verified.{read_chunk-served}
use android_packages_modules.FdServer.{HostFile, FdService, readonly}
use android_packages_modules.Remote.{
  VirtFdService, remote_read_chunk, remote_file_reader, remote_merkle_tree_reader,
}
use android_packages_modules.Remote.Served.{IsFile, connected, remote_read_chunk-IsFile}

-- Files of the host that are lists of bytes, of which 3 is served under the number 5.
abbrev memory : HostFile (List ℕ)
memory = record {
  len = λ file. ok (length file);
  read_exact_at = λ file size offset. ok (take size (drop offset file));
  write_at = λ file buf offset. (ok (length buf), buf);
  set_len = λ file size. (ok tt, file);
  read_verity_metadata = λ file arg buf. (ok 0, buf);
}

abbrev three_bytes : List ℕ
three_bytes = 7 ∷ 8 ∷ 9 ∷ []

three_bytes-IsFile : IsFile memory three_bytes three_bytes
three_bytes-IsFile = record { len_lem = refl; read_exact_at_lem = λ size offset fits. refl }

abbrev pool : FdService (List ℕ)
pool = (5, readonly three_bytes none none) ∷ []

abbrev buffer : List ℕ
buffer = 0 ∷ 0 ∷ 0 ∷ 0 ∷ 0 ∷ []

remote_read_chunk-IsFile_example :
    remote_read_chunk (connected memory 5) pool 0 buffer ≡ ok (3, 7 ∷ 8 ∷ 9 ∷ 0 ∷ 0 ∷ [])
remote_read_chunk-IsFile_example =
    remote_read_chunk-IsFile memory pool 5 (readonly three_bytes none none) three_bytes 0 buffer
      refl three_bytes-IsFile (omega arith) (omega arith)

-- The same files, with the Merkle trees that the kernel has for files of one chunk.
abbrev kernel_tree : List ℕ → List ℕ
kernel_tree file = tree_bytes toy_digest 0 (chunk_hashes toy_digest file)

abbrev kernel_memory : HostFile (List ℕ)
kernel_memory = record memory {
  read_verity_metadata = λ file arg buf.
      let n = min (length (kernel_tree file) - arg.offset) (length buf) in
      if arg.metadata_type == 1
      then (ok n, take n (drop arg.offset (kernel_tree file)) ++ drop n buf)
      else (ok 0, buf);
}

kernel_memory-KernelTree : (file : List ℕ) → KernelTree kernel_memory file (kernel_tree file)
kernel_memory-KernelTree file = record { read_lem = λ arg buf type size. rw type refl }

abbrev leaf : List ℕ
leaf = three_bytes ++ replicate 29 0

height_of_three : merkle_tree_height 3 ≡ some 0
unfolding merkle_tree_height log128_ceil leading_zeros bit_length divide_roundup
height_of_three = refl

top_of_three : level toy_digest 1 (chunk_hashes toy_digest three_bytes) ≡ leaf ∷ []
unfolding level toy_digest toy_digest_if chunks_fuel replicate bytes_eq
top_of_three = refl

abbrev formatted : List ℕ
formatted =
    fs_verity_magic
    ++ (to_le_bytes 2 fs_verity_hash_alg_sha256
        ++ (to_le_bytes 2 hash_size ++ toy_digest (flatten (descriptor_parts leaf 3))))

digest_of_three : build_fsverity_formatted_digest toy leaf 3 ≡ ok formatted
unfolding build_fsverity_formatted_digest
digest_of_three = rw (build_fsverity_digest_lem toy-IsSha256 leaf 3) refl

abbrev served : VirtFdService (FdService (List ℕ))
served = connected kernel_memory 5

read_chunk-served_example :
    (self : VerifiedFileReader (FdService (List ℕ)) (FdService (List ℕ))) × (new toy
        (remote_file_reader served)
        (remote_merkle_tree_reader served)
        (fake_authenticator true)
        pool
        3
        []
        pool
      ≡ ok self)
    × (read_chunk toy
          (remote_file_reader served)
          (remote_merkle_tree_reader served)
          self
          0
          (replicate 4096 0)
        ≡ ok (3, three_bytes ++ drop 3 (replicate 4096 0)))
read_chunk-served_example =
    read_chunk-served toy-IsSha256 kernel_memory pool 5 (readonly three_bytes none none) three_bytes
      0 leaf refl (record { len_lem = refl; read_exact_at_lem = λ size offset fits. refl })
      (in_kernel (kernel_memory-KernelTree three_bytes)) (omega arith) (omega arith) height_of_three
      top_of_three (fake_authenticator true) [] formatted 0 digest_of_three refl (omega arith)
