-- ===== src/Remote/Tree.antt =====
-- The chunks of a Merkle tree that authfs/src/file/remote_file.rs reads from authfs/fd_server, which
-- has the tree in a file or in the kernel's metadata of the file (authfs/fd_server/src/fsverity.rs).
use android_packages_modules.Common.{
  ℕ, ◌-◌, ◌*◌, ◌^◌, ◌≤◌, ◌<◌, ◌≡◌, refl, ap, ◌∙◌, min, pos, Option, some, none, List, ◌++◌, Outcome,
  ok, length, take, drop, replicate, arith, length-take, length-drop, length-replicate,
  take-append_length,
}
use android_packages_modules.Chunks.{chunk_size}
use android_packages_modules.FdServer.{
  HostFile, FdConfig, FdService, readonly, max_requesting_data, truncated, get_file_config,
  merkle_tree_of, read_fsverity_merkle_tree, validate_and_cast_size, validate_and_cast_offset,
}
use android_packages_modules.FdServer.Kernel.{
  FsverityReadMetadataArg, NixError, io_result, fs_verity_metadata_type_merkle_tree, read_metadata,
  read_merkle_tree,
}
use android_packages_modules.Handles
use android_packages_modules.Remote.{read_tree_chunk}
use android_packages_modules.Remote.Served.{
  IsFile, connected, read_into_buf_lem, copy_reply_lem, few_enough, no_wrap, i64_of_small,
}

module _ {F : Type 0} (host : HostFile F) where
  -- What the ioctl is documented to do for the Merkle tree of a file, when no signal interrupts it:
  -- it fills the buffer with as much of the tree as there is from the offset on.
  pub record KernelTree (file : F) (tree : List ℕ) : Type 0 where
    pub read_lem :
        (arg : FsverityReadMetadataArg) (buf : List ℕ)
        → arg.metadata_type ≡ fs_verity_metadata_type_merkle_tree
        → arg.length ≡ length buf
        → host.read_verity_metadata file arg buf ≡ (
          ok (min (length tree - arg.offset) (length buf)),
          take (min (length tree - arg.offset) (length buf)) (drop arg.offset tree)
              ++ drop (min (length tree - arg.offset) (length buf)) buf,
        )

  -- A file that is served with a Merkle tree.
  pub data HasTree : FdConfig F → List ℕ → Type 0 where
    in_file :
        {file tree_file : F} {alt_signature : Option F} {tree : List ℕ}
        → IsFile host tree_file tree
        → HasTree (readonly file (some tree_file) alt_signature) tree
    in_kernel :
        {file : F} {alt_signature : Option F} {tree : List ℕ}
        → KernelTree file tree
        → HasTree (readonly file none alt_signature) tree

  truncated-filled : (bytes rest : List ℕ) → truncated (ok (length bytes), bytes ++ rest) ≡ ok bytes
  unfolding truncated
  truncated-filled bytes rest = ap ok (take-append_length bytes rest)

  kernel_tree :
      (file : F) (tree : List ℕ) (size offset : ℕ)
      → KernelTree file tree
      → truncated (read_merkle_tree host.read_verity_metadata file offset (replicate size 0))
        ≡ ok (take (min (length tree - offset) size) (drop offset tree))
  unfolding read_merkle_tree read_metadata
  kernel_tree file tree size offset k =
      let zeros : List ℕ = replicate size 0 in
      let arg : FsverityReadMetadataArg = record {
        metadata_type = 1;
        offset = offset;
        length = length zeros;
        reserved = 0;
      } in
      let n = min (length tree - offset) (length zeros) in
      let bytes = take n (drop offset tree) in
      let count : n ≡ length bytes =
        omega (arith, length-take n (drop offset tree), length-drop offset tree) in
      let same : n ≡ min (length tree - offset) size =
        omega (arith, length-replicate {A = ℕ} size 0) in
      ap (λ (r : Outcome NixError ℕ × List ℕ). truncated (io_result r.0, r.1))
        (k.read_lem arg zeros refl refl)
      ∙ (ap (λ m. truncated (ok m, bytes ++ drop n zeros)) count
          ∙ (truncated-filled bytes (drop n zeros) ∙ ap (λ m. ok (take m (drop offset tree))) same))

  merkle_tree_of-HasTree :
      (config : FdConfig F) (tree : List ℕ) (size offset : ℕ)
      → HasTree config tree
      → merkle_tree_of host config size offset
        ≡ ok (take (min (length tree - offset) size) (drop offset tree))
  merkle_tree_of-HasTree config tree size offset (in_file {tree_file = tree_file} f) =
      rw (read_into_buf_lem host tree_file tree size offset f) refl
  merkle_tree_of-HasTree config tree size offset (in_kernel {file = file} k) =
      kernel_tree file tree size offset k

  read_fsverity_merkle_tree_lem :
      (fd_pool : FdService F) (id : ℕ) (config : FdConfig F) (tree : List ℕ) (offset size : ℕ)
      → Handles.get fd_pool id ≡ some config
      → HasTree config tree
      → size ≤ max_requesting_data
      → read_fsverity_merkle_tree host fd_pool id (pos offset) (pos size)
        ≡ ok (take (min (length tree - offset) size) (drop offset tree))
  unfolding read_fsverity_merkle_tree get_file_config validate_and_cast_size
      validate_and_cast_offset
  read_fsverity_merkle_tree_lem fd_pool id config tree offset size at h small =
      rw (few_enough size small, at, merkle_tree_of-HasTree config tree size offset h) refl

  -- A chunk of the tree that authfs reads is the chunk of the tree that is served.
  pub read_tree_chunk-HasTree :
      (fd_pool : FdService F) (id : ℕ) (config : FdConfig F) (tree : List ℕ) (index : ℕ)
      (buf : List ℕ)
      → Handles.get fd_pool id ≡ some config
      → HasTree config tree
      → index * chunk_size < 2 ^ 63
      → length buf ≤ max_requesting_data
      → read_tree_chunk (connected host id) fd_pool index buf
        ≡ ok (
          min (length tree - index * chunk_size) (length buf),
          take
                (min (length tree - index * chunk_size) (length buf))
                (drop (index * chunk_size) tree)
              ++ drop (min (length tree - index * chunk_size) (length buf)) buf,
        )
  unfolding read_tree_chunk
  read_tree_chunk-HasTree fd_pool id config tree index buf at h fits small =
      rw
        (
          no_wrap (index * chunk_size) fits,
          i64_of_small (index * chunk_size) fits,
          read_fsverity_merkle_tree_lem fd_pool id config tree (index * chunk_size) (length buf) at
              h small,
        )
        (ap ok (copy_reply_lem host buf tree (index * chunk_size)))
