-- ===== src/Remote/Buffers.antt =====
-- The readers of authfs/src/file/ hand back buffers of a chunk's length, as the verifier expects.
use android_packages_modules.Common.{
  ℕ, ◌*◌, ◌%◌, ◌≡◌, sym, ap, ◌∙◌, min, List, Outcome, ok, ◌>>=◌, >>=-eq-ok, map_err, length, take,
  drop, replicate, arith, length-append, length-take, length-drop, length-replicate,
}
use android_packages_modules.Chunks.{chunk_size, u64_mod}
use android_packages_modules.File.{IoError, other}
use android_packages_modules.Fsverity.Verifier.Binding.{KeepsLength}
use android_packages_modules.Remote.{
  i64_of, copy_reply, VirtFdService, remote_read_chunk, read_tree_chunk, remote_file_reader,
  remote_merkle_tree_reader,
}

length-copy_reply : (buf chunk : List ℕ) → length (copy_reply buf chunk).1 ≡ length buf
length-copy_reply buf chunk =
    let size = min (length buf) (length chunk) in
    omega (
      arith,
      length-append (take size chunk) (drop size buf),
      length-take size chunk,
      length-drop size buf,
    )

copied :
    (buf : List ℕ) (reply : Outcome IoError (List ℕ)) (out : ℕ × List ℕ)
    → (reply >>= λ chunk. ok (copy_reply buf chunk)) ≡ ok out
    → length out.1 ≡ length buf
copied buf reply out h =
    let (chunk, _, e) = >>=-eq-ok reply _ h in
    let same : copy_reply buf chunk ≡ out = cc e in
    ap (λ (o : ℕ × List ℕ). length o.1) (sym same) ∙ length-copy_reply buf chunk

abbrev zero_byte : ℕ
zero_byte = 0

module _ {S : Type 0} (service : VirtFdService S) where
  -- Whatever the service replies to a read of a file, the buffer keeps its length.
  pub remote_file_reader-KeepsLength : KeepsLength (remote_file_reader service)
  remote_file_reader-KeepsLength = record {
    keeps = λ self index size bytes h.
        let buf = replicate chunk_size zero_byte in
        let (offset, _, more) = unfolded self index buf (size, bytes) h in
        copied buf (map_err (λ e. other) (service.read_file self offset (length buf))) (size, bytes)
          more
        ∙ length-replicate chunk_size zero_byte;
  }
    where
      unfolded :
          (self : S) (index : ℕ) (buf : List ℕ) (out : ℕ × List ℕ)
          → remote_read_chunk service self index buf ≡ ok out
          → (offset : ℕ) × (i64_of (index * chunk_size % u64_mod) ≡ ok offset)
            × ((map_err (λ e. other) (service.read_file self offset (length buf)) >>= λ chunk.
                  ok (copy_reply buf chunk))
                ≡ ok out)
      unfolded self index buf out h =
          >>=-eq-ok (i64_of (index * chunk_size % u64_mod)) _ (unfold remote_read_chunk in h)

  -- Whatever the service replies to a read of a Merkle tree, the buffer keeps its length: what the
  -- verifier's theorems ask of the tree's reader.
  pub remote_merkle_tree_reader-KeepsLength : KeepsLength (remote_merkle_tree_reader service)
  remote_merkle_tree_reader-KeepsLength = record {
    keeps = λ self index size bytes h.
        let buf = replicate chunk_size zero_byte in
        let (offset, _, more) = unfolded self index buf (size, bytes) h in
        copied buf
          (map_err (λ e. other) (service.read_fsverity_merkle_tree self offset (length buf)))
          (size, bytes) more
        ∙ length-replicate chunk_size zero_byte;
  }
    where
      unfolded :
          (self : S) (index : ℕ) (buf : List ℕ) (out : ℕ × List ℕ)
          → read_tree_chunk service self index buf ≡ ok out
          → (offset : ℕ) × (i64_of (index * chunk_size % u64_mod) ≡ ok offset)
            × ((map_err (λ e. other) (service.read_fsverity_merkle_tree self offset (length buf))
                  >>= λ chunk. ok (copy_reply buf chunk))
                ≡ ok out)
      unfolded self index buf out h =
          >>=-eq-ok (i64_of (index * chunk_size % u64_mod)) _ (unfold read_tree_chunk in h)
