-- ===== src/Remote/Served.antt =====
-- The reads of authfs/src/file/remote_file.rs from the service of authfs/fd_server/src/main.rs.
use android_packages_modules.Common.{
  ℕ, zero, suc, [], ◌∷◌, ◌-◌, ◌*◌, ◌%◌, ◌^◌, ◌≤◌, ◌<◌, ◌≡◌, refl, ap, min, pos, some, List, ◌++◌,
  ok, map_err, ◌>>=◌, length, take, drop, arith, length-take, length-drop,
}
use android_packages_modules.Chunks.{chunk_size, u64_mod}
use android_packages_modules.File.{other}
use android_packages_modules.FdServer.{
  HostFile, FdConfig, FdService, file_of, max_requesting_data, read_into_buf, read_file,
  read_fsverity_merkle_tree, write_file, resize, get_file_config, validate_and_cast_size,
  validate_and_cast_offset,
}
use android_packages_modules.Handles
use android_packages_modules.Remote.{VirtFdService, i64_of, copy_reply, remote_read_chunk}

pub few_enough :
    (size : ℕ) → size ≤ max_requesting_data → validate_and_cast_size (pos size) ≡ ok size
unfolding validate_and_cast_size
few_enough size small = ground arith

pub no_wrap : (offset : ℕ) → offset < 2 ^ 63 → offset % u64_mod ≡ offset
no_wrap offset fits = omega arith

pub i64_of_small : (offset : ℕ) → offset < 2 ^ 63 → i64_of offset ≡ ok offset
i64_of_small offset fits = ground arith

take_twice {ℓ} : {A : Type ℓ} (n : ℕ) (xs : List A) → take n (take n xs) ≡ take n xs
take_twice zero xs = refl
take_twice (suc n) [] = refl
take_twice (suc n) (x ∷ xs) = ap (λ l. x ∷ l) (take_twice n xs)

module _ {F : Type 0} (host : HostFile F) where
  -- The calls of a file of authfs reach the service with the number of the file.
  abbrev pub connected : ℕ → VirtFdService (FdService F)
  connected id = record {
    read_file = λ fd_pool offset size.
        map_err (λ e. other) (read_file host fd_pool id (pos offset) (pos size));
    read_fsverity_merkle_tree = λ fd_pool offset size.
        map_err (λ e. other) (read_fsverity_merkle_tree host fd_pool id (pos offset) (pos size));
    write_file = λ fd_pool buf offset.
        let reply = write_file host fd_pool id buf (pos offset) in
        (map_err (λ e. other) reply.0 >>= λ size. ok (pos size), reply.1);
    resize = λ fd_pool size.
        let reply = resize host fd_pool id (pos size) in (map_err (λ e. other) reply.0, reply.1);
  }

  -- What the system is documented to do with a file of the host.
  pub record IsFile (file : F) (content : List ℕ) : Type 0 where
    pub len_lem : host.len file ≡ ok (length content)
    pub read_exact_at_lem :
        (size offset : ℕ)
        → size ≤ length content - offset
        → host.read_exact_at file size offset ≡ ok (take size (drop offset content))

  pub read_into_buf_lem :
      (file : F) (content : List ℕ) (size offset : ℕ)
      → IsFile file content
      → read_into_buf host file size offset
        ≡ ok (take (min (length content - offset) size) (drop offset content))
  unfolding read_into_buf
  read_into_buf_lem file content size offset f =
      rw (f.len_lem, f.read_exact_at_lem (min (length content - offset) size) offset (omega arith))
        refl

  read_file_lem :
      (fd_pool : FdService F) (id : ℕ) (config : FdConfig F) (content : List ℕ) (offset size : ℕ)
      → Handles.get fd_pool id ≡ some config
      → IsFile (file_of host config) content
      → size ≤ max_requesting_data
      → read_file host fd_pool id (pos offset) (pos size)
        ≡ ok (take (min (length content - offset) size) (drop offset content))
  unfolding read_file get_file_config validate_and_cast_size validate_and_cast_offset
  read_file_lem fd_pool id config content offset size at f small =
      rw (few_enough size small, at, read_into_buf_lem (file_of host config) content size offset f)
        refl

  pub copy_reply_lem :
      (buf content : List ℕ) (offset : ℕ)
      → copy_reply buf (take (min (length content - offset) (length buf)) (drop offset content)) ≡ (
        min (length content - offset) (length buf),
        take (min (length content - offset) (length buf)) (drop offset content)
            ++ drop (min (length content - offset) (length buf)) buf,
      )
  copy_reply_lem buf content offset =
      let n = min (length content - offset) (length buf) in
      let chunk = take n (drop offset content) in
      let size : min (length buf) (length chunk) ≡ n =
        omega (arith, length-take n (drop offset content), length-drop offset content) in
      let whole : take n chunk ≡ chunk = take_twice n (drop offset content) in rw (size, whole) refl

  -- A chunk that authfs reads from a file that fd_server serves is the chunk of the file's content, as
  -- much of it as there is, in front of what the buffer held. The offset is an i64 and the buffer is
  -- not longer than the service allows.
  pub remote_read_chunk-IsFile :
      (fd_pool : FdService F) (id : ℕ) (config : FdConfig F) (content : List ℕ) (index : ℕ)
      (buf : List ℕ)
      → Handles.get fd_pool id ≡ some config
      → IsFile (file_of host config) content
      → index * chunk_size < 2 ^ 63
      → length buf ≤ max_requesting_data
      → remote_read_chunk (connected id) fd_pool index buf
        ≡ ok (
          min (length content - index * chunk_size) (length buf),
          take
                (min (length content - index * chunk_size) (length buf))
                (drop (index * chunk_size) content)
              ++ drop (min (length content - index * chunk_size) (length buf)) buf,
        )
  unfolding remote_read_chunk
  remote_read_chunk-IsFile fd_pool id config content index buf at f fits small =
      rw
        (
          no_wrap (index * chunk_size) fits,
          i64_of_small (index * chunk_size) fits,
          read_file_lem fd_pool id config content (index * chunk_size) (length buf) at f small,
        )
        (ap ok (copy_reply_lem buf content (index * chunk_size)))
