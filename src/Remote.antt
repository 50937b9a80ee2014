-- ===== src/Remote.antt =====
-- authfs/src/file/local_file.rs and authfs/src/file/remote_file.rs: the readers and the writer behind
-- the handlers of authfs. A remote file is a state of the service, and its calls are parameters.
pub mod Buffers
pub mod Served
pub mod Tree
pub mod Verified
mod Tests
use android_packages_modules.Common.{
  ℕ, ℤ, pos, negsuc, ◌+◌, ◌-◌, ◌*◌, ◌%◌, ◌^◌, min, Bool, true, false, List, ◌++◌, Outcome, ok, err,
  panic, stuck, ◌>>=◌, ◌>>◌, map_err, guard, ltb, leb, if◌then◌else◌, length, take, drop,
}
use android_packages_modules.Chunks.{chunk_size, u64_mod}
use android_packages_modules.File.{IoError, os, other, eoverflow, ReadByChunk, RandomWrite}

pub record LocalFileReader (F : Type 0) : Type 0 where
  pub file : F
  pub size : ℕ

-- The calls of a file of the system.
pub record LocalFile (F : Type 0) : Type 0 where
  pub len : F → Outcome IoError ℕ
  pub read_exact_at : F → ℕ → ℕ → Outcome IoError (List ℕ)

module _ {F : Type 0} (host : LocalFile F) where
  unfoldable pub new : F → Outcome IoError (LocalFileReader F)
  new file = do size ← host.len file; ok (record { file = file; size = size })

  -- The first part of the buffer is read, the rest stays.
  abbrev pub read_local_part : LocalFileReader F → ℕ → ℕ → List ℕ → Outcome IoError (ℕ × List ℕ)
  read_local_part self start read_size buf =
      host.read_exact_at self.file read_size start >>= λ bytes.
      ok (read_size, bytes ++ drop read_size buf)

  unfoldable pub read_local_chunk : LocalFileReader F → ℕ → List ℕ → Outcome IoError (ℕ × List ℕ)
  read_local_chunk self chunk_index buf =
      let start = chunk_index * chunk_size % u64_mod in
      let end = min self.size ((start + chunk_size) % u64_mod) in
      let part = read_local_part self start (end - start) buf in
      if leb self.size start then ok (0, buf) else part

abbrev pub local_reader : {F : Type 0} → LocalFile F → ReadByChunk (LocalFileReader F)
local_reader host = record { read_chunk = read_local_chunk host }

abbrev i64_max : ℕ
i64_max = 2 ^ 63 - 1

-- `i64::try_from`
abbrev pub i64_of : ℕ → Outcome IoError ℕ
i64_of n = if leb n i64_max then ok n else err (os eoverflow)

-- The first bytes of the buffer are those of the reply; `size` is how many.
abbrev pub copy_reply : List ℕ → List ℕ → ℕ × List ℕ
copy_reply buf chunk =
    let size = min (length buf) (length chunk) in (size, take size chunk ++ drop size buf)

-- The calls of the service on one file descriptor; the error of a call is `other`, with its
-- description. `S` is the state of the service.
pub record VirtFdService (S : Type 0) : Type 0 where
  pub read_file : S → ℕ → ℕ → Outcome IoError (List ℕ)
  pub read_fsverity_merkle_tree : S → ℕ → ℕ → Outcome IoError (List ℕ)
  pub write_file : S → List ℕ → ℕ → Outcome IoError ℤ × S
  pub resize : S → ℕ → Outcome IoError (Unit {0}) × S

module _ {S : Type 0} (service : VirtFdService S) where
  unfoldable pub remote_read_chunk : S → ℕ → List ℕ → Outcome IoError (ℕ × List ℕ)
  remote_read_chunk self chunk_index buf = do
    offset ← i64_of (chunk_index * chunk_size % u64_mod)
    chunk ← map_err (λ e. other) (service.read_file self offset (length buf))
    ok (copy_reply buf chunk)

  unfoldable pub read_tree_chunk : S → ℕ → List ℕ → Outcome IoError (ℕ × List ℕ)
  read_tree_chunk self chunk_index buf = do
    offset ← i64_of (chunk_index * chunk_size % u64_mod)
    chunk ← map_err (λ e. other) (service.read_fsverity_merkle_tree self offset (length buf))
    ok (copy_reply buf chunk)

  abbrev pub remote_file_reader : ReadByChunk S
  remote_file_reader = record { read_chunk = remote_read_chunk }

  abbrev pub remote_merkle_tree_reader : ReadByChunk S
  remote_merkle_tree_reader = record { read_chunk = read_tree_chunk }

  -- The service's error becomes `other`.
  abbrev pub described : {A : Type 0} → Outcome IoError A × S → Outcome IoError A × S
  described (result, self) = (map_err (λ e. other) result, self)

  -- The service's i32, `as usize`.
  abbrev pub as_usize : ℤ → ℕ
  as_usize (pos n) = n
  as_usize (negsuc n) = u64_mod - 1 - n

  abbrev pub written_size : Outcome IoError ℤ × S → Outcome IoError ℕ × S
  written_size (result, self) = (result >>= λ size. ok (as_usize size), self)

  abbrev pub remote_write_at : S → List ℕ → ℕ → Outcome IoError ℕ × S
  remote_write_at self buf offset =
      let reply = written_size (described (service.write_file self buf offset)) in
      if leb offset i64_max then reply else (err (os eoverflow), self)

  abbrev pub remote_resize : S → ℕ → Outcome IoError (Unit {0}) × S
  remote_resize self size =
      let reply = described (service.resize self size) in
      if leb size i64_max then reply else (err (os eoverflow), self)

  abbrev pub remote_file_editor : RandomWrite S
  remote_file_editor = record { write_at = remote_write_at; resize = remote_resize }
