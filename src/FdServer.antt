-- ===== src/FdServer.antt =====
-- authfs/fd_server/src/main.rs: the service that serves files of the host by file descriptor. The
-- files and the fs-verity ioctls are parameters; a file descriptor is a natural number.
pub mod Sizes
pub mod Args
pub mod Kernel
mod Tests
use android_packages_modules.Common.{
  ℤ, pos, negsuc, ℕ, ◌-◌, ◌^◌, min, Option, none, some, Bool, true, false, List, Outcome, ok, err,
  panic, stuck, ◌>>=◌, ◌>>◌, ok_or, map_err, guard, ltb, leb, if◌then◌else◌, length, take,
  replicate,
}
use android_packages_modules.File.{IoError, os}
use android_packages_modules.FdServer.Kernel.{ReadVerityMetadata, read_merkle_tree, read_signature}
use android_packages_modules.Handles.{HandleMap}
use android_packages_modules.Handles

-- `Status`, by its exception, its status code or its service specific error.
pub data Status : Type 0 where
  illegal_argument unsupported_operation invalid_operation error_unknown_fd error_io : Status
  os_error : ℕ → Status

abbrev pub max_requesting_data : ℕ
max_requesting_data = 16384

-- The calls of the host's files: `read_exact_at` is handed the length of the buffer.
pub record HostFile (F : Type 0) : Type 0 where
  pub len : F → Outcome IoError ℕ
  pub read_exact_at : F → ℕ → ℕ → Outcome IoError (List ℕ)
  pub write_at : F → List ℕ → ℕ → Outcome IoError ℕ × F
  pub set_len : F → ℕ → Outcome IoError (Unit {0}) × F
  pub read_verity_metadata : ReadVerityMetadata F

unfoldable pub validate_and_cast_offset : ℤ → Outcome Status ℕ
validate_and_cast_offset (pos n) = ok n
validate_and_cast_offset (negsuc n) = err illegal_argument

unfoldable pub validate_and_cast_size : ℤ → Outcome Status ℕ
validate_and_cast_size (pos n) = if ltb max_requesting_data n then err illegal_argument else ok n
validate_and_cast_size (negsuc n) = err illegal_argument

-- A read-only file with its alternative Merkle tree and signature, or a writable file.
pub data FdConfig (F : Type 0) : Type 0 where
  readonly : F → Option F → Option F → FdConfig F
  read_write : F → FdConfig F

abbrev pub FdService : Type 0 → Type 0
FdService F = HandleMap (FdConfig F)

-- `Status::from(e.raw_os_error().unwrap_or(ERROR_IO))`
abbrev pub status_of : IoError → Status
status_of (os n) = os_error n
status_of _ = error_io

-- `buf.truncate(s)` of the buffer that the ioctl filled.
unfoldable pub truncated : Outcome IoError ℕ × List ℕ → Outcome Status (List ℕ)
truncated (result, buf) = do s ← map_err status_of result; ok (take s buf)

module _ {F : Type 0} (host : HostFile F) where
  unfoldable pub get_file_config : FdService F → ℕ → Outcome Status (FdConfig F)
  get_file_config fd_pool id = ok_or (Handles.get fd_pool id) error_unknown_fd

  unfoldable pub read_into_buf : F → ℕ → ℕ → Outcome IoError (List ℕ)
  read_into_buf file max_size offset = do
    len ← host.len file
    host.read_exact_at file (min (len - offset) max_size) offset

  abbrev pub file_of : FdConfig F → F
  file_of (readonly file alt_merkle_tree alt_signature) = file
  file_of (read_write file) = file

  unfoldable pub read_file : FdService F → ℕ → ℤ → ℤ → Outcome Status (List ℕ)
  unfolding validate_and_cast_size validate_and_cast_offset get_file_config read_into_buf
  read_file fd_pool id offset size = do
    max_size ← validate_and_cast_size size
    start ← validate_and_cast_offset offset
    config ← get_file_config fd_pool id
    map_err (λ e. error_io) (read_into_buf (file_of config) max_size start)

  abbrev pub merkle_tree_of : FdConfig F → ℕ → ℕ → Outcome Status (List ℕ)
  merkle_tree_of (readonly file (some tree_file) alt_signature) size offset =
      map_err (λ e. error_io) (read_into_buf tree_file size offset)
  merkle_tree_of (readonly file none alt_signature) size offset =
      truncated (read_merkle_tree host.read_verity_metadata file offset (replicate size 0))
  merkle_tree_of (read_write file) size offset = err unsupported_operation

  unfoldable pub read_fsverity_merkle_tree : FdService F → ℕ → ℤ → ℤ → Outcome Status (List ℕ)
  unfolding validate_and_cast_size validate_and_cast_offset get_file_config read_into_buf
  read_fsverity_merkle_tree fd_pool id offset size = do
    max_size ← validate_and_cast_size size
    start ← validate_and_cast_offset offset
    config ← get_file_config fd_pool id
    merkle_tree_of config max_size start

  abbrev pub signature_of : FdConfig F → Outcome Status (List ℕ)
  signature_of (readonly file alt_merkle_tree (some sig_file)) =
      map_err (λ e. error_io) (read_into_buf sig_file max_requesting_data 0)
  signature_of (readonly file alt_merkle_tree none) =
      truncated (read_signature host.read_verity_metadata file (replicate max_requesting_data 0))
  signature_of (read_write file) = err unsupported_operation

  unfoldable pub read_fsverity_signature : FdService F → ℕ → Outcome Status (List ℕ)
  unfolding get_file_config read_into_buf
  read_fsverity_signature fd_pool id = do config ← get_file_config fd_pool id; signature_of config

  abbrev put_file : FdService F → ℕ → F → FdService F
  put_file fd_pool id file = Handles.insert fd_pool id (read_write file)

  -- `buf.len() > i32::MAX` is refused, to make the cast of the written size safe.
  abbrev pub write_config :
      FdService F → ℕ → List ℕ → ℤ → FdConfig F → Outcome Status ℕ × FdService F
  write_config fd_pool id buf offset (readonly file alt_merkle_tree alt_signature) =
      (err invalid_operation, fd_pool)
  write_config fd_pool id buf (negsuc n) (read_write file) = (err illegal_argument, fd_pool)
  write_config fd_pool id buf (pos offset) (read_write file) =
      if ltb (2 ^ 31 - 1) (length buf) then (err illegal_argument, fd_pool) else (
        map_err (λ e. error_io) (host.write_at file buf offset).0,
        put_file fd_pool id (host.write_at file buf offset).1,
      )

  unfoldable pub write_file : FdService F → ℕ → List ℕ → ℤ → Outcome Status ℕ × FdService F
  write_file fd_pool id buf offset = elim (Handles.get fd_pool id) [
    | some config ↦ write_config fd_pool id buf offset config
    | none ↦ (err error_unknown_fd, fd_pool)
  ]

  abbrev pub resize_config :
      FdService F → ℕ → ℤ → FdConfig F → Outcome Status (Unit {0}) × FdService F
  resize_config fd_pool id size (readonly file alt_merkle_tree alt_signature) =
      (err invalid_operation, fd_pool)
  resize_config fd_pool id (negsuc n) (read_write file) = (err illegal_argument, fd_pool)
  resize_config fd_pool id (pos size) (read_write file) = (
    map_err (λ e. error_io) (host.set_len file size).0,
    put_file fd_pool id (host.set_len file size).1,
  )

  unfoldable pub resize : FdService F → ℕ → ℤ → Outcome Status (Unit {0}) × FdService F
  resize fd_pool id size = elim (Handles.get fd_pool id) [
    | some config ↦ resize_config fd_pool id size config
    | none ↦ (err error_unknown_fd, fd_pool)
  ]
