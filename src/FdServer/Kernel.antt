-- ===== src/FdServer/Kernel.antt =====
-- authfs/fd_server/src/fsverity.rs: the fs-verity metadata that the kernel keeps for a file. The ioctl
-- that `ioctl_readwrite!` declares is a parameter.
use android_packages_modules.Common.{ℕ, List, Outcome, ok, err, panic, stuck, length}
use android_packages_modules.File.{IoError, os}

abbrev pub fs_verity_metadata_type_merkle_tree : ℕ
fs_verity_metadata_type_merkle_tree = 1

abbrev pub fs_verity_metadata_type_signature : ℕ
fs_verity_metadata_type_signature = 3

-- Without the address of the buffer, which the call is handed.
pub record FsverityReadMetadataArg : Type 0 where
  pub metadata_type : ℕ
  pub offset : ℕ
  pub length : ℕ
  pub reserved : ℕ

-- `nix::Error`: the number of a system call's error, or an error of nix itself.
pub data NixError : Type 0 where
  sys : ℕ → NixError
  not_sys : NixError

-- The number that the call returns, or its error, and the buffer after it.
abbrev pub ReadVerityMetadata : Type 0 → Type 0
ReadVerityMetadata F = F → FsverityReadMetadataArg → List ℕ → Outcome NixError ℕ × List ℕ

-- The `map_err` of `read_metadata`, with its branch that is `unreachable!`.
abbrev pub io_result : Outcome NixError ℕ → Outcome IoError ℕ
io_result (ok n) = ok n
io_result (err (sys errno)) = err (os errno)
io_result (err not_sys) = panic
io_result panic = panic
io_result stuck = stuck

module _ {F : Type 0} (read_verity_metadata : ReadVerityMetadata F) where
  unfoldable pub read_metadata : F → ℕ → ℕ → List ℕ → Outcome IoError ℕ × List ℕ
  read_metadata fd metadata_type offset buf =
      let arg : FsverityReadMetadataArg = record {
        metadata_type = metadata_type;
        offset = offset;
        length = length buf;
        reserved = 0;
      } in
      let (result, filled) = read_verity_metadata fd arg buf in (io_result result, filled)

  unfoldable pub read_merkle_tree : F → ℕ → List ℕ → Outcome IoError ℕ × List ℕ
  unfolding read_metadata
  read_merkle_tree fd offset buf = read_metadata fd fs_verity_metadata_type_merkle_tree offset buf

  unfoldable pub read_signature : F → List ℕ → Outcome IoError ℕ × List ℕ
  unfolding read_metadata
  read_signature fd buf = read_metadata fd fs_verity_metadata_type_signature 0 buf
