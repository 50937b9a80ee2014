-- ===== src/AuthFs/Startup.antt =====
-- authfs/src/main.rs: the pool of files that the options name. The calls of the system and of the
-- remote service are parameters, with V the service.
pub mod Loops
pub mod Sources
pub mod Fresh
pub mod Running
mod Tests
use android_packages_modules.Common.{
  ℕ, ℤ, true, List, [], ◌∷◌, Outcome, ok, err, panic, stuck, ◌>>=◌, map_err,
}
use android_packages_modules.Crypto.{Sha256Ffi}
use android_packages_modules.File.{IoError}
use android_packages_modules.Fsverity.{FsverityError}
use android_packages_modules.Fsverity.Editor
use android_packages_modules.Fsverity.Verifier.{fake_authenticator}
use android_packages_modules.Fsverity.Verifier
use android_packages_modules.Handles.{HandleMap}
use android_packages_modules.Handles
use android_packages_modules.Remote.{
  LocalFileReader, LocalFile, VirtFdService, local_reader, remote_merkle_tree_reader,
  remote_file_reader,
}
use android_packages_modules.Remote
use android_packages_modules.Text.{Bytes}
use android_packages_modules.AuthFs.{
  Inode, FileConfig, local_verified_readonly_file, local_unverified_readonly_file,
  remote_verified_readonly_file, remote_unverified_readonly_file, remote_verified_new_file,
}
use android_packages_modules.AuthFs.Options.{
  Args, OptionRemoteRoFile, OptionRemoteRoFileUnverified, OptionRemoteRwFile, OptionLocalFileRo,
  OptionLocalRoFileUnverified,
}

pub data StartError : Type 0 where
  failed_to_read_signature : StartError
  io : IoError → StartError
  fsverity : FsverityError → StartError

-- `RemoteFileReader`, `RemoteMerkleTreeReader` and `RemoteFileEditor` have the same fields.
pub record RemoteFile (V : Type 0) : Type 0 where
  pub service : V
  pub file_fd : ℤ

-- `File::open`, `metadata()?.len()` with the reads at an offset, and `read_to_end`.
pub record Host (F : Type 0) : Type 0 where
  pub open_path : Bytes → Outcome IoError F
  pub local : LocalFile F
  pub read_to_end : F → Outcome IoError (List ℕ)

abbrev pub PoolFile : Type 0 → Type 0 → Type 0
PoolFile F V = FileConfig (LocalFileReader F) (RemoteFile V) (RemoteFile V) (RemoteFile V)

-- A loop of `prepare_file_pool`; `opened` is the file of a config, or the error that ends the loop.
unfoldable pub insert_files :
    {C A : Type 0}
    → (C → Inode)
    → (C → Outcome StartError A)
    → List C
    → HandleMap A
    → Outcome StartError (HandleMap A)
insert_files ino opened [] file_pool = ok file_pool
insert_files ino opened (config ∷ rest) file_pool = do
  file ← opened config
  insert_files ino opened rest (Handles.insert file_pool (ino config) file)

module _ {Ctx F V : Type 0} (ffi : Sha256Ffi Ctx) (host : Host F) (service : V)
    (read_signature : V → ℤ → Outcome StartError (List ℕ))
    (calls : VirtFdService (RemoteFile V)) where
  unfoldable pub new_config_remote_verified_file : ℤ → ℕ → Outcome StartError (PoolFile F V)
  new_config_remote_verified_file remote_id file_size = do
    signature ← map_err (λ e. failed_to_read_signature) (read_signature service remote_id)
    reader ← map_err fsverity (
        Verifier.new ffi (remote_file_reader calls) (remote_merkle_tree_reader calls)
          (fake_authenticator true) (record { service = service; file_fd = remote_id }) file_size
          signature (record { service = service; file_fd = remote_id }))
    ok (remote_verified_readonly_file reader file_size)

  abbrev pub new_config_remote_unverified_file : ℤ → ℕ → Outcome StartError (PoolFile F V)
  new_config_remote_unverified_file remote_id file_size = ok (
      remote_unverified_readonly_file (record { service = service; file_fd = remote_id }) file_size)

  unfoldable pub new_config_local_ro_file :
      Bytes → Bytes → Bytes → Outcome StartError (PoolFile F V)
  new_config_local_ro_file protected_file merkle_tree_dump signature = do
    file ← map_err io (host.open_path protected_file)
    file_size ← map_err io (host.local.len file)
    file_reader ← map_err io (Remote.new host.local file)
    dump ← map_err io (host.open_path merkle_tree_dump)
    merkle_tree_reader ← map_err io (Remote.new host.local dump)
    sig_file ← map_err io (host.open_path signature)
    sig ← map_err io (host.read_to_end sig_file)
    reader ← map_err fsverity (
        Verifier.new ffi (local_reader host.local) (local_reader host.local)
          (fake_authenticator true) file_reader file_size sig merkle_tree_reader)
    ok (local_verified_readonly_file reader file_size)

  unfoldable pub new_config_local_ro_file_unverified : Bytes → Outcome StartError (PoolFile F V)
  new_config_local_ro_file_unverified file_path = do
    file ← map_err io (host.open_path file_path)
    reader ← map_err io (Remote.new host.local file)
    ok (local_unverified_readonly_file reader reader.size)

  abbrev pub new_config_remote_new_verified_file : ℤ → Outcome StartError (PoolFile F V)
  new_config_remote_new_verified_file remote_id =
      ok (remote_verified_new_file (Editor.new (record { service = service; file_fd = remote_id })))

  -- What each of the loops opens for a config.
  abbrev pub open_remote_ro : OptionRemoteRoFile → Outcome StartError (PoolFile F V)
  open_remote_ro config = new_config_remote_verified_file config.remote_id config.file_size

  abbrev pub open_remote_ro_unverified :
      OptionRemoteRoFileUnverified → Outcome StartError (PoolFile F V)
  open_remote_ro_unverified config =
      new_config_remote_unverified_file config.remote_id config.file_size

  abbrev pub open_remote_new_rw : OptionRemoteRwFile → Outcome StartError (PoolFile F V)
  open_remote_new_rw config = new_config_remote_new_verified_file config.remote_id

  abbrev pub open_local_ro : OptionLocalFileRo → Outcome StartError (PoolFile F V)
  open_local_ro config =
      new_config_local_ro_file config.file_path config.merkle_tree_dump_path config.signature_path

  abbrev pub open_local_ro_unverified :
      OptionLocalRoFileUnverified → Outcome StartError (PoolFile F V)
  open_local_ro_unverified config = new_config_local_ro_file_unverified config.file_path

  unfoldable pub prepare_file_pool : Args → Outcome StartError (HandleMap (PoolFile F V))
  prepare_file_pool args = do
    remote_ro ← insert_files (λ c. c.ino) open_remote_ro args.remote_ro_file []
    remote_ro_unverified ←
        insert_files (λ c. c.ino) open_remote_ro_unverified args.remote_ro_file_unverified remote_ro
    remote_new_rw ←
        insert_files (λ c. c.ino) open_remote_new_rw args.remote_new_rw_file remote_ro_unverified
    local_ro ← insert_files (λ c. c.ino) open_local_ro args.local_ro_file remote_new_rw
    insert_files (λ c. c.ino) open_local_ro_unverified args.local_ro_file_unverified local_ro
