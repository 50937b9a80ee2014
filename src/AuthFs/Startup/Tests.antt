-- ===== src/AuthFs/Startup/Tests.antt =====
-- A pool of one file of each remote kind.
use android_packages_modules.Common.{
  ℕ, ℤ, pos, ◌+◌, ◌<◌, ◌⊎◌, ap, arith, All, true, ◌≡◌, refl, false, List, [], ◌∷◌, Outcome, ok, err,
  length,
}
use android_packages_modules.Crypto.Toy.{toy, toy_digest, toy-IsSha256}
use android_packages_modules.Chunks.{u64_mod}
use android_packages_modules.File.{IoError, os}
use android_packages_modules.Fsverity.Editor
use android_packages_modules.Handles.{HandleMap}
use android_packages_modules.Remote
use android_packages_modules.Remote.{VirtFdService, LocalFileReader}
use android_packages_modules.AuthFs.{
  AuthFs, local_unverified_readonly_file, remote_unverified_readonly_file, remote_verified_new_file,
}
use android_packages_modules.AuthFs.Options.{Args}
use android_packages_modules.AuthFs.Startup.{
  StartError, failed_to_read_signature, RemoteFile, Host, PoolFile, insert_files,
  new_config_local_ro_file_unverified, prepare_file_pool,
}
use android_packages_modules.AuthFs.Startup.Sources.{Complete, Opened, prepare_file_pool-Opened}
use android_packages_modules.AuthFs.Startup.Loops.{Holds}
use android_packages_modules.AuthFs.Startup.Fresh.{no_content}
use android_packages_modules.AuthFs.Startup.Running.{run, prepare_file_pool-Effects}
use android_packages_modules.AuthFs.Sessions.{
  Call, Small, Contents, Effects, Follows, write, set_attributes,
}
use android_packages_modules.Crypto.Digest.{Collision}

abbrev calls : VirtFdService (RemoteFile ℕ)
calls = record {
  read_file = λ file offset size. ok [];
  read_fsverity_merkle_tree = λ file offset size. ok [];
  write_file = λ file buf offset. (ok (pos (length buf)), file);
  resize = λ file size. (ok tt, file);
}

abbrev host : Host ℕ
host = record {
  open_path = λ path. ok 0;
  local = record { len = λ file. ok 0; read_exact_at = λ file size offset. err (os 5) };
  read_to_end = λ file. ok [];
}

abbrev no_signature : ℕ → ℤ → Outcome StartError (List ℕ)
no_signature service id = err failed_to_read_signature

abbrev args : Args
args = record {
  mount_point = [];
  remote_ro_file = [];
  remote_ro_file_unverified = record { ino = 7; remote_id = pos 7; file_size = 30 } ∷ [];
  remote_new_rw_file = record { ino = 8; remote_id = pos 8 } ∷ [];
  local_ro_file = [];
  local_ro_file_unverified = record { ino = 9; file_path = [] } ∷ [];
  debug = false;
}

abbrev remote : ℕ → RemoteFile ℕ
remote n = record { service = 1; file_fd = pos n }

abbrev pool : HandleMap (PoolFile ℕ ℕ)
pool =
    (9, local_unverified_readonly_file (record { file = 0; size = 0 }) 0)
    ∷ (8, remote_verified_new_file (Editor.new (remote 8)))
    ∷ (7, remote_unverified_readonly_file (remote 7) 30)
    ∷ []

pool_of_args : prepare_file_pool toy host 1 no_signature calls args ≡ ok pool
unfolding prepare_file_pool insert_files new_config_local_ro_file_unverified Remote.new
pool_of_args = refl

prepare_file_pool-Opened_example :
    Complete args pool × Holds (Opened toy host 1 no_signature calls args) pool
prepare_file_pool-Opened_example =
    prepare_file_pool-Opened toy host 1 no_signature calls args pool_of_args

abbrev requests : List Call
requests =
    write 8 (ok (1 ∷ 2 ∷ 3 ∷ [])) 4095
    ∷ set_attributes 8 4097 (record { size = true; mode = false; uid = false; gid = false })
    ∷ write 7 (ok (4 ∷ [])) 0
    ∷ []

small_bytes :
    (xs : List ℕ) (offset : ℕ)
    → offset + length xs < u64_mod
    → (bytes : List ℕ) → ◌≡◌ {A = Outcome IoError (List ℕ)} (ok xs) (ok bytes)
    → offset + length bytes < u64_mod
small_bytes xs offset h bytes e =
    let same : xs ≡ bytes = cc e in
    let count : length xs ≡ length bytes = ap length same in omega arith

requests-Small : All Small requests
requests-Small = (
  small_bytes (1 ∷ 2 ∷ 3 ∷ []) 4095 (omega arith),
  (omega arith, (small_bytes (4 ∷ []) 0 (omega arith), tt)),
)

abbrev first_state : AuthFs (LocalFileReader ℕ) (RemoteFile ℕ) (RemoteFile ℕ) (RemoteFile ℕ)
first_state = record { file_pool = pool; max_write = 65536 }

prepare_file_pool-Effects_example :
    let (replies, self) = run toy host calls requests first_state in
    ((after : Contents) × Effects requests replies (λ inode. no_content) after
      × Follows toy_digest self after)
    ⊎ Collision toy_digest
prepare_file_pool-Effects_example =
    prepare_file_pool-Effects toy-IsSha256 host 1 no_signature calls args 65536 requests
      requests-Small pool_of_args
