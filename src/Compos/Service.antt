-- ===== src/Compos/Service.antt =====
-- compos/src/compsvc.rs: the service that runs a worker for a request.
use android_packages_modules.Common.{
  ℤ, pos, Bool, List, [], ◌∷◌, ◌++◌, Outcome, ok, err, panic, stuck, ◌>>=◌, if◌then◌else◌,
}
use android_packages_modules.Text.{Bytes, codes, show_int, colon}
use android_packages_modules.Compos.{
  InputFdAnnotation, OutputFdAnnotation, Metadata, MinijailError, return_code, killed, other,
  Minijail, inherited_fds, push_options,
}

pub data StatusCode : Type 0 where
  failed_transaction unknown_error : StatusCode

abbrev pub worker_bin : Bytes
worker_bin = codes "/system/bin/compsvc_worker"

abbrev pub authfs_mountpoint : Bytes
authfs_mountpoint = codes "/data/local/tmp/authfs_mnt"

pub record CompService : Type 0 where
  pub worker_bin : Bytes
  pub task_bin : Bytes
  pub debuggable : Bool

-- What clap reads of the command line: `task_bin` and whether `debug` is present.
abbrev pub parse_args : Bytes → Bool → CompService
parse_args task_bin debug = record {
  worker_bin = worker_bin;
  task_bin = task_bin;
  debuggable = debug;
}

abbrev pub in_fd_value : InputFdAnnotation → Bytes
in_fd_value annotation = show_int annotation.fd ++ (colon ∷ show_int annotation.file_size)

abbrev pub out_fd_value : OutputFdAnnotation → Bytes
out_fd_value annotation = show_int annotation.fd

abbrev pub debug_flag : Bool → List Bytes → List Bytes
debug_flag debuggable rest = if debuggable then codes "--debug" ∷ rest else rest

abbrev pub worker_options : CompService → Metadata → List Bytes → List Bytes
worker_options self metadata task =
    worker_bin
    ∷ codes "--authfs-root"
    ∷ authfs_mountpoint
    ∷ push_options (codes "--in-fd") in_fd_value metadata.input_fd_annotations (
        push_options (codes "--out-fd") out_fd_value metadata.output_fd_annotations
          (debug_flag self.debuggable (codes "--" ∷ task)))

-- `args[1..]` panics when there are no arguments.
unfoldable pub build_worker_args :
    CompService → List Bytes → Metadata → Outcome StatusCode (List Bytes)
build_worker_args self [] metadata = panic
build_worker_args self (first ∷ rest) metadata =
    ok (worker_options self metadata (self.task_bin ∷ rest))

abbrev pub status_of : Outcome MinijailError (Unit {0}) → Outcome StatusCode ℤ
status_of (ok _) = ok (pos 0)
status_of (err (return_code exit_code)) = err failed_transaction
status_of (err (killed signal)) = err unknown_error
status_of (err other) = err unknown_error
status_of panic = panic
status_of stuck = stuck

module _ {J : Type 0} (jails : Minijail J) where
  unfoldable pub run_worker_in_jail_and_wait :
      CompService → List Bytes → Outcome MinijailError (Unit {0})
  run_worker_in_jail_and_wait self args = do
    jail ← jails.new_jail
    child ←
        jails.run (jails.namespace_vfs jail) self.worker_bin (inherited_fds self.debuggable) args
    jails.wait child

  unfoldable pub execute : CompService → List Bytes → Metadata → Outcome StatusCode ℤ
  unfolding build_worker_args run_worker_in_jail_and_wait
  execute self args metadata = do
    worker_args ← build_worker_args self args metadata
    status_of (run_worker_in_jail_and_wait self worker_args)
