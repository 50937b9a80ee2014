-- ===== src/Compos/Whole.antt =====
-- The programs of compos/src together: what pvm_exec reports of a task, and what authfs is told.
use android_packages_modules.Common.{
  ℕ, ◌^◌, ◌<◌, ◌≡◌, refl, ap, pos, List, [], ◌∷◌, map, Outcome, ok, err, panic, stuck, map_ok, Each,
  arith,
}
use android_packages_modules.Text.{Bytes, codes, show_int}
use android_packages_modules.AuthFs.Options.{
  OptionRemoteRoFileUnverified, OptionRemoteRwFile, parse_remote_ro_file_unverified_option,
  parse_remote_new_rw_file_option,
}
use android_packages_modules.AuthFs.Options.RoundTrip.{
  parse_remote_ro_file_unverified_option-printed, parse_remote_new_rw_file_option-printed,
}
use android_packages_modules.Compos.{
  MinijailError, return_code, killed, other, Minijail, push_options,
}
use android_packages_modules.Compos.Service.{
  CompService, build_worker_args, run_worker_in_jail_and_wait, execute,
}
use android_packages_modules.Compos.Worker.{
  InFdAnnotation, OutFdAnnotation, in_fd_option, out_fd_option, authfs_args, authfs_bin,
}
use android_packages_modules.Compos.Worker
use android_packages_modules.Compos.Exec.{
  ExecError, Descriptors, ArgMatches, binder_call_failed, exit_with, call_service, with_fd_server,
  with_config, spawn_fd_server, parse_args, main,
}
use android_packages_modules.Compos.Exec
use android_packages_modules.Compos.Arguments.{map_ok-values, push_options-map}

-- What authfs makes of a descriptor: the inode and the remote file have its number.
pub data IsReadOnly : InFdAnnotation → OptionRemoteRoFileUnverified → Type 0 where
  read_only :
      (fd size : ℕ)
      → fd < 2 ^ 31
      → size < 2 ^ 64
      → IsReadOnly
          (record { fd = pos fd; file_size = size })
          (record { ino = fd; remote_id = pos fd; file_size = size })

pub data IsWritable : OutFdAnnotation → OptionRemoteRwFile → Type 0 where
  writable :
      (fd : ℕ)
      → fd < 2 ^ 31
      → IsWritable (record { fd = pos fd }) (record { ino = fd; remote_id = pos fd })

in_fd_option-parsed :
    (conf : InFdAnnotation) (option : OptionRemoteRoFileUnverified)
    → IsReadOnly conf option
    → parse_remote_ro_file_unverified_option (in_fd_option conf) ≡ ok option
unfolding show_int
in_fd_option-parsed conf option (read_only fd size hf hs) =
    parse_remote_ro_file_unverified_option-printed fd (pos fd) size (omega arith) hf hs

out_fd_option-parsed :
    (conf : OutFdAnnotation) (option : OptionRemoteRwFile)
    → IsWritable conf option
    → parse_remote_new_rw_file_option (out_fd_option conf) ≡ ok option
unfolding show_int
out_fd_option-parsed conf option (writable fd hf) =
    parse_remote_new_rw_file_option-printed fd (pos fd) (omega arith) hf

-- The command line of authfs has an option for each descriptor, in order, and authfs reads from it an
-- inode and a remote file of the descriptor's number, with its size: the inputs as read-only files, the
-- outputs as new files. The descriptors and sizes are those of files.
pub authfs_args-parsed :
    (config : Worker.Config) (inputs : List OptionRemoteRoFileUnverified)
    (outputs : List OptionRemoteRwFile)
    → Each IsReadOnly config.in_fds inputs
    → Each IsWritable config.out_fds outputs
    → (in_values : List Bytes) × (out_values : List Bytes) × (authfs_args config
        ≡ authfs_bin
          ∷ config.authfs_root
          ∷ push_options
              (codes "--remote-ro-file-unverified")
              (λ v. v)
              in_values
              (push_options (codes "--remote-new-rw-file") (λ v. v) out_values []))
      × (map_ok parse_remote_ro_file_unverified_option in_values ≡ ok inputs)
      × (map_ok parse_remote_new_rw_file_option out_values ≡ ok outputs)
authfs_args-parsed config inputs outputs ins outs = (
  map in_fd_option config.in_fds,
  map out_fd_option config.out_fds,
  rw
      (
        push_options-map (codes "--remote-ro-file-unverified") in_fd_option config.in_fds,
        push_options-map (codes "--remote-new-rw-file") out_fd_option config.out_fds,
      )
      refl,
  map_ok-values parse_remote_ro_file_unverified_option in_fd_option in_fd_option-parsed ins,
  map_ok-values parse_remote_new_rw_file_option out_fd_option out_fd_option-parsed outs,
)

-- What pvm_exec makes of the end of the worker.
abbrev pub reported : Outcome MinijailError (Unit {0}) → Outcome ExecError ℕ
reported (ok _) = ok 0
reported (err e) = err binder_call_failed
reported panic = err binder_call_failed
reported stuck = stuck

called-reported :
    {J : Type 0} (jails : Minijail J) (self : CompService) (config : Exec.Config)
    (line : List Bytes) (result : Outcome MinijailError (Unit {0}))
    → build_worker_args self config.args config.metadata ≡ ok line
    → run_worker_in_jail_and_wait jails self line ≡ result
    → call_service jails (execute jails self) config ≡ reported result
unfolding execute
called-reported jails self config line (ok _) built ended = rw (built, ended) refl
called-reported jails self config line (err (return_code n)) built ended = rw (built, ended) refl
called-reported jails self config line (err (killed n)) built ended = rw (built, ended) refl
called-reported jails self config line (err other) built ended = rw (built, ended) refl
called-reported jails self config line panic built ended = rw (built, ended) refl
called-reported jails self config line stuck built ended = rw (built, ended) refl

-- Once pvm_exec has read its command line and started fd_server, it reports how the worker of the
-- service ended, and kills fd_server, however the worker ended: the code 0 when it ended well, and
-- otherwise an error, also for a worker that ended with an exit code.
pub main-run :
    {J K : Type 0} (jails : Minijail J) (service_jails : Minijail K) (self : CompService)
    (descriptors : Descriptors) (matches : ArgMatches) (config : Exec.Config) (jail : J)
    (line : List Bytes)
    → parse_args descriptors matches ≡ ok config
    → spawn_fd_server jails config.metadata config.debuggable ≡ ok jail
    → build_worker_args self config.args config.metadata ≡ ok line
    → main jails (execute service_jails self) descriptors matches
      ≡ (reported (run_worker_in_jail_and_wait service_jails self line), jail ∷ [])
unfolding main
main-run jails service_jails self descriptors matches config jail line parsed spawned built =
    rw (parsed, spawned)
      (ap (λ r. (r, jail ∷ []))
        (called-reported service_jails self config line
          (run_worker_in_jail_and_wait service_jails self line) built refl))
