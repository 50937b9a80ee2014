-- ===== src/Compos/Tests.antt =====
-- The programs of compos/src on small requests.
mod CommandLine
use android_packages_modules.Common.{
  ℕ, ◌+◌, ◌*◌, ◌≡◌, refl, inl, ℤ, pos, Bool, true, false, some, List, [], ◌∷◌, ◌++◌, Outcome, ok,
  err, Each, none_left, and_each, map_ok, leb, if◌then◌else◌, arith,
}
use android_packages_modules.Text.{Bytes, codes, parse_i32}
use android_packages_modules.AuthFs.Options.{
  OptionRemoteRoFileUnverified, OptionRemoteRwFile, parse_remote_ro_file_unverified_option,
  parse_remote_new_rw_file_option,
}
use android_packages_modules.Compos.{Metadata, MinijailError, return_code, Minijail, push_options}
use android_packages_modules.Compos.Service.{
  CompService, worker_options, build_worker_args, run_worker_in_jail_and_wait, execute,
}
use android_packages_modules.Compos.Worker.{
  InFdAnnotation, OutFdAnnotation, Config, Polls, Files, fuse_super_magic, authfs_bin, authfs_args,
  wait_until_authfs_ready, open_authfs_files_for_mapping,
}
use android_packages_modules.Compos.Worker
use android_packages_modules.Compos.Exec.{Descriptors, ArgMatches}
use android_packages_modules.Compos.Exec
use android_packages_modules.Compos.Mount.{Regular, Ends, wait_until_authfs_ready-Ends}
use android_packages_modules.Compos.Mapping.{Answers, Opens, open_authfs_files_for_mapping-Opens}
use android_packages_modules.Compos.Whole.{
  read_only, writable, authfs_args-parsed, reported, main-run,
}

-- authfs is mounted at the fourth poll.
abbrev polls : Polls
polls = record {
  filesystem_type = λ i. ok (if leb 3 i then fuse_super_magic else 0);
  elapsed = λ i. 50 * i + 1;
}

polls-Regular : Regular polls
polls-Regular = record { answers = λ i. inl (_, refl); slow = λ i. omega arith }

wait_until_authfs_ready-Ends_example : Ends polls (wait_until_authfs_ready polls 300 0)
wait_until_authfs_ready-Ends_example =
    wait_until_authfs_ready-Ends polls 300 polls-Regular (omega arith)

abbrev files : Files ℕ
files = record { open_path = λ path writable. ok 20; as_raw_fd = λ file. pos file }

abbrev config : Config
config = record {
  authfs_root = codes "/mnt";
  in_fds = record { fd = pos 3; file_size = 5 } ∷ [];
  out_fds = record { fd = pos 4 } ∷ [];
  args = codes "/system/bin/sleep" ∷ codes "10" ∷ [];
  debuggable = true;
}

files-Answers : Answers files
files-Answers path for_writing = inl (20, refl)

open_authfs_files_for_mapping-Opens_example :
    Opens files config (open_authfs_files_for_mapping files config)
open_authfs_files_for_mapping-Opens_example =
    open_authfs_files_for_mapping-Opens files config files-Answers

abbrev inputs : List OptionRemoteRoFileUnverified
inputs = record { ino = 3; remote_id = pos 3; file_size = 5 } ∷ []

abbrev outputs : List OptionRemoteRwFile
outputs = record { ino = 4; remote_id = pos 4 } ∷ []

authfs_args-parsed_example :
    (in_values : List Bytes) × (out_values : List Bytes) × (authfs_args config
      ≡ authfs_bin
        ∷ config.authfs_root
        ∷ push_options
            (codes "--remote-ro-file-unverified")
            (λ v. v)
            in_values
            (push_options (codes "--remote-new-rw-file") (λ v. v) out_values []))
    × (map_ok parse_remote_ro_file_unverified_option in_values ≡ ok inputs)
    × (map_ok parse_remote_new_rw_file_option out_values ≡ ok outputs)
authfs_args-parsed_example =
    authfs_args-parsed config inputs outputs
      (and_each (read_only 3 5 (omega arith) (omega arith)) none_left)
      (and_each (writable 4 (omega arith)) none_left)

-- Jails whose processes all end with `ended`.
abbrev jails : Outcome MinijailError (Unit {0}) → Minijail ℕ
jails ended = record {
  new_jail = ok 0;
  namespace_vfs = λ jail. jail;
  run = λ jail path fds args. ok 1;
  run_remap = λ jail path fds args. ok 2;
  wait = λ jail. ended;
}

abbrev service : CompService
service = record { worker_bin = codes "worker"; task_bin = codes "sleep"; debuggable = false }

abbrev descriptors : Descriptors
descriptors = record { get_flags = λ fd. ok (pos 1); st_size = λ fd. ok (pos 5) }

abbrev matches : ArgMatches
matches = record {
  in_fd = codes "3" ∷ [];
  out_fd = [];
  debug = false;
  args = codes "x" ∷ codes "10" ∷ [];
}

abbrev request : Exec.Config
request = record {
  args = codes "x" ∷ codes "10" ∷ [];
  metadata = record {
    input_fd_annotations = record { fd = pos 3; file_size = pos 5 } ∷ [];
    output_fd_annotations = [];
  };
  debuggable = false;
}

request_of_matches : Exec.parse_args descriptors matches ≡ ok request
unfolding Exec.parse_args map_ok Exec.parse_in_fd Exec.parse_arg_fd parse_i32
request_of_matches = refl

fd_server_started : Exec.spawn_fd_server (jails (ok tt)) request.metadata false ≡ ok 1
unfolding Exec.spawn_fd_server
fd_server_started = refl

abbrev command_line : List Bytes
command_line = worker_options service request.metadata (codes "sleep" ∷ codes "10" ∷ [])

command_line_of_request : build_worker_args service request.args request.metadata ≡ ok command_line
unfolding build_worker_args
command_line_of_request = refl

-- The task ends with the code 2.
failed_run :
    run_worker_in_jail_and_wait (jails (err (return_code 2))) service command_line
    ≡ err (return_code 2)
unfolding run_worker_in_jail_and_wait
failed_run = refl

main-run_example :
    Exec.main (jails (ok tt)) (execute (jails (err (return_code 2))) service) descriptors matches
    ≡ (
      reported (run_worker_in_jail_and_wait (jails (err (return_code 2))) service command_line),
      1 ∷ [],
    )
main-run_example =
    main-run (jails (ok tt)) (jails (err (return_code 2))) service descriptors matches request 1
      command_line request_of_matches fd_server_started command_line_of_request
