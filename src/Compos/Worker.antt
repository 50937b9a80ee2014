-- ===== src/Compos/Worker.antt =====
-- compos/src/compsvc_worker.rs: the worker that mounts authfs and runs a task with the mounted files
-- as its descriptors. What clap reads of the command line is a parameter.
use android_packages_modules.Common.{
  ℕ, zero, suc, ◌*◌, ℤ, pos, Bool, true, false, Option, none, some, List, [], ◌∷◌, ◌++◌, map,
  Outcome, ok, err, panic, stuck, ◌>>=◌, ok_or, map_err, map_ok, take, drop, ltb, ◌==◌,
  if◌then◌else◌,
}
use android_packages_modules.File.{IoError}
use android_packages_modules.Text.{Bytes, codes, show_nat, show_int, parse_u64, parse_i32, colon}
use android_packages_modules.Compos.{
  MinijailError, return_code, killed, other, Minijail, inherited_fds, push_options,
}

pub data WorkerError : Type 0 where
  invalid_argument parse_int_error time_out_mounting_authfs : WorkerError
  statfs_error io : IoError → WorkerError
  jail : MinijailError → WorkerError

abbrev pub authfs_bin : Bytes
authfs_bin = codes "/apex/com.android.virt/bin/authfs"

abbrev pub authfs_setup_poll_interval_ms : ℕ
authfs_setup_poll_interval_ms = 50

-- In milliseconds.
abbrev pub authfs_setup_timeout_sec : ℕ
authfs_setup_timeout_sec = 10 * 1000

abbrev pub fuse_super_magic : ℕ
fuse_super_magic = 1702057286

pub record InFdAnnotation : Type 0 where
  pub fd : ℤ
  pub file_size : ℕ

pub record OutFdAnnotation : Type 0 where
  pub fd : ℤ

pub record Config : Type 0 where
  pub authfs_root : Bytes
  pub in_fds : List InFdAnnotation
  pub out_fds : List OutFdAnnotation
  pub args : List Bytes
  pub debuggable : Bool

-- The values that clap found for each option; an option that is absent has none.
pub record ArgMatches : Type 0 where
  pub authfs_root : Bytes
  pub in_fd : List Bytes
  pub out_fd : List Bytes
  pub debug : Bool
  pub args : List Bytes

abbrev next_index : Option ℕ → Option ℕ
next_index none = none
next_index (some i) = some (suc i)

-- `find(':')`
unfoldable pub find_colon : Bytes → Option ℕ
find_colon [] = none
find_colon (c ∷ rest) =
    let found = next_index (find_colon rest) in if c == colon then some 0 else found

-- `split_at(index)`, and the second part without its colon.
abbrev pub in_fd_at : Bytes → Option ℕ → Outcome WorkerError InFdAnnotation
in_fd_at arg none = err invalid_argument
in_fd_at arg (some index) = do
  fd ← ok_or (parse_i32 (take index arg)) parse_int_error
  file_size ← ok_or (parse_u64 (drop 1 (drop index arg))) parse_int_error
  ok (record { fd = fd; file_size = file_size })

unfoldable pub parse_in_fd : Bytes → Outcome WorkerError InFdAnnotation
parse_in_fd arg = in_fd_at arg (find_colon arg)

unfoldable pub parse_out_fd : Bytes → Outcome WorkerError OutFdAnnotation
parse_out_fd arg = do fd ← ok_or (parse_i32 arg) parse_int_error; ok (record { fd = fd })

unfoldable pub parse_args : ArgMatches → Outcome WorkerError Config
parse_args matches = do
  in_fds ← map_ok parse_in_fd matches.in_fd
  out_fds ← map_ok parse_out_fd matches.out_fd
  ok (record {
    authfs_root = matches.authfs_root;
    in_fds = in_fds;
    out_fds = out_fds;
    args = matches.args;
    debuggable = matches.debug;
  })

abbrev pub in_fd_option : InFdAnnotation → Bytes
in_fd_option conf =
    show_int conf.fd ++ (colon ∷ show_int conf.fd ++ (colon ∷ show_nat conf.file_size))

abbrev pub out_fd_option : OutFdAnnotation → Bytes
out_fd_option conf = show_int conf.fd ++ (colon ∷ show_int conf.fd)

abbrev pub authfs_args : Config → List Bytes
authfs_args config =
    authfs_bin
    ∷ config.authfs_root
    ∷ push_options (codes "--remote-ro-file-unverified") in_fd_option config.in_fds
        (push_options (codes "--remote-new-rw-file") out_fd_option config.out_fds [])

-- A poll sees the type of the mounted file system and, afterwards, the time since the first poll.
pub record Polls : Type 0 where
  pub filesystem_type : ℕ → Outcome IoError ℕ
  pub elapsed : ℕ → ℕ

unfoldable pub is_fuse : Polls → ℕ → Outcome WorkerError Bool
is_fuse polls i = do
  type ← map_err statfs_error (polls.filesystem_type i)
  ok (type == fuse_super_magic)

-- The loop from poll `i` on, for as many polls as there is fuel.
unfoldable pub wait_until_authfs_ready : Polls → ℕ → ℕ → Outcome WorkerError (Unit {0})
wait_until_authfs_ready polls zero i = stuck
wait_until_authfs_ready polls (suc fuel) i =
    let rest = wait_until_authfs_ready polls fuel (suc i) in
    is_fuse polls i >>= λ ready.
    if ready
    then ok tt
    else if ltb authfs_setup_timeout_sec (polls.elapsed i)
    then err time_out_mounting_authfs
    else rest

-- The files of the system: a path is opened for reading, and for writing too when `writable` is set.
pub record Files (H : Type 0) : Type 0 where
  pub open_path : Bytes → Bool → Outcome IoError H
  pub as_raw_fd : H → ℤ

module _ {H : Type 0} (files : Files H) where
  abbrev pub open_authfs_file : Bytes → ℤ → Bool → Outcome IoError H
  open_authfs_file authfs_root basename writable =
      files.open_path (authfs_root ++ (b'/' ∷ show_int basename)) writable

  -- A file and the number that it has in the task.
  abbrev pub open_mapped : Bytes → Bool → ℤ → Outcome IoError (H × ℤ)
  open_mapped authfs_root writable fd =
      open_authfs_file authfs_root fd writable >>= λ file. ok (file, fd)

  unfoldable pub open_authfs_files_for_mapping : Config → Outcome IoError (List (H × ℤ))
  open_authfs_files_for_mapping config = do
    inputs ← map_ok (λ conf. open_mapped config.authfs_root false conf.fd) config.in_fds
    outputs ← map_ok (λ conf. open_mapped config.authfs_root true conf.fd) config.out_fds
    ok (inputs ++ outputs)

  abbrev pub debug_fds : Bool → List (ℤ × ℤ)
  debug_fds debuggable = if debuggable then (pos 1, pos 1) ∷ (pos 2, pos 2) ∷ [] else []

  unfoldable pub preserve_fds : Bool → List (H × ℤ) → List (ℤ × ℤ)
  preserve_fds debuggable fd_mapping =
      map (λ entry. (files.as_raw_fd entry.0, entry.1)) fd_mapping ++ debug_fds debuggable

  module _ {J : Type 0} (jails : Minijail J) where
    unfoldable pub spawn_authfs : Config → Outcome WorkerError J
    spawn_authfs config = do
      authfs_jail ← map_err jail jails.new_jail
      map_err jail
          (jails.run authfs_jail authfs_bin (inherited_fds config.debuggable) (authfs_args config))

    -- `args[0]`
    abbrev pub run_task : Config → List (H × ℤ) → J → List Bytes → Outcome WorkerError J
    run_task config fd_mapping task_jail [] = panic
    run_task config fd_mapping task_jail (program ∷ rest) = map_err jail (
        jails.run_remap task_jail program (preserve_fds config.debuggable fd_mapping)
          (program ∷ rest))

    unfoldable pub spawn_jailed_task : Config → List (H × ℤ) → Outcome WorkerError J
    unfolding preserve_fds
    spawn_jailed_task config fd_mapping = do
      task_jail ← map_err jail jails.new_jail
      run_task config fd_mapping task_jail config.args

    -- The exit code of the worker.
    abbrev pub exit_of : Outcome MinijailError (Unit {0}) → Outcome WorkerError ℕ
    exit_of (ok _) = ok 0
    exit_of (err (return_code exit_code)) = ok exit_code
    exit_of (err (killed signal)) = err (jail (killed signal))
    exit_of (err other) = err (jail other)
    exit_of panic = panic
    exit_of stuck = stuck

    -- The part of `main` in which authfs runs.
    abbrev pub run_mounted : Polls → ℕ → Config → Outcome WorkerError ℕ
    run_mounted polls fuel config = wait_until_authfs_ready polls fuel 0 >>= λ ready.
        map_err io (open_authfs_files_for_mapping config) >>= λ fd_mapping.
        spawn_jailed_task config fd_mapping >>= λ task. exit_of (jails.wait task)

    -- The jail of authfs is killed at the end, after an error too.
    abbrev pub with_authfs :
        Polls → ℕ → Config → Outcome WorkerError J → Outcome WorkerError ℕ × List J
    with_authfs polls fuel config (ok authfs_jail) =
        (run_mounted polls fuel config, authfs_jail ∷ [])
    with_authfs polls fuel config (err e) = (err e, [])
    with_authfs polls fuel config panic = (panic, [])
    with_authfs polls fuel config stuck = (stuck, [])

    abbrev pub with_config : Polls → ℕ → Outcome WorkerError Config → Outcome WorkerError ℕ × List J
    with_config polls fuel (ok config) = with_authfs polls fuel config (spawn_authfs config)
    with_config polls fuel (err e) = (err e, [])
    with_config polls fuel panic = (panic, [])
    with_config polls fuel stuck = (stuck, [])

    -- The exit code, or the error that `main` returns, and the jails that were killed.
    unfoldable pub main : Polls → ℕ → ArgMatches → Outcome WorkerError ℕ × List J
    main polls fuel matches = with_config polls fuel (parse_args matches)
