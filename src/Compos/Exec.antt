-- ===== src/Compos/Exec.antt =====
-- compos/src/pvm_exec.rs: the command that serves its descriptors to a remote task. What clap reads of
-- the command line, `fcntl` and `fstat` are parameters, and so is the remote service.
use android_packages_modules.Common.{
  ℕ, ℤ, pos, negsuc, Bool, true, false, List, [], ◌∷◌, ◌++◌, map, Outcome, ok, err, panic, stuck,
  ◌>>=◌, ok_or, map_err, map_ok, guard,
}
use android_packages_modules.Text.{Bytes, codes, show_int, parse_i32}
use android_packages_modules.Compos.{
  InputFdAnnotation, OutputFdAnnotation, Metadata, MinijailError, Minijail, inherited_fds,
  push_options,
}

pub data ExecError : Type 0 where
  parse_int_error bad_fd fcntl_error fstat_error binder_call_failed : ExecError
  jail : MinijailError → ExecError

abbrev pub fd_server_bin : Bytes
fd_server_bin = codes "/apex/com.android.virt/bin/fd_server"

pub record Config : Type 0 where
  pub args : List Bytes
  pub metadata : Metadata
  pub debuggable : Bool

-- The values that clap found for each option; an option that is absent has none.
pub record ArgMatches : Type 0 where
  pub in_fd : List Bytes
  pub out_fd : List Bytes
  pub debug : Bool
  pub args : List Bytes

-- `fcntl(fd, F_GETFD)` and the size of `fstat(fd)`; an error of theirs has no value.
pub record Descriptors : Type 0 where
  pub get_flags : ℤ → Outcome ExecError ℤ
  pub st_size : ℤ → Outcome ExecError ℤ

abbrev is_non_negative : ℤ → Bool
is_non_negative (pos n) = true
is_non_negative (negsuc n) = false

unfoldable pub is_fd_valid : Descriptors → ℤ → Outcome ExecError Bool
is_fd_valid descriptors fd = do retval ← descriptors.get_flags fd; ok (is_non_negative retval)

unfoldable pub parse_arg_fd : Descriptors → Bytes → Outcome ExecError ℤ
unfolding is_fd_valid
parse_arg_fd descriptors arg = do
  fd ← ok_or (parse_i32 arg) parse_int_error
  valid ← is_fd_valid descriptors fd
  checked ← guard valid bad_fd
  ok fd

unfoldable pub parse_in_fd : Descriptors → Bytes → Outcome ExecError InputFdAnnotation
parse_in_fd descriptors arg = do
  fd ← parse_arg_fd descriptors arg
  file_size ← descriptors.st_size fd
  ok (record { fd = fd; file_size = file_size })

unfoldable pub parse_out_fd : Descriptors → Bytes → Outcome ExecError OutputFdAnnotation
parse_out_fd descriptors arg = do fd ← parse_arg_fd descriptors arg; ok (record { fd = fd })

unfoldable pub parse_args : Descriptors → ArgMatches → Outcome ExecError Config
parse_args descriptors matches = do
  input_fd_annotations ← map_ok (parse_in_fd descriptors) matches.in_fd
  output_fd_annotations ← map_ok (parse_out_fd descriptors) matches.out_fd
  ok (record {
    args = matches.args;
    metadata = record {
      input_fd_annotations = input_fd_annotations;
      output_fd_annotations = output_fd_annotations;
    };
    debuggable = matches.debug;
  })

abbrev pub fd_server_args : Metadata → List Bytes
fd_server_args metadata =
    fd_server_bin
    ∷ push_options (codes "--ro-fds") (λ a. show_int a.fd) metadata.input_fd_annotations
        (push_options (codes "--rw-fds") (λ a. show_int a.fd) metadata.output_fd_annotations [])

abbrev pub inheritable_fds : Metadata → Bool → List ℤ
inheritable_fds metadata debuggable =
    inherited_fds debuggable
    ++ (map (λ a. a.fd) metadata.input_fd_annotations
        ++ map (λ a. a.fd) metadata.output_fd_annotations)

-- `as i32` of a byte that the service returns: only a positive one ends the program with a code.
abbrev pub exit_with : ℤ → ℕ
exit_with (pos exit_code) = exit_code
exit_with (negsuc n) = 0

-- What the caller gets of a call of the service, which is another process: its panic is an error of
-- the call.
abbrev binder_reply : {Status A : Type 0} → Outcome Status A → Outcome ExecError A
binder_reply (ok a) = ok a
binder_reply (err e) = err binder_call_failed
binder_reply panic = err binder_call_failed
binder_reply stuck = stuck

module _ {J : Type 0} (jails : Minijail J) where
  unfoldable pub spawn_fd_server : Metadata → Bool → Outcome ExecError J
  spawn_fd_server metadata debuggable = do
    fd_server_jail ← map_err jail jails.new_jail
    map_err jail (
        jails.run fd_server_jail fd_server_bin (inheritable_fds metadata debuggable)
          (fd_server_args metadata))

  -- `execute` is the call of the remote service; its error has no exit code.
  module _ {Status : Type 0} (execute : List Bytes → Metadata → Outcome Status ℤ) where
    abbrev pub call_service : Config → Outcome ExecError ℕ
    call_service config =
        binder_reply (execute config.args config.metadata) >>= λ exit_code. ok (exit_with exit_code)

    -- The jail of fd_server is killed after the call, when it fails too.
    abbrev pub with_fd_server : Config → Outcome ExecError J → Outcome ExecError ℕ × List J
    with_fd_server config (ok fd_server_jail) = (call_service config, fd_server_jail ∷ [])
    with_fd_server config (err e) = (err e, [])
    with_fd_server config panic = (panic, [])
    with_fd_server config stuck = (stuck, [])

    abbrev pub with_config : Outcome ExecError Config → Outcome ExecError ℕ × List J
    with_config (ok config) =
        with_fd_server config (spawn_fd_server config.metadata config.debuggable)
    with_config (err e) = (err e, [])
    with_config panic = (panic, [])
    with_config stuck = (stuck, [])

    -- The exit code, or the error that `main` returns, and the jails that were killed.
    unfoldable pub main : Descriptors → ArgMatches → Outcome ExecError ℕ × List J
    main descriptors matches = with_config (parse_args descriptors matches)
