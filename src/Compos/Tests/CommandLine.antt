-- ===== src/Compos/Tests/CommandLine.antt =====
-- A reader of the worker's command line, and a request that goes through it.
use mathlib.Core.List.{append-nil}
use android_packages_modules.Common.{
  ◌≡◌, refl, ap, ◌∙◌, pos, Bool, true, false, Option, none, some, List, [], ◌∷◌, ◌++◌, ok,
  none_left, and_each, bytes_eq, if◌then◌else◌, arith,
}
use android_packages_modules.Text.{Bytes, codes}
use android_packages_modules.Compos.{Metadata, push_options}
use android_packages_modules.Compos.Service.{
  CompService, debug_flag, build_worker_args, authfs_mountpoint,
}
use android_packages_modules.Compos.Worker.{ArgMatches, parse_args}
use android_packages_modules.Compos.Arguments.{
  ReadsOptions, input, output, parse_args-build_worker_args,
}

data Flag : Type 0 where
  in_flag out_flag debug end_mark : Flag

abbrev flag : Bytes → Flag
flag arg =
    if bytes_eq arg (codes "--in-fd")
    then in_flag
    else if bytes_eq arg (codes "--out-fd")
    then out_flag
    else if bytes_eq arg (codes "--debug")
    then debug
    else end_mark

-- The option that waits for its value, if there is one.
data Pending : Type 0 where
  idle in_value out_value : Pending

unfoldable read_options : Bytes → Pending → List Bytes → ArgMatches
unfolding bytes_eq
read_options root pending [] = record {
  authfs_root = root;
  in_fd = [];
  out_fd = [];
  debug = false;
  args = [];
}
read_options root idle (arg ∷ rest) = elim (flag arg) [
  | in_flag ↦ read_options root in_value rest
  | out_flag ↦ read_options root out_value rest
  | debug ↦ record (read_options root idle rest) { debug = true }
  | end_mark ↦ record { authfs_root = root; in_fd = []; out_fd = []; debug = false; args = rest }
]
read_options root in_value (arg ∷ rest) =
    let others = read_options root idle rest in record others { in_fd = arg ∷ others.in_fd }
read_options root out_value (arg ∷ rest) =
    let others = read_options root idle rest in record others { out_fd = arg ∷ others.out_fd }

-- The program of the task is required.
abbrev required : ArgMatches → Option ArgMatches
required matches = elim matches.args [ [] ↦ none | (first ∷ others) ↦ some matches ]

unfoldable get_matches : List Bytes → Option ArgMatches
get_matches (program ∷ name ∷ root ∷ rest) = required (read_options root idle rest)
get_matches line = none

read_in :
    (root : Bytes) (values rest : List Bytes)
    → read_options root idle (push_options (codes "--in-fd") (λ v. v) values rest)
      ≡ record (read_options root idle rest) {
        in_fd = values ++ (read_options root idle rest).in_fd;
      }
unfolding read_options push_options bytes_eq
read_in root [] rest = refl
read_in root (v ∷ values) rest =
    ap (λ (m : ArgMatches). record m { in_fd = v ∷ m.in_fd }) (read_in root values rest)

read_out :
    (root : Bytes) (values rest : List Bytes)
    → read_options root idle (push_options (codes "--out-fd") (λ v. v) values rest)
      ≡ record (read_options root idle rest) {
        out_fd = values ++ (read_options root idle rest).out_fd;
      }
unfolding read_options push_options bytes_eq
read_out root [] rest = refl
read_out root (v ∷ values) rest =
    ap (λ (m : ArgMatches). record m { out_fd = v ∷ m.out_fd }) (read_out root values rest)

read_end :
    (root : Bytes) (flagged : Bool) (task : List Bytes)
    → read_options root idle (debug_flag flagged (codes "--" ∷ task))
      ≡ record { authfs_root = root; in_fd = []; out_fd = []; debug = flagged; args = task }
unfolding read_options bytes_eq
read_end root true task = refl
read_end root false task = refl

read_line :
    (root : Bytes) (in_fd out_fd : List Bytes) (flagged : Bool) (task : List Bytes)
    → read_options root idle (
        push_options
          (codes "--in-fd")
          (λ v. v)
          in_fd
          (push_options
            (codes "--out-fd")
            (λ v. v)
            out_fd
            (debug_flag flagged (codes "--" ∷ task))))
      ≡ record { authfs_root = root; in_fd = in_fd; out_fd = out_fd; debug = flagged; args = task }
read_line root in_fd out_fd flagged task =
    read_in root in_fd _
    ∙ (rw
        (
          read_out root out_fd (debug_flag flagged (codes "--" ∷ task)),
          read_end root flagged task,
          append-nil in_fd,
          append-nil out_fd,
        )
        refl)

get_matches-ReadsOptions : ReadsOptions get_matches
unfolding get_matches
get_matches-ReadsOptions = record {
  reads = λ program root in_fd out_fd flagged first others hi ho.
      ap required (read_line (b'/' ∷ root) in_fd out_fd flagged (first ∷ others));
}

abbrev service : CompService
service = record { worker_bin = codes "worker"; task_bin = codes "sleep"; debuggable = true }

abbrev metadata : Metadata
metadata = record {
  input_fd_annotations = record { fd = pos 3; file_size = pos 5 } ∷ [];
  output_fd_annotations = record { fd = pos 4 } ∷ [];
}

parse_args-build_worker_args_example :
    (line : List Bytes) × (matches : ArgMatches) × (build_worker_args service
        (codes "rm" ∷ codes "10" ∷ [])
        metadata
      ≡ ok line)
    × (get_matches line ≡ some matches)
    × (parse_args matches
        ≡ ok (record {
          authfs_root = authfs_mountpoint;
          in_fds = record { fd = pos 3; file_size = 5 } ∷ [];
          out_fds = record { fd = pos 4 } ∷ [];
          args = codes "sleep" ∷ codes "10" ∷ [];
          debuggable = true;
        }))
parse_args-build_worker_args_example =
    parse_args-build_worker_args get_matches get_matches-ReadsOptions service (codes "rm")
      (codes "10" ∷ []) metadata (record { fd = pos 3; file_size = 5 } ∷ [])
      (record { fd = pos 4 } ∷ []) (and_each (input 3 5 (omega arith) (omega arith)) none_left)
      (and_each (output 4 (omega arith)) none_left)
