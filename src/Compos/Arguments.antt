-- ===== src/Compos/Arguments.antt =====
-- The command lines between the programs of compos/src and authfs/src/main.rs.
use android_packages_modules.Common.{
  ℕ, ◌-◌, ◌^◌, ◌<◌, ◌≡◌, refl, ap, ◌∙◌, pos, Bool, Option, some, List, [], ◌∷◌, ◌++◌, map, Outcome,
  ok, map_ok, Each, none_left, and_each, take-append_length, drop, length, arith, All,
}
use android_packages_modules.Text.{Bytes, codes, show_nat, show_int, colon}
use android_packages_modules.Text.RoundTrip.{
  IsPlain, Starts, starts, show_nat-Starts, show_int-IsPlain, parse_i32-show_int,
  parse_unsigned-show_nat,
}
use android_packages_modules.Compos.{InputFdAnnotation, OutputFdAnnotation, Metadata, push_options}
use android_packages_modules.Compos.Service.{
  CompService, in_fd_value, out_fd_value, debug_flag, worker_options, build_worker_args,
  authfs_mountpoint, worker_bin,
}
use android_packages_modules.Compos.Worker.{
  InFdAnnotation, OutFdAnnotation, ArgMatches, find_colon, parse_in_fd, parse_out_fd, parse_args,
}

find_colon-append : (s t : Bytes) → All IsPlain s → find_colon (s ++ (colon ∷ t)) ≡ some (length s)
unfolding find_colon
find_colon-append [] t h = refl
find_colon-append (c ∷ s) t ((p, _), h) = ground (arith, p, find_colon-append s t h)

drop_left : (s t : Bytes) → drop (length s) (s ++ t) ≡ t
drop_left [] t = refl
drop_left (c ∷ s) t = drop_left s t

-- Descriptors and sizes that are not negative, as those of files are: an i32 and an i64.
pub data IsInput : InputFdAnnotation → InFdAnnotation → Type 0 where
  input :
      (fd size : ℕ)
      → fd < 2 ^ 31
      → size < 2 ^ 63
      → IsInput
          (record { fd = pos fd; file_size = pos size })
          (record { fd = pos fd; file_size = size })

pub data IsOutput : OutputFdAnnotation → OutFdAnnotation → Type 0 where
  output : (fd : ℕ) → fd < 2 ^ 31 → IsOutput (record { fd = pos fd }) (record { fd = pos fd })

parse_in_fd-value :
    (annotation : InputFdAnnotation) (conf : InFdAnnotation)
    → IsInput annotation conf
    → parse_in_fd (in_fd_value annotation) ≡ ok conf
unfolding parse_in_fd show_int
parse_in_fd-value annotation conf (input fd size hf hs) =
    rw
      (
        find_colon-append (show_int (pos fd)) (show_nat size) (show_int-IsPlain (pos fd)),
        take-append_length (show_int (pos fd)) (colon ∷ show_nat size),
        drop_left (show_int (pos fd)) (colon ∷ show_nat size),
        parse_i32-show_int (pos fd) hf,
        parse_unsigned-show_nat (2 ^ 64 - 1) size (omega arith),
      )
      refl

parse_out_fd-value :
    (annotation : OutputFdAnnotation) (conf : OutFdAnnotation)
    → IsOutput annotation conf
    → parse_out_fd (out_fd_value annotation) ≡ ok conf
unfolding parse_out_fd
parse_out_fd-value annotation conf (output fd hf) = rw (parse_i32-show_int (pos fd) hf) refl

pub map_ok-values :
    {E A B C : Type 0} {R : A → B → Type 0} (parse : C → Outcome E B) (value : A → C)
    → ((a : A) (b : B) → R a b → parse (value a) ≡ ok b)
    → {xs : List A} {ys : List B} → Each R xs ys
    → map_ok parse (map value xs) ≡ ok ys
unfolding map_ok
map_ok-values parse value same none_left = refl
map_ok-values parse value same (and_each {x} {y} r rest) =
    rw (same x y r, map_ok-values parse value same rest) refl

-- What clap is documented to do with the options of the worker: each occurrence of an option that takes
-- a value adds the value, and what follows `--` are the arguments, of which there must be one. Values
-- do not begin with a hyphen: here a descriptor's begins with a digit, and the root with a slash.
abbrev pub IsValue : Bytes → Type 0
IsValue s = Starts s

pub record ReadsOptions (get_matches : List Bytes → Option ArgMatches) : Type 0 where
  pub reads :
      (program root : Bytes) (in_fd out_fd : List Bytes) (debug : Bool) (first : Bytes)
      (others : List Bytes)
      → All IsValue in_fd
      → All IsValue out_fd
      → get_matches (
          program
          ∷ codes "--authfs-root"
          ∷ (b'/' ∷ root)
          ∷ push_options
              (codes "--in-fd")
              (λ v. v)
              in_fd
              (push_options
                (codes "--out-fd")
                (λ v. v)
                out_fd
                (debug_flag debug (codes "--" ∷ first ∷ others))))
        ≡ some (record {
          authfs_root = b'/' ∷ root;
          in_fd = in_fd;
          out_fd = out_fd;
          debug = debug;
          args = first ∷ others;
        })

pub push_options-map :
    {A : Type 0} (flag : Bytes) (value : A → Bytes) (xs : List A) (rest : List Bytes)
    → push_options flag value xs rest ≡ push_options flag (λ v. v) (map value xs) rest
unfolding push_options
push_options-map flag value [] rest = refl
push_options-map flag value (x ∷ xs) rest =
    ap (λ l. flag ∷ value x ∷ l) (push_options-map flag value xs rest)

Starts-append : (s t : Bytes) → Starts s → Starts (s ++ t)
Starts-append s t (starts c rest d) = starts c (rest ++ t) d

in_values-IsValue :
    {xs : List InputFdAnnotation} {ys : List InFdAnnotation}
    → Each IsInput xs ys
    → All IsValue (map in_fd_value xs)
unfolding show_int
in_values-IsValue none_left = tt
in_values-IsValue (and_each (input fd size _ _) rest) = (
  Starts-append (show_nat fd) (colon ∷ show_nat size) (show_nat-Starts fd),
  in_values-IsValue rest,
)

out_values-IsValue :
    {xs : List OutputFdAnnotation} {ys : List OutFdAnnotation}
    → Each IsOutput xs ys
    → All IsValue (map out_fd_value xs)
unfolding show_int
out_values-IsValue none_left = tt
out_values-IsValue (and_each (output fd _) rest) = (show_nat-Starts fd, out_values-IsValue rest)

options_lem :
    (self : CompService) (metadata : Metadata) (task : List Bytes)
    → worker_options self metadata task
      ≡ worker_bin
        ∷ codes "--authfs-root"
        ∷ authfs_mountpoint
        ∷ push_options
            (codes "--in-fd")
            (λ v. v)
            (map in_fd_value metadata.input_fd_annotations)
            (push_options
              (codes "--out-fd")
              (λ v. v)
              (map out_fd_value metadata.output_fd_annotations)
              (debug_flag self.debuggable (codes "--" ∷ task)))
options_lem self metadata task =
    rw
      (
        push_options-map (codes "--in-fd") in_fd_value metadata.input_fd_annotations,
        push_options-map (codes "--out-fd") out_fd_value metadata.output_fd_annotations,
      )
      refl

-- The worker reads from its command line what the service put there: the descriptors and sizes of the
-- request, the mount point, and as the program to run the one of the service, whatever the request
-- names, with the rest of the request's arguments. The descriptors and sizes are those of files.
pub parse_args-build_worker_args :
    (get_matches : List Bytes → Option ArgMatches)
    → ReadsOptions get_matches
    → (self : CompService) (first : Bytes) (rest : List Bytes) (metadata : Metadata)
      (in_fds : List InFdAnnotation) (out_fds : List OutFdAnnotation)
    → Each IsInput metadata.input_fd_annotations in_fds
    → Each IsOutput metadata.output_fd_annotations out_fds
    → (line : List Bytes) × (matches : ArgMatches) × (build_worker_args self (first ∷ rest) metadata
        ≡ ok line)
      × (get_matches line ≡ some matches)
      × (parse_args matches
          ≡ ok (record {
            authfs_root = authfs_mountpoint;
            in_fds = in_fds;
            out_fds = out_fds;
            args = self.task_bin ∷ rest;
            debuggable = self.debuggable;
          }))
unfolding build_worker_args parse_args
parse_args-build_worker_args get_matches clap self first rest metadata in_fds out_fds ins outs = (
  _,
  _,
  refl,
  ap get_matches (options_lem self metadata (self.task_bin ∷ rest))
      ∙ clap.reads worker_bin (codes "data/local/tmp/authfs_mnt")
          (map in_fd_value metadata.input_fd_annotations)
          (map out_fd_value metadata.output_fd_annotations) self.debuggable self.task_bin rest
          (in_values-IsValue ins) (out_values-IsValue outs),
  rw
      (
        map_ok-values parse_in_fd in_fd_value parse_in_fd-value ins,
        map_ok-values parse_out_fd out_fd_value parse_out_fd-value outs,
      )
      refl,
)
