-- ===== src/FdServer/Args/Tests.antt =====
-- A request with an input and an output, through the command line of fd_server.
use android_packages_modules.Common.{◌≡◌, refl, ℤ, pos, map_ok, [], ◌∷◌, ok, err}
use android_packages_modules.Text.{codes, parse_i32, split_colon}
use android_packages_modules.FdServer.Args.{Descriptors, parse_arg_ro_fds, too_many_options}
use android_packages_modules.Compos.{Metadata}

-- Files are named by their descriptor, and are empty.
abbrev descriptors : Descriptors ℤ
descriptors = record { get_flags = λ fd. pos 1; from_raw_fd = λ fd. fd; len = λ file. ok 0 }

abbrev metadata : Metadata
metadata = record {
  input_fd_annotations = record { fd = pos 3; file_size = pos 5 } ∷ [];
  output_fd_annotations = record { fd = pos 4 } ∷ [];
}

four_parts : parse_arg_ro_fds descriptors (codes "3:4:5:6") ≡ err too_many_options
unfolding parse_arg_ro_fds map_ok split_colon parse_i32
four_parts = refl
