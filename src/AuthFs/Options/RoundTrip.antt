-- ===== src/AuthFs/Options/RoundTrip.antt =====
-- Options of authfs/src/main.rs that are printed from numbers.
use android_packages_modules.Common.{
  ℕ, ◌^◌, ◌-◌, ◌<◌, ◌≡◌, refl, ℤ, some, List, [], ◌∷◌, ◌++◌, ok, arith, ap, ◌∙◌,
}
use android_packages_modules.Text.{Bytes, parse_u64, show_nat, show_int, colon, split_colon}
use android_packages_modules.Text.RoundTrip.{
  FitsI32, parse_unsigned-show_nat, parse_i32-show_int, show_nat-IsPlain, show_int-IsPlain,
  split_colon_one, split_colon-append,
}
use android_packages_modules.AuthFs.Options.{
  parse_remote_ro_file_unverified_option, parse_remote_new_rw_file_option,
}

-- What a parameter of type u64 can hold.
abbrev pub FitsU64 : ℕ → Type 0
FitsU64 n = n < 2 ^ 64

parse_u64_printed : (n : ℕ) → FitsU64 n → parse_u64 (show_nat n) ≡ some n
parse_u64_printed n h = parse_unsigned-show_nat (2 ^ 64 - 1) n (omega arith)

-- The parts of a text, one printed number before others.
pub split_colon_two :
    (i : ℤ) (n : ℕ)
    → split_colon (show_int i ++ (colon ∷ show_nat n)) ≡ show_int i ∷ show_nat n ∷ []
split_colon_two i n =
    split_colon-append (show_int i) (show_nat n) (show_int-IsPlain i)
    ∙ ap (λ (parts : List Bytes). show_int i ∷ parts)
        (split_colon_one (show_nat n) (show_nat-IsPlain n))

abbrev pub remote_ro_unverified_text : ℕ → ℤ → ℕ → Bytes
remote_ro_unverified_text ino id size =
    show_nat ino ++ (colon ∷ show_int id ++ (colon ∷ show_nat size))

-- An option that names an inode, the number of a remote file and a size, printed, is read back.
pub parse_remote_ro_file_unverified_option-printed :
    (ino : ℕ) (id : ℤ) (size : ℕ)
    → FitsU64 ino
    → FitsI32 id
    → FitsU64 size
    → parse_remote_ro_file_unverified_option (remote_ro_unverified_text ino id size)
      ≡ ok (record { ino = ino; remote_id = id; file_size = size })
unfolding parse_remote_ro_file_unverified_option
parse_remote_ro_file_unverified_option-printed ino id size fi fd fs =
    rw
      (
        split_colon-append (show_nat ino) (show_int id ++ (colon ∷ show_nat size))
            (show_nat-IsPlain ino),
        split_colon_two id size,
        parse_u64_printed ino fi,
        parse_i32-show_int id fd,
        parse_u64_printed size fs,
      )
      refl

pub parse_remote_new_rw_file_option-printed :
    (ino : ℕ) (id : ℤ)
    → FitsU64 ino
    → FitsI32 id
    → parse_remote_new_rw_file_option (show_nat ino ++ (colon ∷ show_int id))
      ≡ ok (record { ino = ino; remote_id = id })
unfolding parse_remote_new_rw_file_option
parse_remote_new_rw_file_option-printed ino id fi fd =
    rw
      (
        split_colon-append (show_nat ino) (show_int id) (show_nat-IsPlain ino),
        split_colon_one (show_int id) (show_int-IsPlain id),
        parse_u64_printed ino fi,
        parse_i32-show_int id fd,
      )
      refl
