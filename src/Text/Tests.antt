-- ===== src/Text/Tests.antt =====
-- Runs of the readers and printers.
use android_packages_modules.Common.{◌^◌, ◌-◌, ◌≡◌, refl, pos, negsuc, none, some, [], ◌∷◌}
use android_packages_modules.Text.{
  codes, show_nat, show_int, parse_u64, parse_i32, parse_unsigned, split_colon,
}

shown : show_nat 16384 ≡ codes "16384"
unfolding show_nat
shown = refl

shown_negative : show_int (negsuc 11) ≡ codes "-12"
unfolding show_int
shown_negative = refl

largest : parse_u64 (codes "18446744073709551615") ≡ some (2 ^ 64 - 1)
unfolding parse_unsigned
largest = refl

too_large : parse_u64 (codes "18446744073709551616") ≡ none
unfolding parse_unsigned
too_large = refl

signs :
    (parse_i32 (codes "-2147483648") ≡ some (negsuc 2147483647))
    × (parse_i32 (codes "+7") ≡ some (pos 7))
unfolding parse_i32
signs = (refl, refl)

no_number : (parse_i32 (codes "-") ≡ none) × (parse_u64 (codes "-1") ≡ none)
unfolding parse_i32
no_number = (refl, refl)

parts : split_colon (codes "5:10:") ≡ codes "5" ∷ codes "10" ∷ [] ∷ []
unfolding split_colon
parts = refl
