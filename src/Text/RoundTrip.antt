-- ===== src/Text/RoundTrip.antt =====
-- Printed numbers are read back, alone and between colons.
use android_packages_modules.Common.{
  ℕ, zero, suc, ◌+◌, ◌-◌, ◌/◌, ◌%◌, ◌^◌, ◌≤◌, ◌<◌, ◌≡◌, ◌≢◌, refl, ◌∙◌, ℤ, pos, negsuc, negate,
  some, [], ◌∷◌, ◌++◌, All, arith,
}
use android_packages_modules.Text.{
  Bytes, digits_on, show_nat, show_int, scan, parse_digits, parse_unsigned, parse_i32, colon,
  split_colon,
}

abbrev pub IsDigit : ℕ → Type 0
IsDigit c = (b'0' ≤ c) × (c ≤ b'9')

scan_last :
    (limit n : ℕ) (out : Bytes)
    → n ≤ limit
    → scan limit ((b'0' + n % 10) ∷ out) (n / 10) ≡ scan limit out n
unfolding scan
scan_last limit n out h = ground arith

scan-digits_on :
    (limit fuel n : ℕ) (out : Bytes)
    → n ≤ fuel
    → n ≤ limit
    → scan limit (digits_on fuel n out) 0 ≡ scan limit out n
unfolding digits_on
scan-digits_on limit zero n out h fits = ground arith
scan-digits_on limit (suc fuel) zero out h fits = refl
scan-digits_on limit (suc fuel) (suc n) out h fits =
    scan-digits_on limit fuel (suc n / 10) ((b'0' + suc n % 10) ∷ out) (omega arith) (omega arith)
    ∙ scan_last limit (suc n) out fits

digits_on-IsDigit :
    (fuel n : ℕ) (out : Bytes) → All IsDigit out → All IsDigit (digits_on fuel n out)
unfolding digits_on
digits_on-IsDigit zero n out h = h
digits_on-IsDigit (suc fuel) zero out h = h
digits_on-IsDigit (suc fuel) (suc n) out h =
    digits_on-IsDigit fuel (suc n / 10) ((b'0' + suc n % 10) ∷ out) ((omega arith, omega arith), h)

-- A text that begins with a digit.
pub data Starts : Bytes → Type 0 where
  starts : (c : ℕ) (rest : Bytes) → IsDigit c → Starts (c ∷ rest)

digits_on-Starts : (fuel n : ℕ) (out : Bytes) → Starts out → Starts (digits_on fuel n out)
unfolding digits_on
digits_on-Starts zero n out h = h
digits_on-Starts (suc fuel) zero out h = h
digits_on-Starts (suc fuel) (suc n) out h =
    digits_on-Starts fuel (suc n / 10) ((b'0' + suc n % 10) ∷ out)
      (starts _ out (omega arith, omega arith))

pub show_nat-IsDigit : (n : ℕ) → All IsDigit (show_nat n)
unfolding show_nat
show_nat-IsDigit zero = ((omega arith, omega arith), tt)
show_nat-IsDigit (suc n) = digits_on-IsDigit (suc n) (suc n) [] tt

pub show_nat-Starts : (n : ℕ) → Starts (show_nat n)
unfolding show_nat digits_on
show_nat-Starts zero = starts b'0' [] (omega arith, omega arith)
show_nat-Starts (suc n) =
    digits_on-Starts n (suc n / 10) ((b'0' + suc n % 10) ∷ [])
      (starts _ [] (omega arith, omega arith))

scan-show_nat : (limit n : ℕ) → n ≤ limit → scan limit (show_nat n) 0 ≡ some n
unfolding show_nat
scan-show_nat limit zero h = unfold scan in ground arith
scan-show_nat limit (suc n) h =
    scan-digits_on limit (suc n) (suc n) [] (omega arith) h ∙ (unfold scan in refl)

unsigned-scan : (limit : ℕ) (s : Bytes) → Starts s → parse_unsigned limit s ≡ scan limit s 0
unfolding parse_unsigned parse_digits
unsigned-scan limit s (starts c rest d) = ground arith

-- A number that fits is read back from its print.
pub parse_unsigned-show_nat : (limit n : ℕ) → n ≤ limit → parse_unsigned limit (show_nat n) ≡ some n
parse_unsigned-show_nat limit n h =
    unsigned-scan limit (show_nat n) (show_nat-Starts n) ∙ scan-show_nat limit n h

signed-scan :
    (s : Bytes) (n : ℕ)
    → Starts s
    → parse_unsigned (2 ^ 31 - 1) s ≡ some n
    → parse_i32 s ≡ some (pos n)
unfolding parse_i32
signed-scan s n (starts c rest d) h = ground arith

-- What a parameter of type i32 can hold.
abbrev pub FitsI32 : ℤ → Type 0
FitsI32 (pos n) = n < 2 ^ 31
FitsI32 (negsuc n) = n < 2 ^ 31

digits-scan : (limit : ℕ) (s : Bytes) → Starts s → parse_digits limit s ≡ scan limit s 0
unfolding parse_digits
digits-scan limit s (starts c rest d) = refl

parse_i32_minus :
    (s : Bytes) (n : ℕ) → parse_digits (2 ^ 31) s ≡ some n → parse_i32 (b'-' ∷ s) ≡ some (negate n)
unfolding parse_i32
parse_i32_minus s n h = rw (h) refl

pub parse_i32-show_int : (i : ℤ) → FitsI32 i → parse_i32 (show_int i) ≡ some i
unfolding show_int
parse_i32-show_int (pos n) h =
    signed-scan (show_nat n) n (show_nat-Starts n)
      (parse_unsigned-show_nat (2 ^ 31 - 1) n (omega arith))
parse_i32-show_int (negsuc n) h = parse_i32_minus (show_nat (suc n)) (suc n) (
    digits-scan (2 ^ 31) (show_nat (suc n)) (show_nat-Starts (suc n))
    ∙ scan-show_nat (2 ^ 31) (suc n) (omega arith))

-- No colon and no comma.
abbrev pub IsPlain : ℕ → Type 0
IsPlain c = (c ≢ colon) × (c ≢ b',')

All-IsPlain : (s : Bytes) → All IsDigit s → All IsPlain s
All-IsPlain [] h = tt
All-IsPlain (c ∷ s) ((low, high), h) =
    ((λ e. absurd (omega arith), λ e. absurd (omega arith)), All-IsPlain s h)

pub show_nat-IsPlain : (n : ℕ) → All IsPlain (show_nat n)
show_nat-IsPlain n = All-IsPlain (show_nat n) (show_nat-IsDigit n)

pub show_int-IsPlain : (i : ℤ) → All IsPlain (show_int i)
unfolding show_int
show_int-IsPlain (pos n) = show_nat-IsPlain n
show_int-IsPlain (negsuc n) =
    ((λ e. absurd (omega arith), λ e. absurd (omega arith)), show_nat-IsPlain (suc n))

-- A text without a colon, alone and before one.
pub split_colon_one : (s : Bytes) → All IsPlain s → split_colon s ≡ s ∷ []
unfolding split_colon
split_colon_one [] h = refl
split_colon_one (c ∷ s) (d, h) = ground (arith, split_colon_one s h)

pub split_colon-append :
    (s t : Bytes) → All IsPlain s → split_colon (s ++ (colon ∷ t)) ≡ s ∷ split_colon t
unfolding split_colon
split_colon-append [] t h = ground arith
split_colon-append (c ∷ s) t (d, h) = ground (arith, split_colon-append s t h)
