-- ===== src/Task/Listing/Decimal.antt =====
-- strconv's `FormatInt(n, 10)` and `ParseInt(s, 10, 64)`.
use austro_os.Common.{
  ℕ, zero, suc, ◌+◌, ◌-◌, ◌*◌, ◌/◌, ◌%◌, ◌≤◌, ◌<◌, Bool, true, false, ◌||◌, ltb, leb, ◌==◌,
  if◌then◌else◌, Option, none, some, [], ◌∷◌, ◌≡◌, ◌≢◌, refl, ◌∙◌, All, Bool-cases, inl, inr, arith,
}
use austro_os.Common.Int.{ℤ, pos, negsuc}
use austro_os.Common.Text.{Text}

-- the digits of a number before a text; 20 digits are enough for 64 bits
unfoldable pub digits : ℕ → ℕ → Text → Text
digits zero n out = out
digits (suc fuel) n out =
    let rest = digits fuel (n / 10) ((48 + n % 10) ∷ out) in if n == 0 then out else rest

unfoldable pub format_nat : ℕ → Text
format_nat n = if n == 0 then 48 ∷ [] else digits 20 n []

-- `FormatInt`
unfoldable pub format_int : ℤ → Text
format_int (pos n) = format_nat n
format_int (negsuc n) = 45 ∷ format_nat (n + 1)

abbrev max_uint64 : ℕ
max_uint64 = 18_446_744_073_709_551_615

-- one digit of `ParseUint`, with its two tests for an overflow
unfoldable pub next_digit : ℕ → ℕ → Option ℕ
next_digit n c =
    if ltb c 48 || ltb 57 c
    then none
    else if ltb (max_uint64 / 10) n
    then none
    else if ltb max_uint64 (n * 10 + (c - 48))
    then none
    else some (n * 10 + (c - 48))

-- the loop of `ParseUint`
unfoldable pub scan : Text → ℕ → Option ℕ
scan [] n = some n
scan (c ∷ s) n = elim (next_digit n c) [ none ↦ none | some m ↦ scan s m ]

-- `ParseUint`
unfoldable pub parse_uint : Text → Option ℕ
parse_uint [] = none
parse_uint (c ∷ s) = scan (c ∷ s) 0

abbrev pub half : ℕ
half = 9_223_372_036_854_775_808

abbrev signed : Bool → Option ℕ → Option ℤ
signed neg none = none
signed true (some zero) = some (pos 0)
signed true (some (suc n)) = if ltb half (suc n) then none else some (negsuc n)
signed false (some n) = if leb half n then none else some (pos n)

-- `ParseInt`
unfoldable pub parse_int : Text → Option ℤ
parse_int [] = none
parse_int (c ∷ s) =
    if c == 43
    then signed false (parse_uint s)
    else if c == 45
    then signed true (parse_uint s)
    else signed false (parse_uint (c ∷ s))

runs : parse_int (format_int (negsuc 1233)) ≡ some (negsuc 1233)
unfolding parse_int parse_uint scan next_digit format_int format_nat digits
runs = refl

abbrev pub pow10 : ℕ → ℕ
pow10 zero = 1
pow10 (suc n) = 10 * pow10 n

next_digit_back : (n : ℕ) → n ≤ max_uint64 → next_digit (n / 10) (48 + n % 10) ≡ some n
unfolding next_digit
next_digit_back n h = ground arith

scan-digits :
    (fuel n : ℕ) (out : Text)
    → n < pow10 fuel
    → n ≤ max_uint64
    → scan (digits fuel n out) 0 ≡ scan out n
unfolding digits scan
scan-digits zero n out h b = rw (let z : n ≡ 0 = omega arith in z) refl
scan-digits (suc fuel) n out h b = elim (Bool-cases (n == 0)) [
  | inl z ↦ rw z (let e : n ≡ 0 = ground arith in rw e refl)
  | inr nz ↦ rw nz (
      scan-digits fuel (n / 10) ((48 + n % 10) ∷ out) (omega arith) (omega arith)
      ∙ rw (next_digit_back n b, scan) refl)
]

abbrev pub IsDigit : ℕ → Type 0
IsDigit c = (48 ≤ c) × (c ≤ 57)

digits-All : (fuel n : ℕ) (out : Text) → All IsDigit out → All IsDigit (digits fuel n out)
unfolding digits
digits-All zero n out h = h
digits-All (suc fuel) n out h = elim (Bool-cases (n == 0)) [
  | inl z ↦ rw z h
  | inr nz ↦ rw nz (digits-All fuel (n / 10) ((48 + n % 10) ∷ out) ((omega arith, omega arith), h))
]

pub format_nat-All : (n : ℕ) → All IsDigit (format_nat n)
unfolding format_nat
format_nat-All n = elim (Bool-cases (n == 0)) [
  | inl z ↦ rw z ((omega arith, omega arith), tt)
  | inr nz ↦ rw nz (digits-All 20 n [] tt)
]

scan-format_nat : (n : ℕ) → n ≤ max_uint64 → scan (format_nat n) 0 ≡ some n
unfolding format_nat scan next_digit
scan-format_nat n h = elim (Bool-cases (n == 0)) [
  | inl z ↦ rw z (let e : n ≡ 0 = ground arith in rw e refl)
  | inr nz ↦ rw nz (scan-digits 20 n [] (omega arith) h)
]

digits_nonempty : (fuel n c : ℕ) (out : Text) → digits fuel n (c ∷ out) ≢ []
unfolding digits
digits_nonempty zero n c out = λ e. cc
digits_nonempty (suc fuel) n c out = elim (Bool-cases (n == 0)) [
  | inl z ↦ rw z (λ e. cc)
  | inr nz ↦ rw nz (digits_nonempty fuel (n / 10) (48 + n % 10) (c ∷ out))
]

digits_first : (fuel n : ℕ) → (n == 0) ≡ false → digits (suc fuel) n [] ≢ []
unfolding digits
digits_first fuel n nz = rw nz (digits_nonempty fuel (n / 10) (48 + n % 10) [])

format_nat_nonempty : (n : ℕ) → format_nat n ≢ []
unfolding format_nat
format_nat_nonempty n = elim (Bool-cases (n == 0)) [
  | inl z ↦ rw z (λ e. cc)
  | inr nz ↦ rw nz (digits_first 19 n nz)
]

parse_digits :
    (s : Text) (n : ℕ)
    → s ≢ []
    → All IsDigit s
    → scan s 0 ≡ some n
    → n < half
    → parse_int s ≡ some (pos n)
unfolding parse_int parse_uint
parse_digits [] n e d h l = absurd (e refl)
parse_digits (c ∷ s) n e d h l =
    let plus : (c == 43) ≡ false = ground arith in
    let minus : (c == 45) ≡ false = ground arith in rw (plus, minus, h) (ground arith)

-- the round trip of a number that is not negative
pub parse_int-format_int : (n : ℕ) → n < half → parse_int (format_int (pos n)) ≡ some (pos n)
unfolding format_int
parse_int-format_int n l =
    parse_digits (format_nat n) n (format_nat_nonempty n) (format_nat-All n)
      (scan-format_nat n (omega arith)) l
