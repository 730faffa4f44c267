-- ===== src/Common/Text.antt =====
-- Go strings as lists of bytes, with `==`, `len`, slices from the front and `strings.TrimSpace`.
use Prim.Native.Nat.{ℕ}
use Prim.Native.Char.{code}
use Prim.Native.String.{String}
use mathlib.Core.Path.{◌≡◌, refl}
use mathlib.Core.Bool.{Bool, true, false, ◌&&◌, ◌||◌}
use mathlib.Core.List.{List, [], ◌∷◌, reverse}
use native.Mathlib.Omega.{arith}
use austro_os.Common.Tests.{leb, ◌==◌, if◌then◌else◌}

abbrev pub Text : Type 0
Text = List ℕ

-- the bytes of an ASCII literal
abbrev pub bytes : String → Text
bytes String.[] = []
bytes (String.◌∷◌ c s) = code c ∷ bytes s

-- `s == t`
unfoldable pub text_eq : Text → Text → Bool
text_eq [] [] = true
text_eq [] (y ∷ ys) = false
text_eq (x ∷ xs) [] = false
text_eq (x ∷ xs) (y ∷ ys) = (x == y) && text_eq xs ys

-- `s == ""`
abbrev pub is_empty : Text → Bool
is_empty [] = true
is_empty (x ∷ xs) = false

pub text_eq_refl : (s : Text) → text_eq s s ≡ true
unfolding text_eq
text_eq_refl [] = refl
text_eq_refl (x ∷ xs) = ground (arith, text_eq_refl xs)

pub eq_of_text_eq : (s t : Text) → text_eq s t ≡ true → s ≡ t
unfolding text_eq
eq_of_text_eq [] [] h = refl
eq_of_text_eq [] (y ∷ ys) h = cc
eq_of_text_eq (x ∷ xs) [] h = cc
eq_of_text_eq (x ∷ xs) (y ∷ ys) h = ground (arith, eq_of_text_eq xs ys)

pub text_eq_sym : (s t : Text) → text_eq s t ≡ text_eq t s
unfolding text_eq
text_eq_sym [] [] = refl
text_eq_sym [] (y ∷ ys) = refl
text_eq_sym (x ∷ xs) [] = refl
text_eq_sym (x ∷ xs) (y ∷ ys) = ground (arith, text_eq_sym xs ys)

-- The code points below 128 of the property White_Space.
is_ascii_space : ℕ → Bool
is_ascii_space b = (b == 32) || (leb 9 b && leb b 13)

-- U+0085 and U+00A0 in UTF-8
is_space2 : ℕ → ℕ → Bool
is_space2 a b = (a == 0xC2) && ((b == 0x85) || (b == 0xA0))

-- U+1680, U+2000 to U+200A, U+2028, U+2029, U+202F, U+205F and U+3000 in UTF-8
is_space3 : ℕ → ℕ → ℕ → Bool
is_space3 a b c =
    ((a == 0xE1) && (b == 0x9A) && (c == 0x80))
    || ((a == 0xE2)
        && (b == 0x80)
        && ((leb 0x80 c && leb c 0x8A) || (c == 0xA8) || (c == 0xA9) || (c == 0xAF)))
    || ((a == 0xE2) && (b == 0x81) && (c == 0x9F))
    || ((a == 0xE3) && (b == 0x80) && (c == 0x80))

trim_left : Text → Text
unfolding is_ascii_space is_space2 is_space3
trim_left [] = []
trim_left (a ∷ []) = if is_ascii_space a then [] else a ∷ []
trim_left (a ∷ b ∷ []) = elim (is_ascii_space a) [
  | true ↦ trim_left (b ∷ [])
  | false ↦ if is_space2 a b then [] else a ∷ b ∷ []
]
trim_left (a ∷ b ∷ c ∷ r) = elim (is_ascii_space a) [
  | true ↦ trim_left (b ∷ c ∷ r)
  | false ↦ elim (is_space2 a b) [
    | true ↦ trim_left (c ∷ r)
    | false ↦ elim (is_space3 a b c) [ true ↦ trim_left r | false ↦ a ∷ b ∷ c ∷ r ]
  ]
]

-- The same from the other end: the bytes of a code point come in reverse.
trim_right_reversed : Text → Text
unfolding is_ascii_space is_space2 is_space3
trim_right_reversed [] = []
trim_right_reversed (a ∷ []) = if is_ascii_space a then [] else a ∷ []
trim_right_reversed (b ∷ a ∷ []) = elim (is_ascii_space b) [
  | true ↦ trim_right_reversed (a ∷ [])
  | false ↦ if is_space2 a b then [] else b ∷ a ∷ []
]
trim_right_reversed (c ∷ b ∷ a ∷ r) = elim (is_ascii_space c) [
  | true ↦ trim_right_reversed (b ∷ a ∷ r)
  | false ↦ elim (is_space2 b c) [
    | true ↦ trim_right_reversed (a ∷ r)
    | false ↦ elim (is_space3 a b c) [ true ↦ trim_right_reversed r | false ↦ c ∷ b ∷ a ∷ r ]
  ]
]

-- `strings.TrimSpace`
unfoldable pub trim_space : Text → Text
unfolding trim_left trim_right_reversed
trim_space s = reverse (trim_right_reversed (reverse (trim_left s)))

trim_space_runs : trim_space (bytes "  a b\t ") ≡ bytes "a b"
unfolding trim_space
trim_space_runs = refl
