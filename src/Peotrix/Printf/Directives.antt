-- ===== src/Peotrix/Printf/Directives.antt =====
-- Peotrix_nginx/src/core/ptrx_string.c: what the formats of `ptrx_vslprintf` say, as the
-- specification of it. A format is spelled from directives, which also hold the arguments.
use my_coding_exercises.Common.{
  All, ℕ, suc, ◌%◌, ◌<◌, ◌≡◌, true, false, List, [], ◌∷◌, ◌++◌, Bytes, ◌==◌, if◌then◌else◌,
}
use my_coding_exercises.Common.Int.{ℤ, pos, negsuc}
use my_coding_exercises.Peotrix.Number.{two_64}
use my_coding_exercises.Peotrix.Number.Numerals.{Reads, read_decimal}
use my_coding_exercises.Peotrix.Number.Digits.{padded}
use my_coding_exercises.Peotrix.Printf.{
  Size, int_size, long_size, Arg, signed, unsigned, str, chars, is_digit, two_32,
}

-- How an unsigned number is written.
pub data Radix : Type 0 where
  in_decimal in_lower in_upper : Radix

-- A byte of the text, `%%`, `%V`, `%s`, and numbers after the digits of a width: `%d`, and `%ud`,
-- `%xd` or `%Xd` for an `int` and an `unsigned int`, and the same with `l` for a `long`.
pub data Directive : Type 0 where
  plain : ℕ → Directive
  percent : Directive
  text string : Bytes → Directive
  number : Bytes → Size → ℤ → Directive
  natural : Bytes → Radix → Size → ℕ → Directive

abbrev pub radix_flag : Radix → ℕ
radix_flag in_decimal = b'u'
radix_flag in_lower = b'x'
radix_flag in_upper = b'X'

abbrev pub hexadecimal_of : Radix → ℕ
hexadecimal_of in_decimal = 0
hexadecimal_of in_lower = 1
hexadecimal_of in_upper = 2

abbrev pub size_letter : Size → ℕ
size_letter int_size = b'd'
size_letter long_size = b'l'

abbrev pub spell_one : Directive → Bytes
spell_one (plain c) = c ∷ []
spell_one percent = b'%' ∷ b'%' ∷ []
spell_one (text p) = b'%' ∷ b'V' ∷ []
spell_one (string p) = b'%' ∷ b's' ∷ []
spell_one (number w size z) = b'%' ∷ (w ++ size_letter size ∷ [])
spell_one (natural w r size n) = b'%' ∷ (w ++ radix_flag r ∷ size_letter size ∷ [])

abbrev pub spell : List Directive → Bytes
spell [] = []
spell (d ∷ ds) = spell_one d ++ spell ds

abbrev pub argument : Directive → List Arg
argument (plain c) = []
argument percent = []
argument (text p) = str p ∷ []
argument (string p) = chars (p ++ 0 ∷ []) ∷ []
argument (number w size z) = signed size z ∷ []
argument (natural w r size n) = unsigned size n ∷ []

abbrev pub arguments : List Directive → List Arg
arguments [] = []
arguments (d ∷ ds) = argument d ++ arguments ds

-- The values of the types `int` and `long`, less the smallest `long`, which has no negation.
abbrev pub IsSigned : Size → ℤ → Type 0
IsSigned int_size (pos n) = n < 2_147_483_648
IsSigned int_size (negsuc n) = n < 2_147_483_648
IsSigned long_size (pos n) = n < 9_223_372_036_854_775_808
IsSigned long_size (negsuc n) = suc n < 9_223_372_036_854_775_808

abbrev pub IsUnsigned : Size → ℕ → Type 0
IsUnsigned int_size n = n < two_32
IsUnsigned long_size n = n < two_64

-- A byte stands for itself, a C string ends at its first null byte, widths are digits, and numbers
-- are of their type.
abbrev pub IsProper : Directive → Type 0
IsProper (plain c) = ((c == 0) ≡ false) × ((c == b'%') ≡ false)
IsProper percent = Unit
IsProper (text p) = Unit
IsProper (string p) = All (λ c. (c == 0) ≡ false) p
IsProper (number w size z) = All (λ c. is_digit c ≡ true) w × IsSigned size z
IsProper (natural w r size n) = All (λ c. is_digit c ≡ true) w × IsUnsigned size n

-- The digits are padded to the width, with zeros if it is written with a zero in front.
abbrev pub padding : Bytes → ℕ
padding [] = b' '
padding (c ∷ w) = if c == b'0' then b'0' else b' '

abbrev pub field : Bytes → Bytes → Bytes
field w r = padded (padding w) (read_decimal 0 w % two_32) r

-- The text of a directive.
abbrev pub Shows : Directive → Bytes → Type 0
Shows (plain c) t = t ≡ c ∷ []
Shows percent t = t ≡ b'%' ∷ []
Shows (text p) t = t ≡ p
Shows (string p) t = t ≡ p
Shows (number w size (pos n)) t = (r : Bytes) × Reads 0 n r × (t ≡ field w r)
Shows (number w size (negsuc n)) t = (r : Bytes) × Reads 0 (suc n) r × (t ≡ b'-' ∷ field w r)
Shows (natural w radix size n) t = (r : Bytes) × Reads (hexadecimal_of radix) n r × (t ≡ field w r)

pub data Prints : List Directive → Bytes → Type 0 where
  nothing : Prints [] []
  next :
      (d : Directive) (t : Bytes) (ds : List Directive) (u : Bytes)
      → Shows d t
      → Prints ds u
      → Prints (d ∷ ds) (t ++ u)
