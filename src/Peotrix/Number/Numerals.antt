-- ===== src/Peotrix/Number/Numerals.antt =====
-- Peotrix_nginx/src/core/ptrx_string.c: the numerals of a base, as the specification of
-- `ptrx_sprintf_num`.
use my_coding_exercises.Common.{
  All, not, ◌||◌, ℕ, zero, suc, ◌+◌, ◌-◌, ◌*◌, ◌≡◌, Bool, ◌&&◌, true, false, [], ◌∷◌, Bytes, leb,
  ◌==◌, if◌then◌else◌,
}

abbrev pub power : ℕ → ℕ → ℕ
power base zero = 1
power base (suc k) = base * power base k

-- The number that a row of digits stands for, going on from `n`.
unfoldable pub read_decimal : ℕ → Bytes → ℕ
read_decimal n [] = n
read_decimal n (c ∷ cs) = read_decimal (n * 10 + (c - b'0')) cs

abbrev pub hex_value : ℕ → ℕ
hex_value c = if leb c b'9' then c - b'0' else if leb c b'F' then c - b'A' + 10 else c - b'a' + 10

unfoldable pub read_hex : ℕ → Bytes → ℕ
read_hex n [] = n
read_hex n (c ∷ cs) = read_hex (n * 16 + hex_value c) cs

-- The digits of a base.
abbrev pub is_digit_of : ℕ → ℕ → Bool
is_digit_of hexadecimal c =
    (leb b'0' c && leb c b'9')
    || not (hexadecimal == 0)
      && (if hexadecimal == 1 then leb b'a' c && leb c b'f' else leb b'A' c && leb c b'F')

abbrev pub AllDigits : ℕ → Bytes → Type 0
AllDigits hexadecimal r = All (λ c. is_digit_of hexadecimal c ≡ true) r

-- At least one digit, and no zero in front of the others.
abbrev pub IsShortest : Bytes → Type 0
IsShortest [] = ⊥
IsShortest (c ∷ []) = Unit
IsShortest (c ∷ d ∷ r) = (c == b'0') ≡ false

-- The numeral of a number: the digits of the base that read back as it, with no zero in front.
abbrev pub Reads : ℕ → ℕ → Bytes → Type 0
Reads hexadecimal n r =
    (if hexadecimal == 0 then read_decimal 0 r ≡ n else read_hex 0 r ≡ n)
    × AllDigits hexadecimal r
    × IsShortest r
