-- ===== src/Peotrix/Number.antt =====
-- Peotrix_nginx/src/core/ptrx_string.c: `ptrx_sprintf_num`. Its array `temp` is filled from the end;
-- PTRX_INT64_LEN, the number of its bytes in use, is defined in no header and is an argument.
pub mod Cut
pub mod Numerals
pub mod Loops
pub mod Digits
use my_coding_exercises.Common.{
  ℕ, zero, suc, ◌+◌, ◌-◌, ◌*◌, ◌/◌, ◌%◌, Bool, true, false, [], ◌∷◌, Bytes, codes, length, take,
  get_or, ltb, leb, ◌==◌, if◌then◌else◌,
}
use my_coding_exercises.Peotrix.Buffer.{Outcome, value, failed, overrun, ◌>>=◌, Buf, put, cpymem}

abbrev pub max_uint32 : ℕ
max_uint32 = 4_294_967_295

abbrev pub two_64 : ℕ
two_64 = 18_446_744_073_709_551_616

-- The loops `do … while(ui32 /= 10)` and `do … while(ui64 /= 10)`, with the bytes of `temp` that are
-- left in front of `p`, and those from `p` on.
unfoldable pub decimal : ℕ → ℕ → Bytes → Outcome Bytes
decimal zero n p = failed overrun
decimal (suc left) n p =
    let rest = decimal left (n / 10) ((n % 10 + b'0') ∷ p) in
    if n / 10 == 0 then value ((n % 10 + b'0') ∷ p) else rest

abbrev pub lower_hex : Bytes
lower_hex = codes "0123456789abcdef"

abbrev pub upper_hex : Bytes
upper_hex = codes "0123456789ABCDEF"

-- The loops `do … while(ui64 >>= 4)` over the table of digits.
unfoldable pub hexadecimal_loop : Bytes → ℕ → ℕ → Bytes → Outcome Bytes
hexadecimal_loop table zero n p = failed overrun
hexadecimal_loop table (suc left) n p =
    let rest = hexadecimal_loop table left (n / 16) (get_or table (n % 16) 0 ∷ p) in
    if n / 16 == 0 then value (get_or table (n % 16) 0 ∷ p) else rest

-- The digits in `temp`.
unfoldable pub digits : ℕ → ℕ → ℕ → Outcome Bytes
digits int64_len ui64 hexadecimal =
    if hexadecimal == 0
    then (if leb ui64 max_uint32
        then decimal int64_len (ui64 % 4_294_967_296) []
        else decimal int64_len ui64 [])
    else if hexadecimal == 1
    then hexadecimal_loop lower_hex int64_len ui64 []
    else hexadecimal_loop upper_hex int64_len ui64 []

-- while(len++ < width && buf < last) *buf++ = zero, with width - len rounds to go.
unfoldable pub pad : ℕ → ℕ → Buf → Outcome Buf
pad zero_char zero out = value out
pad zero_char (suc rounds) out =
    let rest = put zero_char out >>= pad zero_char rounds in
    if ltb 0 out.room then rest else value out

unfoldable pub ptrx_sprintf_num : ℕ → Buf → ℕ → ℕ → ℕ → ℕ → Outcome Buf
ptrx_sprintf_num int64_len out ui64 zero_char hexadecimal width = do
  p ← digits int64_len ui64 hexadecimal
  padded ← pad zero_char (width - length p) out
  cpymem (take (if ltb padded.room (length p) then padded.room else length p) p) padded
