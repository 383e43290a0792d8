-- ===== src/Peotrix/Number/Digits.antt =====
-- What `ptrx_sprintf_num` prints: the number, padded, cut off at the end of the buffer.
use my_coding_exercises.Common.{
  All-map, ℕ, zero, suc, ◌-◌, ◌%◌, ◌≤◌, ◌<◌, ◌≡◌, ap, ◌∙◌, true, inl, inr, [], ◌++◌, Bytes, length,
  replicate, ◌==◌, arith, Bool-cases,
}
use my_coding_exercises.Peotrix.Buffer.{value, ◌>>=◌, Buf}
use my_coding_exercises.Peotrix.Number.Cut.{cut_off, cut_off-append, pad-cut_off, cpymem-cut_off}
use my_coding_exercises.Peotrix.Number.{
  max_uint32, two_64, lower_hex, upper_hex, digits, ptrx_sprintf_num,
}
use my_coding_exercises.Peotrix.Number.Numerals.{power, read_decimal, read_hex, is_digit_of, Reads}
use my_coding_exercises.Peotrix.Number.Loops.{
  Leads-IsShortest, decimal-read, hexadecimal_loop-read, tables, power_mono,
}

digits-Reads :
    (int64_len n hexadecimal : ℕ)
    → n < two_64
    → two_64 ≤ power 10 int64_len
    → (r : Bytes) × (digits int64_len n hexadecimal ≡ value r) × Reads hexadecimal n r
unfolding digits read_decimal read_hex
digits-Reads zero n hexadecimal h fits = absurd (omega arith)
digits-Reads (suc left) n hexadecimal h fits = elim (Bool-cases (hexadecimal == 0)) [
  | inl e ↦
      let (r, eq, reads, all, leads) = decimal-read left n [] (omega arith) tt in
      (
        r,
        ground (arith, eq, n-small),
        (
          ground (arith, reads),
          All-map (λ c. is_digit_of 0 c ≡ true) (λ c. is_digit_of hexadecimal c ≡ true)
              (λ c k. rw e k) r all,
          Leads-IsShortest n r leads,
        ),
      )
  | inr e ↦ elim (Bool-cases (hexadecimal == 1)) [
    | inl f ↦
        let (r, eq, reads, all, leads) =
          hexadecimal_loop-read 1 lower_hex left n [] tables.0
            (omega (arith, power_mono (suc left))) tt in
        (
          r,
          ground (arith, eq),
          (
            ground (arith, reads),
            All-map (λ c. is_digit_of 1 c ≡ true) (λ c. is_digit_of hexadecimal c ≡ true)
                (λ c k. rw (e, f) k) r all,
            Leads-IsShortest n r leads,
          ),
        )
    | inr f ↦
        let (r, eq, reads, all, leads) =
          hexadecimal_loop-read 2 upper_hex left n [] tables.1
            (omega (arith, power_mono (suc left))) tt in
        (
          r,
          ground (arith, eq),
          (
            ground (arith, reads),
            All-map (λ c. is_digit_of 2 c ≡ true) (λ c. is_digit_of hexadecimal c ≡ true)
                (λ c k. rw (e, f) k) r all,
            Leads-IsShortest n r leads,
          ),
        )
  ]
]
  where
    n-small : n ≤ max_uint32 → n % 4_294_967_296 ≡ n
    n-small le = omega arith

-- What is printed for a number: its digits, padded in front to the width.
abbrev pub padded : ℕ → ℕ → Bytes → Bytes
padded zero_char width r = replicate (width - length r) zero_char ++ r

-- If `temp` is long enough for the decimal digits of 64 bits, `ptrx_sprintf_num` prints every 64-bit
-- number, in decimal or in either way of writing hexadecimal, without an overrun of `temp` or of
-- the buffer: what it writes is the numeral of the number, at least one digit, without a zero in
-- front, padded to the width, and cut off where the buffer ends.
pub ptrx_sprintf_num-Reads :
    (int64_len : ℕ) (out : Buf) (n zero_char hexadecimal width : ℕ)
    → n < two_64
    → two_64 ≤ power 10 int64_len
    → (r : Bytes) × Reads hexadecimal n r
      × (ptrx_sprintf_num int64_len out n zero_char hexadecimal width
          ≡ value (cut_off out (padded zero_char width r)))
unfolding ptrx_sprintf_num ◌>>=◌
ptrx_sprintf_num-Reads int64_len out n zero_char hexadecimal width h fits =
    let (r, eq, reads) = digits-Reads int64_len n hexadecimal h fits in
    (
      r,
      reads,
      rw (eq, pad-cut_off zero_char (width - length r) out)
          (cpymem-cut_off r (cut_off out (replicate (width - length r) zero_char))
            ∙ ap value (cut_off-append out (replicate (width - length r) zero_char) r)),
    )
