-- ===== src/Peotrix/Printf/Widths.antt =====
-- Peotrix_nginx/src/core/ptrx_string.c: the digits behind `%`.
use my_coding_exercises.Common.{
  All, ℕ, zero, suc, ◌+◌, ◌-◌, ◌*◌, ◌%◌, ◌<◌, ◌≡◌, refl, ap, ◌∙◌, true, false, [], ◌∷◌, ◌++◌, Bytes,
  length, arith,
}
use my_coding_exercises.Peotrix.Buffer.{value, next-value}
use my_coding_exercises.Peotrix.Number.Numerals.{read_decimal}
use my_coding_exercises.Peotrix.Printf.{char_at, is_digit, scan_width, two_32}
use my_coding_exercises.Peotrix.Printf.Reading.{At, At-next, At-char}

read_decimal-mod :
    (a b : ℕ) (w : Bytes)
    → a % two_32 ≡ b % two_32
    → read_decimal a w % two_32 ≡ read_decimal b w % two_32
unfolding read_decimal
read_decimal-mod a b [] e = e
read_decimal-mod a b (c ∷ w) e =
    read_decimal-mod (a * 10 + (c - b'0')) (b * 10 + (c - b'0')) w (omega (arith, e))

scan_width-stop :
    (fuel : ℕ) (fmt : Bytes) (i c width : ℕ)
    → char_at fmt i ≡ value c
    → is_digit c ≡ false
    → scan_width (suc fuel) fmt i width ≡ value (i, width)
unfolding scan_width
scan_width-stop fuel fmt i c width here none_here = next-value _ here ∙ rw none_here refl

scan_width-digit :
    (fuel : ℕ) (fmt : Bytes) (i c width : ℕ)
    → char_at fmt i ≡ value c
    → is_digit c ≡ true
    → scan_width (suc fuel) fmt i width
      ≡ scan_width fuel fmt (i + 1) ((width * 10 + c + two_32 - b'0') % two_32)
unfolding scan_width
scan_width-digit fuel fmt i c width here digit = next-value _ here ∙ rw digit refl

pub scan_width-field :
    (w : Bytes) (fuel : ℕ) (fmt : Bytes) (i c width : ℕ) (rest : Bytes)
    → All (λ d. is_digit d ≡ true) w
    → is_digit c ≡ false
    → At fmt i (w ++ c ∷ rest)
    → width < two_32
    → length w < fuel
    → scan_width fuel fmt i width ≡ value (i + length w, read_decimal width w % two_32)
unfolding read_decimal
scan_width-field w zero fmt i c width rest a n h b f = absurd (omega arith)
scan_width-field [] (suc fuel) fmt i c width rest a n h b f =
    scan_width-stop fuel fmt i c width (At-char c rest h) n
    ∙ ap (λ p. value p) {x = (i, width)} {y = (i + 0, width % two_32)} (grind arith)
scan_width-field (d ∷ w) (suc fuel) fmt i c width rest a n h b f =
    let next_width = (width * 10 + d + two_32 - b'0') % two_32 in
    let places : i + 1 + length w ≡ i + suc (length w) = omega arith in
    let same : read_decimal next_width w % two_32
        ≡ read_decimal (width * 10 + (d - b'0')) w % two_32 =
      read_decimal-mod next_width (width * 10 + (d - b'0')) w (ground (arith, a.0)) in
    scan_width-digit fuel fmt i d width (At-char d (w ++ c ∷ rest) h) a.0
    ∙ scan_width-field w fuel fmt (i + 1) c next_width rest a.1 n (At-next d (w ++ c ∷ rest) h)
        (omega arith) (omega arith)
    ∙ rw (places, same) refl
