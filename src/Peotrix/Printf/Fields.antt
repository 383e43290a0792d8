-- ===== src/Peotrix/Printf/Fields.antt =====
-- Peotrix_nginx/src/core/ptrx_string.c: what stands between `%` and the letter of a conversion.
use mathlib.Core.Path.{subst}
use my_coding_exercises.Common.{
  All, ℕ, suc, ◌+◌, ◌-◌, ◌%◌, ◌≡◌, refl, ap, ◌∙◌, true, false, List, [], ◌∷◌, ◌++◌, Bytes, length,
  length-append, ◌==◌, if◌then◌else◌, arith,
}
use my_coding_exercises.Peotrix.Buffer.{value, next-value, Buf}
use my_coding_exercises.Peotrix.Number.{two_64}
use my_coding_exercises.Peotrix.Number.Numerals.{read_decimal}
use my_coding_exercises.Peotrix.Printf.{
  Size, int_size, long_size, Arg, Spec, char_at, is_digit, scan_flags, kind_of, convert, conversion,
  two_32,
}
use my_coding_exercises.Peotrix.Printf.Widths.{scan_width-field}
use my_coding_exercises.Peotrix.Printf.Reading.{At, At-append, At-next, At-within, At-char}
use my_coding_exercises.Peotrix.Printf.Directives.{
  size_letter, Radix, in_decimal, in_lower, in_upper, radix_flag, padding,
}

-- The letters of the directives.
pub data Letter : Type 0 where
  v_letter s_letter percent_letter : Letter
  number_letter : Size → Letter

abbrev pub code : Letter → ℕ
code v_letter = b'V'
code s_letter = b's'
code (number_letter size) = size_letter size
code percent_letter = b'%'

pub data Flag : Type 0 where
  no_flag : Flag
  flagged : Radix → Flag

abbrev pub flag_bytes : Flag → Bytes
flag_bytes no_flag = []
flag_bytes (flagged r) = radix_flag r ∷ []

abbrev pub flag_spec : Flag → Spec → Spec
flag_spec no_flag s = s
flag_spec (flagged in_decimal) s = record s { sign = false }
flag_spec (flagged in_lower) s = record s { hex = 1; sign = false }
flag_spec (flagged in_upper) s = record s { hex = 2; sign = false }

-- The variables after the digits `w` of a width.
abbrev pub width_spec : Bytes → Spec
width_spec w = record {
  zero_char = padding w;
  width = read_decimal 0 w % two_32;
  sign = true;
  hex = 0;
  max_width = false;
  frac_width = 0;
  slen = two_64 - 1;
}

scan_flags-letter :
    (l : Letter) (fuel : ℕ) (fmt : Bytes) (i : ℕ) (args : List Arg) (s : Spec)
    → char_at fmt i ≡ value (code l)
    → scan_flags (suc fuel) fmt i args s ≡ value (record { index = i; args = args; spec = s })
unfolding scan_flags
scan_flags-letter v_letter fuel fmt i args s here = next-value _ here
scan_flags-letter s_letter fuel fmt i args s here = next-value _ here
scan_flags-letter (number_letter int_size) fuel fmt i args s here = next-value _ here
scan_flags-letter (number_letter long_size) fuel fmt i args s here = next-value _ here
scan_flags-letter percent_letter fuel fmt i args s here = next-value _ here

scan_flags-radix :
    (r : Radix) (fuel : ℕ) (fmt : Bytes) (i : ℕ) (args : List Arg) (s : Spec)
    → char_at fmt i ≡ value (radix_flag r)
    → scan_flags (suc fuel) fmt i args s
      ≡ scan_flags fuel fmt (i + 1) args (flag_spec (flagged r) s)
unfolding scan_flags
scan_flags-radix in_decimal fuel fmt i args s here = next-value _ here
scan_flags-radix in_lower fuel fmt i args s here = next-value _ here
scan_flags-radix in_upper fuel fmt i args s here = next-value _ here

scan_flags-flag :
    (f : Flag) (l : Letter) (fuel : ℕ) (fmt : Bytes) (i : ℕ) (rest : Bytes) (args : List Arg)
    (s : Spec)
    → At fmt i (flag_bytes f ++ code l ∷ rest)
    → scan_flags (fuel + 2) fmt i args s
      ≡ value (record { index = i + length (flag_bytes f); args = args; spec = flag_spec f s })
scan_flags-flag no_flag l fuel fmt i rest args s h =
    ap (λ k. scan_flags k fmt i args s) {x = fuel + 2} {y = suc (fuel + 1)} (omega arith)
    ∙ scan_flags-letter l (fuel + 1) fmt i args s (At-char (code l) rest h)
    ∙ ap (λ k. value (record { index = k; args = args; spec = s })) {x = i} {y = i + 0}
        (omega arith)
scan_flags-flag (flagged r) l fuel fmt i rest args s h =
    ap (λ k. scan_flags k fmt i args s) {x = fuel + 2} {y = suc (suc fuel)} (omega arith)
    ∙ scan_flags-radix r (suc fuel) fmt i args s (At-char (radix_flag r) (code l ∷ rest) h)
    ∙ scan_flags-letter l fuel fmt (i + 1) args (flag_spec (flagged r) s)
        (At-char (code l) rest (At-next (radix_flag r) (code l ∷ rest) h))

-- What stands behind the width.
abbrev lead : Flag → Letter → ℕ
lead no_flag l = code l
lead (flagged r) l = radix_flag r

abbrev behind_lead : Flag → Letter → Bytes → Bytes
behind_lead no_flag l rest = rest
behind_lead (flagged r) l rest = code l ∷ rest

lead-split :
    (f : Flag) (l : Letter) (rest : Bytes)
    → flag_bytes f ++ code l ∷ rest ≡ lead f l ∷ behind_lead f l rest
lead-split no_flag l rest = refl
lead-split (flagged r) l rest = refl

lead-letter : (f : Flag) (l : Letter) → is_digit (lead f l) ≡ false
lead-letter no_flag v_letter = refl
lead-letter no_flag s_letter = refl
lead-letter no_flag (number_letter int_size) = refl
lead-letter no_flag (number_letter long_size) = refl
lead-letter no_flag percent_letter = refl
lead-letter (flagged in_decimal) l = refl
lead-letter (flagged in_lower) l = refl
lead-letter (flagged in_upper) l = refl

-- The byte behind `%` decides on the padding.
first_of : Bytes → ℕ → ℕ
first_of [] c = c
first_of (d ∷ w) c = d

first_of-padding :
    (w : Bytes) (c : ℕ)
    → is_digit c ≡ false
    → (if first_of w c == b'0' then b'0' else b' ') ≡ padding w
unfolding first_of
first_of-padding [] c n = let other : (c == b'0') ≡ false = ground (arith, n) in rw other refl
first_of-padding (d ∷ w) c n = refl

first_of-char :
    {fmt : Bytes} {i : ℕ} (w : Bytes) (c : ℕ) (rest : Bytes)
    → At fmt i (w ++ c ∷ rest)
    → char_at fmt i ≡ value (first_of w c)
unfolding first_of
first_of-char [] c rest h = At-char c rest h
first_of-char (d ∷ w) c rest h = At-char d (w ++ c ∷ rest) h

-- From `%` to the letter, and the conversion of the letter.
pub conversion-letter :
    (int64_len int_t_len ptr_size : ℕ) (w : Bytes) (f : Flag) (l : Letter) {fmt : Bytes} {i : ℕ}
    (rest : Bytes) (args args' : List Arg) (out out' : Buf)
    → All (λ d. is_digit d ≡ true) w
    → At fmt i (b'%' ∷ (w ++ (flag_bytes f ++ code l ∷ rest)))
    → convert int64_len int_t_len ptr_size
        (kind_of (code l))
        (code l)
        (flag_spec f (width_spec w))
        args
        out
      ≡ value (args', out')
    → conversion int64_len int_t_len ptr_size fmt i args out
      ≡ value (record {
        index = i + 1 + length w + length (flag_bytes f) + 1;
        args = args';
        out = out';
      })
unfolding conversion
conversion-letter int64_len int_t_len ptr_size w f l {fmt} {i} rest args args' out out' a h
      converts =
    let behind = At-next b'%' (w ++ (flag_bytes f ++ code l ∷ rest)) h in
    let at_lead = subst (λ t. At fmt (i + 1) (w ++ t)) (lead-split f l rest) behind in
    let at_flag = At-append w (flag_bytes f ++ code l ∷ rest) behind in
    let at_letter = At-char (code l) rest (At-append (flag_bytes f) (code l ∷ rest) at_flag) in
    next-value _ (first_of-char w (lead f l) (behind_lead f l rest) at_lead)
    ∙ next-value _ (
        scan_width-field w (length fmt + 2) fmt (i + 1) (lead f l) 0 (behind_lead f l rest) a
          (lead-letter f l) at_lead (omega arith)
          (omega (arith, At-within _ at_lead, length-append w (lead f l ∷ behind_lead f l rest))))
    ∙ next-value _ (
        rw (first_of-padding w (lead f l) (lead-letter f l)) (
          scan_flags-flag f l (length fmt) fmt (i + 1 + length w) rest args (width_spec w) at_flag))
    ∙ next-value _ at_letter
    ∙ next-value _ converts
