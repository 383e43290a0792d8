-- ===== src/Peotrix/Printf/Letters.antt =====
-- Peotrix_nginx/src/core/ptrx_string.c: the conversions of `ptrx_vslprintf` that print texts and
-- numbers.
use my_coding_exercises.Common.{
  true, All, ℕ, suc, ◌%◌, ◌≤◌, ◌<◌, ◌≡◌, refl, sym, ap, ◌∙◌, false, inl, inr, List, [], ◌∷◌, ◌++◌,
  Bytes, length, ltb, ◌==◌, if◌then◌else◌, arith, Bool-cases,
}
use my_coding_exercises.Common.Int.{ℤ, pos, negsuc}
use my_coding_exercises.Peotrix.Buffer.{◌>>=◌, value, next-value, Buf}
use my_coding_exercises.Peotrix.Number.{two_64}
use my_coding_exercises.Peotrix.Number.Cut.{
  cut_off, cut_off-append, cut_off-nil, cut_off-full, put-cut_off, cpymem-cut_off,
}
use my_coding_exercises.Peotrix.Number.Numerals.{Reads, power, read_decimal}
use my_coding_exercises.Peotrix.Number.Digits.{ptrx_sprintf_num-Reads}
use my_coding_exercises.Peotrix.Printf.{
  Size, int_size, long_size, size_of, kind_of, Spec, Arg, signed, unsigned, copy_chars, copy_min,
  print, print_signed, print_arg, convert, two_32,
}
use my_coding_exercises.Peotrix.Printf.Directives.{
  hexadecimal_of, size_letter, IsSigned, IsUnsigned, Radix, in_decimal, in_lower, in_upper, padding,
  number, natural, IsProper, field, Shows,
}
use my_coding_exercises.Peotrix.Printf.Fields.{flagged, width_spec, flag_spec}

pub copy_min-cut_off : (p : Bytes) (out : Buf) → copy_min (length p) p out ≡ value (cut_off out p)
unfolding copy_min
copy_min-cut_off p out =
    let enough : ltb (length p) (if ltb out.room (length p) then out.room else length p) ≡ false =
      ground arith in
    rw enough (cpymem-cut_off p out)

pub copy_chars-cut_off :
    (p : Bytes) (out : Buf)
    → All (λ c. (c == 0) ≡ false) p
    → copy_chars (p ++ 0 ∷ []) out ≡ value (cut_off out p)
unfolding copy_chars
copy_chars-cut_off [] out a = ap value (sym (cut_off-nil out))
copy_chars-cut_off (c ∷ p) out a = elim (Bool-cases (ltb 0 out.room)) [
  | inr e ↦ rw (a.0, e) (ap value (sym (cut_off-full out (c ∷ p) (ground arith))))
  | inl e ↦
      rw (a.0, e)
        (next-value (copy_chars (p ++ 0 ∷ [])) (put-cut_off c out (ground arith))
          ∙ copy_chars-cut_off p (cut_off out (c ∷ [])) a.1
          ∙ ap value (cut_off-append out (c ∷ []) p))
]

module _ (int64_len int_t_len ptr_size : ℕ) (fits : two_64 ≤ power 10 int64_len) where
  -- The sizes of the letters are those of the arguments.
  convert-size :
      (size : Size) (s : Spec) (args : List Arg) (out : Buf)
      → convert int64_len int_t_len ptr_size
          (kind_of (size_letter size))
          (size_letter size)
          s
          args
          out
        ≡ print_arg int64_len int_t_len ptr_size size s.sign s args out
  unfolding convert kind_of size_of
  convert-size int_size s args out = refl
  convert-size long_size s args out = refl

  print_arg-signed :
      (size : Size) (s : Spec) (z : ℤ) (args : List Arg) (out : Buf)
      → print_arg int64_len int_t_len ptr_size size true s (signed size z ∷ args) out
        ≡ (print_signed int64_len int_t_len ptr_size s z out >>= λ o. value (args, o))
  unfolding print_arg
  print_arg-signed int_size s z args out = refl
  print_arg-signed long_size s z args out = refl

  print_arg-unsigned :
      (size : Size) (s : Spec) (n : ℕ) (args : List Arg) (out : Buf)
      → print_arg int64_len int_t_len ptr_size size false s (unsigned size n ∷ args) out
        ≡ (print int64_len int_t_len ptr_size s n out >>= λ o. value (args, o))
  unfolding print_arg
  print_arg-unsigned int_size s n args out = refl
  print_arg-unsigned long_size s n args out = refl

  signed-bound : (size : Size) (n : ℕ) → IsSigned size (pos n) → n < two_64
  signed-bound int_size n h = omega arith
  signed-bound long_size n h = omega arith

  negative-bound : (size : Size) (n : ℕ) → IsSigned size (negsuc n) → suc n < two_64
  negative-bound int_size n h = omega arith
  negative-bound long_size n h = omega arith

  unsigned-bound : (size : Size) (n : ℕ) → IsUnsigned size n → n < two_64
  unsigned-bound int_size n h = omega arith
  unsigned-bound long_size n h = omega arith

  -- The conversion of a number that has an argument for it.
  pub convert-number :
      (w : Bytes) (size : Size) (z : ℤ) (args : List Arg) (out : Buf)
      → IsProper (number w size z)
      → 0 < out.room
      → (t : Bytes) × Shows (number w size z) t
        × (convert int64_len int_t_len ptr_size
              (kind_of (size_letter size))
              (size_letter size)
              (width_spec w)
              (signed size z ∷ args)
              out
            ≡ value (args, cut_off out t))
  unfolding print_signed print
  convert-number w size (pos n) args out h room =
      let (r, reads, e) =
        ptrx_sprintf_num-Reads int64_len out n (padding w) 0 (read_decimal 0 w % two_32)
          (signed-bound size n h.1) fits in
      (
        field w r,
        (r, reads, refl),
        convert-size size (width_spec w) (signed size (pos n) ∷ args) out
            ∙ print_arg-signed size (width_spec w) (pos n) args out
            ∙ next-value _ e,
      )
  convert-number w size (negsuc n) args out h room =
      let after = cut_off out (b'-' ∷ []) in
      let (r, reads, e) =
        ptrx_sprintf_num-Reads int64_len after (suc n) (padding w) 0 (read_decimal 0 w % two_32)
          (negative-bound size n h.1) fits in
      (
        b'-' ∷ field w r,
        (r, reads, refl),
        convert-size size (width_spec w) (signed size (negsuc n) ∷ args) out
            ∙ print_arg-signed size (width_spec w) (negsuc n) args out
            ∙ next-value _ (
                next-value (print int64_len int_t_len ptr_size (width_spec w) (suc n))
                  (put-cut_off b'-' out room)
                ∙ e
                ∙ ap value (cut_off-append out (b'-' ∷ []) (field w r))),
      )

  print-natural :
      (w : Bytes) (radix : Radix) (n : ℕ) (out : Buf)
      → n < two_64
      → (r : Bytes) × Reads (hexadecimal_of radix) n r
        × (print int64_len int_t_len ptr_size (flag_spec (flagged radix) (width_spec w)) n out
            ≡ value (cut_off out (field w r)))
  unfolding print
  print-natural w in_decimal n out h =
      ptrx_sprintf_num-Reads int64_len out n (padding w) 0 (read_decimal 0 w % two_32) h fits
  print-natural w in_lower n out h =
      ptrx_sprintf_num-Reads int64_len out n (padding w) 1 (read_decimal 0 w % two_32) h fits
  print-natural w in_upper n out h =
      ptrx_sprintf_num-Reads int64_len out n (padding w) 2 (read_decimal 0 w % two_32) h fits

  no_sign : (radix : Radix) (s : Spec) → (flag_spec (flagged radix) s).sign ≡ false
  no_sign in_decimal s = refl
  no_sign in_lower s = refl
  no_sign in_upper s = refl

  pub convert-natural :
      (w : Bytes) (radix : Radix) (size : Size) (n : ℕ) (args : List Arg) (out : Buf)
      → IsProper (natural w radix size n)
      → (t : Bytes) × Shows (natural w radix size n) t
        × (convert int64_len int_t_len ptr_size
              (kind_of (size_letter size))
              (size_letter size)
              (flag_spec (flagged radix) (width_spec w))
              (unsigned size n ∷ args)
              out
            ≡ value (args, cut_off out t))
  convert-natural w radix size n args out h =
      let s = flag_spec (flagged radix) (width_spec w) in
      let (r, reads, e) = print-natural w radix n out (unsigned-bound size n h.1) in
      (
        field w r,
        (r, reads, refl),
        convert-size size s (unsigned size n ∷ args) out
            ∙ ap (λ b. print_arg int64_len int_t_len ptr_size size b s (unsigned size n ∷ args) out)
                (no_sign radix (width_spec w))
            ∙ print_arg-unsigned size s n args out
            ∙ next-value _ e,
      )
