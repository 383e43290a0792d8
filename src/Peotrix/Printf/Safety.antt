-- ===== src/Peotrix/Printf/Safety.antt =====
-- `ptrx_vslprintf` ends, and stays within its buffer, whatever the format.
use my_coding_exercises.Common.{
  All, ℕ, suc, ◌-◌, ◌*◌, ◌≤◌, ◌<◌, refl, Bool, true, false, inl, inr, List, [], ◌∷◌, Bytes, length,
  length-take, take, ltb, ◌==◌, if◌then◌else◌, arith, Bool-cases,
}
use my_coding_exercises.Common.Int.{ℤ, pos, negsuc}
use my_coding_exercises.Peotrix.Buffer.{
  Outcome, value, ◌>>=◌, Buf, put, Safe, safe_value, safe_read, safe_args, Safe-next, Safe-weaken,
  Grows, Grows-refl, Grows-trans, put-Safe, cpymem-Safe,
}
use my_coding_exercises.Peotrix.Number.{two_64, ptrx_sprintf_num}
use my_coding_exercises.Peotrix.Number.Cut.{cut_off}
use my_coding_exercises.Peotrix.Number.Numerals.{power}
use my_coding_exercises.Peotrix.Number.Digits.{padded, ptrx_sprintf_num-Reads}
use my_coding_exercises.Peotrix.Printf.{
  Size, int_size, long_size, limit_kind, size_of, to_int64, Arg, signed, unsigned, str, variable,
  chars, pointer, double, Spec, Kind, text_kind, variable_kind, chars_kind, signed_kind, msec_kind,
  number_kind, int_kind, atomic_kind, float_kind, pointer_kind, char_kind, null_kind, newline_kind,
  percent_kind, other_kind, copy_chars, copy_min, low_byte, print, print_signed, print_arg,
  print_double, convert, two_32,
}

Grows-cut_off : (out : Buf) (text : Bytes) → Grows out (cut_off out text)
unfolding cut_off
Grows-cut_off out text = record {
  tail = take out.room text;
  appended = refl;
  fitted = omega (arith, length-take out.room text);
}

copy_chars-Safe : (p : Bytes) (out : Buf) → Safe (Grows out) (copy_chars p out)
unfolding copy_chars
copy_chars-Safe [] out = safe_read
copy_chars-Safe (c ∷ p) out = elim (Bool-cases (c == 0)) [
  | inl e ↦ rw e (safe_value out (Grows-refl out))
  | inr e ↦ elim (Bool-cases (ltb 0 out.room)) [
    | inr full ↦ rw (e, full, copy_chars) (safe_value out (Grows-refl out))
    | inl some_room ↦
        rw (e, some_room, copy_chars)
          (Safe-next (put-Safe c out (ground arith))
            λ o g. Safe-weaken (copy_chars-Safe p o) λ o' g'. Grows-trans g g')
  ]
]

copy_min-Safe : (n : ℕ) (p : Bytes) (out : Buf) → Safe (Grows out) (copy_min n p out)
unfolding copy_min
copy_min-Safe n p out =
    let len : ℕ = if ltb out.room n then out.room else n in
    elim (Bool-cases (ltb (length p) len)) [
      | inl e ↦ rw e safe_read
      | inr e ↦ rw e (cpymem-Safe (take len p) out (ground (arith, length-take len p)))
    ]

-- What a number can hold; a text can be any.
abbrev pub InRange : Arg → Type 0
InRange (signed size (pos n)) = n < two_64
InRange (signed size (negsuc n)) = suc n < two_64
InRange (unsigned size n) = n < two_64
InRange (pointer n) = n < two_64
InRange (double negative whole fraction) =
    (whole < two_64) × ((places : ℕ) → fraction places < two_64)
InRange (str p) = Unit
InRange (variable p) = Unit
InRange (chars p) = Unit

InRange-size : (size : Size) (z : ℤ) → InRange (signed size z) → InRange (signed long_size z)
InRange-size size (pos n) h = h
InRange-size size (negsuc n) h = h

to_int64-InRange : (n : ℕ) → n < two_64 → InRange (signed long_size (to_int64 n))
unfolding to_int64
to_int64-InRange n h = elim (Bool-cases (ltb n 9_223_372_036_854_775_808)) [
  | inl e ↦ rw e h
  | inr e ↦ rw e (ground arith)
]

abbrev pub Leaves : Buf → List Arg × Buf → Type 0
Leaves out r = All InRange r.0 × Grows out r.1

module _ (int64_len int_t_len ptr_size : ℕ) (fits : two_64 ≤ power 10 int64_len) where
  sprintf-Safe :
      (out : Buf) (n zero_char hexadecimal width : ℕ)
      → n < two_64
      → Safe (Grows out) (ptrx_sprintf_num int64_len out n zero_char hexadecimal width)
  sprintf-Safe out n zero_char hexadecimal width h =
      let (r, _, e) = ptrx_sprintf_num-Reads int64_len out n zero_char hexadecimal width h fits in
      rw e (safe_value _ (Grows-cut_off out (padded zero_char width r)))

  print_signed-Safe :
      (s : Spec) (z : ℤ) (out : Buf)
      → InRange (signed long_size z)
      → 0 < out.room
      → Safe (Grows out) (print_signed int64_len int_t_len ptr_size s z out)
  unfolding print_signed print
  print_signed-Safe s (pos n) out h room = sprintf-Safe out n s.zero_char s.hex s.width h
  print_signed-Safe s (negsuc n) out h room = Safe-next (put-Safe b'-' out room) λ o g.
      Safe-weaken (sprintf-Safe o (suc n) s.zero_char s.hex s.width h) λ o' g'. Grows-trans g g'

  -- A text on top of what the first one has left.
  with_rest :
      {out : Buf} {printed : Outcome Buf} (rest : List Arg)
      → All InRange rest
      → Safe (Grows out) printed
      → Safe (Leaves out) (printed >>= λ o. value (rest, o))
  with_rest rest h s = Safe-next s λ o g. safe_value (rest, o) (h, g)

  print_arg-Safe :
      (size : Size) (sign : Bool) (s : Spec) (args : List Arg) (out : Buf)
      → All InRange args
      → 0 < out.room
      → Safe (Leaves out) (print_arg int64_len int_t_len ptr_size size sign s args out)
  unfolding print_arg print
  print_arg-Safe int_size true s (signed int_size z ∷ rest) out h room =
      with_rest rest h.1 (print_signed-Safe s z out (InRange-size int_size z h.0) room)
  print_arg-Safe long_size true s (signed long_size z ∷ rest) out h room =
      with_rest rest h.1 (print_signed-Safe s z out h.0 room)
  print_arg-Safe int_size false s (unsigned int_size n ∷ rest) out h room =
      with_rest rest h.1 (sprintf-Safe out n s.zero_char s.hex s.width h.0)
  print_arg-Safe long_size false s (unsigned long_size n ∷ rest) out h room =
      with_rest rest h.1 (sprintf-Safe out n s.zero_char s.hex s.width h.0)
  print_arg-Safe _ _ s args out h room = safe_args

  print_double-Safe :
      (s : Spec) (negative : Bool) (whole : ℕ) (fraction : ℕ → ℕ) (out : Buf)
      → InRange (double negative whole fraction)
      → 0 < out.room
      → Safe (Grows out) (print_double int64_len int_t_len ptr_size s negative whole fraction out)
  unfolding print_double
  print_double-Safe s negative whole fraction out h room =
      Safe-next
        (Safe-next minus λ a g.
          Safe-weaken (sprintf-Safe a whole s.zero_char 0 s.width h.0) λ b g'. Grows-trans g g')
        λ b g. elim (Bool-cases (s.frac_width == 0)) [
          | inl e ↦ rw e (safe_value b g)
          | inr e ↦ rw e (
              Safe-next (point b) λ d g₁.
                Safe-weaken
                  (sprintf-Safe d (fraction s.frac_width) b'0' 0 s.frac_width (h.1 s.frac_width))
                  λ o g₂. Grows-trans g (Grows-trans g₁ g₂))
        ]
    where
      minus : Safe (Grows out) (if negative then put b'-' out else value out)
      minus = elim (Bool-cases negative) [
        | inl e ↦ rw e (put-Safe b'-' out room)
        | inr e ↦ rw e (safe_value out (Grows-refl out))
      ]

      point : (b : Buf) → Safe (Grows b) (if ltb 0 b.room then put b'.' b else value b)
      point b = elim (Bool-cases (ltb 0 b.room)) [
        | inl e ↦ rw e (put-Safe b'.' b (ground arith))
        | inr e ↦ rw e (safe_value b (Grows-refl b))
      ]

  chars-Safe :
      (s : Spec) (p : Bytes) (out : Buf)
      → Safe (Grows out) (if s.slen == two_64 - 1 then copy_chars p out else copy_min s.slen p out)
  chars-Safe s p out = elim (Bool-cases (s.slen == two_64 - 1)) [
    | inl e ↦ rw e (copy_chars-Safe p out)
    | inr e ↦ rw e (copy_min-Safe s.slen p out)
  ]

  msec-Safe :
      (s : Spec) (ms : ℕ) (out : Buf)
      → ms < two_64
      → 0 < out.room
      → Safe (Grows out) (
          if ms == two_32 - 1
          then print_signed int64_len int_t_len ptr_size s (negsuc 0) out
          else print int64_len int_t_len ptr_size s ms out)
  msec-Safe s ms out h room = elim (Bool-cases (ms == two_32 - 1)) [
    | inl e ↦ rw e (print_signed-Safe s (negsuc 0) out (omega arith) room)
    | inr e ↦ rw e (unfold print in sprintf-Safe out ms s.zero_char s.hex s.width h)
  ]

  pub convert-Safe :
      (k : Kind) (c : ℕ) (s : Spec) (args : List Arg) (out : Buf)
      → All InRange args
      → 0 < out.room
      → Safe (Leaves out) (convert int64_len int_t_len ptr_size k c s args out)
  unfolding convert print
  convert-Safe text_kind c s (str p ∷ rest) out h room =
      with_rest rest h.1 (copy_min-Safe (length p) p out)
  convert-Safe variable_kind c s (variable p ∷ rest) out h room =
      with_rest rest h.1 (copy_min-Safe (length p) p out)
  convert-Safe chars_kind c s (chars p ∷ rest) out h room = with_rest rest h.1 (chars-Safe s p out)
  convert-Safe signed_kind c s args out h room = print_arg-Safe (size_of c) true s args out h room
  convert-Safe limit_kind c s (unsigned long_size n ∷ rest) out h room =
      with_rest rest h.1 (print_signed-Safe s (to_int64 n) out (to_int64-InRange n h.0) room)
  convert-Safe msec_kind c s (unsigned int_size ms ∷ rest) out h room =
      with_rest rest h.1 (msec-Safe s ms out h.0 room)
  convert-Safe number_kind c s args out h room = print_arg-Safe (size_of c) s.sign s args out h room
  convert-Safe int_kind c s args out h room =
      print_arg-Safe (size_of c) s.sign
        (record s { width = if s.max_width then int_t_len else s.width }) args out h room
  convert-Safe atomic_kind c s args out h room =
      print_arg-Safe (size_of c) s.sign (record s { width = if s.max_width then 11 else s.width })
        args out h room
  convert-Safe float_kind c s (double negative whole fraction ∷ rest) out h room =
      with_rest rest h.1 (print_double-Safe s negative whole fraction out h.0 room)
  convert-Safe pointer_kind c s (pointer p ∷ rest) out h room =
      with_rest rest h.1 (sprintf-Safe out p b'0' 2 (ptr_size * 2) h.0)
  convert-Safe char_kind c s (signed int_size d ∷ rest) out h room =
      with_rest rest h.1 (put-Safe (low_byte d) out room)
  convert-Safe null_kind c s args out h room = with_rest args h (put-Safe 0 out room)
  convert-Safe newline_kind c s args out h room = with_rest args h (put-Safe 10 out room)
  convert-Safe percent_kind c s args out h room = with_rest args h (put-Safe b'%' out room)
  convert-Safe other_kind c s args out h room = with_rest args h (put-Safe c out room)
  convert-Safe _ c s args out h room = safe_args
