-- ===== src/Peotrix/Printf/Renders.antt =====
-- Peotrix_nginx/src/core/ptrx_string.c: `ptrx_vslprintf` on a format that is spelled from directives.
use mathlib.Core.Path.{subst}
use my_coding_exercises.Common.{
  All, ℕ, zero, suc, ◌+◌, ◌≤◌, ◌<◌, ◌≡◌, refl, sym, ap, ◌∙◌, inl, inr, List, [], ◌∷◌, ◌++◌,
  append_assoc, Bytes, length, length-append, ltb, arith, Bool-cases,
}
use my_coding_exercises.Peotrix.Buffer.{value, next-value, Buf}
use my_coding_exercises.Peotrix.Number.{two_64}
use my_coding_exercises.Peotrix.Number.Cut.{
  cut_off, cut_off-append, cut_off-nil, cut_off-full, put-cut_off,
}
use my_coding_exercises.Peotrix.Number.Numerals.{power}
use my_coding_exercises.Peotrix.Printf.{
  Arg, str, chars, signed, unsigned, kind_of, convert, ptrx_vslprintf,
}
use my_coding_exercises.Peotrix.Printf.Reading.{At, At-start, At-append, At-char, At-end, At-some}
use my_coding_exercises.Peotrix.Printf.Directives.{
  size_letter, radix_flag, Directive, plain, percent, text, string, number, natural, spell_one,
  spell, argument, arguments, IsProper, Shows, Prints, nothing, next,
}
use my_coding_exercises.Peotrix.Printf.Rounds.{loop-conversion, loop-plain, loop-full, loop-end}
use my_coding_exercises.Peotrix.Printf.Letters.{
  copy_min-cut_off, copy_chars-cut_off, convert-number, convert-natural,
}
use my_coding_exercises.Peotrix.Printf.Fields.{
  v_letter, s_letter, number_letter, percent_letter, no_flag, flagged, conversion-letter,
}

spell_one-length : (d : Directive) → 1 ≤ length (spell_one d)
spell_one-length (plain c) = omega arith
spell_one-length percent = omega arith
spell_one-length (text p) = omega arith
spell_one-length (string p) = omega arith
spell_one-length (number w size z) = omega arith
spell_one-length (natural w r size n) = omega arith

module _ (int64_len int_t_len ptr_size : ℕ) (fits : two_64 ≤ power 10 int64_len) where
  -- A directive at `i`: its text goes to the buffer, and its arguments are used up.
  directive-Shows :
      (d : Directive) (rest : Bytes) (fuel : ℕ) (fmt : Bytes) (i : ℕ) (args : List Arg) (out : Buf)
      → IsProper d
      → At fmt i (spell_one d ++ rest)
      → 0 < out.room
      → (t : Bytes) × Shows d t
        × (ptrx_vslprintf int64_len int_t_len ptr_size (suc fuel) fmt i (argument d ++ args) out
            ≡ ptrx_vslprintf int64_len int_t_len ptr_size fuel fmt
                (i + length (spell_one d))
                args
                (cut_off out t))
  unfolding convert kind_of
  directive-Shows (plain c) rest fuel fmt i args out h here room = (
    c ∷ [],
    refl,
    loop-plain int64_len int_t_len ptr_size fuel fmt i c args out (At-char c rest here) h room,
  )
  directive-Shows percent rest fuel fmt i args out h here room = (
    b'%' ∷ [],
    refl,
    loop-conversion int64_len int_t_len ptr_size fuel fmt i (i + 1 + 0 + 0 + 1) (i + 2) args args
        out (cut_off out (b'%' ∷ [])) (At-char b'%' (b'%' ∷ rest) here) room (omega arith)
        (conversion-letter int64_len int_t_len ptr_size [] no_flag percent_letter rest args args out
          _ tt here (next-value _ (put-cut_off b'%' out room))),
  )
  directive-Shows (text p) rest fuel fmt i args out h here room = (
    p,
    refl,
    loop-conversion int64_len int_t_len ptr_size fuel fmt i (i + 1 + 0 + 0 + 1) (i + 2)
        (str p ∷ args) args out (cut_off out p) (At-char b'%' (b'V' ∷ rest) here) room (omega arith)
        (conversion-letter int64_len int_t_len ptr_size [] no_flag v_letter rest (str p ∷ args) args
          out _ tt here (next-value _ (copy_min-cut_off p out))),
  )
  directive-Shows (string p) rest fuel fmt i args out h here room = (
    p,
    refl,
    loop-conversion int64_len int_t_len ptr_size fuel fmt i (i + 1 + 0 + 0 + 1) (i + 2)
        (chars (p ++ 0 ∷ []) ∷ args) args out (cut_off out p) (At-char b'%' (b's' ∷ rest) here) room
        (omega arith)
        (conversion-letter int64_len int_t_len ptr_size [] no_flag s_letter rest
          (chars (p ++ 0 ∷ []) ∷ args) args out _ tt here
          (next-value _ (copy_chars-cut_off p out h))),
  )
  directive-Shows (number w size z) rest fuel fmt i args out h here room =
      let (t, shows, converts) =
        convert-number int64_len int_t_len ptr_size fits w size z args out h room in
      (
        t,
        shows,
        loop-conversion int64_len int_t_len ptr_size fuel fmt i (i + 1 + length w + 0 + 1)
            (i + suc (length (w ++ size_letter size ∷ []))) (signed size z ∷ args) args out
            (cut_off out t) (At-char b'%' (w ++ size_letter size ∷ [] ++ rest) here) room
            (omega (arith, length-append w (size_letter size ∷ [])))
            (conversion-letter int64_len int_t_len ptr_size w no_flag (number_letter size) rest
              (signed size z ∷ args) args out (cut_off out t) h.0
              (subst (λ u. At fmt i (b'%' ∷ u)) (append_assoc w (size_letter size ∷ []) rest) here)
              converts),
      )
  directive-Shows (natural w radix size n) rest fuel fmt i args out h here room =
      let (t, shows, converts) =
        convert-natural int64_len int_t_len ptr_size fits w radix size n args out h in
      (
        t,
        shows,
        loop-conversion int64_len int_t_len ptr_size fuel fmt i (i + 1 + length w + 1 + 1)
            (i + suc (length (w ++ radix_flag radix ∷ size_letter size ∷ [])))
            (unsigned size n ∷ args) args out (cut_off out t)
            (At-char b'%' (w ++ radix_flag radix ∷ size_letter size ∷ [] ++ rest) here) room
            (omega (arith, length-append w (radix_flag radix ∷ size_letter size ∷ [])))
            (conversion-letter int64_len int_t_len ptr_size w (flagged radix) (number_letter size)
              rest (unsigned size n ∷ args) args out (cut_off out t) h.0
              (subst (λ u. At fmt i (b'%' ∷ u))
                (append_assoc w (radix_flag radix ∷ size_letter size ∷ []) rest) here)
              converts),
      )

  -- Every directive has a text: the one that it puts into a buffer that is not full.
  Prints-some : (ds : List Directive) → All IsProper ds → (t : Bytes) × Prints ds t
  Prints-some [] a = ([], nothing)
  Prints-some (d ∷ ds) a =
      let (t, shows, _) =
        directive-Shows d [] 0 (spell_one d ++ []) 0 [] (record { written = []; room = 1 }) a.0
          (At-start (spell_one d ++ [])) (omega arith) in
      let (u, prints) = Prints-some ds a.1 in (t ++ u, next d t ds u shows prints)

  loop-Prints :
      (ds : List Directive) (fuel : ℕ) (fmt : Bytes) (i : ℕ) (out : Buf)
      → All IsProper ds
      → At fmt i (spell ds)
      → length (spell ds) < fuel
      → (t : Bytes) × Prints ds t
        × (ptrx_vslprintf int64_len int_t_len ptr_size fuel fmt i (arguments ds) out
            ≡ value (cut_off out t))
  loop-Prints ds zero fmt i out a here f = absurd (omega arith)
  loop-Prints [] (suc fuel) fmt i out a here f = (
    [],
    nothing,
    loop-end int64_len int_t_len ptr_size fuel fmt i [] out (At-end here)
        ∙ ap value (sym (cut_off-nil out)),
  )
  loop-Prints (d ∷ ds) (suc fuel) fmt i out a here f = elim (Bool-cases (ltb 0 out.room)) [
    | inl e ↦
        let (t, shows, step) =
          directive-Shows d (spell ds) fuel fmt i (arguments ds) out a.0 here (ground arith) in
        let (u, prints, rest) =
          loop-Prints ds fuel fmt (i + length (spell_one d)) (cut_off out t) a.1
            (At-append (spell_one d) (spell ds) here)
            (omega (arith, spell_one-length d, length-append (spell_one d) (spell ds))) in
        (t ++ u, next d t ds u shows prints, step ∙ rest ∙ ap value (cut_off-append out t u))
    | inr e ↦
        let (c, there) = At-some (spell_one d ++ spell ds) here in
        let (t, prints) = Prints-some (d ∷ ds) a in
        (
          t,
          prints,
          loop-full int64_len int_t_len ptr_size fuel fmt i c (arguments (d ∷ ds)) out there
                (ground arith)
              ∙ ap value (sym (cut_off-full out t (ground arith))),
        )
  ]

  -- If `temp` is long enough for the decimal digits of 64 bits, then for every list of directives,
  -- `ptrx_vslprintf`, on the format that they spell and with the arguments that they hold, ends
  -- without a fault, with as many rounds as the format has bytes and two more: it writes the text
  -- of the directives one behind the other, cut off where the buffer ends. Bytes stand for
  -- themselves, `%%` for `%`, and `%V` and `%s` for the text that they are given. `%d` and `%l`
  -- take any `int` and any `long` but the smallest one, with `u`, `x` or `X` in front any `unsigned
  -- int` and `unsigned long`; each is written as its numeral in the base, of at least one digit and
  -- with no zero in front, padded to the width, with the minus in front of the padding.
  pub ptrx_vslprintf-Prints :
      (ds : List Directive) (out : Buf)
      → All IsProper ds
      → (t : Bytes) × Prints ds t
        × (ptrx_vslprintf int64_len int_t_len ptr_size
              (length (spell ds) + 2)
              (spell ds)
              0
              (arguments ds)
              out
            ≡ value (cut_off out t))
  ptrx_vslprintf-Prints ds out a =
      loop-Prints ds (length (spell ds) + 2) (spell ds) 0 out a (At-start (spell ds)) (omega arith)
