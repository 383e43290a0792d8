-- ===== src/Peotrix/Printf/Precision.antt =====
-- Peotrix_nginx/src/core/ptrx_string.c: the digits behind the `.` of a format.
use my_coding_exercises.Common.{
  ℕ, suc, ◌+◌, ◌-◌, ◌*◌, ◌%◌, ◌≤◌, ◌<◌, ◌≡◌, refl, ap, ◌∙◌, true, false, List, [], ◌∷◌, Bytes,
  length, get_or, ltb, ◌==◌, arith,
}
use my_coding_exercises.Peotrix.Buffer.{next-value, value, ◌>>=◌, Buf}
use my_coding_exercises.Peotrix.Printf.Reading.{char_at-value}
use my_coding_exercises.Peotrix.Number.Cut.{cut_off, put-cut_off}
use my_coding_exercises.Peotrix.Printf.{
  Arg, Spec, char_at, is_digit, scan_width, scan_fraction, scan_flags, kind_of, convert, conversion,
  ptrx_vslprintf, two_32,
}

scan_fraction-digit :
    (fuel : ℕ) (fmt : Bytes) (i d frac_width : ℕ)
    → char_at fmt i ≡ value d
    → is_digit d ≡ true
    → 0 < i
    → scan_fraction (suc fuel) fmt i frac_width
      ≡ scan_fraction fuel fmt (i - 1) ((frac_width * 10 + d + two_32 - b'0') % two_32)
unfolding scan_fraction
scan_fraction-digit fuel fmt i d frac_width here digit h =
    let later : (i == 0) ≡ false = ground arith in next-value _ here ∙ rw (digit, later) refl

scan_fraction-dot :
    (fuel : ℕ) (fmt : Bytes) (i frac_width : ℕ)
    → char_at fmt i ≡ value b'.'
    → scan_fraction (suc fuel) fmt i frac_width ≡ value (i, frac_width)
unfolding scan_fraction
scan_fraction-dot fuel fmt i frac_width dot = next-value _ dot

scan_width-dot :
    (fuel : ℕ) (fmt : Bytes) (i width : ℕ)
    → char_at fmt i ≡ value b'.'
    → scan_width (suc fuel) fmt i width ≡ value (i, width)
unfolding scan_width ◌>>=◌
scan_width-dot fuel fmt i width dot = rw dot refl

scan_flags-dot :
    (fuel : ℕ) (fmt : Bytes) (i j frac : ℕ) (args : List Arg) (s : Spec)
    → char_at fmt i ≡ value b'.'
    → scan_fraction (length fmt + 2) fmt (i + 1) s.frac_width ≡ value (j, frac)
    → scan_flags (suc fuel) fmt i args s
      ≡ value (record { index = j; args = args; spec = record s { frac_width = frac } })
unfolding scan_flags ◌>>=◌
scan_flags-dot fuel fmt i j frac args s dot back = rw (dot, back) refl

convert-dot :
    (int64_len int_t_len ptr_size : ℕ) (s : Spec) (args : List Arg) (out : Buf)
    → 0 < out.room
    → convert int64_len int_t_len ptr_size (kind_of b'.') b'.' s args out
      ≡ value (args, cut_off out (b'.' ∷ []))
unfolding convert kind_of ◌>>=◌
convert-dot int64_len int_t_len ptr_size s args out room = rw (put-cut_off b'.' out room) refl

conversion-dot :
    (int64_len int_t_len ptr_size : ℕ) (fmt : Bytes) (i d : ℕ) (args : List Arg) (out : Buf)
    → get_or fmt (i + 1) 0 ≡ b'.'
    → get_or fmt (i + 2) 0 ≡ d
    → is_digit d ≡ true
    → i + 2 ≤ length fmt
    → 0 < out.room
    → conversion int64_len int_t_len ptr_size fmt i args out
      ≡ value (record { index = i + 2; args = args; out = cut_off out (b'.' ∷ []) })
unfolding conversion ◌>>=◌
conversion-dot int64_len int_t_len ptr_size fmt i d args out dot here digit h room =
    let v = (0 * 10 + d + two_32 - b'0') % two_32 in
    let at_dot = char_at-value fmt (i + 1) b'.' dot (omega arith) in
    let back : scan_fraction (length fmt + 2) fmt (i + 1 + 1) 0 ≡ value (i + 1, v) =
      ap (λ k. scan_fraction k fmt (i + 1 + 1) 0) {x = length fmt + 2} {y = suc (suc (length fmt))}
        (omega arith)
      ∙ ap (λ k. scan_fraction (suc (suc (length fmt))) fmt k 0) {x = i + 1 + 1} {y = i + 2}
          (omega arith)
      ∙ scan_fraction-digit (suc (length fmt)) fmt (i + 2) d 0 (char_at-value fmt (i + 2) d here h)
          digit (omega arith)
      ∙ ap (λ k. scan_fraction (suc (length fmt)) fmt k v) {x = i + 2 - 1} {y = i + 1} (omega arith)
      ∙ scan_fraction-dot (length fmt) fmt (i + 1) v at_dot in
    let width =
      ap (λ k. scan_width k fmt (i + 1) 0) {x = length fmt + 2} {y = suc (length fmt + 1)}
        (omega arith)
      ∙ scan_width-dot (length fmt + 1) fmt (i + 1) 0 at_dot in
    let flags = λ (s : Spec) (none_yet : s.frac_width ≡ 0).
      ap (λ k. scan_flags k fmt (i + 1) args s) {x = length fmt + 2} {y = suc (length fmt + 1)}
        (omega arith)
      ∙ scan_flags-dot (length fmt + 1) fmt (i + 1) (i + 1) v args s at_dot
          (ap (scan_fraction (length fmt + 2) fmt (i + 1 + 1)) none_yet ∙ back) in
    next-value _ at_dot
    ∙ next-value _ width
    ∙ next-value _ (flags _ refl)
    ∙ next-value _ at_dot
    ∙ next-value _ (convert-dot int64_len int_t_len ptr_size _ args out room)
    ∙ ap (λ k. value (record { index = k; args = args; out = cut_off out (b'.' ∷ []) }))
        {x = i + 1 + 1} {y = i + 2} (omega arith)

-- In every format that has `%.` and a digit at `i`, as in `%.3f`, the loop copies the `.` as it is,
-- takes no argument, and goes on with the digit as text.
pub ptrx_vslprintf-precision :
    (int64_len int_t_len ptr_size fuel : ℕ) (fmt : Bytes) (i d : ℕ) (args : List Arg) (out : Buf)
    → get_or fmt i 0 ≡ b'%'
    → get_or fmt (i + 1) 0 ≡ b'.'
    → get_or fmt (i + 2) 0 ≡ d
    → is_digit d ≡ true
    → i + 2 ≤ length fmt
    → 0 < out.room
    → ptrx_vslprintf int64_len int_t_len ptr_size (suc fuel) fmt i args out
      ≡ ptrx_vslprintf int64_len int_t_len ptr_size fuel fmt (i + 2) args (cut_off out (b'.' ∷ []))
unfolding ptrx_vslprintf ◌>>=◌
ptrx_vslprintf-precision int64_len int_t_len ptr_size fuel fmt i d args out percent dot here digit h
      room =
    let some_room : ltb 0 out.room ≡ true = ground arith in
    rw
      (
        char_at-value fmt i b'%' percent (omega arith),
        some_room,
        conversion-dot int64_len int_t_len ptr_size fmt i d args out dot here digit h room,
      )
      refl
