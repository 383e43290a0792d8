-- ===== src/Peotrix/Printf.antt =====
-- Peotrix_nginx/src/core/ptrx_string.c: `ptrx_vslprintf`. The format is a text with an index into it
-- instead of the pointer `fmt`; the byte behind the text is its null byte, and there is nothing
-- behind that. PTRX_INT_T_LEN, PTRX_PTR_SIZE and PTRX_INT64_LEN are defined in no header and are
-- arguments.
pub mod Safety
pub mod Scanning
pub mod Ends
pub mod Reading
pub mod Precision
pub mod Directives
pub mod Widths
pub mod Fields
pub mod Letters
pub mod Rounds
pub mod Renders
use my_coding_exercises.Common.{
  ℕ, zero, suc, ◌+◌, ◌-◌, ◌*◌, ◌%◌, Bool, true, false, not, ◌&&◌, ◌||◌, List, [], ◌∷◌, Bytes,
  length, take, get_or, ltb, leb, ◌==◌, if◌then◌else◌,
}
use my_coding_exercises.Common.Int.{ℤ, pos, negsuc}
use my_coding_exercises.Peotrix.Buffer.{
  Outcome, value, failed, Fault, overrun, bad_read, bad_args, stuck, ◌>>=◌, Buf, put, cpymem,
}
use my_coding_exercises.Peotrix.Number.{two_64, ptrx_sprintf_num}

abbrev pub two_32 : ℕ
two_32 = 4_294_967_296

-- Integers of 32 bits (`int`, `pid_t`, `int32_t`) and of 64 bits (`long`, `size_t`, `off_t`, `time_t`,
-- `rlim_t`, `int64_t`), as on a 64-bit Unix.
pub data Size : Type 0 where
  int_size long_size : Size

-- What `va_arg` can find: a signed or an unsigned integer of a size, a pointer to a `ptrx_str_t`,
-- to a `ptrx_variable_value_t`, to bytes, or to nothing of interest, and a double, which is whether
-- it is negative, its integer part without the sign, and its fraction, scaled by a power of ten and
-- rounded.
pub data Arg : Type 0 where
  signed : Size → ℤ → Arg
  unsigned : Size → ℕ → Arg
  str variable chars : Bytes → Arg
  pointer : ℕ → Arg
  double : Bool → ℕ → (ℕ → ℕ) → Arg

-- The local variables that the characters behind `%` set.
pub record Spec : Type 0 where
  pub zero_char : ℕ
  pub width : ℕ
  pub sign : Bool
  pub hex : ℕ
  pub max_width : Bool
  pub frac_width : ℕ
  pub slen : ℕ

-- Where a piece of the loop leaves the format, the arguments and the buffer.
pub record State : Type 0 where
  pub index : ℕ
  pub args : List Arg
  pub out : Buf

pub record Scanned : Type 0 where
  pub index : ℕ
  pub args : List Arg
  pub spec : Spec

-- `*fmt`
unfoldable pub char_at : Bytes → ℕ → Outcome ℕ
char_at fmt i = if leb i (length fmt) then value (get_or fmt i 0) else failed bad_read

abbrev pub is_digit : ℕ → Bool
is_digit c = leb b'0' c && leb c b'9'

-- while(*fmt >= '0' && *fmt <= '9') width = width * 10 + *fmt++ - '0';
unfoldable pub scan_width : ℕ → Bytes → ℕ → ℕ → Outcome (ℕ × ℕ)
scan_width zero fmt i width = failed stuck
scan_width (suc fuel) fmt i width = char_at fmt i >>= λ c. elim (is_digit c) [
  | true ↦ scan_width fuel fmt (i + 1) ((width * 10 + c + two_32 - b'0') % two_32)
  | false ↦ value (i, width)
]

-- while(*fmt >= '0' && *fmt <= '9') frac_width = frac_width * 10 + *fmt-- - '0';
unfoldable pub scan_fraction : ℕ → Bytes → ℕ → ℕ → Outcome (ℕ × ℕ)
scan_fraction zero fmt i frac_width = failed stuck
scan_fraction (suc fuel) fmt i frac_width = char_at fmt i >>= λ c. elim (is_digit c) [
  | true ↦ elim (i == 0) [
    | true ↦ failed bad_read
    | false ↦ scan_fraction fuel fmt (i - 1) ((frac_width * 10 + c + two_32 - b'0') % two_32)
  ]
  | false ↦ value (i, frac_width)
]

-- The `for(; ;)` around the first `switch`.
unfoldable pub scan_flags : ℕ → Bytes → ℕ → List Arg → Spec → Outcome Scanned
scan_flags zero fmt i args s = failed stuck
scan_flags (suc fuel) fmt i args s = char_at fmt i >>= λ c. elim (c == b'u') [
  | true ↦ scan_flags fuel fmt (i + 1) args (record s { sign = false })
  | false ↦ elim (c == b'm') [
    | true ↦ scan_flags fuel fmt (i + 1) args (record s { max_width = true })
    | false ↦ elim (c == b'X') [
      | true ↦ scan_flags fuel fmt (i + 1) args (record s { hex = 2; sign = false })
      | false ↦ elim (c == b'x') [
        | true ↦ scan_flags fuel fmt (i + 1) args (record s { hex = 1; sign = false })
        | false ↦ elim (c == b'.') [
          | true ↦ scan_fraction (length fmt + 2) fmt (i + 1) s.frac_width >>= λ (j, frac).
              value (record { index = j; args = args; spec = record s { frac_width = frac } })
          | false ↦ elim (c == b'*') [
            | true ↦ elim args [
              | unsigned long_size n ∷ rest ↦
                  scan_flags fuel fmt (i + 1) rest (record s { slen = n })
              | other ↦ failed bad_args
            ]
            | false ↦ value (record { index = i; args = args; spec = s })
          ]
        ]
      ]
    ]
  ]
]

-- The labels of the second `switch`; labels whose code differs in the C type of the argument only
-- stand together.
pub data Kind : Type 0 where
  text_kind variable_kind chars_kind : Kind
  signed_kind limit_kind msec_kind number_kind int_kind atomic_kind : Kind
  float_kind pointer_kind char_kind null_kind newline_kind percent_kind other_kind : Kind

unfoldable pub kind_of : ℕ → Kind
kind_of c =
    if c == b'V'
    then text_kind
    else if c == b'v'
    then variable_kind
    else if c == b's'
    then chars_kind
    else if (c == b'O') || (c == b'P') || (c == b'T')
    then signed_kind
    else if c == b'r'
    then limit_kind
    else if c == b'M'
    then msec_kind
    else if (c == b'z') || (c == b'd') || (c == b'l') || (c == b'D') || (c == b'L')
    then number_kind
    else if c == b'i'
    then int_kind
    else if c == b'A'
    then atomic_kind
    else if c == b'f'
    then float_kind
    else if c == b'p'
    then pointer_kind
    else if c == b'c'
    then char_kind
    else if c == b'Z'
    then null_kind
    else if c == b'N'
    then newline_kind
    else if c == b'%'
    then percent_kind
    else other_kind

-- while(*p && buf < last) *buf++ = *p++;
unfoldable pub copy_chars : Bytes → Buf → Outcome Buf
copy_chars [] out = failed bad_read
copy_chars (c ∷ p) out =
    if c == 0
    then value out
    else elim (ltb 0 out.room) [ true ↦ put c out >>= copy_chars p | false ↦ value out ]

-- `len = ptrx_min(last - buf, n)` bytes from `p`.
unfoldable pub copy_min : ℕ → Bytes → Buf → Outcome Buf
copy_min n p out =
    let len = if ltb out.room n then out.room else n in
    if ltb (length p) len then failed bad_read else cpymem (take len p) out

-- The size of the type that `va_arg` is called with.
unfoldable pub size_of : ℕ → Size
size_of c =
    if (c == b'd') || (c == b'i') || (c == b'D') || (c == b'A') || (c == b'P')
    then int_size
    else long_size

-- (int64_t)
unfoldable pub to_int64 : ℕ → ℤ
to_int64 n = if ltb n 9_223_372_036_854_775_808 then pos n else negsuc (two_64 - 1 - n)

unfoldable pub low_byte : ℤ → ℕ
low_byte (pos n) = n % 256
low_byte (negsuc n) = 255 - n % 256

module _ (int64_len int_t_len ptr_size : ℕ) where
  -- The last call of `ptrx_sprintf_num`.
  unfoldable pub print : Spec → ℕ → Buf → Outcome Buf
  print s ui64 out = ptrx_sprintf_num int64_len out ui64 s.zero_char s.hex s.width

  -- if(sign) { … }, and the call behind it. The negation of the smallest `int64_t`, which overflows,
  -- is 2 ^ 63 here, as on the usual machines.
  unfoldable pub print_signed : Spec → ℤ → Buf → Outcome Buf
  print_signed s (pos n) out = print s n out
  print_signed s (negsuc n) out = put b'-' out >>= print s (suc n)

  -- The argument of a number, by `sign`.
  unfoldable pub print_arg : Size → Bool → Spec → List Arg → Buf → Outcome (List Arg × Buf)
  print_arg int_size true s (signed int_size z ∷ rest) out =
      print_signed s z out >>= λ o. value (rest, o)
  print_arg long_size true s (signed long_size z ∷ rest) out =
      print_signed s z out >>= λ o. value (rest, o)
  print_arg int_size false s (unsigned int_size n ∷ rest) out =
      print s n out >>= λ o. value (rest, o)
  print_arg long_size false s (unsigned long_size n ∷ rest) out =
      print s n out >>= λ o. value (rest, o)
  print_arg _ _ s args out = failed bad_args

  -- `case 'f'`
  unfoldable pub print_double : Spec → Bool → ℕ → (ℕ → ℕ) → Buf → Outcome Buf
  print_double s negative whole fraction out =
      (if negative then put b'-' out else value out)
      >>= (λ a. ptrx_sprintf_num int64_len a whole s.zero_char 0 s.width)
      >>= λ b. elim (s.frac_width == 0) [
        | true ↦ value b
        | false ↦ (if ltb 0 b.room then put b'.' b else value b) >>= λ d.
            ptrx_sprintf_num int64_len d (fraction s.frac_width) b'0' 0 s.frac_width
      ]

  -- The cases of the second `switch`, with the character `c`.
  unfoldable pub convert : Kind → ℕ → Spec → List Arg → Buf → Outcome (List Arg × Buf)
  convert text_kind c s (str p ∷ rest) out = copy_min (length p) p out >>= λ o. value (rest, o)
  convert variable_kind c s (variable p ∷ rest) out =
      copy_min (length p) p out >>= λ o. value (rest, o)
  convert chars_kind c s (chars p ∷ rest) out =
      (if s.slen == two_64 - 1 then copy_chars p out else copy_min s.slen p out) >>= λ o.
      value (rest, o)
  convert signed_kind c s args out = print_arg (size_of c) true s args out
  convert limit_kind c s (unsigned long_size n ∷ rest) out =
      print_signed s (to_int64 n) out >>= λ o. value (rest, o)
  convert msec_kind c s (unsigned int_size ms ∷ rest) out =
      (if ms == two_32 - 1 then print_signed s (negsuc 0) out else print s ms out) >>= λ o.
      value (rest, o)
  convert number_kind c s args out = print_arg (size_of c) s.sign s args out
  convert int_kind c s args out =
      print_arg (size_of c) s.sign (record s { width = if s.max_width then int_t_len else s.width })
        args out
  convert atomic_kind c s args out =
      print_arg (size_of c) s.sign (record s { width = if s.max_width then 11 else s.width }) args
        out
  convert float_kind c s (double negative whole fraction ∷ rest) out =
      print_double s negative whole fraction out >>= λ o. value (rest, o)
  convert pointer_kind c s (pointer p ∷ rest) out =
      print (record s { hex = 2; zero_char = b'0'; width = ptr_size * 2 }) p out >>= λ o.
      value (rest, o)
  convert char_kind c s (signed int_size d ∷ rest) out =
      put (low_byte d) out >>= λ o. value (rest, o)
  convert null_kind c s args out = put 0 out >>= λ o. value (args, o)
  convert newline_kind c s args out = put 10 out >>= λ o. value (args, o)
  convert percent_kind c s args out = put b'%' out >>= λ o. value (args, o)
  convert other_kind c s args out = put c out >>= λ o. value (args, o)
  convert _ c s args out = failed bad_args

  -- The branch of the loop for a `%` at `i`.
  unfoldable pub conversion : Bytes → ℕ → List Arg → Buf → Outcome State
  conversion fmt i args out = char_at fmt (i + 1) >>= λ z.
      scan_width (length fmt + 2) fmt (i + 1) 0 >>= λ (j, width).
      scan_flags (length fmt + 2) fmt j args (record {
        zero_char = if z == b'0' then b'0' else b' ';
        width = width;
        sign = true;
        hex = 0;
        max_width = false;
        frac_width = 0;
        slen = two_64 - 1;
      })
      >>= λ f. char_at fmt f.index >>= λ c. convert (kind_of c) c f.spec f.args out >>= λ (rest, o).
          value (record { index = f.index + 1; args = rest; out = o })

  -- while(*fmt && buf < last)
  unfoldable pub ptrx_vslprintf : ℕ → Bytes → ℕ → List Arg → Buf → Outcome Buf
  ptrx_vslprintf zero fmt i args out = failed stuck
  ptrx_vslprintf (suc fuel) fmt i args out = char_at fmt i >>= λ c.
      elim (not (c == 0) && ltb 0 out.room) [
        | false ↦ value out
        | true ↦ elim (c == b'%') [
          | true ↦ conversion fmt i args out >>= λ s. ptrx_vslprintf fuel fmt s.index s.args s.out
          | false ↦ put c out >>= ptrx_vslprintf fuel fmt (i + 1) args
        ]
      ]
