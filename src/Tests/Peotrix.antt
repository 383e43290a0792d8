-- ===== src/Tests/Peotrix.antt =====
-- A time, some numbers and some formats.
use my_coding_exercises.Common.{◌+◌, ◌≡◌, refl, false, List, [], ◌∷◌, Bytes, codes, length, arith}
use my_coding_exercises.Common.Int.{negsuc}
use my_coding_exercises.Peotrix.Times.{ptrx_gmtime, year_day, fill_tm, leap, before_march}
use my_coding_exercises.Peotrix.Times.Civil.{IsCivil, ptrx_gmtime-IsCivil}
use my_coding_exercises.Peotrix.Buffer.{Outcome, value, ◌>>=◌, Buf, put, cpymem, Safe, Grows}
use my_coding_exercises.Peotrix.Number.{decimal, hexadecimal_loop, digits, pad, ptrx_sprintf_num}
use my_coding_exercises.Peotrix.Number.Cut.{cut_off}
use my_coding_exercises.Peotrix.Number.Numerals.{Reads}
use my_coding_exercises.Peotrix.Number.Digits.{padded, ptrx_sprintf_num-Reads}
use my_coding_exercises.Peotrix.Printf.{
  int_size, long_size, size_of, Arg, signed, unsigned, str, double, char_at, scan_width,
  scan_fraction, scan_flags, kind_of, copy_chars, copy_min, print, print_signed, print_arg,
  print_double, convert, conversion, ptrx_vslprintf,
}
use my_coding_exercises.Peotrix.Printf.Directives.{
  Directive, plain, percent, text, number, natural, in_upper, spell, arguments, Prints,
}
use my_coding_exercises.Peotrix.Printf.Renders.{ptrx_vslprintf-Prints}
use my_coding_exercises.Peotrix.Printf.Ends.{ptrx_vslprintf-Safe}
use my_coding_exercises.Peotrix.Printf.Precision.{ptrx_vslprintf-precision}

-- 2001-09-09 01:46:40, a Sunday, and a leap day.
billennium : ptrx_gmtime 1_000_000_000 ≡ record {
  tm_sec = 40;
  tm_min = 46;
  tm_hour = 1;
  tm_mday = 9;
  tm_mon = 9;
  tm_year = 2001;
  tm_wday = 0;
}
unfolding ptrx_gmtime fill_tm year_day before_march leap
billennium = refl

leap_day : ptrx_gmtime 951_827_696 ≡ record {
  tm_sec = 56;
  tm_min = 34;
  tm_hour = 12;
  tm_mday = 29;
  tm_mon = 2;
  tm_year = 2000;
  tm_wday = 2;
}
unfolding ptrx_gmtime fill_tm year_day before_march leap
leap_day = refl

abbrev empty : Buf
empty = record { written = []; room = 20 }

-- The lengths that the macros have in nginx.
abbrev print_to : Bytes → List Arg → Outcome Buf
print_to fmt args = ptrx_vslprintf 20 20 8 (length fmt + 2) fmt 0 args empty

abbrev line : Bytes
line = codes "%V: %d of %3uD, %Xd%N"

abbrev line_args : List Arg
line_args =
    str (codes "file")
    ∷ signed int_size (negsuc 41)
    ∷ unsigned int_size 7
    ∷ unsigned int_size 255
    ∷ []

line_printed :
    print_to line line_args ≡ value (record { written = codes "file: -42 of   7, FF"; room = 0 })
unfolding ptrx_vslprintf conversion char_at scan_width scan_fraction scan_flags kind_of convert
    copy_chars copy_min print print_signed print_arg print_double size_of ptrx_sprintf_num pad
    digits decimal hexadecimal_loop put cpymem ◌>>=◌
line_printed = refl

ptrx_gmtime-IsCivil_example : IsCivil 951_827_696 (ptrx_gmtime 951_827_696)
ptrx_gmtime-IsCivil_example = ptrx_gmtime-IsCivil 951_827_696 (omega arith)

ptrx_sprintf_num-Reads_example :
    (r : Bytes) × Reads 0 1729 r
    × (ptrx_sprintf_num 20 empty 1729 b'0' 0 8 ≡ value (cut_off empty (padded b'0' 8 r)))
ptrx_sprintf_num-Reads_example =
    ptrx_sprintf_num-Reads 20 empty 1729 b'0' 0 8 (omega arith) (omega arith)

ptrx_vslprintf-Safe_example : Safe (Grows empty) (print_to line line_args)
ptrx_vslprintf-Safe_example =
    ptrx_vslprintf-Safe 20 20 8 (omega arith) line line_args empty
      (tt, (omega arith, (omega arith, (omega arith, tt))))

abbrev fixed : Bytes
fixed = codes "%.3f"

abbrev half : Arg
half = double false 2 (λ places. 5)

ptrx_vslprintf-precision_example :
    ptrx_vslprintf 20 20 8 6 fixed 0 (half ∷ []) empty
    ≡ ptrx_vslprintf 20 20 8 5 fixed 2 (half ∷ []) (cut_off empty (b'.' ∷ []))
ptrx_vslprintf-precision_example =
    ptrx_vslprintf-precision 20 20 8 5 fixed 0 b'3' (half ∷ []) empty refl refl refl refl
      (omega arith) (omega arith)

-- "file: %V, %05d %Xd%%" in a buffer that is too short for it.
abbrev directives : List Directive
directives =
    plain b'f'
    ∷ plain b':'
    ∷ text (codes "motd")
    ∷ percent
    ∷ number (codes "05") int_size (negsuc 41)
    ∷ natural [] in_upper long_size 255
    ∷ []

ptrx_vslprintf-Prints_example :
    (t : Bytes) × Prints directives t
    × (ptrx_vslprintf 20 20 8
          (length (spell directives) + 2)
          (spell directives)
          0
          (arguments directives)
          empty
        ≡ value (cut_off empty t))
ptrx_vslprintf-Prints_example = ptrx_vslprintf-Prints 20 20 8 (omega arith) directives empty (
  (refl, refl),
  ((refl, refl), (tt, (tt, (((refl, (refl, tt)), omega arith), ((tt, omega arith), tt))))),
)
