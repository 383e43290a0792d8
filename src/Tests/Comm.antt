-- ===== src/Tests/Comm.antt =====
-- Two short lists of fruit, and one that is out of order.
use my_coding_exercises.Common.{
  ℕ, ◌≡◌, refl, true, false, Option, none, some, List, [], ◌∷◌, Bytes, codes,
}
use my_coding_exercises.Comm.{
  equal, check_order_default, check_order_enabled, Options, Stream, Comm, Progress, going, failure,
  disorder, ◌>>=◌, memcmp, text_of, thisline, by_length, plain_order, order_of, writeline_1,
  writeline_2, writeline_3, report, check_order, next_line, readlinebuffer, rotate, check_read,
  no_error, fill_up, round, compare_loop, open_file, close_file, compare_files, exit_status,
}
use my_coding_exercises.Comm.Bodies.{compare_bytes}
use my_coding_exercises.Comm.Columns.{Entry, columns, lines_1, lines_2, Separate, IsSorted}
use my_coding_exercises.Comm.Files.{compare_files-columns, compare_files-sorted}

abbrev options : Options
options = record {
  hard_lc_collate = false;
  only_file_1 = true;
  only_file_2 = true;
  both = true;
  check_input_order = check_order_default;
  delimiter = 9 ∷ [];
  xmemcoll = λ a b. equal;
  memcmp2 = compare_bytes;
}

abbrev file : List Bytes → Stream
file lines = record { lines = lines; read_fails = false; close_fails = false }

abbrev mine : List Bytes
mine = codes "apple" ∷ codes "fig" ∷ codes "fig" ∷ []

abbrev yours : List Bytes
yours = codes "fig" ∷ codes "lime" ∷ []

-- What a run prints, and the status of the program.
abbrev printed : Progress Comm → Option (Bytes × ℕ)
printed (going s) = some (s.out, exit_status s)
printed (failure reason) = none

compared :
    printed (compare_files options 6 (some (file mine)) (some (file yours)))
    ≡ some (codes "apple\n\t\tfig\nfig\n\tlime\n", 0)
unfolding compare_files compare_loop open_file close_file no_error readlinebuffer next_line round
    fill_up check_read check_order report rotate order_of plain_order by_length memcmp compare_bytes
    thisline text_of writeline_1 writeline_2 writeline_3 exit_status ◌>>=◌
compared = refl

disordered :
    compare_files
      (record options { check_input_order = check_order_enabled })
      6
      (some (file (codes "b" ∷ codes "a" ∷ [])))
      (some (file []))
    ≡ failure disorder
unfolding compare_files compare_loop open_file close_file no_error readlinebuffer next_line round
    fill_up check_read check_order report rotate order_of plain_order by_length memcmp compare_bytes
    thisline text_of writeline_1 writeline_2 writeline_3 exit_status ◌>>=◌
disordered = refl

abbrev shuffled : List Bytes
shuffled = codes "fig" ∷ codes "apple" ∷ codes "fig" ∷ []

mine-IsSorted : IsSorted mine
unfolding compare_bytes
mine-IsSorted = (((λ e. cc), ((λ e. cc), tt)), (((λ e. cc), tt), (tt, tt)))

yours-IsSorted : IsSorted yours
unfolding compare_bytes
yours-IsSorted = (((λ e. cc), tt), (tt, tt))

compare_files-columns_example :
    (s : Comm) × (entries : List Entry) × (compare_files options 6
        (some (file shuffled))
        (some (file yours))
      ≡ going s)
    × (s.out ≡ columns options entries)
    × (lines_1 entries ≡ shuffled)
    × (lines_2 entries ≡ yours)
compare_files-columns_example =
    compare_files-columns options (file shuffled) (file yours) (λ e. cc) refl
      (record { reads = refl; closes = refl }) (record { reads = refl; closes = refl })

abbrev strict : Options
strict = record options { check_input_order = check_order_enabled }

compare_files-sorted_example :
    (s : Comm) × (entries : List Entry) × (compare_files strict 6
        (some (file mine))
        (some (file yours))
      ≡ going s)
    × (s.out ≡ columns strict entries)
    × (lines_1 entries ≡ mine)
    × (lines_2 entries ≡ yours)
    × Separate entries
    × (exit_status s ≡ 0)
compare_files-sorted_example =
    compare_files-sorted strict (file mine) (file yours) refl (λ a b. refl)
      (record { reads = refl; closes = refl }) (record { reads = refl; closes = refl })
      mine-IsSorted yours-IsSorted
