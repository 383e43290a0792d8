-- ===== src/Tests/Sorting.antt =====
-- The array of the comment in `main` of algorithms/simple_quicksort.c, and smaller ones.
use my_coding_exercises.Common.{ℕ, ◌≡◌, refl, List, [], ◌∷◌, arith}
use my_coding_exercises.Sorting.Run.{ok, fault, ◌>>=◌, Ends, Both}
use my_coding_exercises.Sorting.Array.{read, write}
use my_coding_exercises.Sorting.Moves.{Moves}
use my_coding_exercises.Sorting.Simple as Simple
use my_coding_exercises.Sorting.Simple.{scan_down, scan_up}
use my_coding_exercises.Sorting.Simple.Fills.{partition-eq-partition_swap}
use my_coding_exercises.Sorting.Simple.Rounds.{Divides}
use my_coding_exercises.Sorting.Simple.Sorts.{IsSortedFrom, quicksort-IsSortedFrom}
use my_coding_exercises.Sorting.Media as Media
use my_coding_exercises.Sorting.Media.Divide.{divide-Divides}
use my_coding_exercises.Sorting.Media.Two.{
  Reversed, quicksort_two-Reversed, quicksort_first_two-fault,
}

abbrev sample : List ℕ
sample = 49 ∷ 38 ∷ 65 ∷ 97 ∷ 76 ∷ 13 ∷ 27 ∷ 49 ∷ []

sample_sorted : Simple.quicksort 8 sample 0 7 ≡ ok (13 ∷ 27 ∷ 38 ∷ 49 ∷ 49 ∷ 65 ∷ 76 ∷ 97 ∷ [])
unfolding Simple.quicksort Simple.partition_swap Simple.swap_loop Simple.swap_round Simple.swap
    scan_down scan_up read write ◌>>=◌
sample_sorted = refl

quicksort-IsSortedFrom_example :
    Ends (λ b. IsSortedFrom 0 7 b × Moves 0 7 sample b) (Simple.quicksort 8 sample 0 7)
quicksort-IsSortedFrom_example =
    quicksort-IsSortedFrom 8 sample 0 7 (omega arith) (omega arith) (omega arith)

partition-eq-partition_swap_example :
    Both (λ s t. s ≡ t) (Simple.partition_swap 8 sample 0 7) (Simple.partition 8 sample 0 7)
partition-eq-partition_swap_example =
    partition-eq-partition_swap 8 sample 0 7 (omega arith) (omega arith) (omega arith)

divide-Divides_example :
    Ends (λ s. Divides 0 7 s.cells s.place × Moves 0 7 sample s.cells) (Media.divide sample 0 7)
divide-Divides_example = divide-Divides sample 0 7 (omega arith) (omega arith)

three_reversed : Media.quicksort 9 (0 ∷ 1 ∷ 2 ∷ []) 1 2 ≡ ok (0 ∷ 2 ∷ 1 ∷ [])
unfolding Media.quicksort Media.divide Media.media3 Media.order Media.swap read write ◌>>=◌
    Media.climb Media.descend Media.exchange_loop
three_reversed = refl

quicksort_two-Reversed_example :
    Ends (Reversed 1 (0 ∷ 1 ∷ 2 ∷ [])) (Media.quicksort 2 (0 ∷ 1 ∷ 2 ∷ []) 1 2)
quicksort_two-Reversed_example =
    quicksort_two-Reversed 0 (0 ∷ 1 ∷ 2 ∷ []) 1 (omega arith) (omega arith) (omega arith)
      (omega arith)

quicksort_first_two-fault_example : Media.quicksort 3 (1 ∷ 2 ∷ []) 0 1 ≡ fault
quicksort_first_two-fault_example = quicksort_first_two-fault 2 (1 ∷ 2 ∷ []) (omega arith)
