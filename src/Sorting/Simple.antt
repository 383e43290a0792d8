-- ===== src/Sorting/Simple.antt =====
-- algorithms/simple_quicksort.c: `swap`, `partition`, `partition_swap` and `quicksort`. Each loop
-- runs on fuel; indices are never negative, since `j` stays at or above `i` and `i` at or above
-- `low`. The `printf` calls change nothing that the functions read.
pub mod Scan
pub mod Rounds
pub mod Sorts
pub mod Fills
use my_coding_exercises.Common.{
  ℕ, zero, suc, ◌+◌, ◌-◌, Bool, true, false, not, List, ltb, leb, ◌==◌, if◌then◌else◌, length,
}
use my_coding_exercises.Sorting.Run.{Run, ok, fault, stuck, ◌>>=◌}
use my_coding_exercises.Sorting.Array.{read, write}

unfoldable pub swap : List ℕ → ℕ → ℕ → Run (List ℕ)
swap a i j = do tmp ← read a i; y ← read a j; b ← write a i y; write b j tmp

-- while(i < j && a[j] >= pivotValue) {j--;}
unfoldable pub scan_down : ℕ → List ℕ → ℕ → ℕ → ℕ → Run ℕ
scan_down zero a i j pivot = stuck
scan_down (suc fuel) a i j pivot =
    let rest = scan_down fuel a i (j - 1) pivot in
    if ltb i j then (do v ← read a j; if leb pivot v then rest else ok j) else ok j

-- while(i < j && a[i] <= pivotValue) {i++;}
unfoldable pub scan_up : ℕ → List ℕ → ℕ → ℕ → ℕ → Run ℕ
scan_up zero a i j pivot = stuck
scan_up (suc fuel) a i j pivot =
    let rest = scan_up fuel a (i + 1) j pivot in
    if ltb i j then (do v ← read a i; if leb v pivot then rest else ok i) else ok i

-- What a partition keeps from round to round.
pub record Cut : Type 0 where
  pub cells : List ℕ
  pub left : ℕ
  pub right : ℕ

abbrev pub cut : List ℕ → ℕ → ℕ → Cut
cut a i j = record { cells = a; left = i; right = j }

-- The array and the index that a partition ends with.
pub record Split : Type 0 where
  pub cells : List ℕ
  pub place : ℕ

abbrev pub split : List ℕ → ℕ → Split
split a i = record { cells = a; place = i }

-- One round of the loop of `partition`.
unfoldable pub fill_round : ℕ → List ℕ → ℕ → ℕ → ℕ → Run Cut
fill_round fuel a i j pivot = do
  j' ← scan_down fuel a i j pivot
  v ← read a j'
  b ← write a i v
  i' ← scan_up fuel b i j' pivot
  w ← read b i'
  c ← write b j' w
  ok (cut c i' j')

unfoldable pub fill_loop : ℕ → List ℕ → ℕ → ℕ → ℕ → Run Cut
fill_loop zero a i j pivot = stuck
fill_loop (suc fuel) a i j pivot = elim (ltb i j) [
  | true ↦ fill_round (suc fuel) a i j pivot >>= λ c. fill_loop fuel c.cells c.left c.right pivot
  | false ↦ ok (cut a i j)
]

unfoldable pub partition : ℕ → List ℕ → ℕ → ℕ → Run Split
partition fuel a low high = do
  pivot ← read a low
  c ← fill_loop fuel a low high pivot
  b ← write c.cells c.left pivot
  ok (split b c.left)

-- One round of the loop of `partition_swap`, which ends with `pivotIndex` at `i`.
unfoldable pub swap_round : ℕ → List ℕ → ℕ → ℕ → ℕ → ℕ → Run Cut
swap_round fuel a i j pivot_index pivot = do
  j' ← scan_down fuel a i j pivot
  b ← swap a j' pivot_index
  i' ← scan_up fuel b i j' pivot
  c ← swap b i' j'
  ok (cut c i' j')

unfoldable pub swap_loop : ℕ → List ℕ → ℕ → ℕ → ℕ → ℕ → Run Cut
swap_loop zero a i j pivot_index pivot = stuck
swap_loop (suc fuel) a i j pivot_index pivot = elim (ltb i j) [
  | true ↦ swap_round (suc fuel) a i j pivot_index pivot >>= λ c.
      swap_loop fuel c.cells c.left c.right c.left pivot
  | false ↦ ok (cut a i j)
]

unfoldable pub partition_swap : ℕ → List ℕ → ℕ → ℕ → Run Split
partition_swap fuel a low high = do
  pivot ← read a low
  c ← swap_loop fuel a low high low pivot
  ok (split c.cells c.left)

unfoldable pub quicksort : ℕ → List ℕ → ℕ → ℕ → Run (List ℕ)
quicksort zero a low high = stuck
quicksort (suc fuel) a low high = elim (high == low) [
  | true ↦ ok a
  | false ↦ partition_swap (suc fuel) a low high >>= λ s.
      (elim (ltb low s.place) [
        | true ↦ quicksort fuel s.cells low (s.place - 1)
        | false ↦ ok s.cells
      ])
      >>= λ b. elim (ltb s.place high) [ true ↦ quicksort fuel b (s.place + 1) high | false ↦ ok b ]
]
