-- ===== src/Sorting/Media.antt =====
-- algorithms/quicksort.c: `swap`, `media3` and `quicksort`. The loops run on fuel. The index of
-- `a[--j]` may leave the array at its front, where the model faults.
pub mod Median
pub mod Divide
pub mod Two
use my_coding_exercises.Common.{
  ℕ, zero, suc, ◌+◌, ◌-◌, ◌/◌, Bool, true, false, List, ltb, ◌==◌, if◌then◌else◌, length,
}
use my_coding_exercises.Sorting.Run.{Run, ok, fault, stuck, ◌>>=◌}
use my_coding_exercises.Sorting.Array.{read, write}
use my_coding_exercises.Sorting.Simple.{Split, split}

unfoldable pub swap : List ℕ → ℕ → ℕ → Run (List ℕ)
swap a i j = do tmp ← read a i; y ← read a j; b ← write a i y; write b j tmp

-- if(a[i] > a[j]) swap(&a[i], &a[j]);
unfoldable pub order : List ℕ → ℕ → ℕ → Run (List ℕ)
order a i j = do x ← read a i; y ← read a j; if ltb y x then swap a i j else ok a

-- The array and the value that `media3` ends with.
pub record Pivoted : Type 0 where
  pub cells : List ℕ
  pub pivot : ℕ

unfoldable pub media3 : List ℕ → ℕ → ℕ → Run Pivoted
media3 a left right = do
  let center = (left + right) / 2
  b ← order a left center
  c ← order b left right
  d ← order c center right
  e ← swap d center (right - 1)
  v ← read e (right - 1)
  ok record { cells = e; pivot = v }

-- while(a[++i] < pivot) {}
unfoldable pub climb : ℕ → List ℕ → ℕ → ℕ → Run ℕ
climb zero a i pivot = stuck
climb (suc fuel) a i pivot =
    let rest = climb fuel a (i + 1) pivot in
    read a (i + 1) >>= λ v. if ltb v pivot then rest else ok (i + 1)

-- while(a[--j] > pivot) {}
unfoldable pub descend : ℕ → List ℕ → ℕ → ℕ → Run ℕ
descend zero a j pivot = stuck
descend (suc fuel) a j pivot =
    let rest = descend fuel a (j - 1) pivot in
    if j == 0 then fault else read a (j - 1) >>= λ v. if ltb pivot v then rest else ok (j - 1)

-- for(;;) { … }, with the index `i` at its `break`.
unfoldable pub exchange_loop : ℕ → List ℕ → ℕ → ℕ → ℕ → Run Split
exchange_loop zero a i j pivot = stuck
exchange_loop (suc fuel) a i j pivot = do
  i' ← climb (length a + 1) a i pivot
  j' ← descend (length a + 1) a j pivot
  elim (ltb i' j') [
    | true ↦ swap a i' j' >>= λ b. exchange_loop fuel b i' j' pivot
    | false ↦ ok (split a i')
  ]

-- The part of `quicksort` before its recursive calls.
unfoldable pub divide : List ℕ → ℕ → ℕ → Run Split
divide a left right = do
  m ← media3 a left right
  s ← exchange_loop (length a) m.cells left (right - 1) m.pivot
  b ← swap s.cells s.place (right - 1)
  ok (split b s.place)

unfoldable pub quicksort : ℕ → List ℕ → ℕ → ℕ → Run (List ℕ)
quicksort zero a left right = stuck
quicksort (suc fuel) a left right = elim (right == left) [
  | true ↦ ok a
  | false ↦ divide a left right >>= λ s.
      (elim (ltb left s.place) [
        | true ↦ quicksort fuel s.cells left (s.place - 1)
        | false ↦ ok s.cells
      ])
      >>= λ b. elim (ltb s.place right) [
        | true ↦ quicksort fuel b (s.place + 1) right
        | false ↦ ok b
      ]
]
