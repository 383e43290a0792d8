-- ===== src/Tftp/Shell/Table.antt =====
-- tftp-exercises/client/cmdsubr.c: the table of commands, its binary search, and `docmd`.
use Prim.Native.Nat.{compare, Ordering}
use my_coding_exercises.Common.{
  ℕ, zero, suc, ◌+◌, ◌-◌, ◌/◌, true, false, List, [], ◌∷◌, Bytes, ltb, get_or,
}
use my_coding_exercises.Common.Int.{ℤ}
use my_coding_exercises.Tftp.Shell.Commands.{
  command_names, cmd_ascii, cmd_binary, cmd_connect, cmd_exit, cmd_get, cmd_help, cmd_mode, cmd_put,
  cmd_status, cmd_verbose,
}
use my_coding_exercises.Tftp.Shell.{Shell, Outcome, err_cmd, off_the_end, ◌>>=◌, checkend}

-- `strcmp`: the sign of its result. A string ends in front of its null byte, which is less than
-- every byte of a string.
unfoldable pub strcmp : Bytes → Bytes → Ordering
strcmp [] [] = Ordering.eq
strcmp [] (y ∷ ys) = Ordering.lt
strcmp (x ∷ xs) [] = Ordering.gt
strcmp (x ∷ xs) (y ∷ ys) = elim (compare x y) [
  | Ordering.lt ↦ Ordering.lt
  | Ordering.gt ↦ Ordering.gt
  | Ordering.eq ↦ strcmp xs ys
]

pub data Found : Type 0 where
  found : ℕ → Found
  absent out_of_fuel : Found

-- The `while` loop of `binary`, with fuel. `bound` is `high + 1`, so that the test is
-- `low < bound` and `high = mid - 1` sets it to `mid`.
unfoldable pub halve : ℕ → Bytes → List Bytes → ℕ → ℕ → Found
halve zero word names low bound = out_of_fuel
halve (suc fuel) word names low bound = elim (ltb low bound) [
  | false ↦ absent
  | true ↦ elim (strcmp word (get_or names ((low + (bound - 1)) / 2) [])) [
    | Ordering.lt ↦ halve fuel word names low ((low + (bound - 1)) / 2)
    | Ordering.gt ↦ halve fuel word names ((low + (bound - 1)) / 2 + 1) bound
    | Ordering.eq ↦ found ((low + (bound - 1)) / 2)
  ]
]

-- Each round leaves fewer entries than before, so that `n + 1` rounds are enough.
unfoldable pub binary : Bytes → ℕ → Found
unfolding halve
binary word n = halve (n + 1) word command_names 0 n

abbrev pub ncmds : ℕ
ncmds = 12

module _ (atoi : Bytes → ℤ) where
  -- The functions of the table, in its order.
  abbrev pub command_functions : List (Shell → Outcome Shell)
  command_functions =
      cmd_help
      ∷ cmd_ascii
      ∷ cmd_binary
      ∷ cmd_connect atoi
      ∷ cmd_exit
      ∷ cmd_get
      ∷ cmd_help
      ∷ cmd_mode
      ∷ cmd_put
      ∷ cmd_exit
      ∷ cmd_status
      ∷ cmd_verbose
      ∷ []

  unfoldable pub docmd : Bytes → Shell → Outcome Shell
  docmd word s = elim (binary word ncmds) [
    | out_of_fuel ↦ err_cmd word s
    | absent ↦ err_cmd word s
    | found i ↦ get_or command_functions i (λ _. off_the_end) s >>= checkend
  ]
