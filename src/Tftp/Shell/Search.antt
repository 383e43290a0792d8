-- ===== src/Tftp/Shell/Search.antt =====
-- The binary search of the command table finds a word exactly where it stands.
use Prim.Native.Nat.{Ordering}
use my_coding_exercises.Common.{
  ℕ, zero, suc, ◌+◌, ◌-◌, ◌/◌, ◌≤◌, ◌<◌, ◌≡◌, refl, ◌≢◌, ◌↔◌, Bool, true, false, some, List, [],
  ◌∷◌, Bytes, ◌==◌, ◌&&◌, get_elem?, lt-of-get_elem?, get_or, length, arith,
}
use my_coding_exercises.Tftp.Shell.Commands.{command_names}
use my_coding_exercises.Tftp.Shell.Table.{
  strcmp, Found, found, absent, out_of_fuel, halve, binary, ncmds,
}

strcmp-eq : (a b : Bytes) → strcmp a b ≡ Ordering.eq → a ≡ b
unfolding strcmp
strcmp-eq [] [] h = refl
strcmp-eq [] (y ∷ b) h = cc
strcmp-eq (x ∷ a) [] h = cc
strcmp-eq (x ∷ a) (y ∷ b) h = ground (arith, strcmp-eq a b)

-- Enough fuel ends the loop by its test.
halve_total :
    (fuel : ℕ) (word : Bytes) (names : List Bytes) (low bound : ℕ)
    → low ≤ bound
    → bound < fuel + low
    → halve fuel word names low bound ≢ out_of_fuel
unfolding halve
halve_total zero word names low bound ordered h = absurd (omega arith)
halve_total (suc fuel) word names low bound ordered h = ground (
  arith,
  halve_total fuel word names low ((low + (bound - 1)) / 2),
  halve_total fuel word names ((low + (bound - 1)) / 2 + 1) bound,
)

get_elem?-get_or :
    (names : List Bytes) (i : ℕ) → i < length names → get_elem? names i ≡ some (get_or names i [])
get_elem?-get_or [] i h = elim h [ ]
get_elem?-get_or (x ∷ names) zero h = refl
get_elem?-get_or (x ∷ names) (suc i) h = get_elem?-get_or names i (omega arith)

halve-found :
    (fuel : ℕ) (word : Bytes) (names : List Bytes) (low bound i : ℕ)
    → bound ≤ length names
    → halve fuel word names low bound ≡ found i
    → get_elem? names i ≡ some word
unfolding halve
halve-found zero word names low bound i h e = cc
halve-found (suc fuel) word names low bound i h e =
    let mid = (low + (bound - 1)) / 2 in
    ground (
      arith,
      halve-found fuel word names low mid i,
      halve-found fuel word names (mid + 1) bound i,
      get_elem?-get_or names mid,
      strcmp-eq word (get_or names mid []),
    )

-- Whether the search finds each entry of the table at its own index.
abbrev is_found_at : ℕ → Found → Bool
is_found_at i (found j) = i == j
is_found_at i absent = false
is_found_at i out_of_fuel = false

each_below : ℕ → Bool
each_below zero = true
each_below (suc n) = is_found_at n (binary (get_or command_names n []) ncmds) && each_below n

each_below_sound :
    (n i : ℕ)
    → each_below n ≡ true
    → i < n
    → is_found_at i (binary (get_or command_names i []) ncmds) ≡ true
unfolding each_below
each_below_sound zero i h lt = absurd (omega arith)
each_below_sound (suc n) i h lt = ground (arith, each_below_sound n i)

each_found : each_below ncmds ≡ true
unfolding each_below binary strcmp
each_found = refl

is_found_at-eq : (i : ℕ) (f : Found) → is_found_at i f ≡ true → f ≡ found i
is_found_at-eq i (found j) h = ground arith
is_found_at-eq i absent h = cc
is_found_at-eq i out_of_fuel h = cc

binary-get_elem? :
    (word : Bytes) (i : ℕ) → get_elem? command_names i ≡ some word → binary word ncmds ≡ found i
binary-get_elem? word i h =
    let lt = lt-of-get_elem? command_names i h in
    let e : get_or command_names i [] ≡ word = cc (get_elem?-get_or command_names i lt) in
    rw (← e) (is_found_at-eq i _ (each_below_sound ncmds i each_found lt))

-- For every word, the search of the command table ends, and it answers an index exactly when the
-- word is the name of the command at that index.
pub binary-lookup :
    (word : Bytes) (i : ℕ)
    → (binary word ncmds ≢ out_of_fuel)
      × ((binary word ncmds ≡ found i) ↔ (get_elem? command_names i ≡ some word))
unfolding binary
binary-lookup word i = (
  halve_total (ncmds + 1) word command_names 0 ncmds (omega arith) (omega arith),
  (halve-found (ncmds + 1) word command_names 0 ncmds i (omega arith), binary-get_elem? word i),
)
