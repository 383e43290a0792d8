-- ===== src/Sorting/Media/Two.antt =====
-- algorithms/quicksort.c on a segment of two entries, where `media3` leaves nothing between the pivot
-- and the ends, and the loop runs past both.
use my_coding_exercises.Common.{
  ℕ, zero, suc, ◌+◌, ◌-◌, ◌/◌, ◌≤◌, ◌<◌, ◌≡◌, refl, inl, List, arith, length,
}
use my_coding_exercises.Sorting.Run.{ok, fault, ◌>>=◌, Ends, Ends-ok, Ends-bind}
use my_coding_exercises.Sorting.Array.{at, read, read-eq}
use my_coding_exercises.Sorting.Moves.{Moves, Moves-trans}
use my_coding_exercises.Sorting.Simple.{Split, split}
use my_coding_exercises.Sorting.Media.{
  Pivoted, media3, climb, descend, exchange_loop, divide, quicksort,
}
use my_coding_exercises.Sorting.Media.Median.{swap-Exchanged, order-Ordered}

-- `media3` on two entries: the smaller one is the pivot, and stands first.
record IsLesser (l right : ℕ) (a : List ℕ) (m : Pivoted) : Type 0 where
  moves : Moves l right a m.cells
  at_left : at m.cells l ≡ m.pivot
  at_right : m.pivot ≤ at m.cells right

media3_two-IsLesser :
    (a : List ℕ) (l right : ℕ)
    → right ≡ l + 1
    → right < length a
    → Ends (IsLesser l right a) (media3 a l right)
unfolding media3 ◌>>=◌
media3_two-IsLesser a l right e fits =
    let center : (l + right) / 2 ≡ l = omega arith in
    let first : right - 1 ≡ l = omega arith in
    rw (center, first)
      (Ends-bind (order-Ordered a l l fits (omega arith) (omega arith)) λ b x.
        Ends-bind
          (order-Ordered b l right (omega (arith, x.moves.length_kept)) (omega arith) (omega arith))
          λ c y.
            Ends-bind
              (order-Ordered c l right (omega (arith, x.moves.length_kept, y.moves.length_kept))
                (omega arith) (omega arith))
              λ d z.
                Ends-bind
                  (swap-Exchanged d l l
                    (omega (arith, x.moves.length_kept, y.moves.length_kept, z.moves.length_kept))
                    (omega arith) (omega arith))
                  λ m w.
                    rw
                      (read-eq m l (
                        omega (
                          arith, x.moves.length_kept, y.moves.length_kept, z.moves.length_kept,
                          w.moves.length_kept,
                        )))
                      (Ends-ok record { cells = m; pivot = at m l }
                        record {
                          moves =
                              Moves-trans x.moves
                                (Moves-trans y.moves (Moves-trans z.moves w.moves));
                          at_left = refl;
                          at_right = ground (arith, w.entries right, w.entries l, z.ascending);
                        }))

climb_one :
    (fuel : ℕ) (a : List ℕ) (i pivot : ℕ)
    → i + 1 < length a
    → pivot ≤ at a (i + 1)
    → climb (fuel + 1) a i pivot ≡ ok (i + 1)
unfolding climb read ◌>>=◌
climb_one fuel a i pivot b h = let e : fuel + 1 ≡ suc fuel = omega arith in rw e (ground arith)

descend_one :
    (fuel : ℕ) (a : List ℕ) (j pivot : ℕ)
    → 0 < j
    → j < length a
    → at a (j - 1) ≤ pivot
    → descend (fuel + 1) a j pivot ≡ ok (j - 1)
unfolding descend read ◌>>=◌
descend_one fuel a j pivot p b h = let e : fuel + 1 ≡ suc fuel = omega arith in rw e (ground arith)

loop_one :
    (fuel : ℕ) (a : List ℕ) (l pivot : ℕ)
    → 0 < l
    → l + 1 < length a
    → at a (l - 1) ≤ pivot
    → pivot ≤ at a (l + 1)
    → exchange_loop (suc fuel) a l l pivot ≡ ok (split a (l + 1))
unfolding exchange_loop ◌>>=◌
loop_one fuel a l pivot p b h k =
    ground (
      arith,
      climb_one (length a) a l pivot b k,
      descend_one (length a) a l pivot p (omega arith) h,
    )

-- The larger entry first.
pub record Reversed (l : ℕ) (a b : List ℕ) : Type 0 where
  pub moves : Moves l (l + 1) a b
  pub descending : at b (l + 1) ≤ at b l

divide_two-Reversed :
    (a : List ℕ) (l : ℕ)
    → 0 < l
    → l + 1 < length a
    → at a (l - 1) ≤ at a l
    → at a (l - 1) ≤ at a (l + 1)
    → Ends (λ s. (s.place ≡ l + 1) × Reversed l a s.cells) (divide a l (l + 1))
unfolding divide ◌>>=◌
divide_two-Reversed a l p fits h k = Ends-bind (media3_two-IsLesser a l (l + 1) refl fits) λ m x.
    let first : l + 1 - 1 ≡ l = omega arith in
    let rounds : length a ≡ suc (length a - 1) = omega arith in
    let lesser : at m.cells (l - 1) ≤ m.pivot = ground (
      arith,
      x.moves.outside (l - 1) (inl (omega arith)),
      x.at_left,
      x.moves.inside l (omega arith) (omega arith),
    ) in
    rw
      (
        first,
        rounds,
        loop_one (length a - 1) m.cells l m.pivot p (omega (arith, x.moves.length_kept)) lesser
            x.at_right,
      )
      (Ends-bind
        (swap-Exchanged m.cells (l + 1) l (omega (arith, x.moves.length_kept)) (omega arith)
          (omega arith))
        λ b w. Ends-ok (split b (l + 1)) (
          refl,
          record {
            moves = Moves-trans x.moves w.moves;
            descending = ground (arith, w.entries l, w.entries (l + 1), x.at_left, x.at_right);
          },
        ))

descend_fault : (fuel : ℕ) (a : List ℕ) (pivot : ℕ) → descend (fuel + 1) a 0 pivot ≡ fault
unfolding descend
descend_fault fuel a pivot = let e : fuel + 1 ≡ suc fuel = omega arith in rw e refl

loop_fault :
    (fuel : ℕ) (a : List ℕ) (pivot : ℕ)
    → 0 < fuel
    → 1 < length a
    → pivot ≤ at a 1
    → exchange_loop fuel a 0 0 pivot ≡ fault
unfolding exchange_loop ◌>>=◌
loop_fault zero a pivot p b h = absurd (omega arith)
loop_fault (suc fuel) a pivot p b h =
    ground (arith, climb_one (length a) a 0 pivot b h, descend_fault (length a) a pivot)

quicksort_zero_eq :
    (fuel : ℕ) (a : List ℕ) (m : Pivoted)
    → media3 a 0 1 ≡ ok m
    → 0 < length a
    → 1 < length m.cells
    → m.pivot ≤ at m.cells 1
    → quicksort (suc fuel) a 0 1 ≡ fault
unfolding quicksort divide ◌>>=◌
quicksort_zero_eq fuel a m e p fits h =
    ground (arith, loop_fault (length a) m.cells m.pivot p fits h)

quicksort_two_eq :
    (fuel : ℕ) (a : List ℕ) (l : ℕ) (s : Split)
    → divide a l (l + 1) ≡ ok s
    → s.place ≡ l + 1
    → quicksort (suc (suc fuel)) a l (l + 1) ≡ ok s.cells
unfolding quicksort ◌>>=◌
quicksort_two_eq fuel a l s e p = ground arith

-- On two neighbouring entries that are not below the entry before them, `quicksort` ends without an
-- access outside the array, and puts the larger of the two first; it moves nothing else.
pub quicksort_two-Reversed :
    (fuel : ℕ) (a : List ℕ) (l : ℕ)
    → 0 < l
    → l + 1 < length a
    → at a (l - 1) ≤ at a l
    → at a (l - 1) ≤ at a (l + 1)
    → Ends (Reversed l a) (quicksort (suc (suc fuel)) a l (l + 1))
quicksort_two-Reversed fuel a l p fits h k =
    let r = divide_two-Reversed a l p fits h k in
    record {
      value = r.value.cells;
      eq = quicksort_two_eq fuel a l r.value r.eq r.holds.0;
      holds = r.holds.1;
    }

-- On the first two entries of any array, `quicksort` reads the entry before the array.
pub quicksort_first_two-fault :
    (fuel : ℕ) (a : List ℕ) → 1 < length a → quicksort (suc fuel) a 0 1 ≡ fault
quicksort_first_two-fault fuel a fits =
    let m = media3_two-IsLesser a 0 1 refl fits in
    quicksort_zero_eq fuel a m.value m.eq (omega arith) (omega (arith, m.holds.moves.length_kept))
      m.holds.at_right
