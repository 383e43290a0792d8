-- ===== src/Sorting/Media/Median.antt =====
-- algorithms/quicksort.c: `media3` on segments of three entries or more.
use my_coding_exercises.Common.{
  ℕ, ◌+◌, ◌-◌, ◌/◌, ◌≤◌, ◌<◌, ◌≡◌, ◌≢◌, refl, ◌⊎◌, inl, inr, List, arith, ltb, ◌==◌, if◌then◌else◌,
  length, Bool-cases,
}
use my_coding_exercises.Sorting.Run.{ok, ◌>>=◌, Ends, Ends-ok, Ends-bind, Ends-weaken}
use my_coding_exercises.Sorting.Array.{
  at, read, write, read-eq, exchanged, at-exchanged, length-put,
}
use my_coding_exercises.Sorting.Moves.{Moves, Moves-refl, Moves-trans, Moves-exchanged}
use my_coding_exercises.Sorting.Media.{swap, order, Pivoted, media3}

pub swap-exchanged :
    (a : List ℕ) (i j : ℕ) → i < length a → j < length a → swap a i j ≡ ok (exchanged a i j)
unfolding swap exchanged ◌>>=◌ read write
swap-exchanged a i j hi hj = ground (arith, length-put i (at a j) a)

-- The outcome of an exchange of `i` and `j` inside a segment.
pub record Exchanged (low high i j : ℕ) (a b : List ℕ) : Type 0 where
  pub moves : Moves low high a b
  pub entries : (c : ℕ) → at b c ≡ (if j == c then at a i else if i == c then at a j else at a c)

module _ {low high : ℕ} (a : List ℕ) (i j : ℕ) (fits : high < length a)
    (hi : (low ≤ i) × (i ≤ high)) (hj : (low ≤ j) × (j ≤ high)) where
  pub swap-Exchanged : Ends (Exchanged low high i j a) (swap a i j)
  swap-Exchanged = rw (swap-exchanged a i j (omega arith) (omega arith)) (
      Ends-ok (exchanged a i j) record {
        moves = Moves-exchanged a i j fits hi hj;
        entries = at-exchanged a i j (omega arith) (omega arith);
      })

-- `order` leaves the smaller of the two entries at `i`.
pub record Ordered (low high i j : ℕ) (a b : List ℕ) : Type 0 where
  pub moves : Moves low high a b
  pub others : (c : ℕ) → c ≢ i → c ≢ j → at b c ≡ at a c
  pub pair : ((at b i ≡ at a i) × (at b j ≡ at a j)) ⊎ ((at b i ≡ at a j) × (at b j ≡ at a i))
  pub ascending : at b i ≤ at b j

pub order-Ordered :
    {low high : ℕ} (a : List ℕ) (i j : ℕ)
    → high < length a
    → (low ≤ i) × (i ≤ high)
    → (low ≤ j) × (j ≤ high)
    → Ends (Ordered low high i j a) (order a i j)
unfolding order ◌>>=◌
order-Ordered a i j fits hi hj =
    rw (read-eq a i (omega arith), read-eq a j (omega arith))
      (elim (Bool-cases (ltb (at a j) (at a i))) [
        | inl e ↦ rw e (
            Ends-weaken (swap-Exchanged a i j fits hi hj) λ b x. record {
              moves = x.moves;
              others = λ c ni nj. ground (arith, x.entries c);
              pair = inr (ground (arith, x.entries i), ground (arith, x.entries j));
              ascending = ground (arith, x.entries i, x.entries j);
            })
        | inr e ↦ rw e (
            Ends-ok a record {
              moves = Moves-refl a;
              others = λ c ni nj. refl;
              pair = inl (refl, refl);
              ascending = ground arith;
            })
      ])

-- After `media3`: the pivot is next to the end, between the entries at both ends.
pub record IsMedian (left right : ℕ) (a : List ℕ) (m : Pivoted) : Type 0 where
  pub moves : Moves left right a m.cells
  pub at_pivot : at m.cells (right - 1) ≡ m.pivot
  pub at_left : at m.cells left ≤ m.pivot
  pub at_right : m.pivot ≤ at m.cells right

pub media3-IsMedian :
    (a : List ℕ) (left right : ℕ)
    → left + 2 ≤ right
    → right < length a
    → Ends (IsMedian left right a) (media3 a left right)
unfolding media3 ◌>>=◌
media3-IsMedian a left right long fits =
    Ends-bind (order-Ordered a left k fits (omega arith) (omega arith)) λ b x.
      Ends-bind
        (order-Ordered b left right (omega (arith, x.moves.length_kept)) (omega arith)
          (omega arith))
        λ c y.
          Ends-bind
            (order-Ordered c k right (omega (arith, x.moves.length_kept, y.moves.length_kept))
              (omega arith) (omega arith))
            λ d z.
              Ends-bind
                (swap-Exchanged d k (right - 1)
                  (omega (arith, x.moves.length_kept, y.moves.length_kept, z.moves.length_kept))
                  (omega arith) (omega arith))
                λ e w.
                  rw
                    (read-eq e (right - 1) (
                      omega (
                        arith, x.moves.length_kept, y.moves.length_kept, z.moves.length_kept,
                        w.moves.length_kept,
                      )))
                    (Ends-ok record { cells = e; pivot = at e (right - 1) }
                      record {
                        moves =
                            Moves-trans x.moves (Moves-trans y.moves (Moves-trans z.moves w.moves));
                        at_pivot = refl;
                        at_left = low_end b c d e x y z w;
                        at_right =
                            ground (arith, w.entries right, w.entries (right - 1), z.ascending);
                      })
  where
    k : ℕ
    k = (left + right) / 2

    low_end :
        (b c d e : List ℕ)
        → Ordered left right left k a b
        → Ordered left right left right b c
        → Ordered left right k right c d
        → Exchanged left right k (right - 1) d e
        → at e left ≤ at e (right - 1)
    low_end b c d e x y z w = ground (
      arith,
      w.entries left,
      w.entries (right - 1),
      z.others left,
      y.others k,
      x.ascending,
      y.ascending,
      y.pair,
      z.pair,
    )
