-- ===== src/Sorting/Media/Divide.antt =====
-- algorithms/quicksort.c: where the loop of `quicksort` puts the pivot, on segments of three
-- entries or more.
use my_coding_exercises.Common.{
  ℕ, zero, suc, ◌+◌, ◌-◌, ◌≤◌, ◌<◌, ◌≡◌, ap, inl, inr, false, List, arith, ltb, ◌==◌, length,
  Bool-cases,
}
use my_coding_exercises.Sorting.Run.{◌>>=◌, Ends, Ends-ok, Ends-bind, Ends-weaken}
use my_coding_exercises.Sorting.Array.{at, read-eq}
use my_coding_exercises.Sorting.Moves.{Moves, Moves-refl, Moves-trans}
use my_coding_exercises.Sorting.Simple.{split}
use my_coding_exercises.Sorting.Simple.Rounds.{Divides}
use my_coding_exercises.Sorting.Media.Median.{Exchanged, swap-Exchanged, IsMedian, media3-IsMedian}
use my_coding_exercises.Sorting.Media.{Pivoted, climb, descend, exchange_loop, divide}

-- `k` is where `climb` stops: at the first entry after `i` that is not below the pivot.
record Climbs (a : List ℕ) (i j pivot k : ℕ) : Type 0 where
  within : (i < k) × (k ≤ j)
  passed : (c : ℕ) → i < c → c < k → at a c ≤ pivot
  stop : pivot ≤ at a k

record Descends (a : List ℕ) (i j pivot k : ℕ) : Type 0 where
  within : (i ≤ k) × (k < j)
  passed : (c : ℕ) → k < c → c < j → pivot ≤ at a c
  stop : at a k ≤ pivot

climb-Climbs :
    (fuel : ℕ) (a : List ℕ) (i j pivot : ℕ)
    → i < j
    → j < length a
    → pivot ≤ at a j
    → j < i + fuel
    → Ends (Climbs a i j pivot) (climb fuel a i pivot)
unfolding climb ◌>>=◌
climb-Climbs zero a i j pivot lt b p f = absurd (omega arith)
climb-Climbs (suc fuel) a i j pivot lt b p f =
    rw (read-eq a (i + 1) (omega arith)) (elim (Bool-cases (ltb (at a (i + 1)) pivot)) [
      | inr e ↦ rw e (
          Ends-ok (i + 1) record {
            within = omega arith;
            passed = λ c lo hi. absurd (omega arith);
            stop = ground arith;
          })
      | inl e ↦ rw e (
          Ends-weaken
            (climb-Climbs fuel a (i + 1) j pivot (further (ground arith)) b p (omega arith))
            λ k s. record {
              within = omega (arith, s.within);
              passed = λ c lo hi. ground (arith, s.passed c);
              stop = s.stop;
            })
    ])
  where
    further : at a (i + 1) < pivot → i + 1 < j
    further h = elim (Bool-cases (i + 1 == j)) [
      | inl e ↦ absurd (ground (arith, ap (at a) {x = i + 1} {y = j} (ground arith)))
      | inr e ↦ ground arith
    ]

descend-Descends :
    (fuel : ℕ) (a : List ℕ) (i j pivot : ℕ)
    → i < j
    → j < length a
    → at a i ≤ pivot
    → j < i + fuel
    → Ends (Descends a i j pivot) (descend fuel a j pivot)
unfolding descend ◌>>=◌
descend-Descends zero a i j pivot lt b p f = absurd (omega arith)
descend-Descends (suc fuel) a i j pivot lt b p f =
    let nonzero : (j == 0) ≡ false = ground arith in
    rw (nonzero, read-eq a (j - 1) (omega arith))
      (elim (Bool-cases (ltb pivot (at a (j - 1)))) [
        | inr e ↦ rw e (
            Ends-ok (j - 1) record {
              within = omega arith;
              passed = λ c lo hi. absurd (omega arith);
              stop = ground arith;
            })
        | inl e ↦ rw e (
            Ends-weaken
              (descend-Descends fuel a i (j - 1) pivot (further (ground arith)) (omega arith) p
                (omega arith))
              λ k s. record {
                within = omega (arith, s.within);
                passed = λ c lo hi. ground (arith, s.passed c);
                stop = s.stop;
              })
      ])
  where
    further : pivot < at a (j - 1) → i < j - 1
    further h = elim (Bool-cases (i == j - 1)) [
      | inl e ↦ absurd (ground (arith, ap (at a) {x = i} {y = j - 1} (ground arith)))
      | inr e ↦ ground arith
    ]

-- Before a round: what `i` has passed is not above the pivot, what `j` has passed not below it.
record Narrowing (left right pivot : ℕ) (a : List ℕ) (i j : ℕ) : Type 0 where
  from_left : left ≤ i
  apart : i < j
  to_right : j < right
  fits : right < length a
  at_pivot : at a (right - 1) ≡ pivot
  below : (c : ℕ) → left ≤ c → c ≤ i → at a c ≤ pivot
  above : (c : ℕ) → j ≤ c → c ≤ right → pivot ≤ at a c

-- At the `break`.
record Met (left right pivot : ℕ) (a : List ℕ) (q : ℕ) : Type 0 where
  from_left : left < q
  to_right : q < right
  fits : right < length a
  at_pivot : at a (right - 1) ≡ pivot
  below : (c : ℕ) → left ≤ c → c < q → at a c ≤ pivot
  above : (c : ℕ) → q ≤ c → c ≤ right → pivot ≤ at a c

exchange_loop-Met :
    {left right pivot : ℕ} (fuel : ℕ) (a : List ℕ) (i j : ℕ)
    → Narrowing left right pivot a i j
    → j < i + fuel
    → Ends
        (λ s. Met left right pivot s.cells s.place × Moves left right a s.cells)
        (exchange_loop fuel a i j pivot)
unfolding exchange_loop
exchange_loop-Met zero a i j h f = absurd (omega (arith, h.apart))
exchange_loop-Met {left} {right} {pivot} (suc fuel) a i j h f =
    Ends-bind
      (climb-Climbs (length a + 1) a i j pivot h.apart (omega (arith, h.to_right, h.fits))
        (h.above j (omega arith) (omega (arith, h.to_right))) (omega (arith, h.to_right, h.fits)))
      λ i' up.
        Ends-bind
          (descend-Descends (length a + 1) a i j pivot h.apart (omega (arith, h.to_right, h.fits))
            (h.below i h.from_left (omega arith)) (omega (arith, h.to_right, h.fits)))
          λ j' down. elim (Bool-cases (ltb i' j')) [
            | inr e ↦ rw e (Ends-ok (split a i') (met i' j' up down (ground arith), Moves-refl a))
            | inl e ↦ rw e (
                Ends-bind
                  (swap-Exchanged a i' j' h.fits (omega (arith, h.from_left, h.to_right, up.within))
                    (omega (arith, h.from_left, h.to_right, down.within)))
                  λ b x.
                    Ends-weaken
                      (exchange_loop-Met fuel b i' j' (next i' j' b up down (ground arith) x)
                        (omega (arith, f, up.within, down.within)))
                      λ s r. (r.0, Moves-trans x.moves r.1))
          ]
  where
    met :
        (i' j' : ℕ)
        → Climbs a i j pivot i'
        → Descends a i j pivot j'
        → j' ≤ i'
        → Met left right pivot a i'
    met i' j' up down le = record {
      from_left = omega (arith, h.from_left, up.within);
      to_right = omega (arith, h.to_right, up.within);
      fits = h.fits;
      at_pivot = h.at_pivot;
      below = λ c lo hi. ground (arith, h.below c, up.passed c);
      above = λ c lo hi. ground (arith, h.above c, down.passed c, up.stop);
    }

    next :
        (i' j' : ℕ) (b : List ℕ)
        → Climbs a i j pivot i'
        → Descends a i j pivot j'
        → i' < j'
        → Exchanged left right i' j' a b
        → Narrowing left right pivot b i' j'
    next i' j' b up down lt x = record {
      from_left = omega (arith, h.from_left, up.within);
      apart = lt;
      to_right = omega (arith, h.to_right, down.within);
      fits = omega (arith, h.fits, x.moves.length_kept);
      at_pivot = ground (arith, x.entries (right - 1), h.at_pivot, h.to_right, down.within);
      below = λ c lo hi. ground (arith, x.entries c, h.below c, up.passed c, down.stop);
      above = λ c lo hi. ground (arith, x.entries c, h.above c, down.passed c, up.stop);
    }

-- On a segment of three entries or more that lies in the array, the part of `quicksort` before its
-- recursive calls ends without an access outside the array. It has only moved entries within the
-- segment, and the index that it returns divides the segment: no entry before it is larger than its
-- entry, and none after it is smaller.
pub divide-Divides :
    (a : List ℕ) (left right : ℕ)
    → left + 2 ≤ right
    → right < length a
    → Ends
        (λ s. Divides left right s.cells s.place × Moves left right a s.cells)
        (divide a left right)
unfolding divide
divide-Divides a left right long fits = Ends-bind (media3-IsMedian a left right long fits) λ m h.
    Ends-bind (exchange_loop-Met (length a) m.cells left (right - 1) (start m h) (omega arith))
      λ s r.
        Ends-bind
          (swap-Exchanged s.cells s.place (right - 1) r.0.fits
            (omega (arith, r.0.from_left, r.0.to_right)) (omega arith))
          λ b x.
            Ends-ok (split b s.place) (
              divides b s.cells s.place m.pivot r.0 x,
              Moves-trans h.moves (Moves-trans r.1 x.moves),
            )
  where
    start :
        (m : Pivoted)
        → IsMedian left right a m
        → Narrowing left right m.pivot m.cells left (right - 1)
    start m h = record {
      from_left = omega arith;
      apart = omega arith;
      to_right = omega arith;
      fits = omega (arith, h.moves.length_kept);
      at_pivot = h.at_pivot;
      below = λ c lo hi. let e : c ≡ left = omega arith in rw e h.at_left;
      above = λ c lo hi. elim (Bool-cases (c == right)) [
        | inl e ↦ let e' : c ≡ right = ground arith in rw e' h.at_right
        | inr e ↦ let e' : c ≡ right - 1 = ground arith in rw e' (omega (arith, h.at_pivot))
      ];
    }

    divides :
        (b d : List ℕ) (q pivot : ℕ)
        → Met left right pivot d q
        → Exchanged left right q (right - 1) d b
        → Divides left right b q
    divides b d q pivot h x = record {
      inside = omega (arith, h.from_left, h.to_right);
      before =
          λ c lo hi. ground (arith, x.entries c, x.entries q, h.below c, h.at_pivot, h.to_right);
      after = λ c lo hi.
          ground (arith, x.entries c, x.entries q, h.above c, h.above q, h.at_pivot, h.to_right);
    }
