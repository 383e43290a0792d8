-- ===== src/Sorting/Simple/Fills.antt =====
-- algorithms/simple_quicksort.c: `partition`, which carries a hole, does what `partition_swap` does.
use mathlib.Core.Path.{subst, sym}
use my_coding_exercises.Common.{
  ℕ, zero, suc, ◌+◌, ◌-◌, ◌≤◌, ◌<◌, ◌≡◌, ◌≢◌, refl, ap, ◌∙◌, inl, inr, List, arith, ltb, length,
  Bool-cases,
}
use my_coding_exercises.Sorting.Run.{◌>>=◌, Both, Both-ok, Both-left, Both-same, Both-bind}
use my_coding_exercises.Sorting.Array.{
  at, put, read-eq, write-eq, length-put, at-put, array_ext, exchanged, length-exchanged,
  at-exchanged,
}
use my_coding_exercises.Sorting.Simple.{
  Cut, cut, split, scan_down, scan_up, fill_round, fill_loop, partition, swap_round, swap_loop,
  partition_swap,
}
use my_coding_exercises.Sorting.Simple.Scan.{
  scan_down_step, scan_up_step, scan_down-StopsDown, scan_up-StopsUp, swap-Ends,
}
use my_coding_exercises.Sorting.Simple.Rounds.{Parted, Parted-start, after_round, closer}

-- `b` is `a` except for what stands at `i`.
record IsHole (i : ℕ) (a b : List ℕ) : Type 0 where
  same_length : length b ≡ length a
  same : (c : ℕ) → c ≢ i → at b c ≡ at a c

scan_down-agree :
    (fuel : ℕ) (a b : List ℕ) (i j pivot : ℕ)
    → j < length a
    → IsHole i a b
    → scan_down fuel b i j pivot ≡ scan_down fuel a i j pivot
scan_down-agree zero a b i j pivot h hole = unfold scan_down in refl
scan_down-agree (suc fuel) a b i j pivot h hole = ground (
  arith,
  scan_down_step fuel a i j pivot h,
  scan_down_step fuel b i j pivot (omega (arith, hole.same_length)),
  hole.same j,
  scan_down-agree fuel a b i (j - 1) pivot (omega arith) hole,
)

scan_up-agree :
    (fuel : ℕ) (a b : List ℕ) (i j pivot : ℕ)
    → i ≤ j
    → j < length a
    → IsHole j a b
    → scan_up fuel b i j pivot ≡ scan_up fuel a i j pivot
scan_up-agree zero a b i j pivot le h hole = unfold scan_up in refl
scan_up-agree (suc fuel) a b i j pivot le h hole = ground (
  arith,
  scan_up_step fuel a i j pivot (omega arith),
  scan_up_step fuel b i j pivot (omega (arith, hole.same_length)),
  hole.same i,
  λ (l : i + 1 ≤ j). scan_up-agree fuel a b (i + 1) j pivot l h hole,
)

abbrev filled : List ℕ → ℕ → ℕ → List ℕ
filled b i k = put i (at b k) b

-- Filling the hole from `k` moves it there, as an exchange of the two entries does.
IsHole-moves :
    (a b : List ℕ) (i k : ℕ)
    → i < length a
    → k < length a
    → IsHole i a b
    → IsHole k (exchanged a k i) (filled b i k)
IsHole-moves a b i k hi hk hole = record {
  same_length = omega (arith, length-put i (at b k) b, length-exchanged a k i, hole.same_length);
  same = λ c ne. ground (
    arith,
    at-put i (at b k) b c,
    at-exchanged a k i hk hi c,
    hole.same c,
    hole.same k,
    hole.same_length,
  );
}

-- The two programs after a round: the same indices, and arrays that differ at `left` only.
record Alike (low high pivot i j : ℕ) (c c' : Cut) : Type 0 where
  parted : Parted low high pivot c.cells c.left c.right
  closer_by : c.right - c.left < j - i
  left_same : c'.left ≡ c.left
  right_same : c'.right ≡ c.right
  hole : IsHole c.left c.cells c'.cells

round-Alike :
    {low high pivot : ℕ} (fuel : ℕ) (a b : List ℕ) (i j : ℕ)
    → Parted low high pivot a i j
    → IsHole i a b
    → i < j
    → j < i + fuel
    → Both (Alike low high pivot i j) (swap_round fuel a i j i pivot) (fill_round fuel b i j pivot)
unfolding swap_round fill_round ◌>>=◌
round-Alike {low} {high} {pivot} fuel a b i j h hole lt f =
    Both-same (scan_down-StopsDown fuel a i j pivot h.ordered (omega (arith, in_a)) f)
      (scan_down-agree fuel a b i j pivot (omega (arith, in_a)) hole)
      λ j' down.
        Both-left (swap-Ends a j' i (omega (arith, in_a, down.within)) (omega (arith, in_a)))
          λ d ed.
            let hole' : IsHole j' d (filled b i j') =
              subst (λ x. IsHole j' x (filled b i j')) (sym ed)
                (IsHole-moves a b i j' (omega (arith, in_a)) (omega (arith, in_a, down.within))
                  hole) in
            let length_d : length d ≡ length a = ap length ed ∙ length-exchanged a j' i in
            rw
              (
                read-eq b j' (omega (arith, in_a, hole.same_length, down.within)),
                write-eq b i (at b j') (omega (arith, in_a, hole.same_length)),
              )
              (Both-same
                (scan_up-StopsUp fuel d i j' pivot down.within.0
                  (omega (arith, in_a, length_d, down.within)) (omega (arith, down.within, f)))
                (scan_up-agree fuel d (filled b i j') i j' pivot down.within.0
                  (omega (arith, in_a, length_d, down.within)) hole')
                λ i' up.
                  Both-left
                    (swap-Ends d i' j' (omega (arith, in_a, length_d, down.within, up.within))
                      (omega (arith, in_a, length_d, down.within)))
                    λ m em.
                      rw
                        (
                          read-eq (filled b i j') i' (
                              omega
                                (arith, in_a, length_d, hole'.same_length, down.within, up.within)),
                          write-eq (filled b i j') j' (at (filled b i j') i')
                              (omega (arith, in_a, length_d, hole'.same_length, down.within)),
                        )
                        (Both-ok (cut m i' j') (cut (filled (filled b i j') j' i') i' j') record {
                          parted = after_round a d m i j j' i' h lt down ed up em;
                          closer_by = closer a d m i j j' i' h lt down ed up em;
                          left_same = refl;
                          right_same = refl;
                          hole =
                              subst (λ x. IsHole i' x (filled (filled b i j') j' i')) (sym em)
                                (IsHole-moves d (filled b i j') j' i'
                                  (omega (arith, in_a, length_d, down.within))
                                  (omega (arith, in_a, length_d, down.within, up.within)) hole');
                        }))
  where
    in_a : (i ≤ j) × (j < length a)
    in_a = omega (arith, h.ordered, h.to_high, h.fits)

loop-Alike :
    {low high pivot : ℕ} (fuel : ℕ) (a b : List ℕ) (i j i' j' : ℕ)
    → i' ≡ i
    → j' ≡ j
    → Parted low high pivot a i j
    → IsHole i a b
    → j < i + fuel
    → Both
        (λ c c'.
          Parted low high pivot c.cells c.left c.left
          × (c'.left ≡ c.left)
          × IsHole c.left c.cells c'.cells)
        (swap_loop fuel a i j i pivot)
        (fill_loop fuel b i' j' pivot)
unfolding swap_loop fill_loop
loop-Alike zero a b i j i' j' ei ej h hole f = absurd (omega (arith, h.ordered))
loop-Alike {low} {high} {pivot} (suc fuel) a b i j i' j' ei ej h hole f =
    rw (ei, ej)
      (elim (Bool-cases (ltb i j)) [
        | inl e ↦
            rw (e, swap_loop, fill_loop)
              (Both-bind (round-Alike (suc fuel) a b i j h hole (ground arith) f) λ c c' r.
                loop-Alike fuel c.cells c'.cells c.left c.right c'.left c'.right r.left_same
                  r.right_same r.parted r.hole (omega (arith, r.closer_by, f, r.parted.ordered)))
        | inr e ↦
            rw (e, swap_loop, fill_loop)
              (Both-ok (cut a i j) (cut b i j) (met (ground (arith, h.ordered)), refl, hole))
      ])
  where
    met : j ≡ i → Parted low high pivot a i i
    met q = subst (λ k. Parted low high pivot a i k) q h

-- On a segment that lies in the array, `partition` and `partition_swap` end with the same array and
-- the same index.
pub partition-eq-partition_swap :
    (fuel : ℕ) (a : List ℕ) (low high : ℕ)
    → low ≤ high
    → high < length a
    → high < low + fuel
    → Both (λ s t. s ≡ t) (partition_swap fuel a low high) (partition fuel a low high)
unfolding partition partition_swap ◌>>=◌
partition-eq-partition_swap fuel a low high h b f = rw (read-eq a low (omega arith)) (
    Both-bind
      (loop-Alike fuel a a low high low high refl refl (Parted-start a low high h b)
        record { same_length = refl; same = λ c ne. refl } f)
      λ c c' r.
        rw
          (
            r.1,
            write-eq c'.cells c.left (at a low)
                (omega (arith, r.2.same_length, r.0.to_high, r.0.fits, r.0.from_low)),
          )
          (Both-ok (split c.cells c.left) (split (put c.left (at a low) c'.cells) c.left)
            (ap (λ x. split x c.left) (filled_in c c' r.0 r.2))))
  where
    filled_in :
        (c c' : Cut)
        → Parted low high (at a low) c.cells c.left c.left
        → IsHole c.left c.cells c'.cells
        → c.cells ≡ put c.left (at a low) c'.cells
    filled_in c c' p hole =
        array_ext c.cells (put c.left (at a low) c'.cells)
          (omega (arith, length-put c.left (at a low) c'.cells, hole.same_length))
          λ k lt. ground (
            arith,
            at-put c.left (at a low) c'.cells k,
            hole.same k,
            p.pivot_at,
            p.ordered,
            p.to_high,
            p.fits,
            hole.same_length,
          )
