-- ===== src/Sorting/Simple/Rounds.antt =====
-- algorithms/simple_quicksort.c: a round of `partition_swap`, its loop, and what it ends with.
use my_coding_exercises.Common.{
  ℕ, zero, suc, ◌+◌, ◌-◌, ◌≤◌, ◌<◌, ◌≡◌, inl, inr, refl, ap, List, arith, ltb, ◌==◌, if◌then◌else◌,
  length, Bool-cases,
}
use mathlib.Core.Path.{subst}
use my_coding_exercises.Sorting.Run.{◌>>=◌, Ends, Ends-ok, Ends-bind, Ends-weaken}
use my_coding_exercises.Sorting.Array.{at, read-eq, exchanged, length-exchanged, at-exchanged}
use my_coding_exercises.Sorting.Moves.{Moves, Moves-refl, Moves-trans, Moves-exchanged}
use my_coding_exercises.Sorting.Simple.{cut, split, swap_round, swap_loop, partition_swap}
use my_coding_exercises.Sorting.Simple.Scan.{
  StopsDown, StopsUp, swap-Ends, scan_down-StopsDown, scan_up-StopsUp,
}

-- Between two rounds: the pivot stands at `i`, nothing larger before it, nothing smaller after `j`.
pub record Parted (low high pivot : ℕ) (a : List ℕ) (i j : ℕ) : Type 0 where
  pub from_low : low ≤ i
  pub ordered : i ≤ j
  pub to_high : j ≤ high
  pub fits : high < length a
  pub pivot_at : at a i ≡ pivot
  pub below : (c : ℕ) → low ≤ c → c < i → at a c ≤ pivot
  pub above : (c : ℕ) → j < c → c ≤ high → pivot ≤ at a c

-- One round and its two exchanges, once it is known where the inner loops stop.
module _ {low high pivot : ℕ} (a b d : List ℕ) (i j j' i' : ℕ) (h : Parted low high pivot a i j)
    (lt : i < j) (down : StopsDown a i j pivot j') (eb : b ≡ exchanged a j' i)
    (up : StopsUp b i j' pivot i') (ed : d ≡ exchanged b i' j') where
  at_b : (c : ℕ) → at b c ≡ (if i == c then at a j' else if j' == c then at a i else at a c)
  at_b c = rw eb (
      at-exchanged a j' i (omega (arith, h.to_high, h.fits, down.within))
        (omega (arith, h.ordered, h.to_high, h.fits)) c)

  length_b : length b ≡ length a
  length_b = rw eb (length-exchanged a j' i)

  at_d : (c : ℕ) → at d c ≡ (if j' == c then at b i' else if i' == c then at b j' else at b c)
  at_d c = rw ed (
      at-exchanged b i' j' (omega (arith, length_b, h.to_high, h.fits, down.within, up.within))
        (omega (arith, length_b, h.to_high, h.fits, down.within)) c)

  length_d : length d ≡ length b
  length_d = rw ed (length-exchanged b i' j')

  -- The second scan moves, unless the first has already met `i`.
  pub closer : j' - i' < j - i
  closer = ground (arith, down.within, down.stop, up.within, up.stop, at_b i, h.pivot_at)

  below_d : (c : ℕ) → low ≤ c → c < i' → at d c ≤ pivot
  below_d c lo hi = ground (arith, at_d c, at_b c, h.below c, up.passed c, down.within, up.within)

  above_d : (c : ℕ) → j' < c → c ≤ high → pivot ≤ at d c
  above_d c lo hi =
      ground (arith, at_d c, at_b c, h.above c, down.passed c, down.within, up.within, h.ordered)

  pivot_d : at d i' ≡ pivot
  pivot_d = ground (arith, at_d i', at_b j', at_b i', h.pivot_at, down.within, up.within)

  pub after_round : Parted low high pivot d i' j'
  after_round = record {
    from_low = omega (arith, h.from_low, up.within);
    ordered = up.within.1;
    to_high = omega (arith, h.to_high, down.within);
    fits = omega (arith, h.fits, length_b, length_d);
    pivot_at = pivot_d;
    below = below_d;
    above = above_d;
  }

  pub moved : Moves low high a d
  moved = rw ed (
      rw eb (
        Moves-trans
          (Moves-exchanged a j' i h.fits (omega (arith, h.from_low, h.to_high, down.within))
            (omega (arith, h.from_low, h.ordered, h.to_high)))
          (Moves-exchanged _ i' j' (omega (arith, h.fits, length-exchanged a j' i))
            (omega (arith, h.from_low, h.to_high, down.within, up.within))
            (omega (arith, h.from_low, h.to_high, down.within)))))

swap_round-Parted :
    {low high pivot : ℕ} (fuel : ℕ) (a : List ℕ) (i j : ℕ)
    → Parted low high pivot a i j
    → i < j
    → j < i + fuel
    → Ends
        (λ c.
          Parted low high pivot c.cells c.left c.right
          × (c.right - c.left < j - i)
          × Moves low high a c.cells)
        (swap_round fuel a i j i pivot)
unfolding swap_round
swap_round-Parted {pivot} fuel a i j h lt f =
    Ends-bind (scan_down-StopsDown fuel a i j pivot h.ordered (omega (arith, h.to_high, h.fits)) f)
      λ j' down.
        Ends-bind
          (swap-Ends a j' i (omega (arith, h.to_high, h.fits, down.within))
            (omega (arith, h.ordered, h.to_high, h.fits)))
          λ b eb.
            Ends-bind
              (scan_up-StopsUp fuel b i j' pivot down.within.0
                (omega
                  (arith, h.to_high, h.fits, down.within, ap length eb, length-exchanged a j' i))
                (omega (arith, down.within, f)))
              λ i' up.
                Ends-bind
                  (swap-Ends b i' j'
                    (omega (
                      arith,
                      h.to_high,
                      h.fits,
                      down.within,
                      up.within,
                      ap length eb,
                      length-exchanged a j' i,
                    ))
                    (omega (
                      arith,
                      h.to_high,
                      h.fits,
                      down.within,
                      ap length eb,
                      length-exchanged a j' i,
                    )))
                  λ d ed. Ends-ok (cut d i' j') (
                    after_round a b d i j j' i' h lt down eb up ed,
                    closer a b d i j j' i' h lt down eb up ed,
                    moved a b d i j j' i' h lt down eb up ed,
                  )

swap_loop-Parted :
    {low high pivot : ℕ} (fuel : ℕ) (a : List ℕ) (i j : ℕ)
    → Parted low high pivot a i j
    → j < i + fuel
    → Ends
        (λ c. Parted low high pivot c.cells c.left c.left × Moves low high a c.cells)
        (swap_loop fuel a i j i pivot)
unfolding swap_loop
swap_loop-Parted zero a i j h f = absurd (omega (arith, h.ordered))
swap_loop-Parted {low} {high} {pivot} (suc fuel) a i j h f = elim (Bool-cases (ltb i j)) [
  | inl e ↦
      rw (e, swap_loop)
        (Ends-bind (swap_round-Parted (suc fuel) a i j h (ground arith) f) λ c r.
          Ends-weaken
            (swap_loop-Parted fuel c.cells c.left c.right r.0 (omega (arith, r.1, f, r.0.ordered)))
            λ c' r'. (r'.0, Moves-trans r.2 r'.1))
  | inr e ↦ rw (e, swap_loop) (Ends-ok (cut a i j) (met (ground (arith, h.ordered)), Moves-refl a))
]
  where
    met : j ≡ i → Parted low high pivot a i i
    met q = subst (λ k. Parted low high pivot a i k) q h

-- `b` holds a value at `q` that nothing before it in the segment exceeds and nothing after it is
-- below.
pub record Divides (low high : ℕ) (b : List ℕ) (q : ℕ) : Type 0 where
  pub inside : (low ≤ q) × (q ≤ high)
  pub before : (c : ℕ) → low ≤ c → c < q → at b c ≤ at b q
  pub after : (c : ℕ) → q < c → c ≤ high → at b q ≤ at b c

Parted-Divides :
    {low high pivot : ℕ} {b : List ℕ} {q : ℕ} → Parted low high pivot b q q → Divides low high b q
Parted-Divides h = record {
  inside = (h.from_low, h.to_high);
  before = λ c lo hi. ground (arith, h.pivot_at, h.below c);
  after = λ c lo hi. ground (arith, h.pivot_at, h.above c);
}

pub Parted-start :
    (a : List ℕ) (low high : ℕ)
    → low ≤ high
    → high < length a
    → Parted low high (at a low) a low high
Parted-start a low high h b = record {
  from_low = omega arith;
  ordered = h;
  to_high = omega arith;
  fits = b;
  pivot_at = refl;
  below = λ c lo hi. absurd (omega arith);
  above = λ c lo hi. absurd (omega arith);
}

-- On a segment that lies in the array, with as much fuel as the segment is long, `partition_swap`
-- ends without an access outside the array. It has only moved entries within the segment, and the
-- index that it returns divides the segment: no entry before it is larger than its entry, and none
-- after it is smaller.
pub partition_swap-Divides :
    (fuel : ℕ) (a : List ℕ) (low high : ℕ)
    → low ≤ high
    → high < length a
    → high < low + fuel
    → Ends
        (λ s. Divides low high s.cells s.place × Moves low high a s.cells)
        (partition_swap fuel a low high)
unfolding partition_swap ◌>>=◌
partition_swap-Divides fuel a low high h b f = rw (read-eq a low (omega arith)) (
    Ends-bind (swap_loop-Parted fuel a low high (Parted-start a low high h b) f)
      λ c r. Ends-ok (split c.cells c.left) (Parted-Divides r.0, r.1))
