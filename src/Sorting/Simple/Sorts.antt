-- ===== src/Sorting/Simple/Sorts.antt =====
-- algorithms/simple_quicksort.c: `quicksort` sorts.
use my_coding_exercises.Common.{
  ℕ, zero, suc, ◌+◌, ◌-◌, ◌≤◌, ◌<◌, ◌≡◌, inl, inr, true, false, List, arith, ltb, ◌==◌, length,
  Bool-cases,
}
use my_coding_exercises.Sorting.Run.{ok, Ends, Ends-ok, Ends-bind, Ends-weaken}
use my_coding_exercises.Sorting.Array.{at}
use my_coding_exercises.Sorting.Moves.{
  Moves, Moves-refl, Moves-trans, Moves-widen, Moves-at_most, Moves-at_least,
}
use my_coding_exercises.Sorting.Simple.{quicksort}
use my_coding_exercises.Sorting.Simple.Rounds.{Divides, partition_swap-Divides}

abbrev pub IsSortedFrom : ℕ → ℕ → List ℕ → Type 0
IsSortedFrom low high a = (c d : ℕ) → low ≤ c → c ≤ d → d ≤ high → at a c ≤ at a d

-- The two halves, each sorted, about a dividing entry.
Divides-IsSortedFrom :
    {low high : ℕ} {a : List ℕ} (q : ℕ)
    → Divides low high a q
    → ((c d : ℕ) → low ≤ c → c ≤ d → d < q → at a c ≤ at a d)
    → ((c d : ℕ) → q < c → c ≤ d → d ≤ high → at a c ≤ at a d)
    → IsSortedFrom low high a
Divides-IsSortedFrom {low} {high} {a} q v left right c d lo cd hi =
    ground (arith, left c d, right c d, v.before c, v.after d, v.before d, v.after c)

-- A division outlives moves within the part before it, and within the part after it.
Divides-before :
    {low high : ℕ} {a b : List ℕ} (q : ℕ)
    → low < q
    → Divides low high a q
    → Moves low (q - 1) a b
    → Divides low high b q
Divides-before {low} {high} {a} {b} q lt v m = record {
  inside = v.inside;
  before = λ c lo hi. ground (
    arith,
    m.outside q (inr (omega arith)),
    Moves-at_most (at a q) m (λ e l h. v.before e l (omega arith)) c lo (omega arith),
  );
  after = λ c lo hi.
      ground (arith, m.outside q (inr (omega arith)), m.outside c (inr (omega arith)), v.after c);
}

Divides-after :
    {low high : ℕ} {a b : List ℕ} (q : ℕ)
    → Divides low high a q
    → Moves (q + 1) high a b
    → Divides low high b q
Divides-after {low} {high} {a} {b} q v m = record {
  inside = v.inside;
  before = λ c lo hi.
      ground (arith, m.outside q (inl (omega arith)), m.outside c (inl (omega arith)), v.before c);
  after = λ c lo hi. ground (
    arith,
    m.outside q (inl (omega arith)),
    Moves-at_least (at a q) m (λ e l h. v.after e (omega arith) h) c (omega arith) hi,
  );
}

-- After the first recursive call: the division stands and what is before it is sorted.
record Half (low high : ℕ) (a : List ℕ) (q : ℕ) (b : List ℕ) : Type 0 where
  divides : Divides low high b q
  sorted : (c d : ℕ) → low ≤ c → c ≤ d → d < q → at b c ≤ at b d
  moves : Moves low high a b

sort_left :
    (fuel : ℕ) (a : List ℕ) (low high q : ℕ)
    → ((b : List ℕ) (l h : ℕ)
        → l ≤ h
        → h < length b
        → h < l + fuel
        → Ends (λ d. IsSortedFrom l h d × Moves l h b d) (quicksort fuel b l h))
    → high < length a
    → high < low + suc fuel
    → Divides low high a q
    → Ends
        (Half low high a q)
        (elim (ltb low q) [ true ↦ quicksort fuel a low (q - 1) | false ↦ ok a ])
sort_left fuel a low high q ih b f v = elim (Bool-cases (ltb low q)) [
  | inr e ↦ rw e (
      Ends-ok a record {
        divides = v;
        sorted = λ c d lo cd hi. absurd (ground arith);
        moves = Moves-refl a;
      })
  | inl e ↦ rw e (half (ground arith))
]
  where
    half : low < q → Ends (Half low high a q) (quicksort fuel a low (q - 1))
    half lt =
        Ends-weaken
          (ih a low (q - 1) (omega arith) (omega (arith, v.inside)) (omega (arith, v.inside)))
          λ d r. record {
            divides = Divides-before q lt v r.1;
            sorted = λ c e lo ce hi. r.0 c e lo ce (omega arith);
            moves = Moves-widen (omega arith) (omega (arith, v.inside)) r.1;
          }

sort_right :
    (fuel : ℕ) (a b : List ℕ) (low high q : ℕ)
    → ((b : List ℕ) (l h : ℕ)
        → l ≤ h
        → h < length b
        → h < l + fuel
        → Ends (λ d. IsSortedFrom l h d × Moves l h b d) (quicksort fuel b l h))
    → high < length a
    → high < low + suc fuel
    → Half low high a q b
    → Ends
        (λ d. IsSortedFrom low high d × Moves low high a d)
        (elim (ltb q high) [ true ↦ quicksort fuel b (q + 1) high | false ↦ ok b ])
sort_right fuel a b low high q ih fit f half = elim (Bool-cases (ltb q high)) [
  | inr e ↦ rw e (
      Ends-ok b (
        Divides-IsSortedFrom q half.divides half.sorted (λ c d lo cd hi. absurd (ground arith)),
        half.moves,
      ))
  | inl e ↦ rw e (rest (ground arith))
]
  where
    rest :
        q < high
        → Ends (λ d. IsSortedFrom low high d × Moves low high a d) (quicksort fuel b (q + 1) high)
    rest lt =
        Ends-weaken
          (ih b (q + 1) high (omega arith) (omega (arith, half.moves.length_kept))
            (omega (arith, half.divides.inside)))
          λ d r. (
            Divides-IsSortedFrom q (Divides-after q half.divides r.1)
                (λ c e lo ce hi. ground (
                  arith,
                  half.sorted c e,
                  r.1.outside c (inl (omega arith)),
                  r.1.outside e (inl (omega arith)),
                ))
                (λ c e lo ce hi. r.0 c e (omega arith) ce hi),
            Moves-trans half.moves
                (Moves-widen (omega (arith, half.divides.inside)) (omega arith) r.1),
          )

-- On a segment that lies in the array, with as much fuel as the segment is long, `quicksort` ends
-- without an access outside the array. The segment is then in ascending order. The array is a
-- permutation of what it was, and outside the segment nothing has changed.
pub quicksort-IsSortedFrom :
    (fuel : ℕ) (a : List ℕ) (low high : ℕ)
    → low ≤ high
    → high < length a
    → high < low + fuel
    → Ends (λ b. IsSortedFrom low high b × Moves low high a b) (quicksort fuel a low high)
unfolding quicksort
quicksort-IsSortedFrom zero a low high h b f = absurd (omega arith)
quicksort-IsSortedFrom (suc fuel) a low high h b f = elim (Bool-cases (high == low)) [
  | inl e ↦ rw (e, quicksort) (Ends-ok a (one (ground arith), Moves-refl a))
  | inr e ↦
      rw (e, quicksort)
        (Ends-bind (partition_swap-Divides (suc fuel) a low high h b f) λ s r.
          Ends-weaken
            (Ends-bind
              (sort_left fuel s.cells low high s.place (quicksort-IsSortedFrom fuel)
                (omega (arith, r.1.length_kept)) f r.0)
              λ d half.
                sort_right fuel s.cells d low high s.place (quicksort-IsSortedFrom fuel)
                  (omega (arith, r.1.length_kept)) f half)
            λ d t. (t.0, Moves-trans r.1 t.1))
]
  where
    one : high ≡ low → IsSortedFrom low high a
    one e c d lo cd hi = ground arith
