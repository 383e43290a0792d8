-- ===== src/Sorting/Simple/Scan.antt =====
-- algorithms/simple_quicksort.c: where the two inner loops stop, and what `swap` leaves.
use my_coding_exercises.Common.{
  ℕ, zero, suc, ◌+◌, ◌-◌, ◌≤◌, ◌<◌, ◌≡◌, refl, ◌⊎◌, inl, inr, List, arith, ltb, leb, if◌then◌else◌,
  length, Bool-cases,
}
use my_coding_exercises.Sorting.Run.{ok, ◌>>=◌, Ends, Ends-ok, Ends-weaken}
use my_coding_exercises.Sorting.Array.{at, read, write, exchanged, length-put}
use my_coding_exercises.Sorting.Simple.{swap, scan_down, scan_up}

pub swap-exchanged :
    (a : List ℕ) (i j : ℕ) → i < length a → j < length a → swap a i j ≡ ok (exchanged a i j)
unfolding swap exchanged ◌>>=◌ read write
swap-exchanged a i j hi hj = ground (arith, length-put i (at a j) a)

pub swap-Ends :
    (a : List ℕ) (i j : ℕ)
    → i < length a
    → j < length a
    → Ends (λ b. b ≡ exchanged a i j) (swap a i j)
swap-Ends a i j hi hj = rw (swap-exchanged a i j hi hj) (Ends-ok _ refl)

-- `k` is where the downward loop stops: at `i`, or at the first smaller entry from `j` down.
pub record StopsDown (a : List ℕ) (i j pivot k : ℕ) : Type 0 where
  pub within : (i ≤ k) × (k ≤ j)
  pub passed : (c : ℕ) → k < c → c ≤ j → pivot ≤ at a c
  pub stop : (k ≡ i) ⊎ (at a k < pivot)

pub record StopsUp (a : List ℕ) (i j pivot k : ℕ) : Type 0 where
  pub within : (i ≤ k) × (k ≤ j)
  pub passed : (c : ℕ) → i ≤ c → c < k → at a c ≤ pivot
  pub stop : (k ≡ j) ⊎ (pivot < at a k)

pub scan_down_step :
    (fuel : ℕ) (a : List ℕ) (i j pivot : ℕ)
    → j < length a
    → scan_down (suc fuel) a i j pivot ≡ (
        if ltb i j
        then (if leb pivot (at a j) then scan_down fuel a i (j - 1) pivot else ok j)
        else ok j)
unfolding scan_down read ◌>>=◌
scan_down_step fuel a i j pivot h = ground arith

pub scan_up_step :
    (fuel : ℕ) (a : List ℕ) (i j pivot : ℕ)
    → i < length a
    → scan_up (suc fuel) a i j pivot ≡ (
        if ltb i j
        then (if leb (at a i) pivot then scan_up fuel a (i + 1) j pivot else ok i)
        else ok i)
unfolding scan_up read ◌>>=◌
scan_up_step fuel a i j pivot h = ground arith

StopsDown-here :
    {a : List ℕ} {i j pivot : ℕ} → i ≤ j → (j ≡ i) ⊎ (at a j < pivot) → StopsDown a i j pivot j
StopsDown-here h s = record {
  within = omega arith;
  passed = λ c lo hi. absurd (omega arith);
  stop = s;
}

StopsUp-here :
    {a : List ℕ} {i j pivot : ℕ} → i ≤ j → (i ≡ j) ⊎ (pivot < at a i) → StopsUp a i j pivot i
StopsUp-here h s = record {
  within = omega arith;
  passed = λ c lo hi. absurd (omega arith);
  stop = s;
}

StopsDown-further :
    {a : List ℕ} {i j pivot k : ℕ}
    → i < j
    → pivot ≤ at a j
    → StopsDown a i (j - 1) pivot k
    → StopsDown a i j pivot k
StopsDown-further {j} lt p s = record {
  within = omega (arith, s.within);
  passed = λ c lo hi. ground (arith, s.passed c);
  stop = s.stop;
}

StopsUp-further :
    {a : List ℕ} {i j pivot k : ℕ}
    → i < j
    → at a i ≤ pivot
    → StopsUp a (i + 1) j pivot k
    → StopsUp a i j pivot k
StopsUp-further {i} lt p s = record {
  within = omega (arith, s.within);
  passed = λ c lo hi. ground (arith, s.passed c);
  stop = s.stop;
}

pub scan_down-StopsDown :
    (fuel : ℕ) (a : List ℕ) (i j pivot : ℕ)
    → i ≤ j
    → j < length a
    → j < i + fuel
    → Ends (StopsDown a i j pivot) (scan_down fuel a i j pivot)
scan_down-StopsDown zero a i j pivot h b f = absurd (omega arith)
scan_down-StopsDown (suc fuel) a i j pivot h b f =
    rw (scan_down_step fuel a i j pivot b) (elim (Bool-cases (ltb i j)) [
      | inr e ↦ rw e (Ends-ok j (StopsDown-here h (inl (ground arith))))
      | inl e ↦ rw e (elim (Bool-cases (leb pivot (at a j))) [
        | inr l ↦ rw l (Ends-ok j (StopsDown-here h (inr (ground arith))))
        | inl l ↦ rw l (
            Ends-weaken
              (scan_down-StopsDown fuel a i (j - 1) pivot (ground arith) (ground arith)
                (ground arith))
              λ k s. StopsDown-further (ground arith) (ground arith) s)
      ])
    ])

pub scan_up-StopsUp :
    (fuel : ℕ) (a : List ℕ) (i j pivot : ℕ)
    → i ≤ j
    → j < length a
    → j < i + fuel
    → Ends (StopsUp a i j pivot) (scan_up fuel a i j pivot)
scan_up-StopsUp zero a i j pivot h b f = absurd (omega arith)
scan_up-StopsUp (suc fuel) a i j pivot h b f =
    rw (scan_up_step fuel a i j pivot (omega arith)) (elim (Bool-cases (ltb i j)) [
      | inr e ↦ rw e (Ends-ok i (StopsUp-here h (inl (ground arith))))
      | inl e ↦ rw e (elim (Bool-cases (leb (at a i) pivot)) [
        | inr l ↦ rw l (Ends-ok i (StopsUp-here h (inr (ground arith))))
        | inl l ↦ rw l (
            Ends-weaken (scan_up-StopsUp fuel a (i + 1) j pivot (ground arith) b (ground arith))
              λ k s. StopsUp-further (ground arith) (ground arith) s)
      ])
    ])
