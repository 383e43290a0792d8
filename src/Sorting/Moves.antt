-- ===== src/Sorting/Moves.antt =====
-- What the sorting programs do to a segment of an array: they move its entries about and leave the
-- rest of the array alone.
use mathlib.Core.List.{Perm}
use mathlib.Core.List.Perm
use my_coding_exercises.Common.{
  ℕ, ◌≤◌, ◌<◌, ◌≡◌, refl, ◌⊎◌, inl, inr, ◌∙◌, List, arith, ltb, ◌==◌, if◌then◌else◌, length,
  Bool-cases,
}
use my_coding_exercises.Sorting.Array.{
  at, exchanged, length-exchanged, at-exchanged, exchanged-perm,
}

-- A place of the segment from which a value comes.
pub record Source (low high : ℕ) (a : List ℕ) (v : ℕ) : Type 0 where
  pub place : ℕ
  pub inside : (low ≤ place) × (place ≤ high)
  pub holds : at a place ≡ v

pub record Moves (low high : ℕ) (a b : List ℕ) : Type 0 where
  pub length_kept : length b ≡ length a
  pub permutes : Perm b a
  pub outside : (c : ℕ) → (c < low) ⊎ (high < c) → at b c ≡ at a c
  pub inside : (c : ℕ) → low ≤ c → c ≤ high → Source low high a (at b c)

pub Moves-refl : {low high : ℕ} (a : List ℕ) → Moves low high a a
Moves-refl a = record {
  length_kept = refl;
  permutes = Perm.rfl;
  outside = λ c h. refl;
  inside = λ c lo hi. record { place = c; inside = (lo, hi); holds = refl };
}

pub Moves-trans :
    {low high : ℕ} {a b d : List ℕ} → Moves low high a b → Moves low high b d → Moves low high a d
Moves-trans p q = record {
  length_kept = q.length_kept ∙ p.length_kept;
  permutes = Perm.trans q.permutes p.permutes;
  outside = λ c h. q.outside c h ∙ p.outside c h;
  inside = λ c lo hi.
      let s = q.inside c lo hi in
      let t = p.inside s.place s.inside.0 s.inside.1 in
      record { place = t.place; inside = t.inside; holds = t.holds ∙ s.holds };
}

-- A segment's moves are moves of every larger segment.
pub Moves-widen :
    {low high low' high' : ℕ} {a b : List ℕ}
    → low' ≤ low
    → high ≤ high'
    → Moves low high a b
    → Moves low' high' a b
Moves-widen {low} {high} {low'} {high'} {a} {b} l h m = record {
  length_kept = m.length_kept;
  permutes = m.permutes;
  outside = λ c out. m.outside c (ground arith);
  inside = from;
}
  where
    from : (c : ℕ) → low' ≤ c → c ≤ high' → Source low' high' a (at b c)
    from c lo hi = elim (Bool-cases (ltb c low)) [
      | inl e ↦ record { place = c; inside = (lo, hi); holds = ground (arith, m.outside c) }
      | inr e ↦ elim (Bool-cases (ltb high c)) [
        | inl f ↦ record { place = c; inside = (lo, hi); holds = ground (arith, m.outside c) }
        | inr f ↦
            let s = m.inside c (ground arith) (ground arith) in
            record { place = s.place; inside = omega (arith, s.inside); holds = s.holds }
      ]
    ]

pub Moves-exchanged :
    {low high : ℕ} (a : List ℕ) (i j : ℕ)
    → high < length a
    → (low ≤ i) × (i ≤ high)
    → (low ≤ j) × (j ≤ high)
    → Moves low high a (exchanged a i j)
Moves-exchanged {low} {high} a i j b hi hj = record {
  length_kept = length-exchanged a i j;
  permutes = exchanged-perm a i j (omega arith) (omega arith);
  outside = λ c out. ground (arith, entry c);
  inside = from;
}
  where
    entry :
        (c : ℕ)
        → at (exchanged a i j) c ≡ (if j == c then at a i else if i == c then at a j else at a c)
    entry = at-exchanged a i j (omega arith) (omega arith)

    from : (c : ℕ) → low ≤ c → c ≤ high → Source low high a (at (exchanged a i j) c)
    from c lo up = elim (Bool-cases (j == c)) [
      | inl e ↦ record { place = i; inside = hi; holds = ground (arith, entry c) }
      | inr e ↦ elim (Bool-cases (i == c)) [
        | inl f ↦ record { place = j; inside = hj; holds = ground (arith, entry c) }
        | inr f ↦ record { place = c; inside = (lo, up); holds = ground (arith, entry c) }
      ]
    ]

-- Bounds on a segment outlive its moves.
pub Moves-at_most :
    {low high : ℕ} {a b : List ℕ} (v : ℕ)
    → Moves low high a b
    → ((c : ℕ) → low ≤ c → c ≤ high → at a c ≤ v)
    → (c : ℕ) → low ≤ c
    → c ≤ high
    → at b c ≤ v
Moves-at_most v m h c lo hi =
    let s = m.inside c lo hi in ground (arith, h s.place s.inside.0 s.inside.1, s.holds)

pub Moves-at_least :
    {low high : ℕ} {a b : List ℕ} (v : ℕ)
    → Moves low high a b
    → ((c : ℕ) → low ≤ c → c ≤ high → v ≤ at a c)
    → (c : ℕ) → low ≤ c
    → c ≤ high
    → v ≤ at b c
Moves-at_least v m h c lo hi =
    let s = m.inside c lo hi in ground (arith, h s.place s.inside.0 s.inside.1, s.holds)
