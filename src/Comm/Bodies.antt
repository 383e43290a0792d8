-- ===== src/Comm/Bodies.antt =====
-- coreutils/src/comm.c: lines in the order of their bytes, as the specification of the comparisons.
use my_coding_exercises.Common.{
  ℕ, suc, ◌-◌, ◌≡◌, refl, ap, ◌∙◌, true, false, inl, inr, [], ◌∷◌, ◌++◌, Bytes, length,
  length-append, ltb, ◌==◌, if◌then◌else◌, arith, Bool-cases,
}
use my_coding_exercises.Comm.{Order, less, equal, greater, memcmp, by_length, plain_order}

-- The order of a dictionary.
unfoldable pub compare_bytes : Bytes → Bytes → Order
compare_bytes [] [] = equal
compare_bytes [] (y ∷ b) = less
compare_bytes (x ∷ a) [] = greater
compare_bytes (x ∷ a) (y ∷ b) =
    if ltb x y then less else if ltb y x then greater else compare_bytes a b

abbrev pub newline : Bytes
newline = 10 ∷ []

pub compare_bytes_refl : (a : Bytes) → compare_bytes a a ≡ equal
unfolding compare_bytes
compare_bytes_refl [] = refl
compare_bytes_refl (x ∷ a) = let e : ltb x x ≡ false = ground arith in rw e (compare_bytes_refl a)

pub compare_bytes-equal : (a b : Bytes) → compare_bytes a b ≡ equal → a ≡ b
unfolding compare_bytes
compare_bytes-equal [] [] h = refl
compare_bytes-equal [] (y ∷ b) h = absurd cc
compare_bytes-equal (x ∷ a) [] h = absurd cc
compare_bytes-equal (x ∷ a) (y ∷ b) h = elim (Bool-cases (ltb x y)) [
  | inl e ↦ let g : less ≡ equal = rw e at h in absurd cc
  | inr e ↦ elim (Bool-cases (ltb y x)) [
    | inl f ↦ let g : greater ≡ equal = rw (e, f) at h in absurd cc
    | inr f ↦
        let same : x ≡ y = ground arith in let rest = compare_bytes-equal a b (rw (e, f) at h) in cc
  ]
]

pub compare_bytes-less : (a b : Bytes) → compare_bytes a b ≡ less → compare_bytes b a ≡ greater
unfolding compare_bytes
compare_bytes-less [] [] h = absurd cc
compare_bytes-less [] (y ∷ b) h = refl
compare_bytes-less (x ∷ a) [] h = absurd cc
compare_bytes-less (x ∷ a) (y ∷ b) h = elim (Bool-cases (ltb x y)) [
  | inl e ↦ let f : ltb y x ≡ false = ground arith in rw (e, f) refl
  | inr e ↦ elim (Bool-cases (ltb y x)) [
    | inl f ↦ let g : greater ≡ less = rw (e, f) at h in absurd cc
    | inr f ↦ rw (e, f) (compare_bytes-less a b (rw (e, f) at h))
  ]
]

pub compare_bytes-greater : (a b : Bytes) → compare_bytes a b ≡ greater → compare_bytes b a ≡ less
unfolding compare_bytes
compare_bytes-greater [] [] h = absurd cc
compare_bytes-greater [] (y ∷ b) h = absurd cc
compare_bytes-greater (x ∷ a) [] h = refl
compare_bytes-greater (x ∷ a) (y ∷ b) h = elim (Bool-cases (ltb x y)) [
  | inl e ↦ let g : less ≡ greater = rw e at h in absurd cc
  | inr e ↦ elim (Bool-cases (ltb y x)) [
    | inl f ↦ rw (e, f) refl
    | inr f ↦ rw (e, f) (compare_bytes-greater a b (rw (e, f) at h))
  ]
]

shorter : ℕ → ℕ → ℕ
shorter m n = if ltb m n then m else n

by_length-suc : (o : Order) (m n : ℕ) → by_length o (suc m) (suc n) ≡ by_length o m n
unfolding by_length
by_length-suc less m n = refl
by_length-suc equal m n =
    let e : ltb (suc m) (suc n) ≡ ltb m n = ground arith in
    let f : (suc m == suc n) ≡ (m == n) = ground arith in rw (e, f) refl
by_length-suc greater m n = refl

shorter-suc : (m n : ℕ) → shorter (suc m) (suc n) ≡ suc (shorter m n)
unfolding shorter
shorter-suc m n = ground arith

shorter-zero : (n : ℕ) → (shorter 0 (suc n) ≡ 0) × (shorter (suc n) 0 ≡ 0)
unfolding shorter
shorter-zero n = (ground arith, ground arith)

by_length-zero :
    (n : ℕ) → (by_length equal 0 (suc n) ≡ less) × (by_length equal (suc n) 0 ≡ greater)
unfolding by_length
by_length-zero n =
    let e : ltb 0 (suc n) ≡ true = ground arith in
    let f : ltb (suc n) 0 ≡ false = ground arith in
    let g : (suc n == 0) ≡ false = ground arith in (rw e refl, rw (f, g) refl)

-- The bytes in front of the newlines decide, up to the end of the shorter line, and its length.
settled :
    (a b : Bytes)
    → by_length
        (memcmp (a ++ newline) (b ++ newline) (shorter (length a) (length b)))
        (length a)
        (length b)
      ≡ compare_bytes a b
unfolding by_length shorter memcmp compare_bytes
settled [] [] = refl
settled [] (y ∷ b) =
    ap (λ k. by_length (memcmp newline (y ∷ (b ++ newline)) k) 0 (suc (length b)))
      (shorter-zero (length b)).0
    ∙ (by_length-zero (length b)).0
settled (x ∷ a) [] =
    ap (λ k. by_length (memcmp (x ∷ (a ++ newline)) newline k) (suc (length a)) 0)
      (shorter-zero (length a)).1
    ∙ (by_length-zero (length a)).1
settled (x ∷ a) (y ∷ b) =
    ap
      (λ k.
        by_length (memcmp (x ∷ (a ++ newline)) (y ∷ (b ++ newline)) k) (suc (length a))
          (suc (length b)))
      (shorter-suc (length a) (length b))
    ∙ by_length-suc _ (length a) (length b)
    ∙ first_bytes (shorter (length a) (length b)) (settled a b)
  where
    first_bytes :
        (n : ℕ)
        → by_length (memcmp (a ++ newline) (b ++ newline) n) (length a) (length b)
          ≡ compare_bytes a b
        → by_length (memcmp (x ∷ (a ++ newline)) (y ∷ (b ++ newline)) (suc n)) (length a) (length b)
          ≡ compare_bytes (x ∷ a) (y ∷ b)
    first_bytes n h = elim (Bool-cases (ltb x y)) [
      | inl e ↦ rw e refl
      | inr e ↦ elim (Bool-cases (ltb y x)) [ inl f ↦ rw (e, f) refl | inr f ↦ rw (e, f) h ]
    ]

pub plain_order-compare_bytes :
    (a b : Bytes) → plain_order (a ++ newline) (b ++ newline) ≡ compare_bytes a b
unfolding plain_order shorter
plain_order-compare_bytes a b =
    let m : length (a ++ newline) ≡ suc (length a) = omega (arith, length-append a newline) in
    let n : length (b ++ newline) ≡ suc (length b) = omega (arith, length-append b newline) in
    let s = shorter-suc (length a) (length b) in
    let k : suc (shorter (length a) (length b)) - 1 ≡ shorter (length a) (length b) = omega arith in
    rw (m, n)
      (ap
          (λ k.
            by_length (memcmp (a ++ newline) (b ++ newline) (k - 1)) (suc (length a))
              (suc (length b)))
          s
        ∙ ap
            (λ k.
              by_length (memcmp (a ++ newline) (b ++ newline) k) (suc (length a)) (suc (length b)))
            k
        ∙ by_length-suc _ (length a) (length b)
        ∙ settled a b)
