-- ===== src/Sorting/Array.antt =====
-- A C array of ints as a list, read and written in place. The values are those that `init_array`
-- stores, which are not negative.
use mathlib.Core.List.{Perm}
use mathlib.Core.List.Perm
use my_coding_exercises.Common.{
  ℕ, zero, suc, ◌<◌, ◌≡◌, refl, ap, List, [], ◌∷◌, arith, ltb, ◌==◌, if◌then◌else◌, length, get_or,
}
use my_coding_exercises.Sorting.Run.{Run, ok, fault}

-- the entry of an index inside the array
abbrev pub at : List ℕ → ℕ → ℕ
at a i = get_or a i 0

abbrev pub put : ℕ → ℕ → List ℕ → List ℕ
put i v [] = []
put zero v (_ ∷ rest) = v ∷ rest
put (suc i) v (first ∷ rest) = first ∷ put i v rest

-- `a[i]` as a value
unfoldable pub read : List ℕ → ℕ → Run ℕ
read a i = if ltb i (length a) then ok (at a i) else fault

-- `a[i] = v`
unfoldable pub write : List ℕ → ℕ → ℕ → Run (List ℕ)
write a i v = if ltb i (length a) then ok (put i v a) else fault

unfoldable pub exchanged : List ℕ → ℕ → ℕ → List ℕ
exchanged a i j = put j (at a i) (put i (at a j) a)

pub length-put : (i v : ℕ) (a : List ℕ) → length (put i v a) ≡ length a
length-put i v [] = refl
length-put zero v (_ ∷ rest) = refl
length-put (suc i) v (_ ∷ rest) = ap suc (length-put i v rest)

pub at-put :
    (i v : ℕ) (a : List ℕ) (c : ℕ)
    → i < length a
    → at (put i v a) c ≡ (if i == c then v else at a c)
at-put zero v (_ ∷ rest) zero h = refl
at-put (suc i) v (_ ∷ rest) (suc c) h = ground (arith, at-put i v rest c)
at-put i v (first ∷ rest) c h = ground arith
at-put i v [] c h = absurd (omega arith)

-- Arrays of one length with the same entries are equal.
pub array_ext :
    (a b : List ℕ) → length a ≡ length b → ((c : ℕ) → c < length a → at a c ≡ at b c) → a ≡ b
array_ext [] [] e h = refl
array_ext [] (y ∷ b) e h = absurd (omega arith)
array_ext (x ∷ a) [] e h = absurd (omega arith)
array_ext (x ∷ a) (y ∷ b) e h =
    let tails = array_ext a b (omega arith) (λ c lt. h (suc c) (omega arith)) in
    let heads = h 0 (omega arith) in cc

-- The entry that a write displaces, put in front, makes up for the one that it stores.
put-perm : (i v : ℕ) (a : List ℕ) → i < length a → Perm (at a i ∷ put i v a) (v ∷ a)
put-perm i v [] h = absurd (omega arith)
put-perm zero v (first ∷ rest) h = Perm.swap v first rest
put-perm (suc i) v (first ∷ rest) h =
    let inner = put-perm i v rest (omega arith) in
    let under = Perm.trans (Perm.cons first inner) (Perm.swap v first rest) in
    Perm.trans (Perm.swap first (at rest i) (put i v rest)) under

pub read-eq : (a : List ℕ) (i : ℕ) → i < length a → read a i ≡ ok (at a i)
unfolding read
read-eq a i h = ground arith

pub write-eq : (a : List ℕ) (i v : ℕ) → i < length a → write a i v ≡ ok (put i v a)
unfolding write
write-eq a i v h = ground arith

pub length-exchanged : (a : List ℕ) (i j : ℕ) → length (exchanged a i j) ≡ length a
unfolding exchanged
length-exchanged a i j =
    omega (arith, length-put j (at a i) (put i (at a j) a), length-put i (at a j) a)

pub at-exchanged :
    (a : List ℕ) (i j : ℕ)
    → i < length a
    → j < length a
    → (c : ℕ)
    → at (exchanged a i j) c ≡ (if j == c then at a i else if i == c then at a j else at a c)
unfolding exchanged
at-exchanged a i j hi hj c =
    ground (
      arith,
      length-put i (at a j) a,
      at-put j (at a i) (put i (at a j) a) c,
      at-put i (at a j) a c,
    )

pub exchanged-perm : (a : List ℕ) (i j : ℕ) → i < length a → j < length a → Perm (exchanged a i j) a
unfolding exchanged
exchanged-perm a i j hi hj =
    Perm.cons_inv
      (Perm.trans (rw found at (put-perm j (at a i) half fits)) (put-perm i (at a j) a hi))
  where
    half : List ℕ
    half = put i (at a j) a

    fits : j < length half
    fits = omega (arith, length-put i (at a j) a)

    found : at half j ≡ at a j
    found = ground (arith, at-put i (at a j) a j hi)
