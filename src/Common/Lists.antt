-- ===== src/Common/Lists.antt =====
-- Lists measured by native numbers, and buffers: fixed stores of bytes that are written in place.
use Prim.Native.Nat.{ℕ, zero, suc, ◌+◌, ◌-◌, ◌≤◌, ◌<◌, min}
use mathlib.Core.Path.{◌≡◌, refl, ap, ◌∙◌, subst}
use mathlib.Core.List.{List, [], ◌∷◌, ◌++◌}
use mathlib.Core.Option.{Option, none, some}
use native.Mathlib.Omega.{arith}

module _ {ℓ} {A : Type ℓ} where
  abbrev pub length : List A → ℕ
  length [] = 0
  length (x ∷ xs) = suc (length xs)

  abbrev pub get_elem? : List A → ℕ → Option A
  get_elem? [] i = none
  get_elem? (x ∷ xs) zero = some x
  get_elem? (x ∷ xs) (suc i) = get_elem? xs i

  abbrev pub get_or : List A → ℕ → A → A
  get_or [] i d = d
  get_or (x ∷ xs) zero d = x
  get_or (x ∷ xs) (suc i) d = get_or xs i d

  abbrev pub take : ℕ → List A → List A
  take zero xs = []
  take (suc n) [] = []
  take (suc n) (x ∷ xs) = x ∷ take n xs

  abbrev pub drop : ℕ → List A → List A
  drop zero xs = xs
  drop (suc n) [] = []
  drop (suc n) (x ∷ xs) = drop n xs

  abbrev pub replicate : ℕ → A → List A
  replicate zero a = []
  replicate (suc n) a = a ∷ replicate n a

  -- Copies a list over the front of a store; what does not fit is lost.
  abbrev pub overlay : List A → List A → List A
  overlay [] store = store
  overlay (x ∷ xs) [] = []
  overlay (x ∷ xs) (_ ∷ store) = x ∷ overlay xs store

  -- Copies a list into a store from the given offset on.
  abbrev pub write_at : ℕ → List A → List A → List A
  write_at zero xs store = overlay xs store
  write_at (suc n) xs [] = []
  write_at (suc n) xs (y ∷ store) = y ∷ write_at n xs store

module _ {ℓ} {A : Type ℓ} where
  pub length-append : (xs ys : List A) → length (xs ++ ys) ≡ length xs + length ys
  length-append [] ys = omega arith
  length-append (x ∷ xs) ys = omega (arith, length-append xs ys)

  pub take-append-drop : (n : ℕ) (xs : List A) → take n xs ++ drop n xs ≡ xs
  take-append-drop zero xs = refl
  take-append-drop (suc n) [] = refl
  take-append-drop (suc n) (x ∷ xs) = ap (◌∷◌ x) (take-append-drop n xs)

  pub length-take : (n : ℕ) (xs : List A) → length (take n xs) ≡ min n (length xs)
  length-take zero xs = omega arith
  length-take (suc n) [] = omega arith
  length-take (suc n) (x ∷ xs) = omega (arith, length-take n xs)

  pub length-drop : (n : ℕ) (xs : List A) → length (drop n xs) ≡ length xs - n
  length-drop zero xs = omega arith
  length-drop (suc n) [] = omega arith
  length-drop (suc n) (x ∷ xs) = omega (arith, length-drop n xs)

  pub take-all : (n : ℕ) (xs : List A) → length xs ≤ n → take n xs ≡ xs
  take-all zero [] h = refl
  take-all zero (x ∷ xs) h = elim h [ ]
  take-all (suc n) [] h = refl
  take-all (suc n) (x ∷ xs) h = ap (◌∷◌ x) (take-all n xs (omega arith))

  pub length-overlay : (xs store : List A) → length (overlay xs store) ≡ length store
  length-overlay [] store = refl
  length-overlay (x ∷ xs) [] = refl
  length-overlay (x ∷ xs) (y ∷ store) = ap suc (length-overlay xs store)

  pub length-write_at : (n : ℕ) (xs store : List A) → length (write_at n xs store) ≡ length store
  length-write_at zero xs store = length-overlay xs store
  length-write_at (suc n) xs [] = refl
  length-write_at (suc n) xs (y ∷ store) = ap suc (length-write_at n xs store)

  pub take-overlay :
      (xs store : List A) → length xs ≤ length store → take (length xs) (overlay xs store) ≡ xs
  take-overlay [] store h = refl
  take-overlay (x ∷ xs) [] h = elim h [ ]
  take-overlay (x ∷ xs) (y ∷ store) h = ap (◌∷◌ x) (take-overlay xs store (omega arith))

  pub take-write_at :
      (n k : ℕ) (xs store : List A)
      → k ≡ n + length xs
      → k ≤ length store
      → take k (write_at n xs store) ≡ take n store ++ xs
  take-write_at zero k xs store e h =
      ap (λ j. take j (overlay xs store)) {y = length xs} (omega arith)
      ∙ take-overlay xs store (omega arith)
  take-write_at (suc n) zero xs store e h = absurd (omega arith)
  take-write_at (suc n) (suc k) xs [] e h = elim h [ ]
  take-write_at (suc n) (suc k) xs (y ∷ store) e h =
      ap (◌∷◌ y) (take-write_at n k xs store (omega arith) (omega arith))

  pub overlay-append :
      (xs store : List A)
      → length xs ≤ length store
      → overlay xs store ≡ xs ++ drop (length xs) store
  overlay-append [] store h = refl
  overlay-append (x ∷ xs) [] h = elim h [ ]
  overlay-append (x ∷ xs) (y ∷ store) h = ap (◌∷◌ x) (overlay-append xs store (omega arith))

  pub drop-all : (n : ℕ) (xs : List A) → length xs ≤ n → drop n xs ≡ []
  drop-all zero [] h = refl
  drop-all zero (x ∷ xs) h = elim h [ ]
  drop-all (suc n) [] h = refl
  drop-all (suc n) (x ∷ xs) h = drop-all n xs (omega arith)

  pub lt-of-get_elem? : (xs : List A) (i : ℕ) {a : A} → get_elem? xs i ≡ some a → i < length xs
  lt-of-get_elem? [] i h = cc
  lt-of-get_elem? (x ∷ xs) zero h = omega arith
  lt-of-get_elem? (x ∷ xs) (suc i) h = omega (arith, lt-of-get_elem? xs i h)

  pub write_at-nil : (n : ℕ) (xs : List A) → write_at n [] xs ≡ xs
  write_at-nil zero xs = refl
  write_at-nil (suc n) [] = refl
  write_at-nil (suc n) (x ∷ xs) = ap (◌∷◌ x) (write_at-nil n xs)

-- A predicate on every element.
abbrev pub All {ℓ κ} : {A : Type ℓ} → (A → Type κ) → List A → Type κ
All P [] = Unit
All P (x ∷ xs) = P x × All P xs

pub All-append {ℓ κ} :
    {A : Type ℓ} (P : A → Type κ) (xs ys : List A) → All P xs → All P ys → All P (xs ++ ys)
All-append P [] ys h k = k
All-append P (x ∷ xs) ys h k = (h.0, All-append P xs ys h.1 k)

pub All-map {ℓ κ} :
    {A : Type ℓ} (P Q : A → Type κ) (f : (a : A) → P a → Q a) (xs : List A) → All P xs → All Q xs
All-map P Q f [] h = tt
All-map P Q f (x ∷ xs) h = (f x h.0, All-map P Q f xs h.1)

pub All-get {ℓ κ} :
    {A : Type ℓ} (P : A → Type κ) (xs : List A) (i : ℕ) {p : A}
    → All P xs
    → get_elem? xs i ≡ some p
    → P p
All-get P [] i h e = cc
All-get P (x ∷ xs) zero h e = subst P (cc) h.0
All-get P (x ∷ xs) (suc i) h e = All-get P xs i h.1 e
