-- ===== src/Peotrix/Number/Loops.antt =====
-- Peotrix_nginx/src/core/ptrx_string.c: the loops of `ptrx_sprintf_num` that fill `temp`.
use my_coding_exercises.Common.{
  sym, ◌⊎◌, [], false, ℕ, zero, suc, ◌+◌, ◌/◌, ◌%◌, ◌≤◌, ◌<◌, ◌≡◌, refl, ap, ◌∙◌, Bool, ◌&&◌, true,
  inl, inr, ◌∷◌, Bytes, get_or, ◌==◌, arith, Bool-cases,
}
use my_coding_exercises.Peotrix.Buffer.{value}
use my_coding_exercises.Peotrix.Number.{decimal, lower_hex, upper_hex, hexadecimal_loop}
use my_coding_exercises.Peotrix.Number.Numerals.{
  power, read_decimal, hex_value, read_hex, is_digit_of, AllDigits, IsShortest,
}

-- The first digit of `r` is no zero, or the number in front of `p` is 0 and has one digit.
abbrev pub Leads : ℕ → Bytes → Bytes → Type 0
Leads n p [] = ⊥
Leads n p (c ∷ r) = ((c == b'0') ≡ false) ⊎ ((n ≡ 0) × (r ≡ p))

Leads-next : (m n : ℕ) (p q r : Bytes) → ((m == 0) ≡ false) → Leads m q r → Leads n p r
Leads-next m n p q [] h l = l
Leads-next m n p q (c ∷ r) h (inl other) = inl other
Leads-next m n p q (c ∷ r) h (inr (none_left, same)) = absurd (ground arith)

pub Leads-IsShortest : (n : ℕ) (r : Bytes) → Leads n [] r → IsShortest r
Leads-IsShortest n [] l = l
Leads-IsShortest n (c ∷ []) l = tt
Leads-IsShortest n (c ∷ d ∷ r) (inl other) = other
Leads-IsShortest n (c ∷ d ∷ r) (inr (is_zero, same)) = absurd cc

decimal-Leads : (n : ℕ) (p : Bytes) → n / 10 ≡ 0 → Leads n p ((n % 10 + b'0') ∷ p)
decimal-Leads n p h = elim (Bool-cases (n == 0)) [
  | inl e ↦ inr (ground arith, refl)
  | inr e ↦ inl (ground arith)
]

-- The loops end within `temp`, and the digits read back as the number.
pub decimal-read :
    (left n : ℕ) (p : Bytes)
    → n < power 10 (suc left)
    → AllDigits 0 p
    → (r : Bytes) × (decimal (suc left) n p ≡ value r)
      × (read_decimal 0 r ≡ read_decimal n p)
      × AllDigits 0 r
      × Leads n p r
unfolding read_decimal decimal
decimal-read zero n p h a =
    let e : (n / 10 == 0) ≡ true = ground arith in
    (
      (n % 10 + b'0') ∷ p,
      rw (e, decimal) refl,
      ap (λ k. read_decimal k p) (ground arith),
      (ground arith, a),
      decimal-Leads n p (ground arith),
    )
decimal-read (suc left) n p h a = elim (Bool-cases (n / 10 == 0)) [
  | inl e ↦ (
    (n % 10 + b'0') ∷ p,
    rw (e, decimal) refl,
    ap (λ k. read_decimal k p) (ground arith),
    (ground arith, a),
    decimal-Leads n p (ground arith),
  )
  | inr e ↦
      let (r, eq, reads, all, leads) =
        decimal-read left (n / 10) ((n % 10 + b'0') ∷ p) (omega arith) (ground arith, a) in
      (
        r,
        rw (e, decimal) eq,
        reads ∙ ap (λ m. read_decimal m p) (omega arith),
        all,
        Leads-next (n / 10) n p ((n % 10 + b'0') ∷ p) r e leads,
      )
]

-- A table of digits: the sixteen digits read back as their places.
abbrev pub IsTable : ℕ → Bytes → Type 0
IsTable hexadecimal table =
    (d : ℕ)
    → d < 16
    → (hex_value (get_or table d 0) ≡ d) × (is_digit_of hexadecimal (get_or table d 0) ≡ true)

hexadecimal-Leads :
    (hexadecimal : ℕ) (table : Bytes) (n : ℕ) (p : Bytes)
    → IsTable hexadecimal table
    → n / 16 ≡ 0
    → Leads n p (get_or table (n % 16) 0 ∷ p)
hexadecimal-Leads hexadecimal table n p t h = elim (Bool-cases (get_or table (n % 16) 0 == b'0')) [
  | inl e ↦
      let is_zero : get_or table (n % 16) 0 ≡ b'0' = ground arith in
      let back : 0 ≡ n % 16 = ap hex_value (sym is_zero) ∙ (t (n % 16) (omega arith)).0 in
      inr (omega arith, refl)
  | inr e ↦ inl e
]

pub hexadecimal_loop-read :
    (hexadecimal : ℕ) (table : Bytes) (left n : ℕ) (p : Bytes)
    → IsTable hexadecimal table
    → n < power 16 (suc left)
    → AllDigits hexadecimal p
    → (r : Bytes) × (hexadecimal_loop table (suc left) n p ≡ value r)
      × (read_hex 0 r ≡ read_hex n p)
      × AllDigits hexadecimal r
      × Leads n p r
unfolding read_hex hexadecimal_loop
hexadecimal_loop-read hexadecimal table zero n p t h a =
    let e : (n / 16 == 0) ≡ true = ground arith in
    (
      get_or table (n % 16) 0 ∷ p,
      rw (e, hexadecimal_loop) refl,
      ap (λ k. read_hex k p) (omega (arith, (t (n % 16) (omega arith)).0)),
      ((t (n % 16) (omega arith)).1, a),
      hexadecimal-Leads hexadecimal table n p t (ground arith),
    )
hexadecimal_loop-read hexadecimal table (suc left) n p t h a = elim (Bool-cases (n / 16 == 0)) [
  | inl e ↦
      let none_left : n / 16 ≡ 0 = ground arith in
      (
        get_or table (n % 16) 0 ∷ p,
        rw (e, hexadecimal_loop) refl,
        ap (λ k. read_hex k p) (omega (arith, none_left, (t (n % 16) (omega arith)).0)),
        ((t (n % 16) (omega arith)).1, a),
        hexadecimal-Leads hexadecimal table n p t none_left,
      )
  | inr e ↦
      let (r, eq, reads, all, leads) =
        hexadecimal_loop-read hexadecimal table left (n / 16) (get_or table (n % 16) 0 ∷ p) t
          (omega arith) ((t (n % 16) (omega arith)).1, a) in
      (
        r,
        rw (e, hexadecimal_loop) eq,
        reads ∙ ap (λ k. read_hex k p) (omega (arith, (t (n % 16) (omega arith)).0)),
        all,
        Leads-next (n / 16) n p (get_or table (n % 16) 0 ∷ p) r e leads,
      )
]

abbrev places : ℕ → Bytes → ℕ → Bool
places hexadecimal table zero = true
places hexadecimal table (suc k) =
    ((hex_value (get_or table k 0) == k) && is_digit_of hexadecimal (get_or table k 0))
    && places hexadecimal table k

both_true : (p q : Bool) → (p && q) ≡ true → (p ≡ true) × (q ≡ true)
both_true true true e = (refl, refl)
both_true true false e = absurd cc
both_true false q e = absurd cc

places-IsTable :
    (hexadecimal : ℕ) (table : Bytes) (k d : ℕ)
    → places hexadecimal table k ≡ true
    → d < k
    → (hex_value (get_or table d 0) ≡ d) × (is_digit_of hexadecimal (get_or table d 0) ≡ true)
places-IsTable hexadecimal table zero d e h = absurd (omega arith)
places-IsTable hexadecimal table (suc k) d e h =
    let (here, before) =
      both_true ((hex_value (get_or table k 0) == k) && is_digit_of hexadecimal (get_or table k 0))
        (places hexadecimal table k) e in
    let (place, digit) =
      both_true (hex_value (get_or table k 0) == k) (is_digit_of hexadecimal (get_or table k 0))
        here in
    elim (Bool-cases (d == k)) [
      | inl is_last ↦ let q : d ≡ k = ground arith in rw q (ground (arith, place), digit)
      | inr earlier ↦ places-IsTable hexadecimal table k d before (ground arith)
    ]

pub tables : IsTable 1 lower_hex × IsTable 2 upper_hex
tables = (λ d. places-IsTable 1 lower_hex 16 d refl, λ d. places-IsTable 2 upper_hex 16 d refl)

pub power_mono : (k : ℕ) → power 10 k ≤ power 16 k
power_mono zero = omega arith
power_mono (suc k) = omega (arith, power_mono k)
