-- ===== src/Peotrix/Printf/Scanning.antt =====
-- The format of `ptrx_vslprintf` is read from its beginning to its end.
use my_coding_exercises.Common.{
  All, ℕ, zero, suc, ◌+◌, ◌-◌, ◌*◌, ◌%◌, ◌≤◌, ◌<◌, ◌≡◌, refl, sym, ap, ◌∙◌, true, false, inl, inr,
  List, ◌∷◌, Bytes, length, get_or, leb, ◌==◌, arith, Bool-cases,
}
use my_coding_exercises.Peotrix.Buffer.{
  value, failed, bad_args, ◌>>=◌, Safe, safe_value, safe_read, safe_args, Safe-next, Safe-weaken,
}
use my_coding_exercises.Peotrix.Printf.{
  Arg, long_size, unsigned, Spec, Scanned, char_at, is_digit, scan_width, scan_fraction, scan_flags,
  two_32,
}
use my_coding_exercises.Peotrix.Printf.Safety.{InRange}

pub char_at-Safe :
    (fmt : Bytes) (i : ℕ) → Safe (λ c. (i ≤ length fmt) × (c ≡ get_or fmt i 0)) (char_at fmt i)
unfolding char_at
char_at-Safe fmt i = elim (Bool-cases (leb i (length fmt))) [
  | inl e ↦ rw e (safe_value (get_or fmt i 0) (ground arith, refl))
  | inr e ↦ rw e safe_read
]

pub scan_width-Safe :
    (fuel : ℕ) (fmt : Bytes) (i width : ℕ)
    → i ≤ length fmt + 1
    → length fmt + 1 < i + fuel
    → Safe (λ r. (i ≤ r.0) × (r.0 ≤ length fmt)) (scan_width fuel fmt i width)
unfolding scan_width
scan_width-Safe zero fmt i width h f = absurd (omega arith)
scan_width-Safe (suc fuel) fmt i width h f = Safe-next (char_at-Safe fmt i) λ c b.
    elim (Bool-cases (is_digit c)) [
      | inr e ↦ rw e (safe_value (i, width) (omega arith, b.0))
      | inl e ↦ rw e (
          Safe-weaken
            (scan_width-Safe fuel fmt (i + 1) ((width * 10 + c + two_32 - b'0') % two_32)
              (omega (arith, b.0)) (omega arith))
            λ r s. (omega (arith, s.0), s.1))
    ]

-- The scan back from `i` stops at `dot` at the latest, where there is no digit.
scan_fraction-Safe :
    (fuel : ℕ) (fmt : Bytes) (dot i frac_width : ℕ)
    → is_digit (get_or fmt dot 0) ≡ false
    → dot ≤ i
    → i < fuel
    → Safe (λ r. (dot ≤ r.0) × (r.0 ≤ length fmt)) (scan_fraction fuel fmt i frac_width)
unfolding scan_fraction
scan_fraction-Safe zero fmt dot i frac_width d h f = absurd (omega arith)
scan_fraction-Safe (suc fuel) fmt dot i frac_width d h f = Safe-next (char_at-Safe fmt i) λ c b.
    elim (Bool-cases (is_digit c)) [
      | inr e ↦ rw e (safe_value (i, frac_width) (h, b.0))
      | inl e ↦ elim (Bool-cases (i == 0)) [
        | inl first ↦ rw (e, first) safe_read
        | inr later ↦
            rw (e, later)
              (scan_fraction-Safe fuel fmt dot (i - 1)
                ((frac_width * 10 + c + two_32 - b'0') % two_32) d (before c b.1 e) (ground arith))
      ]
    ]
  where
    before : (c : ℕ) → c ≡ get_or fmt i 0 → is_digit c ≡ true → dot ≤ i - 1
    before c b e = elim (Bool-cases (dot == i)) [
      | inl same ↦
          let q : dot ≡ i = ground arith in
          let back : is_digit (get_or fmt i 0) ≡ true = ap is_digit (sym b) ∙ e in
          let none_here : is_digit (get_or fmt i 0) ≡ false =
            ap (λ k. is_digit (get_or fmt k 0)) (sym q) ∙ d in
          cc
      | inr other ↦ ground arith
    ]

abbrev pub Reaches : Bytes → ℕ → Scanned → Type 0
Reaches fmt i f = (i ≤ f.index) × (f.index ≤ length fmt) × All InRange f.args

-- `.` and the digits behind it.
point :
    (fmt : Bytes) (i : ℕ) (args : List Arg) (s : Spec)
    → All InRange args
    → (c : ℕ) → c ≡ get_or fmt i 0
    → c ≡ b'.'
    → i ≤ length fmt
    → Safe (Reaches fmt i) (
        scan_fraction (length fmt + 2) fmt (i + 1) s.frac_width >>= λ (j, frac).
        value (record { index = j; args = args; spec = record s { frac_width = frac } }))
point fmt i args s a c here is h =
    let no_digit : is_digit (get_or fmt i 0) ≡ false = ap is_digit {y = b'.'} (sym here ∙ is) in
    Safe-next
      (scan_fraction-Safe (length fmt + 2) fmt i (i + 1) s.frac_width no_digit (omega arith)
        (omega arith))
      λ (j, frac) b.
        safe_value (record { index = j; args = args; spec = record s { frac_width = frac } })
          (b.0, b.1, a)

-- `*`, which takes an argument.
starred :
    (fmt : Bytes) (i : ℕ) (args : List Arg) (s : Spec) (fuel : ℕ)
    → All InRange args
    → ((rest : List Arg) (t : Spec)
        → All InRange rest
        → Safe (Reaches fmt i) (scan_flags fuel fmt (i + 1) rest t))
    → Safe (Reaches fmt i) (elim args [
      | unsigned long_size n ∷ rest ↦ scan_flags fuel fmt (i + 1) rest (record s { slen = n })
      | other ↦ failed bad_args
    ])
starred fmt i (unsigned long_size n ∷ rest) s fuel a further =
    further rest (record s { slen = n }) a.1
starred fmt i args s fuel a further = safe_args

pub scan_flags-Safe :
    (fuel : ℕ) (fmt : Bytes) (i : ℕ) (args : List Arg) (s : Spec)
    → All InRange args
    → i ≤ length fmt + 1
    → length fmt + 1 < i + fuel
    → Safe (Reaches fmt i) (scan_flags fuel fmt i args s)
unfolding scan_flags
scan_flags-Safe zero fmt i args s a h f = absurd (omega arith)
scan_flags-Safe (suc fuel) fmt i args s a h f = Safe-next (char_at-Safe fmt i) λ c b.
    let further = λ (rest : List Arg) (t : Spec) (r : All InRange rest).
      Safe-weaken {Q = Reaches fmt i}
        (scan_flags-Safe fuel fmt (i + 1) rest t r (omega (arith, b.0)) (omega arith))
        (λ g p. (omega (arith, p.0), p.1, p.2)) in
    elim (Bool-cases (c == b'u')) [
      | inl e ↦ rw e (further args (record s { sign = false }) a)
      | inr e₁ ↦ elim (Bool-cases (c == b'm')) [
        | inl e ↦ rw (e₁, e) (further args (record s { max_width = true }) a)
        | inr e₂ ↦ elim (Bool-cases (c == b'X')) [
          | inl e ↦ rw (e₁, e₂, e) (further args (record s { hex = 2; sign = false }) a)
          | inr e₃ ↦ elim (Bool-cases (c == b'x')) [
            | inl e ↦ rw (e₁, e₂, e₃, e) (further args (record s { hex = 1; sign = false }) a)
            | inr e₄ ↦ elim (Bool-cases (c == b'.')) [
              | inl e ↦
                  rw (e₁, e₂, e₃, e₄, e)
                    (point fmt i args s a c b.1 (ground arith) (omega (arith, b.0)))
              | inr e₅ ↦ elim (Bool-cases (c == b'*')) [
                | inl e ↦ rw (e₁, e₂, e₃, e₄, e₅, e) (starred fmt i args s fuel a further)
                | inr e₆ ↦
                    rw (e₁, e₂, e₃, e₄, e₅, e₆)
                      (safe_value (record { index = i; args = args; spec = s })
                        (omega arith, b.0, a))
              ]
            ]
          ]
        ]
      ]
    ]
