-- ===== src/Peotrix/Buffer.antt =====
-- Peotrix_nginx/src/core/ptrx_string.c: bounded buffers, and how a routine on them ends.
use my_coding_exercises.Common.{
  ℕ, ◌+◌, ◌-◌, ◌≤◌, ◌<◌, ◌≡◌, refl, ap, ◌∙◌, true, [], ◌∷◌, ◌++◌, append_assoc, append-nil, Bytes,
  length, length-append, ltb, leb, if◌then◌else◌, arith,
}

-- Faults that are undefined in C (a write outside a buffer, a read behind the end of a text, an
-- argument that is missing or of another type), and `stuck` for a loop that ran out of fuel.
pub data Fault : Type 0 where
  overrun bad_read bad_args stuck : Fault

pub data Outcome {ℓ} (A : Type ℓ) : Type ℓ where
  failed : Fault → Outcome A
  value : A → Outcome A

infixl 8 ◌>>=◌
unfoldable pub ◌>>=◌ {μ ν} : {A : Type μ} {B : Type ν} → Outcome A → (A → Outcome B) → Outcome B
failed fault >>= next = failed fault
value a >>= next = next a

-- `buf` and `last`: the bytes written so far, and how many more fit, `last - buf`.
pub record Buf : Type 0 where
  pub written : Bytes
  pub room : ℕ

-- `*buf++ = c`
unfoldable pub put : ℕ → Buf → Outcome Buf
put c out =
    if ltb 0 out.room
    then value (record { written = out.written ++ c ∷ []; room = out.room - 1 })
    else failed overrun

-- `buf = ptrx_cpymem(buf, p, len)`
unfoldable pub cpymem : Bytes → Buf → Outcome Buf
cpymem bytes out =
    if leb (length bytes) out.room
    then value (record { written = out.written ++ bytes; room = out.room - length bytes })
    else failed overrun

pub next-value {μ ν} :
    {A : Type μ} {B : Type ν} {first : Outcome A} {a : A} (next : A → Outcome B)
    → first ≡ value a
    → (first >>= next) ≡ next a
unfolding ◌>>=◌
next-value next e = ap (λ o. o >>= next) e

-- Neither an overrun nor a loop that does not end; a value satisfies `P`.
pub data Safe {ℓ κ} {A : Type ℓ} (P : A → Type κ) : Outcome A → Type (ℓ ⊔ κ) where
  safe_value : (a : A) → P a → Safe P (value a)
  safe_read : Safe P (failed bad_read)
  safe_args : Safe P (failed bad_args)

pub Safe-next {ℓ κ μ ν} :
    {A : Type ℓ} {P : A → Type κ} {B : Type μ} {Q : B → Type ν} {first : Outcome A}
    {next : A → Outcome B}
    → Safe P first
    → ((a : A) → P a → Safe Q (next a))
    → Safe Q (first >>= next)
unfolding ◌>>=◌
Safe-next (safe_value a h) k = k a h
Safe-next safe_read k = safe_read
Safe-next safe_args k = safe_args

pub Safe-weaken {ℓ κ ν} :
    {A : Type ℓ} {P : A → Type κ} {Q : A → Type ν} {outcome : Outcome A}
    → Safe P outcome
    → ((a : A) → P a → Q a)
    → Safe Q outcome
Safe-weaken (safe_value a h) k = safe_value a (k a h)
Safe-weaken safe_read k = safe_read
Safe-weaken safe_args k = safe_args

-- The second buffer is the first one with some bytes more, which have fitted.
pub record Grows (out out' : Buf) : Type 0 where
  pub tail : Bytes
  pub appended : out'.written ≡ out.written ++ tail
  pub fitted : length tail + out'.room ≡ out.room

pub Grows-refl : (out : Buf) → Grows out out
Grows-refl out = record { tail = []; appended = cc (append-nil out.written); fitted = omega arith }

pub Grows-trans : {a b c : Buf} → Grows a b → Grows b c → Grows a c
Grows-trans {a} p q = record {
  tail = p.tail ++ q.tail;
  appended = q.appended ∙ ap (λ t. t ++ q.tail) p.appended ∙ append_assoc a.written p.tail q.tail;
  fitted = omega (arith, p.fitted, q.fitted, length-append p.tail q.tail);
}

pub put-Safe : (c : ℕ) (out : Buf) → 0 < out.room → Safe (Grows out) (put c out)
unfolding put
put-Safe c out h =
    let some_room : ltb 0 out.room ≡ true = ground arith in
    rw some_room (safe_value _ (record { tail = c ∷ []; appended = refl; fitted = omega arith }))

pub cpymem-Safe :
    (bytes : Bytes) (out : Buf) → length bytes ≤ out.room → Safe (Grows out) (cpymem bytes out)
unfolding cpymem
cpymem-Safe bytes out h =
    let fits : leb (length bytes) out.room ≡ true = ground arith in
    rw fits (safe_value _ (record { tail = bytes; appended = refl; fitted = omega arith }))
