-- ===== src/Peotrix/Printf/Reading.antt =====
-- Peotrix_nginx/src/core/ptrx_string.c: how `ptrx_vslprintf` reads a place of its format, `fmt`.
use my_coding_exercises.Common.{
  ℕ, ◌+◌, ◌≤◌, ◌≡◌, refl, sym, ap, ◌∙◌, true, [], ◌∷◌, ◌++◌, append_assoc, Bytes, length,
  length-append, get_or, leb, arith,
}
use my_coding_exercises.Peotrix.Buffer.{value}
use my_coding_exercises.Peotrix.Printf.{char_at}

pub char_at-value :
    (fmt : Bytes) (i c : ℕ) → get_or fmt i 0 ≡ c → i ≤ length fmt → char_at fmt i ≡ value c
unfolding char_at
char_at-value fmt i c here h =
    let within : leb i (length fmt) ≡ true = ground arith in rw (within, here) refl

-- The format from a place on.
pub record At (fmt : Bytes) (i : ℕ) (rest : Bytes) : Type 0 where
  before : Bytes
  whole : fmt ≡ before ++ rest
  place : length before ≡ i

pub At-start : (fmt : Bytes) → At fmt 0 fmt
At-start fmt = record { before = []; whole = refl; place = refl }

pub At-append :
    {fmt : Bytes} {i : ℕ} (a rest : Bytes) → At fmt i (a ++ rest) → At fmt (i + length a) rest
At-append a rest h = record {
  before = h.before ++ a;
  whole = h.whole ∙ sym (append_assoc h.before a rest);
  place = omega (arith, h.place, length-append h.before a);
}

pub At-next :
    {fmt : Bytes} {i : ℕ} (c : ℕ) (rest : Bytes) → At fmt i (c ∷ rest) → At fmt (i + 1) rest
At-next c rest h = At-append (c ∷ []) rest h

get_or-here : (before rest : Bytes) → get_or (before ++ rest) (length before) 0 ≡ get_or rest 0 0
get_or-here [] rest = refl
get_or-here (x ∷ before) rest = get_or-here before rest

At-get_or : {fmt : Bytes} {i : ℕ} (rest : Bytes) → At fmt i rest → get_or fmt i 0 ≡ get_or rest 0 0
At-get_or {i} rest h =
    ap (λ k. get_or k i 0) h.whole
    ∙ ap (λ k. get_or (h.before ++ rest) k 0) (sym h.place)
    ∙ get_or-here h.before rest

pub At-within : {fmt : Bytes} {i : ℕ} (rest : Bytes) → At fmt i rest → i + length rest ≡ length fmt
At-within rest h = omega (arith, h.place, length-append h.before rest, ap length h.whole)

pub At-char :
    {fmt : Bytes} {i : ℕ} (c : ℕ) (rest : Bytes) → At fmt i (c ∷ rest) → char_at fmt i ≡ value c
At-char {fmt} {i} c rest h =
    char_at-value fmt i c (At-get_or (c ∷ rest) h) (omega (arith, At-within (c ∷ rest) h))

pub At-end : {fmt : Bytes} {i : ℕ} → At fmt i [] → char_at fmt i ≡ value 0
At-end {fmt} {i} h = char_at-value fmt i 0 (At-get_or [] h) (omega (arith, At-within [] h))

pub At-some :
    {fmt : Bytes} {i : ℕ} (rest : Bytes) → At fmt i rest → (c : ℕ) × (char_at fmt i ≡ value c)
At-some [] h = (0, At-end h)
At-some (c ∷ rest) h = (c, At-char c rest h)
