-- ===== src/Peotrix/Number/Cut.antt =====
-- Texts that are written to a buffer as far as they fit.
use my_coding_exercises.Common.{
  ℕ, zero, suc, ◌-◌, ◌<◌, ◌≡◌, refl, sym, ap, ◌∙◌, true, inl, inr, [], ◌∷◌, ◌++◌, append-nil,
  append_assoc, Bytes, length, length-append, length-take, take, take-all, replicate, ltb, leb,
  if◌then◌else◌, arith, Bool-cases,
}
use my_coding_exercises.Peotrix.Buffer.{value, ◌>>=◌, Buf, put, cpymem}
use my_coding_exercises.Peotrix.Number.{pad}

-- The buffer with a text behind it, as far as it fits.
unfoldable pub cut_off : Buf → Bytes → Buf
cut_off out text = record {
  written = out.written ++ take out.room text;
  room = out.room - length text;
}

take-nil : (k : ℕ) → take {A = ℕ} k [] ≡ []
take-nil zero = refl
take-nil (suc k) = refl

take-append : (k : ℕ) (a b : Bytes) → take k a ++ take (k - length a) b ≡ take k (a ++ b)
take-append zero a b = let none_left : 0 - length a ≡ 0 = omega arith in rw none_left refl
take-append (suc k) [] b = ap (λ m. take m b) {x = suc k - 0} {y = suc k} (omega arith)
take-append (suc k) (x ∷ a) b = ap (◌∷◌ x) (
    ap (λ m. take k a ++ take m b) {x = suc k - suc (length a)} {y = k - length a} (omega arith)
    ∙ take-append k a b)

pub cut_off-append : (out : Buf) (a b : Bytes) → cut_off (cut_off out a) b ≡ cut_off out (a ++ b)
unfolding cut_off
cut_off-append out a b =
    let texts : (out.written ++ take out.room a) ++ take (out.room - length a) b
        ≡ out.written ++ take out.room (a ++ b) =
      append_assoc out.written (take out.room a) (take (out.room - length a) b)
      ∙ ap (λ t. out.written ++ t) (take-append out.room a b) in
    let rooms : out.room - length a - length b ≡ out.room - length (a ++ b) =
      omega (arith, length-append a b) in
    cc

pub cut_off-nil : (out : Buf) → cut_off out [] ≡ out
unfolding cut_off
cut_off-nil out =
    let texts : out.written ++ take out.room [] ≡ out.written =
      ap (λ t. out.written ++ t) (take-nil out.room) ∙ append-nil out.written in
    let rooms : out.room - 0 ≡ out.room = omega arith in cc

-- Nothing goes into a full buffer.
pub cut_off-full : (out : Buf) (text : Bytes) → out.room ≡ 0 → cut_off out text ≡ out
unfolding cut_off
cut_off-full out text full =
    let texts : out.written ++ take out.room text ≡ out.written =
      ap (λ k. out.written ++ take k text) full ∙ append-nil out.written in
    let rooms : out.room - length text ≡ out.room = omega arith in cc

pub put-cut_off : (c : ℕ) (out : Buf) → 0 < out.room → put c out ≡ value (cut_off out (c ∷ []))
unfolding put cut_off
put-cut_off c out h =
    let some_room : out.room ≡ suc (out.room - 1) = omega arith in
    let one : take out.room (c ∷ []) ≡ c ∷ [] =
      ap (λ k. take k (c ∷ [])) some_room ∙ ap (◌∷◌ c) (take-nil (out.room - 1)) in
    let tested : ltb 0 out.room ≡ true = ground arith in rw (tested, one) refl

pub pad-cut_off :
    (zero_char k : ℕ) (out : Buf)
    → pad zero_char k out ≡ value (cut_off out (replicate k zero_char))
unfolding pad ◌>>=◌
pad-cut_off zero_char zero out = ap value (sym (cut_off-nil out))
pad-cut_off zero_char (suc k) out = elim (Bool-cases (ltb 0 out.room)) [
  | inr e ↦ rw e (ap value (sym (cut_off-full out (replicate (suc k) zero_char) (ground arith))))
  | inl e ↦
      rw (e, put-cut_off zero_char out (ground arith))
        (pad-cut_off zero_char k (cut_off out (zero_char ∷ []))
          ∙ ap value (cut_off-append out (zero_char ∷ []) (replicate k zero_char)))
]

-- `min(last - buf, n)` bytes of a text of `n` bytes.
pub cpymem-cut_off :
    (p : Bytes) (out : Buf)
    → cpymem (take (if ltb out.room (length p) then out.room else length p) p) out
      ≡ value (cut_off out p)
unfolding cpymem cut_off
cpymem-cut_off p out = elim (Bool-cases (ltb out.room (length p))) [
  | inl e ↦
      let fits : leb (length (take out.room p)) out.room ≡ true =
        ground (arith, length-take out.room p) in
      let rooms : out.room - length (take out.room p) ≡ out.room - length p =
        ground (arith, length-take out.room p) in
      rw (e, fits, rooms) refl
  | inr e ↦
      let all : take (length p) p ≡ p = take-all (length p) p (omega arith) in
      let all_room : take out.room p ≡ p = take-all out.room p (ground arith) in
      let fits : leb (length p) out.room ≡ true = ground arith in rw (e, all, all_room, fits) refl
]
