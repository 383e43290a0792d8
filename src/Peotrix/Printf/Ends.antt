-- ===== src/Peotrix/Printf/Ends.antt =====
-- The loop of `ptrx_vslprintf`: it ends, and stays within its buffer, whatever the format.
use my_coding_exercises.Common.{
  All, ℕ, zero, suc, ◌+◌, ◌≤◌, ◌<◌, not, ◌&&◌, inl, inr, List, Bytes, length, ltb, ◌==◌, arith,
  Bool-cases,
}
use my_coding_exercises.Peotrix.Buffer.{
  Buf, Safe, safe_value, Safe-next, Safe-weaken, Grows, Grows-refl, Grows-trans, put-Safe,
}
use my_coding_exercises.Peotrix.Number.{two_64}
use my_coding_exercises.Peotrix.Number.Numerals.{power}
use my_coding_exercises.Peotrix.Printf.{Arg, State, kind_of, conversion, ptrx_vslprintf}
use my_coding_exercises.Peotrix.Printf.Safety.{InRange, convert-Safe}
use my_coding_exercises.Peotrix.Printf.Scanning.{char_at-Safe, scan_width-Safe, scan_flags-Safe}

-- A conversion moves on in the format, and leaves the buffer and the arguments fit to go on with.
record Moves (fmt : Bytes) (i : ℕ) (out : Buf) (s : State) : Type 0 where
  further : i < s.index
  within : s.index ≤ length fmt + 1
  args_left : All InRange s.args
  grows : Grows out s.out

module _ (int64_len int_t_len ptr_size : ℕ) (fits : two_64 ≤ power 10 int64_len) where
  conversion-Moves :
      (fmt : Bytes) (i : ℕ) (args : List Arg) (out : Buf)
      → All InRange args
      → i ≤ length fmt
      → 0 < out.room
      → Safe (Moves fmt i out) (conversion int64_len int_t_len ptr_size fmt i args out)
  unfolding conversion
  conversion-Moves fmt i args out a h room = Safe-next (char_at-Safe fmt (i + 1)) λ z b.
      Safe-next (scan_width-Safe (length fmt + 2) fmt (i + 1) 0 (omega arith) (omega arith)) λ r w.
        Safe-next
          (scan_flags-Safe (length fmt + 2) fmt r.0 args _ a (omega (arith, w.1))
            (omega (arith, w.1)))
          λ f g. Safe-next (char_at-Safe fmt f.index) λ c b'.
            Safe-next
              (convert-Safe int64_len int_t_len ptr_size fits (kind_of c) c f.spec f.args out g.2
                room)
              λ p l.
                safe_value (record { index = f.index + 1; args = p.0; out = p.1 })
                  (record {
                    further = omega (arith, w.0, g.0);
                    within = omega (arith, g.1);
                    args_left = l.0;
                    grows = l.1;
                  })

  loop-Safe :
      (fuel : ℕ) (fmt : Bytes) (i : ℕ) (args : List Arg) (out : Buf)
      → All InRange args
      → i ≤ length fmt + 1
      → length fmt + 1 < i + fuel
      → Safe (Grows out) (ptrx_vslprintf int64_len int_t_len ptr_size fuel fmt i args out)
  unfolding ptrx_vslprintf
  loop-Safe zero fmt i args out a h f = absurd (omega arith)
  loop-Safe (suc fuel) fmt i args out a h f = Safe-next (char_at-Safe fmt i) λ c b.
      elim (Bool-cases (not (c == 0) && ltb 0 out.room)) [
        | inr e ↦ rw e (safe_value out (Grows-refl out))
        | inl e ↦ elim (Bool-cases (c == b'%')) [
          | inl p ↦
              rw (e, p)
                (Safe-next (conversion-Moves fmt i args out a b.0 (ground arith)) λ s m.
                  Safe-weaken
                    (loop-Safe fuel fmt s.index s.args s.out m.args_left m.within
                      (omega (arith, m.further)))
                    λ o g. Grows-trans m.grows g)
          | inr p ↦
              rw (e, p)
                (Safe-next (put-Safe c out (ground arith)) λ o g.
                  Safe-weaken
                    (loop-Safe fuel fmt (i + 1) args o a (omega (arith, b.0)) (omega arith))
                    λ o' g'. Grows-trans g g')
        ]
      ]

  -- If `temp` is long enough for the decimal digits of 64 bits, then for every format, every list of
  -- arguments whose numbers have at most 64 bits, and every buffer, `ptrx_vslprintf` ends, with as
  -- many rounds as the format has bytes and two more, and never writes outside the buffer or `temp`:
  -- it meets a missing or mismatched argument, it reads behind the end of a text, or it returns
  -- the buffer with some bytes more, which have fitted.
  pub ptrx_vslprintf-Safe :
      (fmt : Bytes) (args : List Arg) (out : Buf)
      → All InRange args
      → Safe
          (Grows out)
          (ptrx_vslprintf int64_len int_t_len ptr_size (length fmt + 2) fmt 0 args out)
  ptrx_vslprintf-Safe fmt args out a =
      loop-Safe (length fmt + 2) fmt 0 args out a (omega arith) (omega arith)
