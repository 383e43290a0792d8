-- ===== src/Peotrix/Printf/Rounds.antt =====
-- Peotrix_nginx/src/core/ptrx_string.c: the rounds of the loop of `ptrx_vslprintf`.
use my_coding_exercises.Common.{
  ℕ, suc, ◌+◌, ◌<◌, ◌≡◌, refl, ap, ◌∙◌, true, false, not, ◌&&◌, List, [], ◌∷◌, Bytes, ltb, ◌==◌,
  arith,
}
use my_coding_exercises.Peotrix.Buffer.{value, next-value, Buf}
use my_coding_exercises.Peotrix.Number.Cut.{cut_off, put-cut_off}
use my_coding_exercises.Peotrix.Printf.{Arg, char_at, conversion, ptrx_vslprintf}
use my_coding_exercises.Peotrix.Printf.Directives.{plain, IsProper}

module _ (int64_len int_t_len ptr_size : ℕ) where
  -- One round of the loop, or its end.
  pub loop-conversion :
      (fuel : ℕ) (fmt : Bytes) (i j k : ℕ) (args args' : List Arg) (out out' : Buf)
      → char_at fmt i ≡ value b'%'
      → 0 < out.room
      → j ≡ k
      → conversion int64_len int_t_len ptr_size fmt i args out
        ≡ value (record { index = j; args = args'; out = out' })
      → ptrx_vslprintf int64_len int_t_len ptr_size (suc fuel) fmt i args out
        ≡ ptrx_vslprintf int64_len int_t_len ptr_size fuel fmt k args' out'
  unfolding ptrx_vslprintf
  loop-conversion fuel fmt i j k args args' out out' here room same converted =
      let some_room : ltb 0 out.room ≡ true = ground arith in
      next-value _ here
      ∙ rw some_room (
          next-value _ converted
          ∙ ap (λ m. ptrx_vslprintf int64_len int_t_len ptr_size fuel fmt m args' out') same)

  pub loop-plain :
      (fuel : ℕ) (fmt : Bytes) (i c : ℕ) (args : List Arg) (out : Buf)
      → char_at fmt i ≡ value c
      → IsProper (plain c)
      → 0 < out.room
      → ptrx_vslprintf int64_len int_t_len ptr_size (suc fuel) fmt i args out
        ≡ ptrx_vslprintf int64_len int_t_len ptr_size fuel fmt (i + 1) args (cut_off out (c ∷ []))
  unfolding ptrx_vslprintf
  loop-plain fuel fmt i c args out here h room =
      let some_room : ltb 0 out.room ≡ true = ground arith in
      next-value _ here ∙ rw (h.0, some_room, h.1) (next-value _ (put-cut_off c out room))

  pub loop-full :
      (fuel : ℕ) (fmt : Bytes) (i c : ℕ) (args : List Arg) (out : Buf)
      → char_at fmt i ≡ value c
      → out.room ≡ 0
      → ptrx_vslprintf int64_len int_t_len ptr_size (suc fuel) fmt i args out ≡ value out
  unfolding ptrx_vslprintf
  loop-full fuel fmt i c args out here full =
      let stops : (not (c == 0) && ltb 0 out.room) ≡ false = ground arith in
      next-value _ here ∙ rw stops refl

  pub loop-end :
      (fuel : ℕ) (fmt : Bytes) (i : ℕ) (args : List Arg) (out : Buf)
      → char_at fmt i ≡ value 0
      → ptrx_vslprintf int64_len int_t_len ptr_size (suc fuel) fmt i args out ≡ value out
  unfolding ptrx_vslprintf
  loop-end fuel fmt i args out here = next-value _ here
