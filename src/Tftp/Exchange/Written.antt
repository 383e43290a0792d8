-- ===== src/Tftp/Exchange/Written.antt =====
-- What a receiver has written, when what it has taken begins the network form of a file.
use mathlib.Core.Path.{subst}
use my_coding_exercises.Common.{
  ℕ, suc, ◌-◌, ◌≤◌, ◌≡◌, sym, ap, ◌∙◌, inl, inr, Bool, true, false, List, [], ◌∷◌, ◌++◌, append-nil,
  append_assoc, Bytes, length, take, take-all, arith, Bool-cases, ◌==◌,
}
use my_coding_exercises.Tftp.Exchange.Receiver.{Receiving, Wrote}
use my_coding_exercises.Tftp.Exchange.Blocks.{joined}
use my_coding_exercises.Tftp.Netascii.{network_form}
use my_coding_exercises.Tftp.Run.{ok}
use my_coding_exercises.Tftp.Server.File.Convert.{write_ascii-append, write_ascii-encode}
use my_coding_exercises.Tftp.Server.File.{write_ascii, after_cr}
use my_coding_exercises.Tftp.Session.{Session, LocalFile}
use my_coding_exercises.Tftp.Wire.{mode_binary}

write_ascii-extends :
    (lastcr : Bool) (out xs : Bytes) {l : Bool} {out' : Bytes}
    → write_ascii false lastcr out xs ≡ ok (l, out')
    → (tail : Bytes) × (out' ≡ out ++ tail)
unfolding write_ascii after_cr
write_ascii-extends lastcr out [] e = ([], cc (append-nil out))
write_ascii-extends true out (c ∷ xs) {l} {out'} e = elim (Bool-cases (c == b'\n')) [
  | inl newline ↦
      let (tail, t) =
        write_ascii-extends false (out ++ b'\n' ∷ []) xs {l = l} {out' = out'} (ground arith) in
      (b'\n' ∷ tail, t ∙ append_assoc out (b'\n' ∷ []) tail)
  | inr other ↦
      let (tail, t) =
        write_ascii-extends false (out ++ b'\r' ∷ []) xs {l = l} {out' = out'} (ground arith) in
      (b'\r' ∷ tail, t ∙ append_assoc out (b'\r' ∷ []) tail)
]
write_ascii-extends false out (c ∷ xs) {l} {out'} e = elim (Bool-cases (c == b'\r')) [
  | inl return ↦ write_ascii-extends true out xs {l = l} {out' = out'} (ground arith)
  | inr other ↦
      let (tail, t) =
        write_ascii-extends false (out ++ c ∷ []) xs {l = l} {out' = out'} (ground arith) in
      (c ∷ tail, t ∙ append_assoc out (c ∷ []) tail)
]

-- What a receiver of a beginning of the network form has written is a beginning of the file.
pub Wrote-begins :
    (mode : ℕ) (got rest file : Bytes) (f : LocalFile)
    → got ++ rest ≡ network_form mode file
    → Wrote mode got f
    → mode ≤ mode_binary
    → (tail : Bytes) × (f.stream.written ++ tail ≡ file)
Wrote-begins mode got rest file f e (_, w) m = elim (Bool-cases (mode == mode_binary)) [
  | inl b ↦ (rest, ground arith)
  | inr a ↦
      let all : write_ascii false false [] (got ++ rest) ≡ ok (false, file) =
        ground (arith, write_ascii-encode [] file) in
      let joint = write_ascii-append false [] got rest in
      let (tail, t) =
        write_ascii-extends f.lastcr f.stream.written rest {l = false} {out' = file}
          (ground arith) in
      (tail, sym t)
]

Wrote-all :
    (mode : ℕ) (file : Bytes) (f : LocalFile)
    → Wrote mode (network_form mode file) f
    → mode ≤ mode_binary
    → f.stream.written ≡ file
Wrote-all mode file f w m = ground (arith, write_ascii-encode [] file)

pub Took-written :
    (mode : ℕ) (file : Bytes) (blocks : List Bytes) (c : Session)
    → Receiving mode blocks c
    → c.nextblknum ≡ suc (length blocks)
    → joined blocks ≡ network_form mode file
    → c.localfp.stream.written ≡ file
Took-written mode file blocks c h n all =
    let got : take (c.nextblknum - 1) blocks ≡ blocks =
      take-all (c.nextblknum - 1) blocks (omega arith) in
    let wrote = subst (λ t. Wrote c.modetype (joined t) c.localfp) got h.wrote in
    Wrote-all c.modetype file c.localfp
      (subst (λ t. Wrote c.modetype t c.localfp)
        (all ∙ ap (λ m. network_form m file) (sym h.in_mode)) wrote)
      h.known_mode
