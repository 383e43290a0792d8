-- ===== src/Tftp/Client/File/Stale.antt =====
-- What the statics of file_cli.c carry from one file to the next.
use mathlib.Core.Path.{subst}
use my_coding_exercises.Common.{
  ℕ, suc, ◌≡◌, sym, ◌∙◌, Bool, true, Option, some, Bytes, codes, same_text, if◌then◌else◌, arith,
  Option-cases, inl, inr, get_or, ap,
}
use my_coding_exercises.Tftp.Client.File.{file_open, file_read, read_ascii}
use my_coding_exercises.Tftp.Run.{ok, bind-eq-ok, ok-injective}
use my_coding_exercises.Tftp.Server.File.{stdout}
use my_coding_exercises.Tftp.Session.{Session, Stream, LocalFile}
use my_coding_exercises.Tftp.Wire.{mode_ascii}

-- A file that is opened keeps the byte that `nextchar` holds back.
file_open-nextchar :
    (fopen : Bytes → Bool → Option Stream) (fname : Bytes) (k : ℕ) (s : Session) {s' : Session}
    → file_open fopen fname true k s ≡ some s'
    → s'.localfp.nextchar ≡ s.localfp.nextchar
unfolding file_open
file_open-nextchar fopen fname k s e =
    elim (Option-cases (if same_text fname (codes "-") then some stdout else fopen fname true)) [
      | inl missing ↦ absurd (ground arith)
      | inr (fp, found) ↦ ground arith
    ]

read_ascii-pending :
    (n : ℕ) (fails : Bool) (c : ℕ) (unread out rest : Bytes) (c' : Option ℕ)
    → read_ascii (suc n) fails (some c) unread ≡ ok (out, c', rest)
    → get_or out 0 1 ≡ c
unfolding read_ascii
read_ascii-pending n fails c unread out rest c' e = ground arith

-- If `nextchar` is 0, as it is when the client starts, and `file_open` then opens a file, a
-- `file_read` of that file in ASCII mode that succeeds, for at least one byte, gives out a null
-- byte first, whatever the file holds.
pub first_read-stray_null :
    (fopen : Bytes → Bool → Option Stream) (fname : Bytes) (k n : ℕ) (s : Session) {s' : Session}
    {out : Bytes} {f : LocalFile}
    → s.localfp.nextchar ≡ some 0
    → file_open fopen fname true k s ≡ some s'
    → file_read s'.localfp (suc n) mode_ascii ≡ ok (out, f)
    → get_or out 0 1 ≡ 0
unfolding file_read
first_read-stray_null fopen fname k n s {s'} {out} {f} start opened read =
    let held = file_open-nextchar fopen fname k s opened ∙ start in
    let ((out', c, rest), e₁, e₂) =
      bind-eq-ok
        (read_ascii (suc n) s'.localfp.stream.read_fails s'.localfp.nextchar
          s'.localfp.stream.unread)
        _ read in
    let e₁' =
      subst
        (λ t.
          read_ascii (suc n) s'.localfp.stream.read_fails t s'.localfp.stream.unread
          ≡ ok (out', c, rest))
        held e₁ in
    rw (sym (ap (λ r. r.0) (ok-injective e₂)))
      (read_ascii-pending n s'.localfp.stream.read_fails 0 s'.localfp.stream.unread out' rest c e₁')
