-- ===== src/Tftp/Server/File/Convert.antt =====
-- `file_read` and `file_write` convert as netascii says, whatever the sizes of the buffers.
use my_coding_exercises.Common.{
  ℕ, zero, suc, ◌≤◌, ◌<◌, ◌≡◌, refl, ap, sym, ◌∙◌, Bool, true, false, Option, none, some, List, [],
  ◌∷◌, ◌++◌, append_assoc, append-nil, Bytes, ◌==◌, if◌then◌else◌, length, take, drop,
  take-append-drop, drop-all, length-take, arith, Bool-cases, inl, inr,
}
use my_coding_exercises.Tftp.Netascii.{encode, encode_byte, pending}
use my_coding_exercises.Tftp.Run.{Run, ok, ◌>>=◌, bind-eq-ok, ok-injective}
use my_coding_exercises.Tftp.Server.File.{file_read, file_write, read_ascii, write_ascii, after_cr}
use my_coding_exercises.Tftp.Wire.{mode_ascii, mode_binary}
use my_coding_exercises.Tftp.Session.{LocalFile}

-- What `read_ascii` leaves: how the bytes stored and those still to come make up the stream.
pub record Fills (n : ℕ) (stream out : Bytes) (c : Option ℕ) (rest : Bytes) : Type 0 where
  pub whole : out ++ (pending c ++ encode rest) ≡ stream
  pub fits : length out ≤ n
  pub at_end : length out < n → (c ≡ none) × (rest ≡ [])

encode-cons :
    (c : ℕ) (cs : Bytes)
    → (if c == b'\n' then b'\r' else c)
        ∷ (pending (if c == b'\n' then some b'\n' else if c == b'\r' then some 0 else none)
            ++ encode cs)
      ≡ encode (c ∷ cs)
encode-cons c cs = ground arith

pub read_ascii-Fills :
    (n : ℕ) (c : Option ℕ) (unread : Bytes)
    → (out : Bytes) × (c' : Option ℕ) × (rest : Bytes) × (read_ascii n false c unread
        ≡ ok (out, c', rest))
      × Fills n (pending c ++ encode unread) out c' rest
unfolding read_ascii
read_ascii-Fills zero c unread = (
  [],
  c,
  unread,
  refl,
  record { whole = refl; fits = omega arith; at_end = λ h. absurd (omega arith) },
)
read_ascii-Fills (suc n) (some d) unread =
    let (out, c', rest, e, f) = read_ascii-Fills n none unread in
    (
      d ∷ out,
      c',
      rest,
      rw e refl,
      record {
        whole = ap (◌∷◌ d) f.whole;
        fits = omega (arith, f.fits);
        at_end = λ h. f.at_end (omega arith);
      },
    )
read_ascii-Fills (suc n) none [] =
    ([], none, [], refl, record { whole = refl; fits = omega arith; at_end = λ h. (refl, refl) })
read_ascii-Fills (suc n) none (d ∷ unread) =
    let d' : Option ℕ = if d == b'\n' then some b'\n' else if d == b'\r' then some 0 else none in
    let (out, c', rest, e, f) = read_ascii-Fills n d' unread in
    (
      (if d == b'\n' then b'\r' else d) ∷ out,
      c',
      rest,
      rw e refl,
      record {
        whole = ap (◌∷◌ (if d == b'\n' then b'\r' else d)) f.whole ∙ encode-cons d unread;
        fits = omega (arith, f.fits);
        at_end = λ h. f.at_end (omega arith);
      },
    )

pub write_ascii-append :
    (lastcr : Bool) (out xs ys : Bytes)
    → write_ascii false lastcr out (xs ++ ys)
      ≡ (write_ascii false lastcr out xs >>= λ r. write_ascii false r.0 r.1 ys)
unfolding write_ascii after_cr
write_ascii-append lastcr out [] ys = refl
write_ascii-append true out (c ∷ xs) ys = ground (
  arith,
  write_ascii-append false (out ++ b'\n' ∷ []) xs ys,
  write_ascii-append false (out ++ b'\r' ∷ []) xs ys,
)
write_ascii-append false out (c ∷ xs) ys =
    ground
      (arith, write_ascii-append true out xs ys, write_ascii-append false (out ++ c ∷ []) xs ys)

write_ascii-encode_byte :
    (out : Bytes) (c : ℕ) (rest : Bytes)
    → write_ascii false false out (encode_byte c ++ rest)
      ≡ write_ascii false false (out ++ c ∷ []) rest
unfolding write_ascii after_cr
write_ascii-encode_byte out c rest = ground arith

-- Writing a whole encoded file gives the file back, behind what was written before.
pub write_ascii-encode :
    (out file : Bytes) → write_ascii false false out (encode file) ≡ ok (false, out ++ file)
write_ascii-encode out [] = rw append-nil (unfold write_ascii in refl)
write_ascii-encode out (c ∷ file) =
    write_ascii-encode_byte out c (encode file)
    ∙ write_ascii-encode (out ++ c ∷ []) file
    ∙ rw append_assoc

-- The bytes of a local file that `file_read` has still to give out.
abbrev pub coming : ℕ → LocalFile → Bytes
coming mode f =
    if mode == mode_binary then f.stream.unread else pending f.nextchar ++ encode f.stream.unread

-- In either mode, on a file with no read error, `file_read` succeeds: it gives out the next bytes
-- of the network form of the file, at most as many as asked for, and fewer only when nothing is
-- left.
pub file_read_lem :
    (f : LocalFile) (n mode : ℕ)
    → f.stream.read_fails ≡ false
    → mode ≤ mode_binary
    → (out : Bytes) × (f' : LocalFile) × (file_read f n mode ≡ ok (out, f'))
      × (out ++ coming mode f' ≡ coming mode f)
      × (length out ≤ n)
      × (length out < n → coming mode f' ≡ [])
      × (f'.stream.read_fails ≡ false)
unfolding file_read
file_read_lem f n mode good h = elim (Bool-cases (mode == mode_binary)) [
  | inl b ↦ (
    take n f.stream.unread,
    record f { stream = record (f.stream) { unread = drop n f.stream.unread } },
    rw (b, good),
    rw b (take-append-drop n f.stream.unread),
    omega (arith, length-take n f.stream.unread),
    λ short. rw b (drop-all n f.stream.unread (omega (arith, length-take n f.stream.unread))),
    good,
  )
  | inr b ↦
      let (out, c, rest, e, fills) = read_ascii-Fills n f.nextchar f.stream.unread in
      (
        out,
        record f { stream = record (f.stream) { unread = rest }; nextchar = c },
        ground (arith, e),
        rw b fills.whole,
        fills.fits,
        λ short. ground (arith, fills.at_end short),
        good,
      )
]

-- Calls of `file_write`, one for each piece.
unfoldable pub write_pieces : LocalFile → List Bytes → ℕ → Run LocalFile
write_pieces f [] mode = ok f
write_pieces f (p ∷ ps) mode = do f' ← file_write f p mode; write_pieces f' ps mode

-- The pieces of a stream, one behind the other.
abbrev pub pieces_joined : List Bytes → Bytes
pieces_joined [] = []
pieces_joined (p ∷ ps) = p ++ pieces_joined ps

write_ascii-nil :
    (lastcr : Bool) (out : Bytes) {r : Bool × Bytes}
    → write_ascii false lastcr out [] ≡ ok r
    → (lastcr, out) ≡ r
unfolding write_ascii
write_ascii-nil lastcr out e = ok-injective e

write_pieces-ascii :
    (f : LocalFile) (ps : List Bytes) (out : Bytes)
    → f.stream.write_fails ≡ false
    → write_ascii false f.lastcr f.stream.written (pieces_joined ps) ≡ ok (false, out)
    → (f' : LocalFile) × (write_pieces f ps mode_ascii ≡ ok f')
      × (f'.stream.written ≡ out)
      × (f'.lastcr ≡ false)
unfolding write_pieces file_write
write_pieces-ascii f [] out good e =
    let e' = write_ascii-nil f.lastcr f.stream.written e in
    (f, refl, ap (λ r. r.1) e', ap (λ r. r.0) e')
write_pieces-ascii f (p ∷ ps) out good e =
    let ((l, o), e₁, e₂) =
      bind-eq-ok (write_ascii false f.lastcr f.stream.written p)
        (λ r. write_ascii false r.0 r.1 (pieces_joined ps))
        (sym (write_ascii-append f.lastcr f.stream.written p (pieces_joined ps)) ∙ e) in
    let f₁ = record f { stream = record (f.stream) { written = o }; lastcr = l } in
    let (f', w, written, lastcr) = write_pieces-ascii f₁ ps out good e₂ in
    (f', ground (arith, e₁, w), written, lastcr)

-- `file_write` undoes the conversion of `file_read`: however the netascii form of a file is cut
-- into pieces, writing them one by one to an empty file that takes every byte, with no CR held
-- back, succeeds and gives the file, with no CR left over.
pub write_pieces-encode :
    (f : LocalFile) (ps : List Bytes) (file : Bytes)
    → f.stream.write_fails ≡ false
    → f.stream.written ≡ []
    → f.lastcr ≡ false
    → pieces_joined ps ≡ encode file
    → (f' : LocalFile) × (write_pieces f ps mode_ascii ≡ ok f')
      × (f'.stream.written ≡ file)
      × (f'.lastcr ≡ false)
write_pieces-encode f ps file good fresh no_cr e =
    write_pieces-ascii f ps file good (rw (no_cr, fresh, e) (write_ascii-encode [] file))
