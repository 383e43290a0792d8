-- ===== src/Tftp/Server/Access.antt =====
-- What a request must pass before the server answers it.
use my_coding_exercises.Common.{
  ℕ, ◌<◌, ◌≤◌, ◌≡◌, sym, ◌∙◌, ap, ◌≢◌, ◌⊎◌, inl, inr, true, false, none, some, [], ◌∷◌, Bytes,
  codes, length, get_or, same_text, same_text_iff, refl, arith, if◌then◌else◌, ◌==◌, Bool-cases,
  Option-cases,
}
use my_coding_exercises.Tftp.Run.{ok, bind-eq-ok, ok-injective}
use my_coding_exercises.Tftp.Server.File.{file_open}
use my_coding_exercises.Tftp.Server.Net.{net_send}
use my_coding_exercises.Tftp.Server.Send.{
  Os, send_error, request_strings, set_mode, dir_part, world_readable, world_writable, check_name,
  check_access, open_request, recv_xrq,
}
use my_coding_exercises.Tftp.Session.{Session, Stream}
use my_coding_exercises.Tftp.Wire.{
  mode_ascii, mode_binary, max_filename, op_rrq, op_wrq, err_access, err_badop, err_nofile,
}

-- The permission that the request asks for, on the file or on its directory.
abbrev pub Permits : Os → ℕ → Bytes → Type 0
Permits os opcode filename =
    ((opcode ≡ op_rrq)
      × (st_mode : ℕ) × (os.stat filename ≡ some st_mode)
      × (world_readable st_mode ≡ true))
    ⊎ ((opcode ≡ op_wrq)
        × (st_mode : ℕ) × (os.stat (dir_part filename) ≡ some st_mode)
        × (world_writable st_mode ≡ true))

-- The two texts that name a mode, in small letters, and the modes that they name.
abbrev pub Names : Bytes → ℕ → Type 0
Names text mode =
    ((text ≡ codes "netascii") × (mode ≡ mode_ascii))
    ⊎ ((text ≡ codes "octet") × (mode ≡ mode_binary))

-- The mode that a request names, where it is one of the two.
abbrev pub named_mode : Bytes → ℕ
named_mode text = if same_text text (codes "netascii") then mode_ascii else mode_binary

pub Names-named_mode : (text : Bytes) (mode : ℕ) → Names text mode → mode ≡ named_mode text
unfolding same_text
Names-named_mode text mode (inl (e, m)) = rw e m
Names-named_mode text mode (inr (e, m)) = rw e m

-- A granted request, and the session that it leaves.
pub record Granted (os : Os) (opcode : ℕ) (ptr : Bytes) (n : ℕ) (s s' : Session) : Type 0 where
  pub filename : Bytes
  pub text : Bytes
  pub mode : ℕ
  pub asked : request_strings ptr n ≡ ok (filename, text)
  pub named : Names text mode
  pub stream : Stream
  pub absolute : get_or filename 0 0 ≡ b'/'
  -- A longer name overruns its array, which the model does not return from.
  pub short : length filename < max_filename
  pub known_mode : mode ≤ mode_binary
  pub permits : Permits os opcode filename
  pub opened : os.fopen filename (opcode == op_rrq) ≡ some stream
  pub state : s' ≡ record s {
    modetype = mode;
    nextblknum = 0;
    localfp = record { stream = stream; lastcr = false; nextchar = none };
  }

send_error-ne-ok :
    (ecode : ℕ) (text : Bytes) (s : Session) {s' : Session} → send_error ecode text s ≢ ok s'
unfolding send_error net_send
send_error-ne-ok ecode text s e = elim (Bool-cases s.socket.send_fails) [
  | inl broken ↦ ground arith
  | inr works ↦ ground arith
]

request_strings-short :
    (ptr : Bytes) (n : ℕ) {filename mode : Bytes}
    → request_strings ptr n ≡ ok (filename, mode)
    → length filename < max_filename
unfolding request_strings
request_strings-short ptr n e = ground arith

set_mode-ok :
    (mode : Bytes) (s : Session) {s' : Session}
    → set_mode mode s ≡ ok s'
    → (m : ℕ) × Names mode m × (m ≤ mode_binary) × (s' ≡ record s { modetype = m })
unfolding set_mode
set_mode-ok mode s e = elim (Bool-cases (same_text mode (codes "netascii"))) [
  | inl ascii ↦ (
    mode_ascii,
    inl ((same_text_iff mode (codes "netascii")).0 ascii, refl),
    omega arith,
    sym (ok-injective (rw ascii at e)),
  )
  | inr other ↦ elim (Bool-cases (same_text mode (codes "octet"))) [
    | inl octet ↦ (
      mode_binary,
      inr ((same_text_iff mode (codes "octet")).0 octet, refl),
      omega arith,
      sym (ok-injective (rw (other, octet) at e)),
    )
    | inr unknown ↦ absurd (
        send_error-ne-ok err_badop (codes "Mode isn't netascii or octet") s
          (rw (other, unknown) at e))
  ]
]

check_access-ok :
    (os : Os) (opcode : ℕ) (filename : Bytes) (s : Session) {s' : Session}
    → check_access os opcode filename s ≡ ok s'
    → Permits os opcode filename × (s' ≡ s)
unfolding check_access
check_access-ok os opcode filename s {s'} e = elim (Bool-cases (opcode == op_rrq)) [
  | inl r ↦ elim (Option-cases (os.stat filename)) [
    | inl missing ↦ absurd (
        send_error-ne-ok err_access (codes "filename get stat buffer error") s
          (rw (r, missing) at e))
    | inr (st_mode, found) ↦ elim (Bool-cases (world_readable st_mode)) [
      | inl allowed ↦ (
        inl (ground arith, st_mode, found, allowed),
        sym (ok-injective (rw (r, found, allowed) at e)),
      )
      | inr shut ↦ absurd (
          send_error-ne-ok err_access (codes "File doesn't allow world read permission") s
            (rw (r, found, shut) at e))
    ]
  ]
  | inr other ↦ elim (Bool-cases (opcode == op_wrq)) [
    | inl w ↦ elim (Option-cases (os.stat (dir_part filename))) [
      | inl missing ↦ absurd (
          send_error-ne-ok err_access (codes "dirname get stat buffer error") s
            (rw (other, w, missing) at e))
      | inr (st_mode, found) ↦ elim (Bool-cases (world_writable st_mode)) [
        | inl allowed ↦ (
          inr (ground arith, st_mode, found, allowed),
          sym (ok-injective (rw (other, w, found, allowed) at e)),
        )
        | inr shut ↦ absurd (
            send_error-ne-ok err_access (codes "Directory doesn't allow world write permission") s
              (rw (other, w, found, shut) at e))
      ]
    ]
    | inr unknown ↦ absurd (cc (rw (other, unknown) at e))
  ]
]

-- An absolute name is not the name "-" of the standard output.
absolute-not_stdout :
    (filename : Bytes) → get_or filename 0 0 ≡ b'/' → same_text filename (codes "-") ≡ false
unfolding same_text
absolute-not_stdout [] h = absurd (omega arith)
absolute-not_stdout (c ∷ filename) h = ground arith

check_name-ok :
    (filename : Bytes) (s : Session) {s' : Session}
    → check_name filename s ≡ ok s'
    → (get_or filename 0 0 ≡ b'/') × (s' ≡ s)
unfolding check_name
check_name-ok filename s e = elim (Bool-cases (get_or filename 0 0 == b'/')) [
  | inl slash ↦ (ground arith, sym (ok-injective (rw slash at e)))
  | inr other ↦
      absurd (send_error-ne-ok err_access (codes "filename must begin with '/'") s (rw other at e))
]

-- The session behind a call of `file_open`.
abbrev opened_on : Session → Stream → Session
opened_on s fp = record s {
  nextblknum = 0;
  localfp = record { stream = fp; lastcr = false; nextchar = none };
}

open_request-ok :
    (os : Os) (opcode : ℕ) (filename : Bytes) (s : Session) {s' : Session}
    → get_or filename 0 0 ≡ b'/'
    → open_request os opcode filename s ≡ ok s'
    → (fp : Stream) × (os.fopen filename (opcode == op_rrq) ≡ some fp) × (s' ≡ opened_on s fp)
unfolding open_request file_open
open_request-ok os opcode filename s slash e =
    let e' = rw (absolute-not_stdout filename slash, open_request, file_open) at e in
    elim (Option-cases (os.fopen filename (opcode == op_rrq))) [
      | inl missing ↦ absurd (
          send_error-ne-ok err_nofile (codes "file open error") s
            (rw (missing, open_request, file_open) at e'))
      | inr (fp, found) ↦
          (fp, found, sym (ok-injective (rw (found, open_request, file_open) at e')))
    ]

-- If `recv_xRQ` returns, the request that it has answered names an absolute path, and its mode is
-- "netascii" or "octet", in whatever letters, and is the one that the server takes; the file, or for a
-- write its directory, is open to the world. The server then starts at block 0 with that file, and
-- nothing else of its state has changed. A name or a mode that overruns its array of 128 bytes is
-- undefined behaviour in C, and the model does not return from it.
pub recv_xrq-Granted :
    (os : Os) (opcode : ℕ) (ptr : Bytes) (n : ℕ) (s : Session) {s' : Session}
    → recv_xrq os opcode ptr n s ≡ ok s'
    → Granted os opcode ptr n s s'
unfolding recv_xrq
recv_xrq-Granted os opcode ptr n s {s'} e =
    let ((filename, mode), e₁, r₁) = bind-eq-ok (request_strings ptr n) _ e in
    let (s₁, e₂, r₂) = bind-eq-ok (set_mode mode s) _ r₁ in
    let (s₂, e₃, r₃) = bind-eq-ok (check_name filename s₁) _ r₂ in
    let (s₃, e₄, e₅) = bind-eq-ok (check_access os opcode filename s₂) _ r₃ in
    let (m, named, known, is₁) = set_mode-ok mode s e₂ in
    let (slash, is₂) = check_name-ok filename s₁ e₃ in
    let (permits, is₃) = check_access-ok os opcode filename s₂ e₄ in
    let (fp, found, is₄) = open_request-ok os opcode filename s₃ slash e₅ in
    record {
      filename = filename;
      text = mode;
      mode = m;
      asked = e₁;
      named = named;
      stream = fp;
      absolute = slash;
      short = request_strings-short ptr n e₁;
      known_mode = known;
      permits = permits;
      opened = found;
      state = is₄ ∙ ap (λ t. opened_on t fp) (is₃ ∙ is₂ ∙ is₁);
    }
