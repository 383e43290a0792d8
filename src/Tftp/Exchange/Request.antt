-- ===== src/Tftp/Exchange/Request.antt =====
-- The request that the client sends, as the server reads it.
use my_coding_exercises.Common.{
  ℕ, zero, suc, ◌+◌, ◌-◌, ◌≤◌, ◌<◌, ◌≡◌, refl, ap, ◌∙◌, inl, inr, true, false, some, [], ◌∷◌, ◌++◌,
  append_assoc, length-append, Bytes, codes, length, take, drop, overlay, write_at, take-write_at,
  take-overlay, overlay-append, length-write_at, length-overlay, arith, Bool-cases, ◌==◌, All, ltb,
  if◌then◌else◌,
}
use my_coding_exercises.Tftp.Client.Net.{net_send}
use my_coding_exercises.Tftp.Client.Send.{send_rq, mode_name}
use my_coding_exercises.Tftp.Run.{ok}
use my_coding_exercises.Tftp.Server.Access.{Names}
use my_coding_exercises.Tftp.Server.Send.{request_strings, find_nul, strlccpy}
use my_coding_exercises.Tftp.Session.{Session}
use my_coding_exercises.Tftp.Wire.{
  max_buff, max_filename, mode_ascii, mode_binary, short_bytes, stshort, ldshort,
}

-- A byte of a C string.
abbrev pub InString : ℕ → Type 0
InString c = (c == 0) ≡ false

find_nul-string :
    (m : ℕ) (text rest : Bytes) (n : ℕ)
    → All InString text
    → m ≡ length text + suc n
    → find_nul m (text ++ 0 ∷ rest) ≡ some (text, rest, suc n)
unfolding find_nul
find_nul-string zero text rest n h e = absurd (omega arith)
find_nul-string (suc m) [] rest n h e = ap (λ k. some ([], rest, suc k)) (omega arith)
find_nul-string (suc m) (c ∷ text) rest n h e =
    rw (h.0, find_nul, find_nul-string m text rest n h.1 (omega arith)) refl

-- The text of a mode in a request.
abbrev mode_text : ℕ → Bytes
mode_text mode = if mode == mode_ascii then codes "netascii" else codes "octet"

abbrev request_packet : ℕ → Bytes → ℕ → Bytes
request_packet opcode fname mode =
    (short_bytes opcode ++ (fname ++ 0 ∷ [])) ++ (mode_text mode ++ 0 ∷ [])

mode_text-InString : (mode : ℕ) → All InString (mode_text mode)
mode_text-InString mode = elim (Bool-cases (mode == mode_ascii)) [
  | inl a ↦ rw a (refl, (refl, (refl, (refl, (refl, (refl, (refl, (refl, tt))))))))
  | inr b ↦ rw b (refl, (refl, (refl, (refl, (refl, tt)))))
]

strlccpy-mode_text : (mode : ℕ) → strlccpy (mode_text mode) ≡ mode_text mode
unfolding strlccpy
strlccpy-mode_text mode = elim (Bool-cases (mode == mode_ascii)) [
  | inl a ↦ rw a refl
  | inr b ↦ rw b refl
]

mode_text-Names : (mode : ℕ) → mode ≤ mode_binary → Names (mode_text mode) mode
mode_text-Names mode h = elim (Bool-cases (mode == mode_ascii)) [
  | inl a ↦ rw a (inl (refl, ground arith))
  | inr b ↦ rw b (inr (refl, ground arith))
]

length-mode_text : (mode : ℕ) → length (mode_text mode) < 10
length-mode_text mode = ground arith

-- What the server makes of the strings of a request, whatever stands behind them.
request_strings-request :
    (fname rest : Bytes) (mode n : ℕ)
    → All InString fname
    → length fname < max_filename
    → n ≡ length fname + (length (mode_text mode) + 2)
    → request_strings (fname ++ 0 ∷ (mode_text mode ++ 0 ∷ rest)) n ≡ ok (fname, mode_text mode)
unfolding request_strings
request_strings-request fname rest mode n h short e =
    let first =
      find_nul-string n fname (mode_text mode ++ 0 ∷ rest) (length (mode_text mode) + 1) h
        (omega arith) in
    let second =
      find_nul-string (suc (length (mode_text mode) + 1)) (mode_text mode) rest 1
        (mode_text-InString mode) (omega arith) in
    let fits = length-mode_text mode in
    let lower = strlccpy-mode_text mode in
    let fits_name : ltb (length fname) max_filename ≡ true = ground arith in
    let fits_mode : ltb (length (mode_text mode)) max_filename ≡ true = ground (arith, fits) in
    rw (request_strings, first, fits_name, second, fits_mode, lower) refl

mode_name-mode_text : (mode : ℕ) → mode ≤ mode_binary → mode_name mode ≡ ok (mode_text mode)
unfolding mode_name
mode_name-mode_text mode h = ground arith

-- The packet that `send_RQ` leaves in the buffer.
request_built :
    (opcode : ℕ) (fname : Bytes) (mode len n : ℕ) (buff : Bytes)
    → len ≡ 2 + length fname + 1
    → n ≡ len + length (mode_text mode) + 1
    → n ≤ length buff
    → take n (
        write_at len
          (mode_text mode ++ 0 ∷ [])
          (write_at 2 (fname ++ 0 ∷ []) (stshort opcode 0 buff)))
      ≡ request_packet opcode fname mode
request_built opcode fname mode len n buff i j h =
    let header = stshort opcode 0 buff in
    let named = write_at 2 (fname ++ 0 ∷ []) header in
    let l₁ = length-overlay (short_bytes opcode) buff in
    let l₂ = length-write_at 2 (fname ++ 0 ∷ []) header in
    take-write_at len n (mode_text mode ++ 0 ∷ []) named
      (omega (arith, length-append (mode_text mode) (0 ∷ []))) (omega (arith, l₁, l₂))
    ∙ ap (λ t. t ++ (mode_text mode ++ 0 ∷ []))
        (take-write_at 2 len (fname ++ 0 ∷ []) header (omega (arith, length-append fname (0 ∷ [])))
            (omega (arith, l₁))
          ∙ ap (λ t. t ++ (fname ++ 0 ∷ [])) (take-overlay (short_bytes opcode) buff (omega arith)))

length-request_packet :
    (opcode : ℕ) (fname : Bytes) (mode : ℕ)
    → length (request_packet opcode fname mode) ≡ length fname + length (mode_text mode) + 4
length-request_packet opcode fname mode = omega (
  arith,
  length-append (short_bytes opcode ++ (fname ++ 0 ∷ [])) (mode_text mode ++ 0 ∷ []),
  length-append fname (0 ∷ []),
  length-append (mode_text mode) (0 ∷ []),
)

-- Behind the opcode of a request that stands in a buffer.
request_held :
    (opcode : ℕ) (fname : Bytes) (mode : ℕ) (buff : Bytes)
    → length (request_packet opcode fname mode) ≤ length buff
    → drop 2 (overlay (request_packet opcode fname mode) buff)
      ≡ fname ++ 0 ∷ (mode_text mode ++ 0 ∷ drop (length (request_packet opcode fname mode)) buff)
request_held opcode fname mode buff h =
    let rest = drop (length (request_packet opcode fname mode)) buff in
    ap (drop 2) (overlay-append (request_packet opcode fname mode) buff h)
    ∙ append_assoc (fname ++ 0 ∷ []) (mode_text mode ++ 0 ∷ []) rest
    ∙ append_assoc fname (0 ∷ []) ((mode_text mode ++ 0 ∷ []) ++ rest)
    ∙ ap (λ t. fname ++ 0 ∷ t) (append_assoc (mode_text mode) (0 ∷ []) rest)

-- The buffer and the client once `send_RQ` has sent the request.
abbrev filled : ℕ → Bytes → ℕ → Bytes → Bytes
filled opcode fname mode buff =
    write_at (2 + length fname + 1) (mode_text mode ++ 0 ∷ [])
      (write_at 2 (fname ++ 0 ∷ []) (stshort opcode 0 buff))

abbrev pub requested : ℕ → Bytes → ℕ → Session → Session
requested opcode fname mode s =
    let n = 2 + length fname + 1 + length (mode_text mode) + 1 in
    record s {
      sendbuff = filled opcode fname mode s.sendbuff;
      sendlen = n;
      socket = record (s.socket) {
        sent = s.socket.sent ++ take n (filled opcode fname mode s.sendbuff) ∷ [];
      };
    }

pub send_rq-requested :
    (opcode : ℕ) (fname : Bytes) (mode : ℕ) (s : Session)
    → mode ≤ mode_binary
    → s.socket.send_fails ≡ false
    → send_rq opcode fname mode s ≡ ok (requested opcode fname mode s)
unfolding send_rq net_send
send_rq-requested opcode fname mode s known works = rw (mode_name-mode_text mode known, works) refl

pub length-requested :
    (opcode : ℕ) (fname : Bytes) (mode : ℕ) (s : Session)
    → length (requested opcode fname mode s).sendbuff ≡ length s.sendbuff
length-requested opcode fname mode s =
    let header = stshort opcode 0 s.sendbuff in
    length-write_at (2 + length fname + 1) (mode_text mode ++ 0 ∷ [])
      (write_at 2 (fname ++ 0 ∷ []) header)
    ∙ length-write_at 2 (fname ++ 0 ∷ []) header
    ∙ length-overlay (short_bytes opcode) s.sendbuff

-- A client whose buffer has 2048 bytes and whose `sendto` works asks for a file whose name has no
-- null byte and fewer than 128 bytes, in one of the two modes. Then `send_RQ` succeeds and sends one
-- datagram, and the server that receives it in a buffer of 2048 bytes reads back the opcode, the
-- name, and the text of the mode, "netascii" or "octet".
pub send_rq-request_strings :
    (opcode : ℕ) (fname : Bytes) (mode : ℕ) (s : Session) (buff : Bytes)
    → opcode < 65536
    → All InString fname
    → length fname < max_filename
    → mode ≤ mode_binary
    → length s.sendbuff ≡ max_buff
    → s.socket.send_fails ≡ false
    → length buff ≡ max_buff
    → (s' : Session) × (p text : Bytes) × (send_rq opcode fname mode s ≡ ok s')
      × (s'.socket.sent ≡ s.socket.sent ++ p ∷ [])
      × (ldshort (overlay p buff) ≡ opcode)
      × (request_strings (drop 2 (overlay p buff)) (length p - 2) ≡ ok (fname, text))
      × Names text mode
send_rq-request_strings opcode fname mode s buff small h short known room works space =
    let p = request_packet opcode fname mode in
    let len = 2 + length fname + 1 in
    let n = len + length (mode_text mode) + 1 in
    let l = length-request_packet opcode fname mode in
    let t = length-mode_text mode in
    let built =
      request_built opcode fname mode len n s.sendbuff refl refl (omega (arith, t, room, short)) in
    let fits : length p ≤ length buff = omega (arith, t, l, space, short) in
    let held = request_held opcode fname mode buff fits in
    (
      requested opcode fname mode s,
      p,
      mode_text mode,
      send_rq-requested opcode fname mode s known works,
      ap (λ t. s.socket.sent ++ t ∷ []) built,
      ap ldshort (overlay-append p buff fits) ∙ omega arith,
      ap (λ t. request_strings t (length p - 2)) held
          ∙ request_strings-request fname (drop (length p) buff) mode (length p - 2) h short
              (omega (arith, l)),
      mode_text-Names mode known,
    )
