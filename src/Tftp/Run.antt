-- ===== src/Tftp/Run.antt =====
-- How a call of the TFTP programs ends: it returns, or the process exits. Each `exit`, `err_quit`
-- and `err_sys` of tftp-exercises/ is a constructor of `Halt`, which names the reason of the exit.
use my_coding_exercises.Common.{
  ℕ, Bytes, Option, none, some, if◌then◌else◌, Bool, true, false, ◌≡◌, refl,
}

pub data Halt : Type 0 where
  -- `send_ERROR`: the ERROR datagram that was sent before `exit(0)`.
  refused : Bytes → Halt
  -- recv_xRQ
  invalid_filename invalid_request_mode unknown_opcode : Halt
  -- A `strcpy` into an array that is too small for the string: undefined in C.
  overrun : Halt
  -- recv_DATA and recv_ACK
  data_too_long data_behind data_ahead : Halt
  ack_length : Halt
  ack_behind ack_ahead : Halt
  -- file.c
  read_error write_error stray_cr unknown_mode final_cr pending_char close_error : Halt
  -- file_cli.c, by `err_sys` and `err_quit`: a message to the user on stderr and `exit(1)`, where
  -- file.c prints a debugging message and does `exit(-1)`.
  client_read_error client_write_error client_unknown_mode : Halt
  -- The message shows the byte behind the CR.
  client_stray_cr : ℕ → Halt
  -- fsm.c
  protocol_botch error_received receive_error short_packet invalid_opcode : Halt
  -- net_udp.c
  send_failed recvfrom_error wrong_port socket_error bind_error fork_error : Halt
  -- rtt.c
  clock_error : Halt

pub data Run {ℓ} (A : Type ℓ) : Type ℓ where
  ok : A → Run A
  stop : Halt → Run A

infixl 5 ◌>>=◌ ◌>>◌
abbrev pub ◌>>=◌ {ℓ κ} : {A : Type ℓ} {B : Type κ} → Run A → (A → Run B) → Run B
ok a >>= f = f a
stop h >>= f = stop h

abbrev pub ◌>>◌ {ℓ} : {B : Type ℓ} → Run (Unit {0}) → Run B → Run B
m >> k = m >>= λ _. k

-- `if (!test) exit`.
abbrev pub require : Bool → Halt → Run (Unit {0})
require true h = ok tt
require false h = stop h

-- What a handler tells the loop: 0 to go on, -1 to end.
pub data Verdict : Type 0 where
  more done : Verdict

pub bind-eq-ok {ℓ κ} :
    {A : Type ℓ} {B : Type κ} (m : Run A) (f : A → Run B) {b : B}
    → (m >>= f) ≡ ok b
    → (a : A) × (m ≡ ok a) × (f a ≡ ok b)
bind-eq-ok (ok a) f e = (a, refl, e)
bind-eq-ok (stop h) f e = cc

pub ok-injective {ℓ} : {A : Type ℓ} {a b : A} → ok a ≡ ok b → a ≡ b
ok-injective e = cc

-- What a call gives to its caller, if it returns.
unfoldable pub returned {ℓ} : {A : Type ℓ} → Run A → Option A
returned (ok a) = some a
returned (stop h) = none

pub ok-of-returned {ℓ} :
    {A : Type ℓ} (m n : Run A) {a : A} → returned m ≡ returned n → m ≡ ok a → n ≡ ok a
unfolding returned
ok-of-returned (ok b) (ok c) e h = cc
ok-of-returned (ok b) (stop k) e h = cc
ok-of-returned (stop k) n e h = cc

-- Two calls that return the same, used in the same way.
pub returned-bind {ℓ κ} :
    {A : Type ℓ} {B : Type κ} (m n : Run A) (f : A → Run B)
    → returned m ≡ returned n
    → returned (m >>= f) ≡ returned (n >>= f)
unfolding returned
returned-bind (ok a) (ok b) f e = cc
returned-bind (ok a) (stop k) f e = cc
returned-bind (stop h) (ok b) f e = cc
returned-bind (stop h) (stop k) f e = refl

-- The same test in both.
pub returned-if {ℓ} :
    {A : Type ℓ} (b : Bool) (m n p q : Run A)
    → returned m ≡ returned n
    → returned p ≡ returned q
    → returned (if b then m else p) ≡ returned (if b then n else q)
returned-if true m n p q e g = e
returned-if false m n p q e g = g
