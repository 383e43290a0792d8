-- ===== src/Tftp/Exchange/Serve.antt =====
-- The sender under any datagram at all: the tests of `net_recv` and `fsm_loop` let it do no more than
-- answer an acknowledgement.
use mathlib.Core.Path.{subst}
use my_coding_exercises.Common.{
  All, ℕ, zero, suc, ◌-◌, ◌≤◌, ◌<◌, ◌≡◌, refl, ap, ◌∙◌, ◌⊎◌, inl, inr, false, ◌||◌, List, [], ◌∷◌,
  Bytes, length, take, drop, overlay, length-overlay, arith, ltb, if◌then◌else◌, Bool-cases,
}
use my_coding_exercises.Tftp.Exchange.{serve}
use my_coding_exercises.Tftp.Exchange.Sender.{Sending}
use my_coding_exercises.Tftp.Exchange.Goes.{Goes, recv_ack-Goes}
use my_coding_exercises.Tftp.Run.{ok, stop, Verdict, bind-eq-ok, recvfrom_error}
use my_coding_exercises.Tftp.Server.Fsm.{
  Handler, fsm_invalid, fsm_error, on_ack, handler_at, dispatch, call,
}
use my_coding_exercises.Tftp.Server.Net.{
  Received, waits, timeout, interrupted, bytes, take_datagram,
}
use my_coding_exercises.Tftp.Server.Send.{Os, recv_ack}
use my_coding_exercises.Tftp.Session.{Session}
use my_coding_exercises.Tftp.Wire.{max_buff, op_data, op_ack, op_min, op_max, ldshort}

abbrev pub IsByte : ℕ → Type 0
IsByte b = b < 256

pub All-take : (n : ℕ) (p : Bytes) → All IsByte p → All IsByte (take n p)
All-take zero p h = tt
All-take (suc n) [] h = tt
All-take (suc n) (b ∷ p) h = (h.0, All-take n p h.1)

-- In the row of a sender only the acknowledgements have a handler that returns.
row_of_data :
    (op : ℕ)
    → ((op ≡ op_ack) × (handler_at op_data op ≡ on_ack))
      ⊎ ((handler_at op_data op ≡ fsm_invalid) ⊎ (handler_at op_data op ≡ fsm_error))
row_of_data zero = inr (inl refl)
row_of_data (suc zero) = inr (inl refl)
row_of_data (suc (suc zero)) = inr (inl refl)
row_of_data (suc (suc (suc zero))) = inr (inl refl)
row_of_data (suc (suc (suc (suc zero)))) = inl (refl, refl)
row_of_data (suc (suc (suc (suc (suc zero))))) = inr (inr refl)
row_of_data (suc (suc (suc (suc (suc (suc op)))))) = inr (inl refl)

module _ (os : Os) where
  pub dispatch-call :
      (n : ℕ) (s : Session) {r : Verdict × Session}
      → dispatch os n s ≡ ok r
      → (4 ≤ n)
        × (call os
              (handler_at s.op_sent (ldshort s.recvbuff))
              (drop 2 s.recvbuff)
              (n - 2)
              (record s { op_recv = ldshort s.recvbuff })
            ≡ ok r)
  unfolding dispatch
  dispatch-call n s e = elim (Bool-cases (ltb n 4)) [
    | inl short ↦ absurd (ground arith)
    | inr long ↦ (
      ground arith,
      elim (Bool-cases (ltb (ldshort s.recvbuff) op_min || ltb op_max (ldshort s.recvbuff))) [
        | inl bad ↦ absurd (ground arith)
        | inr good ↦ rw (long, good) at e
      ],
    )
  ]

  pub dispatch-ok :
      (n : ℕ) (s : Session) {v : Verdict} {s' : Session}
      → s.op_sent ≡ op_data
      → dispatch os n s ≡ ok (v, s')
      → (4 ≤ n)
        × (recv_ack (drop 2 s.recvbuff) (n - 2) (record s { op_recv = ldshort s.recvbuff })
            ≡ ok (v, s'))
  unfolding call
  dispatch-ok n s {v} {s'} op e =
      let (long, c) = dispatch-call n s e in
      let at = λ (k : Handler) (row : handler_at op_data (ldshort s.recvbuff) ≡ k).
        subst
          (λ k.
            call os k (drop 2 s.recvbuff) (n - 2) (record s { op_recv = ldshort s.recvbuff })
            ≡ ok (v, s'))
          (ap (λ o. handler_at o (ldshort s.recvbuff)) op ∙ row) c in
      elim (row_of_data (ldshort s.recvbuff)) [
        | inl (_, on) ↦ (long, at on_ack on)
        | inr (inl bad) ↦ cc (at fsm_invalid bad)
        | inr (inr bad) ↦ cc (at fsm_error bad)
      ]

pub low_short :
    (p buff : Bytes)
    → All IsByte p
    → length p ≡ 4
    → length buff ≡ max_buff
    → ldshort (drop 2 (overlay p buff)) < 65536
low_short [] buff h l m = absurd (omega arith)
low_short (a ∷ []) buff h l m = absurd (omega arith)
low_short (a ∷ b ∷ []) buff h l m = absurd (omega arith)
low_short (a ∷ b ∷ c ∷ []) buff h l m = absurd (omega arith)
low_short (a ∷ b ∷ c ∷ d ∷ p) [] h l m = absurd (omega arith)
low_short (a ∷ b ∷ c ∷ d ∷ p) (w ∷ []) h l m = absurd (omega arith)
low_short (a ∷ b ∷ c ∷ d ∷ p) (w ∷ x ∷ []) h l m = absurd (omega arith)
low_short (a ∷ b ∷ c ∷ d ∷ p) (w ∷ x ∷ y ∷ []) h l m = absurd (omega arith)
low_short (a ∷ b ∷ c ∷ d ∷ p) (w ∷ x ∷ y ∷ z ∷ buff) h l m = omega arith

-- The session with a datagram in its buffer.
abbrev pub received : ℕ → Bytes → Session → Session
received port p s = record s {
  recvbuff = overlay (take max_buff p) s.recvbuff;
  socket = record (s.socket) {
    peer_port = if s.socket.recv_first then port else s.socket.peer_port;
    recv_first = false;
  };
}

pub take_datagram-bytes :
    (port n : ℕ) (p : Bytes) (s s₁ : Session)
    → take_datagram max_buff port p s ≡ ok (bytes n s₁)
    → (n ≡ length (take max_buff p)) × (s₁ ≡ received port p s)
unfolding take_datagram
take_datagram-bytes port n p s s₁ e = ground arith

pub Sending-received :
    (network : Bytes) (blocks : List Bytes) (port : ℕ) (p : Bytes) (s : Session) (op : ℕ)
    → Sending network blocks s
    → Sending network blocks (record (received port p s) { op_recv = op })
Sending-received network blocks port p s op h = record {
  cut = h.cut;
  counted = h.counted;
  few = h.few;
  last = h.last;
  works = h.works;
  readable = h.readable;
  known_mode = h.known_mode;
  room = h.room;
  space = length-overlay (take max_buff p) s.recvbuff ∙ h.space;
  sent = h.sent;
  buffered = h.buffered;
}

module _ (os : Os) where
  -- A server process that sends a file, with some blocks sent, is given any datagram of bytes from
  -- any port. If it goes on, it is still a sender of that file: it has sent the same blocks and
  -- perhaps more, each under its own number, and together with what is left of the file they make
  -- up its network form.
  pub serve-Goes :
      (network : Bytes) (blocks : List Bytes) (port : ℕ) (p : Bytes) (s : Session) {v : Verdict}
      {s' : Session}
      → Sending network blocks s
      → s.op_sent ≡ op_data
      → All IsByte p
      → serve os port p s ≡ ok (v, s')
      → Goes network blocks s'
  unfolding serve
  serve-Goes network blocks port p s {v} {s'} h op small e =
      let (got, e₁, e₂) = bind-eq-ok (take_datagram max_buff port p s) _ e in go got e₁ e₂
    where
      go :
          (got : Received)
          → take_datagram max_buff port p s ≡ ok got
          → (elim got [
            | waits ↦ stop recvfrom_error
            | timeout ↦ stop recvfrom_error
            | interrupted ↦ stop recvfrom_error
            | bytes n s₁ ↦ dispatch os n s₁
          ])
            ≡ ok (v, s')
          → Goes network blocks s'
      go waits e₁ e₂ = cc
      go timeout e₁ e₂ = cc
      go interrupted e₁ e₂ = cc
      go (bytes n s₁) e₁ e₂ =
          let (i, q) = take_datagram-bytes port n p s s₁ e₁ in
          let r = received port p s in
          let (long, answer) =
            dispatch-ok os n r op (subst (λ t. dispatch os n t ≡ ok (v, s')) q e₂) in
          recv_ack-Goes network blocks (record r { op_recv = ldshort r.recvbuff })
            (drop 2 r.recvbuff) (n - 2)
            (Sending-received network blocks port p s (ldshort r.recvbuff) h) op
            (λ two.
              low_short (take max_buff p) s.recvbuff (All-take max_buff p small)
                (omega (arith, two, i, long)) h.space)
            answer
