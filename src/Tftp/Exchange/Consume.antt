-- ===== src/Tftp/Exchange/Consume.antt =====
-- The receiver is given a block by the network: the tests of `net_recv` and `fsm_loop` take it to
-- `recv_DATA`.
use mathlib.Core.Path.{subst}
use my_coding_exercises.Common.{
  ℕ, suc, ◌+◌, ◌-◌, ◌≤◌, ◌<◌, ◌≡◌, ap, ◌∙◌, ◌⊎◌, inl, inr, false, ◌||◌, some, List, Bytes, length,
  take, drop, get_elem?, overlay, length-overlay, arith, ltb, if◌then◌else◌, Bool-cases, ◌==◌,
  take-all,
}
use my_coding_exercises.Tftp.Client.Fsm.{on_data, handler_at, dispatch, call}
use my_coding_exercises.Tftp.Client.Net.{take_datagram}
use my_coding_exercises.Tftp.Client.Send.{recv_data}
use my_coding_exercises.Tftp.Exchange.{consume}
use my_coding_exercises.Tftp.Exchange.Packets.{held_op, held_block, held_payload}
use my_coding_exercises.Tftp.Exchange.Receiver.{Receiving, recv_data-Receiving}
use my_coding_exercises.Tftp.Run.{ok, stop, Verdict, more, done, bind-eq-ok, recvfrom_error}
use my_coding_exercises.Tftp.Server.Net.{Received, waits, timeout, interrupted, bytes}
use my_coding_exercises.Tftp.Session.{Session}
use my_coding_exercises.Tftp.Wire.{
  max_buff, max_data, op_rrq, op_data, op_ack, op_min, op_max, ldshort, packet,
}

pub dispatch-call :
    (n : ℕ) (c : Session) {r : Verdict × Session}
    → dispatch n c ≡ ok r
    → (4 ≤ n)
      × (call
            (handler_at c.op_sent (ldshort c.recvbuff))
            (drop 2 c.recvbuff)
            (n - 2)
            (record c { op_recv = ldshort c.recvbuff })
          ≡ ok r)
unfolding dispatch
dispatch-call n c e = elim (Bool-cases (ltb n 4)) [
  | inl short ↦ absurd (ground arith)
  | inr long ↦ (
    ground arith,
    elim (Bool-cases (ltb (ldshort c.recvbuff) op_min || ltb op_max (ldshort c.recvbuff))) [
      | inl bad ↦ absurd (ground arith)
      | inr good ↦ rw (long, good) at e
    ],
  )
]

row_of_receiver : (op : ℕ) → (op ≡ op_rrq) ⊎ (op ≡ op_ack) → handler_at op op_data ≡ on_data
row_of_receiver op (inl e) = ap (λ o. handler_at o op_data) e
row_of_receiver op (inr e) = ap (λ o. handler_at o op_data) e

dispatch-data :
    (n : ℕ) (c : Session) {r : Verdict × Session}
    → (c.op_sent ≡ op_rrq) ⊎ (c.op_sent ≡ op_ack)
    → ldshort c.recvbuff ≡ op_data
    → dispatch n c ≡ ok r
    → recv_data (drop 2 c.recvbuff) (n - 2) (record c { op_recv = ldshort c.recvbuff }) ≡ ok r
unfolding call
dispatch-data n c {r} awaits i e =
    let on = ap (λ o. handler_at c.op_sent o) i ∙ row_of_receiver c.op_sent awaits in
    subst
      (λ k. call k (drop 2 c.recvbuff) (n - 2) (record c { op_recv = ldshort c.recvbuff }) ≡ ok r)
      on (dispatch-call n c e).1

-- The session with a datagram in its buffer.
abbrev pub received : ℕ → Bytes → Session → Session
received port p c = record c {
  recvbuff = overlay (take max_buff p) c.recvbuff;
  socket = record (c.socket) { peer_port = port; recv_first = false };
}

pub take_datagram-bytes :
    (port n : ℕ) (p : Bytes) (c c₁ : Session)
    → take_datagram max_buff port p c ≡ ok (bytes n c₁)
    → (n ≡ length (take max_buff p)) × (c₁ ≡ received port p c)
unfolding take_datagram
take_datagram-bytes port n p c c₁ e = ground arith

pub Receiving-received :
    {mode : ℕ} (blocks : List Bytes) (port : ℕ) (p : Bytes) (c : Session) (op : ℕ)
    → Receiving mode blocks c
    → Receiving mode blocks (record (received port p c) { op_recv = op })
Receiving-received blocks port p c op h = record {
  from_one = h.from_one;
  taken = h.taken;
  wrote = h.wrote;
  in_mode = h.in_mode;
  known_mode = h.known_mode;
  space = length-overlay (take max_buff p) c.recvbuff ∙ h.space;
  awaits = h.awaits;
}

-- A client that receives a file is given block `k + 1` of at most 512 bytes in a datagram, the
-- number being taken modulo 65536. If it goes on, it is still a receiver, which has written
-- exactly the blocks that it has taken; it ends if and only if the block is shorter than 512
-- bytes, and below block 65536 it waits for block `k + 2` next.
pub consume-Receiving :
    {mode : ℕ} (blocks : List Bytes) (k : ℕ) (b : Bytes) (port : ℕ) (c : Session) {v : Verdict}
    {c' : Session}
    → Receiving mode blocks c
    → get_elem? blocks k ≡ some b
    → length b ≤ max_data
    → k < 65536
    → consume port (packet op_data (suc k) b) c ≡ ok (v, c')
    → Receiving mode blocks c'
      × (v ≡ (if length b == max_data then more else done))
      × (k < 65535 → c'.nextblknum ≡ suc (suc k))
unfolding consume
consume-Receiving {mode} blocks k b port c {v} {c'} h g small few e =
    let p : Bytes = packet op_data (suc k) b in
    let (got, e₁, e₂) = bind-eq-ok (take_datagram max_buff port p c) _ e in go got e₁ e₂
  where
    go :
        (got : Received)
        → take_datagram max_buff port (packet op_data (suc k) b) c ≡ ok got
        → (elim got [
          | waits ↦ stop recvfrom_error
          | timeout ↦ stop recvfrom_error
          | interrupted ↦ stop recvfrom_error
          | bytes n c₁ ↦ dispatch n c₁
        ])
          ≡ ok (v, c')
        → Receiving mode blocks c'
          × (v ≡ (if length b == max_data then more else done))
          × (k < 65535 → c'.nextblknum ≡ suc (suc k))
    go waits e₁ e₂ = cc
    go timeout e₁ e₂ = cc
    go interrupted e₁ e₂ = cc
    go (bytes n c₁) e₁ e₂ =
        let (i, q) = take_datagram-bytes port n (packet op_data (suc k) b) c c₁ e₁ in
        let p : Bytes = packet op_data (suc k) b in
        let r = received port p c in
        let whole : take max_buff p ≡ p = take-all max_buff p (omega arith) in
        let fits : length b + 4 ≤ length c.recvbuff = omega (arith, h.space) in
        let m : n - 2 ≡ length b + 2 = omega (arith, i, ap length whole) in
        let taken =
          dispatch-data n r h.awaits
            (ap (λ t. ldshort (overlay t c.recvbuff)) whole
              ∙ held_op op_data (suc k) b c.recvbuff fits (omega arith))
            (subst (λ t. dispatch n t ≡ ok (v, c')) q e₂) in
        recv_data-Receiving blocks k b (drop 2 r.recvbuff)
          (record r { op_recv = ldshort r.recvbuff })
          (Receiving-received blocks port p c (ldshort r.recvbuff) h) g few
          (ap (λ t. ldshort (drop 2 (overlay t c.recvbuff))) whole
            ∙ held_block op_data (suc k) b c.recvbuff fits)
          (ap (λ t. take (length b) (drop 2 (drop 2 (overlay t c.recvbuff)))) whole
            ∙ held_payload op_data (suc k) b c.recvbuff fits)
          (subst
            (λ t.
              recv_data (drop 2 r.recvbuff) t (record r { op_recv = ldshort r.recvbuff })
              ≡ ok (v, c'))
            m taken)
