-- ===== src/Tftp/Exchange/Upload/Stores.antt =====
-- The server of a put is given a block by the network: the tests of `net_recv` and `fsm_loop` take it
-- to `recv_DATA`.
use mathlib.Core.Path.{subst}
use my_coding_exercises.Common.{
  ℕ, suc, ◌+◌, ◌-◌, ◌≤◌, ◌<◌, ◌≡◌, ap, ◌∙◌, ◌⊎◌, inl, inr, List, some, Bytes, length, take, drop,
  get_elem?, overlay, length-overlay, arith, if◌then◌else◌, ◌==◌, take-all,
}
use my_coding_exercises.Tftp.Exchange.{serve}
use my_coding_exercises.Tftp.Exchange.Packets.{held_op, held_block, held_payload}
use my_coding_exercises.Tftp.Exchange.Receiver.{Receiving, recv_data-Receiving}
use my_coding_exercises.Tftp.Exchange.Serve.{received, dispatch-call, take_datagram-bytes}
use my_coding_exercises.Tftp.Exchange.Upload.Same.{recv_data-client}
use my_coding_exercises.Tftp.Run.{ok, stop, Verdict, more, done, bind-eq-ok, recvfrom_error}
use my_coding_exercises.Tftp.Server.Fsm.{Handler, fsm_invalid, on_data, handler_at, dispatch, call}
use my_coding_exercises.Tftp.Server.Net.{
  Received, waits, timeout, interrupted, bytes, take_datagram,
}
use my_coding_exercises.Tftp.Server.Send.{Os, recv_data}
use my_coding_exercises.Tftp.Session.{Session}
use my_coding_exercises.Tftp.Wire.{max_buff, max_data, op_rrq, op_data, op_ack, ldshort, packet}

pub Receiving-received :
    {mode : ℕ} (blocks : List Bytes) (port : ℕ) (p : Bytes) (s : Session) (op : ℕ)
    → Receiving mode blocks s
    → Receiving mode blocks (record (received port p s) { op_recv = op })
Receiving-received blocks port p s op h = record {
  from_one = h.from_one;
  taken = h.taken;
  wrote = h.wrote;
  in_mode = h.in_mode;
  known_mode = h.known_mode;
  space = length-overlay (take max_buff p) s.recvbuff ∙ h.space;
  awaits = h.awaits;
}

module _ (os : Os) where
  dispatch-data :
      (n : ℕ) (s : Session) {r : Verdict × Session}
      → (s.op_sent ≡ op_rrq) ⊎ (s.op_sent ≡ op_ack)
      → ldshort s.recvbuff ≡ op_data
      → dispatch os n s ≡ ok r
      → recv_data (drop 2 s.recvbuff) (n - 2) (record s { op_recv = ldshort s.recvbuff }) ≡ ok r
  unfolding call
  dispatch-data n s {r} awaits i e =
      let at = λ (k : Handler) (row : handler_at s.op_sent (ldshort s.recvbuff) ≡ k).
        subst
          (λ k.
            call os k (drop 2 s.recvbuff) (n - 2) (record s { op_recv = ldshort s.recvbuff })
            ≡ ok r)
          row (dispatch-call os n s e).1 in
      elim awaits [
        | inl rrq ↦ cc (
            at fsm_invalid
              (ap (λ o. handler_at o (ldshort s.recvbuff)) rrq ∙ ap (handler_at op_rrq) i))
        | inr acked ↦
            at on_data
              (ap (λ o. handler_at o (ldshort s.recvbuff)) acked ∙ ap (handler_at op_ack) i)
      ]

  -- A server that receives a file is given block `k + 1` of at most 512 bytes in a datagram, the
  -- number being taken modulo 65536. If it goes on, it is still a receiver, which has written
  -- exactly the blocks that it has taken; it ends if and only if the block is shorter than 512
  -- bytes, and below block 65536 it waits for block `k + 2` next.
  pub serve-Receiving :
      {mode : ℕ} (blocks : List Bytes) (k : ℕ) (b : Bytes) (port : ℕ) (s : Session) {v : Verdict}
      {s' : Session}
      → Receiving mode blocks s
      → get_elem? blocks k ≡ some b
      → length b ≤ max_data
      → k < 65536
      → serve os port (packet op_data (suc k) b) s ≡ ok (v, s')
      → Receiving mode blocks s'
        × (v ≡ (if length b == max_data then more else done))
        × (k < 65535 → s'.nextblknum ≡ suc (suc k))
  unfolding serve
  serve-Receiving {mode} blocks k b port s {v} {s'} h g small few e =
      let (got, e₁, e₂) =
        bind-eq-ok (take_datagram max_buff port (packet op_data (suc k) b) s) _ e in
      go got e₁ e₂
    where
      go :
          (got : Received)
          → take_datagram max_buff port (packet op_data (suc k) b) s ≡ ok got
          → (elim got [
            | waits ↦ stop recvfrom_error
            | timeout ↦ stop recvfrom_error
            | interrupted ↦ stop recvfrom_error
            | bytes n s₁ ↦ dispatch os n s₁
          ])
            ≡ ok (v, s')
          → Receiving mode blocks s'
            × (v ≡ (if length b == max_data then more else done))
            × (k < 65535 → s'.nextblknum ≡ suc (suc k))
      go waits e₁ e₂ = cc
      go timeout e₁ e₂ = cc
      go interrupted e₁ e₂ = cc
      go (bytes n s₁) e₁ e₂ =
          let (i, q) = take_datagram-bytes port n (packet op_data (suc k) b) s s₁ e₁ in
          let p : Bytes = packet op_data (suc k) b in
          let r = received port p s in
          let whole : take max_buff p ≡ p = take-all max_buff p (omega arith) in
          let fits : length b + 4 ≤ length s.recvbuff = omega (arith, h.space) in
          let m : n - 2 ≡ length b + 2 = omega (arith, i, ap length whole) in
          let taken =
            dispatch-data n r h.awaits
              (ap (λ t. ldshort (overlay t s.recvbuff)) whole
                ∙ held_op op_data (suc k) b s.recvbuff fits (omega arith))
              (subst (λ t. dispatch os n t ≡ ok (v, s')) q e₂) in
          recv_data-Receiving blocks k b (drop 2 r.recvbuff)
            (record r { op_recv = ldshort r.recvbuff })
            (Receiving-received blocks port p s (ldshort r.recvbuff) h) g few
            (ap (λ t. ldshort (drop 2 (overlay t s.recvbuff))) whole
              ∙ held_block op_data (suc k) b s.recvbuff fits)
            (ap (λ t. take (length b) (drop 2 (drop 2 (overlay t s.recvbuff)))) whole
              ∙ held_payload op_data (suc k) b s.recvbuff fits)
            (recv_data-client (drop 2 r.recvbuff) (length b + 2)
              (record r { op_recv = ldshort r.recvbuff })
              (subst
                (λ t.
                  recv_data (drop 2 r.recvbuff) t (record r { op_recv = ldshort r.recvbuff })
                  ≡ ok (v, s'))
                m taken))
