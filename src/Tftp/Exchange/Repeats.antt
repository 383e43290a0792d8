-- ===== src/Tftp/Exchange/Repeats.antt =====
-- The sender in its own loop, with the clock, the time-outs and the packets sent again: what the
-- rounds of the server's `fsm_loop` send.
use mathlib.Core.Path.{subst}
use my_coding_exercises.Common.{
  All, All-append, ℕ, ◌-◌, ◌<◌, ◌≡◌, refl, sym, ap, ◌∙◌, inl, inr, Bool, true, false, none, List,
  [], ◌∷◌, ◌++◌, Bytes, length, length-append, drop, take, arith, if◌then◌else◌,
}
use my_coding_exercises.Tftp.Exchange.Blocks.{Carries, joined}
use my_coding_exercises.Tftp.Exchange.Goes.{recv_ack-cases}
use my_coding_exercises.Tftp.Exchange.Sender.{
  Sending, Answered, all_sent, next_block, accept_ack-ok,
}
use my_coding_exercises.Tftp.Exchange.Serve.{
  IsByte, All-take, dispatch-ok, low_short, received, take_datagram-bytes, Sending-received,
}
use my_coding_exercises.Tftp.Real.{Real}
use my_coding_exercises.Tftp.Rtt.{Timer, rtt_start, rtt_stop, rtt_timeout}
use my_coding_exercises.Tftp.Run.{
  ok, stop, ◌>>=◌, Verdict, more, done, bind-eq-ok, ok-injective, receive_error,
}
use my_coding_exercises.Tftp.Server.Fsm.{
  Round, Machine, Loop, finished, timed_out, waiting, blocked, round, rounds, dispatch,
}
use my_coding_exercises.Tftp.Server.Net.{
  Arrival, alarm, child, failure, datagram, Received, waits, timeout, interrupted, bytes,
  take_datagram, receive, net_recv, net_send,
}
use my_coding_exercises.Tftp.Server.Send.{Os, recv_ack}
use my_coding_exercises.Tftp.Session.{Session}
use my_coding_exercises.Tftp.Wire.{max_buff, op_data, ldshort}

-- A server process under way: it has sent some blocks, and has no request left to read.
pub record Sends (network : Bytes) (s : Session) : Type 0 where
  pub blocks : List Bytes
  pub sends : Sending network blocks s
  pub op : s.op_sent ≡ op_data
  pub started : 0 < length blocks
  pub no_request : s.socket.recv_nbytes ≡ none

-- What may arrive: any bytes, from any port, or a signal or an error.
unfoldable pub IsArrival : Arrival → Type 0
IsArrival alarm = Unit
IsArrival child = Unit
IsArrival failure = Unit
IsArrival (datagram port p) = All IsByte p

-- The sender after a datagram: if it ends, it has sent the whole file.
After : Bytes → Verdict → Session → Type 0
After network more s = Sends network s
After network done s = (h : Sends network s) × (joined h.blocks ≡ network)

Answered-After :
    {network : Bytes} {s : Session} {v : Verdict} {s' : Session} (h : Sends network s)
    → Answered network h.blocks s v s'
    → After network v s'
unfolding After
Answered-After h (all_sent sends all _ o k) = (
  record {
    blocks = h.blocks;
    sends = sends;
    op = o ∙ h.op;
    started = h.started;
    no_request = ap (λ t. t.recv_nbytes) k ∙ h.no_request;
  },
  all,
)
Answered-After h (next_block out sends o k) = record {
  blocks = h.blocks ++ out ∷ [];
  sends = sends;
  op = o;
  started = omega (arith, length-append h.blocks (out ∷ []));
  no_request = ap (λ t. t.recv_nbytes) k ∙ h.no_request;
}

recv_ack-After :
    (network : Bytes) (s : Session) (ptr : Bytes) (n : ℕ) {v : Verdict} {s' : Session}
    → Sends network s
    → (n ≡ 2 → ldshort ptr < 65536)
    → recv_ack ptr n s ≡ ok (v, s')
    → After network v s'
unfolding After
recv_ack-After network s ptr n {v} {s'} h small e =
    let (two, cases) = recv_ack-cases ptr n s e in
    elim cases [
      | inl (i, a) ↦
          Answered-After h (accept_ack-ok network h.blocks s h.sends (omega (arith, small two)) a)
      | inr (_, goes, same) ↦
          subst (λ w. After network w s') (sym goes) (subst (Sends network) (sym same) h)
    ]

Sends-received :
    {network : Bytes} (port : ℕ) (p : Bytes) (s : Session) (op : ℕ)
    → Sends network s
    → Sends network (record (received port p s) { op_recv = op })
Sends-received {network} port p s op h = record {
  blocks = h.blocks;
  sends = Sending-received network h.blocks port p s op h.sends;
  op = h.op;
  started = h.started;
  no_request = h.no_request;
}

-- The time-out sends a block again.
Sends-again :
    {network : Bytes} (s : Session) {s' : Session}
    → Sends network s
    → net_send s.sendbuff s.sendlen s ≡ ok s'
    → Sends network s'
unfolding net_send
Sends-again {network} s h e = subst (Sends network) (ok-injective (rw h.sends.works at e)) (record {
  blocks = h.blocks;
  sends = record {
    cut = h.sends.cut;
    counted = h.sends.counted;
    few = h.sends.few;
    last = h.sends.last;
    works = refl;
    readable = h.sends.readable;
    known_mode = h.sends.known_mode;
    room = h.sends.room;
    space = h.sends.space;
    sent =
        All-append (Carries h.blocks) s.socket.sent _ h.sends.sent (h.sends.buffered h.started, tt);
    buffered = h.sends.buffered;
  };
  op = h.op;
  started = h.started;
  no_request = h.no_request;
})

receive-bytes :
    (arrivals : List Arrival) (s : Session) {n : ℕ} {s₁ : Session}
    → All IsArrival arrivals
    → receive max_buff arrivals s ≡ ok (bytes n s₁)
    → (port : ℕ) × (p : Bytes) × All IsByte p × (take_datagram max_buff port p s ≡ ok (bytes n s₁))
unfolding receive IsArrival
receive-bytes [] s h e = cc
receive-bytes (alarm ∷ arrivals) s h e = cc
receive-bytes (child ∷ arrivals) s h e = receive-bytes arrivals s h.1 e
receive-bytes (failure ∷ arrivals) s h e = cc
receive-bytes (datagram port p ∷ arrivals) s h e = (port, p, h.0, e)

net_recv-receive :
    (arrivals : List Arrival) (s : Session)
    → s.socket.recv_nbytes ≡ none
    → net_recv max_buff arrivals s ≡ receive max_buff arrivals s
unfolding net_recv
net_recv-receive arrivals s h = rw h refl

dispatch-After :
    (os : Os) (network : Bytes) (arrivals : List Arrival) (s : Session) {n : ℕ} {s₁ : Session}
    {v : Verdict} {s' : Session}
    → Sends network s
    → All IsArrival arrivals
    → net_recv max_buff arrivals s ≡ ok (bytes n s₁)
    → dispatch os n s₁ ≡ ok (v, s')
    → After network v s'
dispatch-After os network arrivals s {n} {s₁} {v} {s'} h brings got e =
    let (port, p, small, took) =
      receive-bytes arrivals s brings (sym (net_recv-receive arrivals s h.no_request) ∙ got) in
    let (i, q) = take_datagram-bytes port n p s s₁ took in
    let r = received port p s in
    let (long, answer) = dispatch-ok os n r h.op (subst (λ t. dispatch os n t ≡ ok (v, s')) q e) in
    recv_ack-After network (record r { op_recv = ldshort r.recvbuff }) (drop 2 r.recvbuff) (n - 2)
      (Sends-received port p s (ldshort r.recvbuff) h)
      (λ two.
        low_short (take max_buff p) s.recvbuff (All-take max_buff p small)
          (omega (arith, two, i, long)) h.sends.space)
      answer

module _ (R : Real) where
  -- The loop at a place: a sender, which has sent all of the file if the loop has returned 0.
  pub Stands : Bytes → Loop R → Type 0
  Stands network (finished m) = (h : Sends network m.session) × (joined h.blocks ≡ network)
  Stands network (timed_out m) = Sends network m.session
  Stands network (waiting m) = Sends network m.session
  Stands network (blocked m) = Sends network m.session

  Stands-After :
      (network : Bytes) (v : Verdict) (m : Machine R)
      → After network v m.session
      → Stands network (elim v [ more ↦ waiting m | done ↦ finished m ])
  unfolding After Stands
  Stands-After network more m h = h
  Stands-After network done m h = h

  Stands-again :
      (network : Bytes) (again : Bool) (m : Machine R) (t : Timer R) {l : Loop R}
      → Sends network m.session
      → (if again
          then (net_send m.session.sendbuff m.session.sendlen m.session >>= λ s.
              ok (waiting (record m { session = s; rttinfo = t })))
          else ok (timed_out (record m { rttinfo = t })))
        ≡ ok l
      → Stands network l
  unfolding Stands
  Stands-again network true m t h e =
      let (s, sent, rest) =
        bind-eq-ok (net_send m.session.sendbuff m.session.sendlen m.session) _ e in
      subst (Stands network) (ok-injective rest) (Sends-again m.session h sent)
  Stands-again network false m t h e = subst (Stands network) (ok-injective e) h

  module _ (os : Os) where
    round-Stands :
        (network : Bytes) (r : Round) (m : Machine R) {l : Loop R}
        → Sends network m.session
        → All IsArrival r.arrivals
        → round R os r m ≡ ok l
        → Stands network l
    unfolding round Stands
    round-Stands network r m {l} h brings e =
        let (t₁, started, e₁) = bind-eq-ok (rtt_start R r.started m.rttinfo) _ e in
        let (got, received, e₂) = bind-eq-ok (net_recv max_buff r.arrivals m.session) _ e₁ in
        go t₁ got received e₂
      where
        go :
            (t₁ : Timer R) (got : Received)
            → net_recv max_buff r.arrivals m.session ≡ ok got
            → (elim got [
              | waits ↦ ok (blocked (record m { rttinfo = t₁ }))
              | timeout ↦ rtt_timeout R r.stopped t₁ >>= λ (again, t₂).
                  (if again
                    then (net_send m.session.sendbuff m.session.sendlen m.session >>= λ s.
                        ok (waiting (record m { session = s; rttinfo = t₂ })))
                    else ok (timed_out (record m { rttinfo = t₂ })))
              | interrupted ↦ stop receive_error
              | bytes n s ↦ rtt_stop R r.stopped t₁ >>= λ t₂.
                  (dispatch os n s >>= λ (v, s'). ok (elim v [
                    | more ↦ waiting (record m { session = s'; rttinfo = t₂ })
                    | done ↦ finished (record m { session = s'; rttinfo = t₂ })
                  ]))
            ])
              ≡ ok l
            → Stands network l
        go t₁ waits i k = subst (Stands network) (ok-injective k) h
        go t₁ timeout i k =
            let ((again, t₂), late, rest) = bind-eq-ok (rtt_timeout R r.stopped t₁) _ k in
            Stands-again network again m t₂ h rest
        go t₁ interrupted i k = cc
        go t₁ (bytes n s) i k =
            let (t₂, stopped, k₁) = bind-eq-ok (rtt_stop R r.stopped t₁) _ k in
            let ((v, s'), answer, k₂) = bind-eq-ok (dispatch os n s) _ k₁ in
            subst (Stands network) (ok-injective k₂) (
              Stands-After network v (record m { session = s'; rttinfo = t₂ })
                (dispatch-After os network r.arrivals m.session h brings i answer))

    -- A server process that sends a file, whose `sendto` works and whose file has no read error,
    -- with a block sent and no request left to read, runs the rounds of its loop on any datagrams
    -- of bytes from any ports, alarms, signals and errors of `recvfrom`, whatever the readings of
    -- the clock and the arithmetic of the timer are. If the process does not exit, then it is still
    -- a sender of the file wherever the loop stands: every packet that it has sent, the repeated
    -- ones included, is a block under its own number, and the blocks make up the file's network
    -- form together with what is left of the file. Once the loop has returned 0, the blocks are the
    -- whole of it.
    pub rounds-Sends :
        (network : Bytes) (rs : List Round) (m : Machine R) {l : Loop R}
        → Sends network m.session
        → All (λ r. All IsArrival r.arrivals) rs
        → rounds R os rs m ≡ ok l
        → Stands network l
    unfolding rounds Stands
    rounds-Sends network [] m h brings e = subst (Stands network) (ok-injective e) h
    rounds-Sends network (r ∷ rs) m {l} h brings e =
        let (l', now, rest) = bind-eq-ok (round R os r m) _ e in
        go (λ m' h' k. rounds-Sends network rs m' h' brings.1 k) l'
          (round-Stands network r m h brings.0 now) rest
      where
        go :
            ((m' : Machine R)
              → Sends network m'.session
              → rounds R os rs m' ≡ ok l
              → Stands network l)
            → (l' : Loop R) → Stands network l'
            → (elim l' [
              | waiting m' ↦ rounds R os rs m'
              | finished m' ↦ ok (finished m')
              | timed_out m' ↦ ok (timed_out m')
              | blocked m' ↦ ok (blocked m')
            ])
              ≡ ok l
            → Stands network l
        go later (waiting m') h' k = later m' h' k
        go later (finished m') h' k = subst (Stands network) (ok-injective k) h'
        go later (timed_out m') h' k = subst (Stands network) (ok-injective k) h'
        go later (blocked m') h' k = subst (Stands network) (ok-injective k) h'
