-- ===== src/Tftp/Exchange/Upload/Begin.antt =====
-- The two ends at the start of a put: the server once it has answered the request, and the client
-- once it has sent it.
use mathlib.Core.Path.{subst}
use my_coding_exercises.Common.{
  ℕ, ◌≡◌, refl, sym, ap, ◌∙◌, false, inr, none, some, List, [], ◌∷◌, ◌++◌, Bytes, length, take,
  write_at-nil, arith,
}
use my_coding_exercises.Tftp.Exchange.Packets.{built}
use my_coding_exercises.Tftp.Exchange.Receiver.{Receiving, Wrote}
use my_coding_exercises.Tftp.Exchange.Start.{Fresh}
use my_coding_exercises.Tftp.Run.{ok, Verdict, bind-eq-ok, ok-injective}
use my_coding_exercises.Tftp.Server.Access.{Granted, recv_xrq-Granted}
use my_coding_exercises.Tftp.Server.File.{write_ascii}
use my_coding_exercises.Tftp.Server.Net.{net_send}
use my_coding_exercises.Tftp.Server.Send.{Os, recv_xrq, send_ack, recv_wrq}
use my_coding_exercises.Tftp.Session.{Session, Stream}
use my_coding_exercises.Tftp.Wire.{max_buff, op_wrq, op_ack, packet, stshort}

-- `fopen` gives an empty file to write to, and writing to it does not fail.
abbrev pub WritesWell : Os → Type 0
WritesWell os =
    (name : Bytes) (fp : Stream)
    → os.fopen name false ≡ some fp
    → (fp.write_fails ≡ false) × (fp.written ≡ [])

-- What the server is once it has answered a write request: it has acknowledged block 0, and is a
-- receiver that has taken nothing.
pub record Accepts (os : Os) (ptr : Bytes) (n : ℕ) (s s' : Session) : Type 0 where
  pub opened : Session
  pub granted : Granted os op_wrq ptr n s opened
  pub next : s'.nextblknum ≡ 1
  pub op : s'.op_sent ≡ op_ack
  pub receives : (blocks : List Bytes) → Receiving granted.mode blocks s'
  pub answered : s'.socket ≡ record (s.socket) { sent = s.socket.sent ++ packet op_ack 0 [] ∷ [] }

-- The session once block 0 has been acknowledged.
abbrev acked : Session → Session
acked s =
    let filled = stshort 0 2 (stshort op_ack 0 s.sendbuff) in
    record s {
      sendbuff = filled;
      sendlen = 4;
      op_sent = op_ack;
      socket = record (s.socket) { sent = s.socket.sent ++ take 4 filled ∷ [] };
    }

send_ack-acked : (s : Session) → s.socket.send_fails ≡ false → send_ack 0 s ≡ ok (acked s)
unfolding send_ack net_send
send_ack-acked s works = rw (send_ack, net_send, works) refl

ack_zero :
    (buff : Bytes)
    → length buff ≡ max_buff
    → take 4 (stshort 0 2 (stshort op_ack 0 buff)) ≡ packet op_ack 0 []
ack_zero buff h =
    ap (λ b. take 4 (stshort 0 2 (stshort op_ack 0 b))) (sym (write_at-nil 4 buff))
    ∙ built op_ack 0 [] buff (omega arith)

start-Wrote :
    (mode : ℕ) (fp : Stream)
    → fp.write_fails ≡ false
    → fp.written ≡ []
    → Wrote mode [] (record { stream = fp; lastcr = false; nextchar = none })
unfolding write_ascii
start-Wrote mode fp good empty = (good, ground (arith, empty))

-- On a system where `fopen` gives an empty file to write to that takes what is written, a fresh
-- server process whose `recv_WRQ` returns has granted the request and acknowledged block 0: it
-- waits for block 1 as a receiver in the mode of the request, and has sent nothing else.
pub recv_wrq-Accepts :
    (os : Os) (ptr : Bytes) (n : ℕ) (s : Session) {v : Verdict} {s' : Session}
    → Fresh s
    → WritesWell os
    → recv_wrq os ptr n s ≡ ok (v, s')
    → Accepts os ptr n s s'
unfolding recv_wrq
recv_wrq-Accepts os ptr n s {v} {s'} f writes e =
    let (s₁, e₁, r₁) = bind-eq-ok (recv_xrq os op_wrq ptr n s) _ e in
    let g = recv_xrq-Granted os op_wrq ptr n s e₁ in
    let (s₂, e₂, r₂) = bind-eq-ok (send_ack 0 (record s₁ { nextblknum = 1 })) _ r₁ in
    let last = ap (λ (r : Verdict × Session). r.1) (ok-injective r₂) in
    let s₀ = record s {
      modetype = g.mode;
      nextblknum = 1;
      localfp = record { stream = g.stream; lastcr = false; nextchar = none };
    } in
    let same : s₂ ≡ acked s₀ = ok-injective (
      sym e₂
      ∙ ap (λ (t : Session). send_ack 0 (record t { nextblknum = 1 })) g.state
      ∙ send_ack-acked s₀ f.works) in
    subst (Accepts os ptr n s) (sym same ∙ last) (record {
      opened = s₁;
      granted = g;
      next = refl;
      op = refl;
      receives = λ blocks. first_receiver blocks g (writes g.filename g.stream g.opened);
      answered =
          ap (λ b. record (s.socket) { sent = s.socket.sent ++ b ∷ [] })
            (ack_zero s.sendbuff f.room);
    })
  where
    first_receiver :
        {s₁ : Session} (blocks : List Bytes) (g : Granted os op_wrq ptr n s s₁)
        → (g.stream.write_fails ≡ false) × (g.stream.written ≡ [])
        → Receiving g.mode blocks (
            acked (record s {
              modetype = g.mode;
              nextblknum = 1;
              localfp = record { stream = g.stream; lastcr = false; nextchar = none };
            }))
    first_receiver blocks g (good, empty) = record {
      from_one = omega arith;
      taken = omega arith;
      wrote = start-Wrote g.mode g.stream good empty;
      in_mode = refl;
      known_mode = g.known_mode;
      space = f.space;
      awaits = inr refl;
    }
