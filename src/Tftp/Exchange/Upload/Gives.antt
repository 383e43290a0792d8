-- ===== src/Tftp/Exchange/Upload/Gives.antt =====
-- The client of a put under any datagram at all: it answers acknowledgements as a sender does.
use mathlib.Core.Path.{subst}
use my_coding_exercises.Common.{
  All, ℕ, zero, suc, ◌-◌, ◌<◌, ◌≡◌, refl, sym, ap, ◌∙◌, ◌⊎◌, inl, inr, List, [], ◌∷◌, ◌++◌,
  append-nil, Bytes, length, length-append, length-take, length-drop, length-write_at, take, drop,
  length-overlay, write_at, arith,
}
use my_coding_exercises.Tftp.Client.Fsm.{
  Handler, fsm_invalid, fsm_error, on_ack, on_rqerr, handler_at, dispatch, call,
}
use my_coding_exercises.Tftp.Client.Net.{take_datagram}
use my_coding_exercises.Tftp.Client.Send.{recv_ack, recv_rqerr}
use my_coding_exercises.Tftp.Exchange.{consume}
use my_coding_exercises.Tftp.Exchange.Consume.{received, dispatch-call, take_datagram-bytes}
use my_coding_exercises.Tftp.Exchange.Goes.{recv_ack-cases}
use my_coding_exercises.Tftp.Exchange.Sender.{
  Sending, Answered, all_sent, next_block, accept_ack-ok,
}
use my_coding_exercises.Tftp.Exchange.Serve.{IsByte, All-take, low_short}
use my_coding_exercises.Tftp.Exchange.Upload.Same.{recv_ack-server}
use my_coding_exercises.Tftp.Run.{ok, stop, Verdict, bind-eq-ok, ok-injective, recvfrom_error}
use my_coding_exercises.Tftp.Server.Net.{Received, waits, timeout, interrupted, bytes}
use my_coding_exercises.Tftp.Session.{Session}
use my_coding_exercises.Tftp.Wire.{max_buff, op_wrq, op_data, op_ack, ldshort}

-- The client has asked to write and sent nothing yet, or it has sent a block last.
abbrev pub Stage : List Bytes → Session → Type 0
Stage blocks c =
    ((c.op_sent ≡ op_wrq) × (length blocks ≡ 0)) ⊎ ((c.op_sent ≡ op_data) × (0 < length blocks))

-- It has sent some blocks more, or none.
pub record Gives (network : Bytes) (blocks : List Bytes) (c' : Session) : Type 0 where
  pub later : List Bytes
  pub sending : Sending network (blocks ++ later) c'
  pub stage : Stage (blocks ++ later) c'

Gives-here :
    {network : Bytes} {blocks : List Bytes} {c : Session}
    → Sending network blocks c
    → Stage blocks c
    → Gives network blocks c
Gives-here {network} {blocks} {c} h stage = record {
  later = [];
  sending = subst (λ b. Sending network b c) (sym (append-nil blocks)) h;
  stage = subst (λ b. Stage b c) (sym (append-nil blocks)) stage;
}

Stage-same :
    (blocks : List Bytes) (c c' : Session)
    → c'.op_sent ≡ c.op_sent
    → Stage blocks c
    → Stage blocks c'
Stage-same blocks c c' e (inl (op, none_sent)) = inl (e ∙ op, none_sent)
Stage-same blocks c c' e (inr (op, some_sent)) = inr (e ∙ op, some_sent)

Answered-Gives :
    {network : Bytes} {blocks : List Bytes} {c : Session} {v : Verdict} {c' : Session}
    → Stage blocks c
    → Answered network blocks c v c'
    → Gives network blocks c'
Answered-Gives {blocks = blocks} {c = c} {c' = c'} stage (all_sent h _ _ o _) =
    Gives-here h (Stage-same blocks c c' o stage)
Answered-Gives {blocks = blocks} stage (next_block out h o _) = record {
  later = out ∷ [];
  sending = h;
  stage = inr (o, omega (arith, length-append blocks (out ∷ [])));
}

recv_ack-Gives :
    (network : Bytes) (blocks : List Bytes) (c : Session) (ptr : Bytes) (n : ℕ) {v : Verdict}
    {c' : Session}
    → Sending network blocks c
    → Stage blocks c
    → (n ≡ 2 → ldshort ptr < 65536)
    → recv_ack ptr n c ≡ ok (v, c')
    → Gives network blocks c'
recv_ack-Gives network blocks c ptr n {v} {c'} h stage small e =
    let (two, cases) = recv_ack-cases ptr n c (recv_ack-server ptr n c e) in
    elim cases [
      | inl (i, a) ↦
          Answered-Gives stage (accept_ack-ok network blocks c h (omega (arith, small two)) a)
      | inr (_, _, same) ↦ subst (Gives network blocks) (sym same) (Gives-here h stage)
    ]

-- An error packet ends the loop; it has been printed, and nothing else has changed.
recv_rqerr-Gives :
    (network : Bytes) (blocks : List Bytes) (c : Session) (n : ℕ) {v : Verdict} {c' : Session}
    → Sending network blocks c
    → Stage blocks c
    → recv_rqerr (drop 2 c.recvbuff) n c ≡ ok (v, c')
    → Gives network blocks c'
unfolding recv_rqerr
recv_rqerr-Gives network blocks c n h stage e =
    subst (Gives network blocks) (ap (λ (r : Verdict × Session). r.1) (ok-injective e)) (
      Gives-here
        record {
          cut = h.cut;
          counted = h.counted;
          few = h.few;
          last = h.last;
          works = h.works;
          readable = h.readable;
          known_mode = h.known_mode;
          room = h.room;
          space = omega (
            arith,
            h.space,
            length-append (take 2 c.recvbuff) (write_at n (0 ∷ []) (drop 2 c.recvbuff)),
            length-take 2 c.recvbuff,
            length-write_at n (0 ∷ []) (drop 2 c.recvbuff),
            length-drop 2 c.recvbuff,
          );
          sent = h.sent;
          buffered = h.buffered;
        }
        stage)

-- What the rows of a sender hold.
data Reacts (op : ℕ) : Handler → Type 0 where
  takes_ack : op ≡ op_ack → Reacts op on_ack
  takes_error : Reacts op on_rqerr
  fails : Reacts op fsm_error
  rejects : Reacts op fsm_invalid

row_of_wrq : (op : ℕ) → Reacts op (handler_at op_wrq op)
row_of_wrq zero = rejects
row_of_wrq (suc zero) = rejects
row_of_wrq (suc (suc zero)) = rejects
row_of_wrq (suc (suc (suc zero))) = rejects
row_of_wrq (suc (suc (suc (suc zero)))) = takes_ack refl
row_of_wrq (suc (suc (suc (suc (suc zero))))) = takes_error
row_of_wrq (suc (suc (suc (suc (suc (suc op)))))) = rejects

row_of_data : (op : ℕ) → Reacts op (handler_at op_data op)
row_of_data zero = rejects
row_of_data (suc zero) = rejects
row_of_data (suc (suc zero)) = rejects
row_of_data (suc (suc (suc zero))) = rejects
row_of_data (suc (suc (suc (suc zero)))) = takes_ack refl
row_of_data (suc (suc (suc (suc (suc zero))))) = fails
row_of_data (suc (suc (suc (suc (suc (suc op)))))) = rejects

Stage-Reacts :
    (blocks : List Bytes) (c : Session) (op : ℕ)
    → Stage blocks c
    → Reacts op (handler_at c.op_sent op)
Stage-Reacts blocks c op (inl (e, _)) =
    subst (λ o. Reacts op (handler_at o op)) (sym e) (row_of_wrq op)
Stage-Reacts blocks c op (inr (e, _)) =
    subst (λ o. Reacts op (handler_at o op)) (sym e) (row_of_data op)

call-Gives :
    (network : Bytes) (blocks : List Bytes) (c : Session) (n op : ℕ) {k : Handler} {v : Verdict}
    {c' : Session}
    → Reacts op k
    → Sending network blocks c
    → Stage blocks c
    → (n ≡ 2 → ldshort (drop 2 c.recvbuff) < 65536)
    → call k (drop 2 c.recvbuff) n c ≡ ok (v, c')
    → Gives network blocks c'
unfolding call
call-Gives network blocks c n op (takes_ack _) h stage small e =
    recv_ack-Gives network blocks c (drop 2 c.recvbuff) n h stage small e
call-Gives network blocks c n op takes_error h stage small e =
    recv_rqerr-Gives network blocks c n h stage e
call-Gives network blocks c n op fails h stage small e = cc
call-Gives network blocks c n op rejects h stage small e = cc

Sending-received :
    (network : Bytes) (blocks : List Bytes) (port : ℕ) (p : Bytes) (c : Session) (op : ℕ)
    → Sending network blocks c
    → Sending network blocks (record (received port p c) { op_recv = op })
Sending-received network blocks port p c op h = record {
  cut = h.cut;
  counted = h.counted;
  few = h.few;
  last = h.last;
  works = h.works;
  readable = h.readable;
  known_mode = h.known_mode;
  room = h.room;
  space = length-overlay (take max_buff p) c.recvbuff ∙ h.space;
  sent = h.sent;
  buffered = h.buffered;
}

-- A client that puts a file, with some blocks sent or none, is given any datagram of bytes from any
-- port. If its handler returns, it is still a sender of that file: it has sent the same blocks and
-- perhaps more, each under its own number, and together with what is left of the file they make
-- up its network form.
pub consume-Gives :
    (network : Bytes) (blocks : List Bytes) (port : ℕ) (p : Bytes) (c : Session) {v : Verdict}
    {c' : Session}
    → Sending network blocks c
    → Stage blocks c
    → All IsByte p
    → consume port p c ≡ ok (v, c')
    → Gives network blocks c'
unfolding consume
consume-Gives network blocks port p c {v} {c'} h stage small e =
    let (got, e₁, e₂) = bind-eq-ok (take_datagram max_buff port p c) _ e in go got e₁ e₂
  where
    go :
        (got : Received)
        → take_datagram max_buff port p c ≡ ok got
        → (elim got [
          | waits ↦ stop recvfrom_error
          | timeout ↦ stop recvfrom_error
          | interrupted ↦ stop recvfrom_error
          | bytes n c₁ ↦ dispatch n c₁
        ])
          ≡ ok (v, c')
        → Gives network blocks c'
    go waits e₁ e₂ = cc
    go timeout e₁ e₂ = cc
    go interrupted e₁ e₂ = cc
    go (bytes n c₁) e₁ e₂ =
        let (i, q) = take_datagram-bytes port n p c c₁ e₁ in
        let r = received port p c in
        let (long, called) = dispatch-call n r (subst (λ t. dispatch n t ≡ ok (v, c')) q e₂) in
        let op = ldshort r.recvbuff in
        call-Gives network blocks (record r { op_recv = op }) (n - 2) op
          (Stage-Reacts blocks c op stage) (Sending-received network blocks port p c op h) stage
          (λ two.
            low_short (take max_buff p) c.recvbuff (All-take max_buff p small)
              (omega (arith, two, i, long)) h.space)
          called
