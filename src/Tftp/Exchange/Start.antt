-- ===== src/Tftp/Exchange/Start.antt =====
-- The two ends at the start of a read request: the server once it has answered the request, and the
-- client once it has sent it.
use mathlib.Core.Path.{subst}
use my_coding_exercises.Common.{
  All, ℕ, ◌<◌, ◌≤◌, ◌≡◌, refl, sym, ap, ◌∙◌, true, false, inl, inr, some, List, [], ◌∷◌, ◌++◌,
  Bytes, length, take, arith,
}
use my_coding_exercises.Tftp.Exchange.Download.{
  System, Inv, Reach, Step, client-written_begins, client-written_whole,
}
use my_coding_exercises.Tftp.Exchange.Receiver.{Receiving, Wrote}
use my_coding_exercises.Tftp.Exchange.Blocks.{joined, Carries}
use my_coding_exercises.Tftp.Exchange.Sender.{
  Sending, Answered, all_sent, next_block, accept_ack-ok,
}
use my_coding_exercises.Tftp.Exchange.Goes.{recv_ack-cases}
use my_coding_exercises.Tftp.Netascii.{network_form}
use my_coding_exercises.Tftp.Run.{ok, Verdict, done, bind-eq-ok, ok-injective}
use my_coding_exercises.Tftp.Server.Access.{Granted, named_mode, Names-named_mode, recv_xrq-Granted}
use my_coding_exercises.Tftp.Server.Send.{Os, request_strings, recv_xrq, recv_ack, recv_rrq}
use my_coding_exercises.Tftp.Server.File.{write_ascii}
use my_coding_exercises.Tftp.Session.{Session, Socket, Stream}
use my_coding_exercises.Tftp.Wire.{packet, max_buff, max_data, mode_binary, op_rrq, op_data}

-- A server process that has received a request and sent nothing yet.
pub record Fresh (s : Session) : Type 0 where
  pub works : s.socket.send_fails ≡ false
  pub silent : s.socket.sent ≡ []
  pub room : length s.sendbuff ≡ max_buff
  pub space : length s.recvbuff ≡ max_buff

-- A client that has asked for a file in the given mode, with an empty file to write to that takes
-- its writes, and that holds back no CR of a transfer before.
pub record Asks (mode : ℕ) (c : Session) : Type 0 where
  pub first : c.nextblknum ≡ 1
  pub op : c.op_sent ≡ op_rrq
  pub in_mode : c.modetype ≡ mode
  pub known_mode : c.modetype ≤ mode_binary
  pub space : length c.recvbuff ≡ max_buff
  pub writes : c.localfp.stream.write_fails ≡ false
  pub empty : c.localfp.stream.written ≡ []
  pub no_cr : c.localfp.lastcr ≡ false

-- No read of a file that `fopen` opens fails.
abbrev pub ReadsWell : Os → Type 0
ReadsWell os = (name : Bytes) (fp : Stream) → os.fopen name true ≡ some fp → fp.read_fails ≡ false

Granted-Sending :
    (os : Os) (ptr : Bytes) (n : ℕ) (s s₁ : Session)
    → Fresh s
    → ReadsWell os
    → (g : Granted os op_rrq ptr n s s₁)
    → Sending (network_form g.mode g.stream.unread) [] (record s₁ { lastsend = max_data })
Granted-Sending os ptr n s s₁ f reads g =
    subst (λ t. Sending (network_form g.mode g.stream.unread) [] (record t { lastsend = max_data }))
      (sym g.state)
      (record {
        cut = record { whole = ground arith; fits = λ k b h. cc; last_short = λ k b h. cc };
        counted = refl;
        few = omega arith;
        last = λ k b h. cc;
        works = f.works;
        readable = reads g.filename g.stream g.opened;
        known_mode = g.known_mode;
        room = f.room;
        space = f.space;
        sent = subst (All (Carries [])) (sym f.silent) tt;
        buffered = λ h. absurd (omega arith);
      })

-- What the server is once it has answered a read request: the sender of the file that it opened,
-- with the first block under way.
pub record Answers (os : Os) (ptr : Bytes) (n : ℕ) (s s' : Session) : Type 0 where
  pub opened : Session
  pub granted : Granted os op_rrq ptr n s opened
  pub out : Bytes
  pub sends : Sending (network_form granted.mode granted.stream.unread) (out ∷ []) s'
  pub op : s'.op_sent ≡ op_data
  pub socket : s'.socket ≡ record (s.socket) { sent = packet op_data 1 out ∷ [] }

first-block :
    {network : Bytes} {s s' : Session} {v : Verdict}
    → s.lastsend ≡ max_data
    → Answered network [] s v s'
    → (out : Bytes) × Sending network (out ∷ []) s'
      × (s'.op_sent ≡ op_data)
      × (s'.socket ≡ record (s.socket) { sent = s.socket.sent ++ packet op_data 1 out ∷ [] })
first-block full (all_sent _ _ short _ _) = absurd (omega arith)
first-block full (next_block out h o k) = (out, h, o, k)

first-socket :
    (s s₁ : Session) {k : Socket} {p : Bytes}
    → k ≡ record (s₁.socket) { sent = s₁.socket.sent ++ p ∷ [] }
    → s₁.socket ≡ s.socket
    → s.socket.sent ≡ []
    → k ≡ record (s.socket) { sent = p ∷ [] }
first-socket s s₁ {p = p} e same silent =
    e
    ∙ ap (λ (k : Socket). record k { sent = k.sent ++ p ∷ [] }) same
    ∙ ap (λ l. record (s.socket) { sent = l ++ p ∷ [] }) silent

-- On a system where no read of an opened file fails, a fresh server process whose `recv_RRQ`
-- returns has granted the request and is the sender of the file that it opened: it has sent one
-- block, the first of the file's network form, and waits for its acknowledgement.
pub recv_rrq-Answers :
    (os : Os) (ptr : Bytes) (n : ℕ) (s : Session) {v : Verdict} {s' : Session}
    → Fresh s
    → ReadsWell os
    → recv_rrq os ptr n s ≡ ok (v, s')
    → Answers os ptr n s s'
unfolding recv_rrq
recv_rrq-Answers os ptr n s {v} {s'} f reads e =
    let (s₁, e₁, r₁) = bind-eq-ok (recv_xrq os op_rrq ptr n s) _ e in
    let ((v₂, s₂), e₂, r₂) =
      bind-eq-ok (recv_ack (0 ∷ 0 ∷ []) 2 (record s₁ { lastsend = max_data })) _ r₁ in
    let g = recv_xrq-Granted os op_rrq ptr n s e₁ in
    let h = Granted-Sending os ptr n s s₁ f reads g in
    let s₀ = record s₁ { lastsend = max_data } in
    let (_, cases) = recv_ack-cases (0 ∷ 0 ∷ []) 2 s₀ e₂ in
    elim cases [
      | inl (_, a) ↦
          let network = network_form g.mode g.stream.unread in
          let (out, sends, o, k) =
            first-block {network = network} {s = s₀} refl
              (accept_ack-ok network [] s₀ h (omega (arith, h.counted)) a) in
          let same = ap (λ (r : Verdict × Session). r.1) (ok-injective r₂) in
          record {
            opened = s₁;
            granted = g;
            out = out;
            sends = subst (Sending network (out ∷ [])) same sends;
            op = subst (λ t. t.op_sent ≡ op_data) same o;
            socket =
                first-socket s s₀ (sym (ap (λ (t : Session). t.socket) same) ∙ k)
                  (ap (λ (t : Session). t.socket) g.state) f.silent;
          }
      | inr (i, _, _) ↦ absurd (omega (arith, h.counted))
    ]

-- The client at its start is a receiver, whatever the server has sent.
pub Asks-Receiving :
    {mode : ℕ} (blocks : List Bytes) (c : Session) → Asks mode c → Receiving mode blocks c
unfolding write_ascii
Asks-Receiving blocks c a = record {
  from_one = omega (arith, a.first);
  taken = omega (arith, a.first);
  wrote =
      subst (λ k. Wrote c.modetype (joined (take k blocks)) c.localfp) {x = 0}
        (omega (arith, a.first)) (a.writes, ground (arith, a.empty, a.no_cr));
  in_mode = a.in_mode;
  known_mode = a.known_mode;
  space = a.space;
  awaits = inl a.op;
}

-- Together they are a transfer under way.
pub Answers-Inv :
    {os : Os} {ptr : Bytes} {n : ℕ} {s s' c : Session} (a : Answers os ptr n s s')
    → Asks a.granted.mode c
    → Inv a.granted.mode
        (network_form a.granted.mode a.granted.stream.unread)
        (record { server = s'; client = c })
Answers-Inv {c = c} a asks = record {
  blocks = a.out ∷ [];
  sends = a.sends;
  op = a.op;
  started = omega arith;
  receives = Asks-Receiving (a.out ∷ []) c asks;
}

module _ (os : Os) (ptr : Bytes) (n : ℕ) {filename text : Bytes} {file : Stream} {s s' c : Session}
    {v : Verdict} {z : System} (asked : request_strings ptr n ≡ ok (filename, text))
    (found : os.fopen filename true ≡ some file) (fresh : Fresh s) (reads : ReadsWell os)
    (served : recv_rrq os ptr n s ≡ ok (v, s')) (asks : Asks (named_mode text) c)
    (r : Reach os (record { server = s'; client = c }) z) where
  begun : (mode : ℕ) × Inv mode (network_form mode file.unread) (record { server = s'; client = c })
  begun =
      let a = recv_rrq-Answers os ptr n s fresh reads served in
      let g = a.granted in
      let strings = ok-injective (sym g.asked ∙ asked) in
      let same : g.stream ≡ file = cc (g.opened, ap (λ p. p.0) strings, found) in
      let mode : g.mode ≡ named_mode text =
        Names-named_mode g.text g.mode g.named ∙ ap (λ p. named_mode p.1) strings in
      let i = Answers-Inv a (subst (λ m. Asks m c) (sym mode) asks) in
      (
        g.mode,
        subst (λ f. Inv g.mode (network_form g.mode f.unread) (record { server = s'; client = c }))
            same i,
      )

  -- A fresh server process has answered a read request, on a system where no read of an opened
  -- file fails, and a client that has asked for a file in the same mode, with an empty file to write to
  -- that takes its writes, and that holds back no CR, waits for block 1. Then the
  -- client's file is at every time a beginning of the file that the request names, whatever
  -- datagrams the server is sent and however its own are lost, repeated, delayed or reordered on the
  -- way to the client.
  pub download_begins : (tail : Bytes) × (z.client.localfp.stream.written ++ tail ≡ file.unread)
  download_begins = client-written_begins begun.1 r

  -- A fresh server process has answered a read request, on a system where no read of an opened
  -- file fails, and a client that has asked for a file in the same mode, with an empty file to write to
  -- that takes its writes, and that holds back no CR, waits for block 1. If the
  -- client's loop ends, after any sequence of steps of the two ends, on a datagram of the server,
  -- then its file is the file that the request names, provided that the server has not yet sent
  -- more than 65535 blocks.
  pub download_whole :
      {w : System}
      → Step os z done w
      → z.server.nextblknum < 65536
      → w.client.localfp.stream.written ≡ file.unread
  download_whole = client-written_whole begun.1 r
