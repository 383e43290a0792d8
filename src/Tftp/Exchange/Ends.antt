-- ===== src/Tftp/Exchange/Ends.antt =====
-- On a network that delivers, a transfer ends with the whole file.
use mathlib.Core.Path.{subst}
use my_coding_exercises.Common.{
  ℕ, zero, suc, ◌+◌, ◌-◌, ◌*◌, ◌/◌, ◌≤◌, ◌<◌, ◌≡◌, refl, sym, ap, ◌∙◌, ◌⊎◌, inr, false, true, some,
  List, [], ◌∷◌, ◌++◌, Bytes, length, length-append, arith, inl, ◌==◌,
}
use my_coding_exercises.Tftp.Exchange.Blocks.{joined}
use my_coding_exercises.Tftp.Exchange.Download.{System}
use my_coding_exercises.Tftp.Exchange.Takes.{Hears}
use my_coding_exercises.Tftp.Exchange.Lossless.{
  last, lossless, InStep, left, left-next, full_then, taken, answered, turn, goes_on,
}
use my_coding_exercises.Tftp.Exchange.Sender.{Sending, Answered, all_sent, next_block}
use my_coding_exercises.Tftp.Exchange.Start.{
  Fresh, Asks, ReadsWell, recv_rrq-Answers, Asks-Receiving,
}
use my_coding_exercises.Tftp.Exchange.Written.{Took-written}
use my_coding_exercises.Tftp.Netascii.{network_form}
use my_coding_exercises.Tftp.Run.{ok, ok-injective, Verdict, done}
use my_coding_exercises.Tftp.Server.File.Convert.{coming}
use my_coding_exercises.Tftp.Server.Send.{Os, request_strings, recv_rrq}
use my_coding_exercises.Tftp.Server.Access.{named_mode, Names-named_mode}
use my_coding_exercises.Tftp.Session.{Session, Stream}
use my_coding_exercises.Tftp.Wire.{max_buff, max_data, op_data, packet}

Answered-cases :
    {network : Bytes} {blocks : List Bytes} {s : Session} {v : Verdict} {s' : Session}
    → Answered network blocks s v s'
    → (v ≡ done) × (joined blocks ≡ network) × (s.lastsend < max_data)
      ⊎ (out : Bytes) × Sending network (blocks ++ out ∷ []) s'
        × (s'.op_sent ≡ op_data)
        × (s'.socket ≡ record (s.socket) {
          sent = s.socket.sent ++ packet op_data (suc (length blocks)) out ∷ [];
        })
Answered-cases (all_sent _ whole short _ _) = inl (refl, whole, short)
Answered-cases (next_block out sends op socket) = inr (out, sends, op, socket)

-- Two ends in step end together, with the whole file at the client, in as many turns as there are
-- blocks left.
lossless-InStep :
    (os : Os) {mode : ℕ} {file : Bytes} {server_port client_port : ℕ} (n : ℕ) {blocks : List Bytes}
    {b : Bytes} {y : System}
    → InStep mode file server_port client_port blocks b y
    → length blocks + n ≤ 65536
    → 0 < n
    → (length b ≡ max_data → left y.server < max_data * (n - 1))
    → (z : System) × (lossless os server_port client_port n y ≡ ok (done, z))
      × (z.client.localfp.stream.written ≡ file)
lossless-InStep os zero h few some_fuel enough = absurd (omega arith)
lossless-InStep os {mode} {file} {server_port} {client_port} (suc n) {blocks} {b} {y} h few
      some_fuel enough =
    let below : length blocks < 65536 = omega (arith, few) in
    let (v, s', e, a) = answered os h below in
    let t = taken os h below in
    let k = length blocks - 1 in
    elim (Answered-cases a) [
      | inl (is_done, whole, short) ↦
          let same = h.sends.last k b h.at_end (omega (arith, h.started)) in
          let ended : (length b == max_data) ≡ false = ground (arith, same) in
          (
            record { server = s'; client = t.after },
            turn os h below n e
                ∙ rw ended (ap (λ v. ok (v, record { server = s'; client = t.after })) is_done),
            Took-written mode file blocks t.after t.receives t.following whole,
          )
      | inr (out, sends, op, socket) ↦
          let full : length b ≡ max_data = full_then b out h.sends sends h.at_end in
          let l = left-next out h.sends sends in
          let bound = enough full in
          let (z, e', w) =
            lossless-InStep os n (goes_on os h below out sends op socket)
              (omega (arith, few, length-append blocks (out ∷ []))) (omega (arith, bound))
              (λ big. omega (arith, bound, l, big)) in
          (z, turn os h below n e ∙ rw full e', w)
    ]

module _ (os : Os) (ptr : Bytes) (n : ℕ) {filename text : Bytes} {file : Stream} {s s' c : Session}
    {v : Verdict} (server_port client_port : ℕ)
    (asked : request_strings ptr n ≡ ok (filename, text))
    (found : os.fopen filename true ≡ some file) (fresh : Fresh s) (reads : ReadsWell os)
    (served : recv_rrq os ptr n s ≡ ok (v, s')) (asks : Asks (named_mode text) c)
    (later : s.socket.recv_first ≡ false) (peer : s.socket.peer_port ≡ client_port)
    (hears : Hears server_port c.socket) (works : c.socket.send_fails ≡ false)
    (room : length c.sendbuff ≡ max_buff) where
  begins_InStep :
      (b : Bytes) × InStep
        (named_mode text)
        file.unread
        server_port
        client_port
        (b ∷ [])
        b
        (record { server = s'; client = c })
  begins_InStep =
      let a = recv_rrq-Answers os ptr n s fresh reads served in
      let g = a.granted in
      let strings = ok-injective (sym g.asked ∙ asked) in
      let same : g.stream ≡ file = cc (g.opened, ap (λ p. p.0) strings, found) in
      let mode : g.mode ≡ named_mode text =
        Names-named_mode g.text g.mode g.named ∙ ap (λ p. named_mode p.1) strings in
      let network : network_form g.mode g.stream.unread
          ≡ network_form (named_mode text) file.unread =
        ap (λ m. network_form m g.stream.unread) mode
        ∙ ap (λ (f : Stream). network_form (named_mode text) f.unread) same in
      (
        a.out,
        record {
          sends = subst (λ w. Sending w (a.out ∷ []) s') network a.sends;
          op = a.op;
          receives = Asks-Receiving (a.out ∷ []) c asks;
          started = omega arith;
          at_end = refl;
          waits_for = asks.first;
          hears = hears;
          works = works;
          room = room;
          later = ap (λ k. k.recv_first) a.socket ∙ later;
          peer = ap (λ k. k.peer_port) a.socket ∙ peer;
          under_way = ap (λ k. last k.sent) a.socket;
        },
      )

  -- A fresh server process has answered a read request, on a system where no read of an opened file
  -- fails, and a client that has asked for a file in the same mode, with an empty file to write to that
  -- takes its writes, and that holds back no CR, waits for block 1; each end takes
  -- datagrams from the other's port, the client's `sendto` works, and the file has fewer than
  -- 65535 * 512 bytes in its network form. If the network delivers every datagram, in turns, then
  -- both loops end with 0 after at most one turn for each 512 bytes and one more, and the client
  -- has written the whole file.
  pub lossless-ends :
      length (network_form (named_mode text) file.unread) < 65535 * max_data
      → (z : System) × (lossless os server_port client_port
            (length (network_form (named_mode text) file.unread) / max_data + 1)
            (record { server = s'; client = c })
          ≡ ok (done, z))
        × (z.client.localfp.stream.written ≡ file.unread)
  lossless-ends bounded =
      let (b, h) = begins_InStep in
      let whole = ap length h.sends.cut.whole in
      let parts = length-append (joined (b ∷ [])) (coming s'.modetype s'.localfp) in
      let first = length-append b [] in
      lossless-InStep os (length (network_form (named_mode text) file.unread) / max_data + 1) h
        (omega (arith, bounded)) (omega arith) (λ full. omega (arith, whole, parts, first, full))
