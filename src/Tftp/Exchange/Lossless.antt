-- ===== src/Tftp/Exchange/Lossless.antt =====
-- A network that delivers: the two ends take turns, each given what the other has sent last.
use my_coding_exercises.Common.{
  ℕ, zero, suc, ◌+◌, ◌-◌, ◌≤◌, ◌<◌, ◌≡◌, refl, sym, ap, ◌∙◌, inr, ltb, lt-of-get_elem?, false, some,
  List, [], ◌∷◌, ◌++◌, Bytes, length, length-append, get_elem?, arith, Bool-cases, inl, ◌==◌,
  if◌then◌else◌,
}
use my_coding_exercises.Tftp.Exchange.{serve, consume}
use my_coding_exercises.Tftp.Exchange.Blocks.{
  joined, joined-append, get_elem?-length, get_elem?-append_left,
}
use my_coding_exercises.Tftp.Exchange.Download.{System, Receiving-append}
use my_coding_exercises.Tftp.Exchange.Takes.{Hears, Takes, client-Takes}
use my_coding_exercises.Tftp.Exchange.Replies.{server-answers, with_ack}
use my_coding_exercises.Tftp.Exchange.Receiver.{Receiving}
use my_coding_exercises.Tftp.Exchange.Sender.{Sending, Answered}
use my_coding_exercises.Tftp.Netascii.{network_form}
use my_coding_exercises.Tftp.Run.{Run, ok, ◌>>=◌, Verdict, more, done}
use my_coding_exercises.Tftp.Server.File.Convert.{coming}
use my_coding_exercises.Tftp.Server.Send.{Os}
use my_coding_exercises.Tftp.Session.{Session}
use my_coding_exercises.Tftp.Wire.{max_buff, max_data, op_data, op_ack, packet}

abbrev pub last : List Bytes → Bytes
last [] = []
last (x ∷ []) = x
last (x ∷ y ∷ xs) = last (y ∷ xs)

last-snoc : (xs : List Bytes) (x : Bytes) → last (xs ++ x ∷ []) ≡ x
last-snoc [] x = refl
last-snoc (y ∷ []) x = refl
last-snoc (y ∷ z ∷ xs) x = last-snoc (z ∷ xs) x

-- The client is given what the server has sent last, and the server what the client then answers,
-- until the loop of the client ends. The verdict is that of the server.
unfoldable pub lossless : Os → ℕ → ℕ → ℕ → System → Run (Verdict × System)
lossless os server_port client_port zero y = ok (more, y)
lossless os server_port client_port (suc n) y = do
  (v, c) ← consume server_port (last y.server.socket.sent) y.client
  (v', s) ← serve os client_port (last c.socket.sent) y.server
  elim v [
    | done ↦ ok (v', record { server = s; client = c })
    | more ↦ lossless os server_port client_port n (record { server = s; client = c })
  ]

-- The two ends in step: the last block is under way, and the client waits for it.
pub record InStep (mode : ℕ) (file : Bytes) (server_port client_port : ℕ) (blocks : List Bytes)
    (b : Bytes) (y : System) : Type 0 where
  pub sends : Sending (network_form mode file) blocks y.server
  pub op : y.server.op_sent ≡ op_data
  pub receives : Receiving mode blocks y.client
  pub started : 0 < length blocks
  pub at_end : get_elem? blocks (length blocks - 1) ≡ some b
  pub waits_for : y.client.nextblknum ≡ length blocks
  pub hears : Hears server_port y.client.socket
  pub works : y.client.socket.send_fails ≡ false
  pub room : length y.client.sendbuff ≡ max_buff
  pub later : y.server.socket.recv_first ≡ false
  pub peer : y.server.socket.peer_port ≡ client_port
  pub under_way : last y.server.socket.sent ≡ packet op_data (length blocks) b

abbrev pub left : Session → ℕ
left s = length (coming s.modetype s.localfp)

-- How much is left after one more block.
pub left-next :
    {network : Bytes} {blocks : List Bytes} {s s' : Session} (out : Bytes)
    → Sending network blocks s
    → Sending network (blocks ++ out ∷ []) s'
    → left s ≡ length out + left s'
left-next {network} {blocks} {s} {s'} out h h' =
    let a : length (joined blocks) + length (coming s.modetype s.localfp) ≡ length network =
      sym (length-append (joined blocks) _) ∙ ap length h.cut.whole in
    let a' : length (joined (blocks ++ out ∷ [])) + length (coming s'.modetype s'.localfp)
        ≡ length network =
      sym (length-append (joined (blocks ++ out ∷ [])) _) ∙ ap length h'.cut.whole in
    let j = ap length (joined-append blocks (out ∷ [])) in
    omega (arith, a, a', j, length-append (joined blocks) (out ++ []), length-append out [])

-- A block that another follows is full.
pub full_then :
    {network : Bytes} {blocks : List Bytes} {s s' : Session} (b out : Bytes)
    → Sending network blocks s
    → Sending network (blocks ++ out ∷ []) s'
    → get_elem? blocks (length blocks - 1) ≡ some b
    → length b ≡ max_data
full_then {network} {blocks} b out h h' g = elim (Bool-cases (ltb (length b) max_data)) [
  | inl short ↦
      let k = length blocks - 1 in
      let (i, _) =
        h'.cut.last_short k b (get_elem?-append_left blocks (out ∷ []) k b g) (ground arith) in
      absurd (omega (arith, i, length-append blocks (out ∷ []), lt-of-get_elem? blocks k g))
  | inr full ↦ let le = h.cut.fits (length blocks - 1) b g in ground (arith, le)
]

module _ (os : Os) {mode : ℕ} {file : Bytes} {server_port client_port : ℕ} {blocks : List Bytes}
    {b : Bytes} {y : System} (h : InStep mode file server_port client_port blocks b y)
    (few : length blocks < 65536) where
  small : length b ≤ max_data
  small = h.sends.cut.fits (length blocks - 1) b h.at_end

  pub taken : Takes mode blocks b server_port y.client
  taken =
      client-Takes (coming y.server.modetype y.server.localfp) file h.receives h.at_end
        h.sends.cut.whole small few h.waits_for h.hears h.works h.room

  pub answered :
      (v : Verdict) × (s' : Session) × (serve os client_port (last taken.after.socket.sent) y.server
        ≡ ok (v, s'))
      × Answered
          (network_form mode file)
          blocks
          (with_ack os client_port (length blocks) y.server)
          v
          s'
  answered =
      let (v, s', e, a) =
        server-answers os (network_form mode file) blocks client_port y.server h.sends h.op few
          h.later h.peer in
      let p = packet op_ack (length blocks) [] in
      let acked : last taken.after.socket.sent ≡ p =
        ap (λ k. last k.sent) taken.socket ∙ last-snoc y.client.socket.sent p in
      (v, s', ap (λ t. serve os client_port t y.server) acked ∙ e, a)

  -- The exchange up to the next turn.
  pub turn :
      (n : ℕ) {v : Verdict} {s' : Session}
      → serve os client_port (last taken.after.socket.sent) y.server ≡ ok (v, s')
      → lossless os server_port client_port (suc n) y
        ≡ (elim (if length b == max_data then more else done) [
          | done ↦ ok (v, record { server = s'; client = taken.after })
          | more ↦
              lossless os server_port client_port n (record { server = s'; client = taken.after })
        ])
  unfolding lossless
  turn n {v} {s'} e = rw (lossless, h.under_way, taken.runs, e) refl

  -- The next block goes on in step.
  pub goes_on :
      (out : Bytes) {s' : Session}
      → Sending (network_form mode file) (blocks ++ out ∷ []) s'
      → s'.op_sent ≡ op_data
      → s'.socket ≡ record ((with_ack os client_port (length blocks) y.server).socket) {
        sent = y.server.socket.sent ++ packet op_data (suc (length blocks)) out ∷ [];
      }
      → InStep mode file server_port client_port
          (blocks ++ out ∷ [])
          out
          (record { server = s'; client = taken.after })
  goes_on out {s'} sends op socket =
      let n : length (blocks ++ out ∷ []) ≡ suc (length blocks) =
        omega (arith, length-append blocks (out ∷ [])) in
      record {
        sends = sends;
        op = op;
        receives = Receiving-append blocks (out ∷ []) taken.after taken.receives;
        started = omega (arith, n);
        at_end =
            ap (λ k. get_elem? (blocks ++ out ∷ []) k) {y = length blocks} (omega (arith, n))
            ∙ get_elem?-length blocks out;
        waits_for = taken.following ∙ sym n;
        hears = inr (ap (λ k. k.recv_first) taken.socket, ap (λ k. k.peer_port) taken.socket);
        works = ap (λ k. k.send_fails) taken.socket ∙ h.works;
        room = taken.room;
        later = ap (λ k. k.recv_first) socket;
        peer = ap (λ k. k.peer_port) socket ∙ ground (arith, h.later, h.peer);
        under_way =
            ap (λ k. last k.sent) socket
            ∙ last-snoc y.server.socket.sent (packet op_data (suc (length blocks)) out)
            ∙ ap (λ k. packet op_data k out) (sym n);
      }
