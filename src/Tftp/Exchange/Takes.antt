-- ===== src/Tftp/Exchange/Takes.antt =====
-- What a client makes of the block that it waits for: it stores and acknowledges it.
use mathlib.Core.Path.{subst}
use my_coding_exercises.Common.{
  ℕ, suc, ◌+◌, ◌-◌, ◌≤◌, ◌<◌, ◌≡◌, ◌≢◌, refl, sym, ap, ◌∙◌, ◌⊎◌, inl, inr, true, false, some, List,
  [], ◌∷◌, ◌++◌, append_assoc, Bytes, length, take, drop, take-all, overlay, length-overlay,
  length-write_at, write_at-nil, get_elem?, lt-of-get_elem?, arith, ltb, if◌then◌else◌, Bool-cases,
  ◌==◌,
}
use my_coding_exercises.Tftp.Client.File.Agree.{returned-file_read}
use my_coding_exercises.Tftp.Client.File as ClientFile
use my_coding_exercises.Tftp.Client.Fsm as ClientFsm
use my_coding_exercises.Tftp.Client.Net as ClientNet
use my_coding_exercises.Tftp.Client.Send as ClientSend
use my_coding_exercises.Tftp.Exchange.{consume}
use my_coding_exercises.Tftp.Exchange.Blocks.{joined}
use my_coding_exercises.Tftp.Exchange.Consume as Consume
use my_coding_exercises.Tftp.Exchange.Packets.{held_op, held_block, held_payload, built}
use my_coding_exercises.Tftp.Exchange.Receiver.{Receiving, Wrote, take-suc}
use my_coding_exercises.Tftp.Netascii.{network_form}
use my_coding_exercises.Tftp.Run.{ok, more, done, bind-eq-ok, ok-injective, ok-of-returned}
use my_coding_exercises.Tftp.Server.File.Convert.{write_ascii-append, write_ascii-encode}
use my_coding_exercises.Tftp.Server.File.{file_write, write_ascii}
use my_coding_exercises.Tftp.Server.Net.{bytes}
use my_coding_exercises.Tftp.Session.{Session, LocalFile, Socket}
use my_coding_exercises.Tftp.Wire.{
  max_buff, max_data, mode_ascii, mode_binary, op_rrq, op_data, op_ack, ldshort, stshort, packet,
  short_bytes,
}

-- The next piece of a file in its network form can be written.
file_write-ok :
    (mode : ℕ) (got payload rest file : Bytes) (f : LocalFile)
    → mode ≤ mode_binary
    → got ++ (payload ++ rest) ≡ network_form mode file
    → Wrote mode got f
    → (f' : LocalFile) × (file_write f payload mode ≡ ok f')
unfolding file_write
file_write-ok mode got payload rest file f m e (good, w) = elim (Bool-cases (mode == mode_binary)) [
  | inl b ↦ (
    record f { stream = record (f.stream) { written = f.stream.written ++ payload } },
    rw (b, good) refl,
  )
  | inr a ↦
      let ascii : (mode == mode_ascii) ≡ true = ground arith in
      let all : write_ascii false false [] (got ++ (payload ++ rest)) ≡ ok (false, file) =
        ground (arith, write_ascii-encode [] file) in
      let w' : write_ascii false false [] got ≡ ok (f.lastcr, f.stream.written) = ground arith in
      let (r₁, e₁, e₂) =
        bind-eq-ok (write_ascii false false [] got) _
          (sym (write_ascii-append false [] got (payload ++ rest)) ∙ all) in
      let same : r₁ ≡ (f.lastcr, f.stream.written) = ok-injective (sym e₁ ∙ w') in
      let e₃ : write_ascii false f.lastcr f.stream.written (payload ++ rest) ≡ ok (false, file) =
        subst (λ r. write_ascii false r.0 r.1 (payload ++ rest) ≡ ok (false, file)) same e₂ in
      let ((l, o), e₄, e₅) =
        bind-eq-ok (write_ascii false f.lastcr f.stream.written payload) _
          (sym (write_ascii-append f.lastcr f.stream.written payload rest) ∙ e₃) in
      (record f { stream = record (f.stream) { written = o }; lastcr = l }, ground (arith, e₄))
]

store-ok :
    (mode : ℕ) (got payload rest file : Bytes) (f : LocalFile)
    → mode ≤ mode_binary
    → got ++ (payload ++ rest) ≡ network_form mode file
    → Wrote mode got f
    → (f' : LocalFile) × ((if ltb 0 (length payload)
          then ClientFile.file_write f payload mode
          else ok f)
        ≡ ok f')
store-ok mode got payload rest file f m e w = elim (Bool-cases (ltb 0 (length payload))) [
  | inl some_data ↦
      let (f', e') = file_write-ok mode got payload rest file f m e w in
      (f', rw some_data (ok-of-returned _ _ (sym (returned-file_read f 0 mode payload).1) e'))
  | inr empty ↦ (f, rw empty refl)
]

-- The client takes a datagram from this port.
abbrev pub Hears : ℕ → Socket → Type 0
Hears port k =
    ((k.recv_first ≡ true) × (k.peer_port ≢ port)) ⊎ ((k.recv_first ≡ false) × (k.peer_port ≡ port))

client_takes :
    (port : ℕ) (p : Bytes) (c : Session)
    → Hears port c.socket
    → ClientNet.take_datagram max_buff port p c
      ≡ ok (bytes (length (take max_buff p)) (Consume.received port p c))
unfolding ClientNet.take_datagram
client_takes port p c (inl (first, other)) = ground arith
client_takes port p c (inr (later, same)) = ground arith

client_dispatches :
    (n : ℕ) (c : Session)
    → (c.op_sent ≡ op_rrq) ⊎ (c.op_sent ≡ op_ack)
    → 4 ≤ n
    → ldshort c.recvbuff ≡ op_data
    → ClientFsm.dispatch n c
      ≡ ClientSend.recv_data (drop 2 c.recvbuff) (n - 2) (record c { op_recv = op_data })
unfolding ClientFsm.dispatch ClientFsm.call
client_dispatches n c awaits h i =
    let long : ltb n 4 ≡ false = ground arith in
    elim awaits [ inl e ↦ rw (long, i, e) refl | inr e ↦ rw (long, i, e) refl ]

-- The client once it has stored and acknowledged a block.
abbrev acknowledged : ℕ → ℕ → LocalFile → Session → Session
acknowledged block n f c =
    let filled = stshort block 2 (stshort op_ack 0 c.sendbuff) in
    record c {
      nextblknum = c.nextblknum + 1;
      totnbytes = c.totnbytes + n;
      localfp = f;
      sendbuff = filled;
      sendlen = 4;
      op_sent = op_ack;
      socket = record (c.socket) { sent = c.socket.sent ++ take 4 filled ∷ [] };
    }

client_stores :
    (ptr b : Bytes) (c : Session) (f : LocalFile)
    → ldshort ptr ≡ c.nextblknum
    → take (length b) (drop 2 ptr) ≡ b
    → (if ltb 0 (length b) then ClientFile.file_write c.localfp b c.modetype else ok c.localfp)
      ≡ ok f
    → c.socket.send_fails ≡ false
    → ClientSend.recv_data ptr (length b + 2) c
      ≡ ok ((if length b == max_data then more else done), acknowledged c.nextblknum (length b) f c)
unfolding ClientSend.recv_data ClientSend.place_data ClientSend.accept_data ClientSend.send_ack
    ClientNet.net_send
client_stores ptr b c f i content stored works =
    let n : length b + 2 - 2 ≡ length b = omega arith in
    let here : (c.nextblknum == c.nextblknum) ≡ true = ground arith in
    rw (n, i, content, here, stored, works) refl

-- What the client makes of the block that it waits for, the last that the server has sent.
pub record Takes (mode : ℕ) (blocks : List Bytes) (b : Bytes) (port : ℕ) (c : Session)
    : Type 0 where
  pub after : Session
  pub runs :
      consume port (packet op_data (length blocks) b) c
      ≡ ok ((if length b == max_data then more else done), after)
  pub receives : Receiving mode blocks after
  pub following : after.nextblknum ≡ suc (length blocks)
  pub socket : after.socket ≡ record (c.socket) {
    peer_port = port;
    recv_first = false;
    sent = c.socket.sent ++ packet op_ack (length blocks) [] ∷ [];
  }
  pub room : length after.sendbuff ≡ max_buff

ack_built :
    (k : ℕ) (buff : Bytes)
    → length buff ≡ max_buff
    → take 4 (stshort k 2 (stshort op_ack 0 buff)) ≡ packet op_ack k []
ack_built k buff h =
    ap (λ t. take 4 (stshort k 2 (stshort op_ack 0 t))) (sym (write_at-nil 4 buff))
    ∙ built op_ack k [] buff (omega (arith, h))

module _ {mode : ℕ} {blocks : List Bytes} {b : Bytes} (rest file : Bytes) {port : ℕ} {c : Session}
    (h : Receiving mode blocks c) (g : get_elem? blocks (length blocks - 1) ≡ some b)
    (whole : joined blocks ++ rest ≡ network_form mode file) (small : length b ≤ max_data)
    (few : length blocks < 65536) (waits_for : c.nextblknum ≡ length blocks)
    (hears : Hears port c.socket) (works : c.socket.send_fails ≡ false)
    (room : length c.sendbuff ≡ max_buff) where
  -- The block can be written.
  last_block_stored :
      (f : LocalFile) × ((if ltb 0 (length b)
          then ClientFile.file_write c.localfp b c.modetype
          else ok c.localfp)
        ≡ ok f)
  last_block_stored =
      let got = joined (take (length blocks - 1) blocks) in
      let parts : got ++ (b ++ rest) ≡ network_form c.modetype file =
        sym (append_assoc got b rest)
        ∙ ap (λ t. t ++ rest)
            (sym (take-suc blocks (length blocks - 1) b g)
              ∙ ap joined (take-all (suc (length blocks - 1)) blocks (omega arith)))
        ∙ whole
        ∙ ap (λ m. network_form m file) (sym h.in_mode) in
      store-ok c.modetype got b rest file c.localfp h.known_mode parts (
        subst (λ k. Wrote c.modetype (joined (take k blocks)) c.localfp) {y = length blocks - 1}
          (omega arith) h.wrote)

  pub client-Takes : Takes mode blocks b port c
  unfolding consume
  client-Takes =
      let k = length blocks - 1 in
      let p = packet op_data (length blocks) b in
      let below = lt-of-get_elem? blocks k g in
      let (f, stored) = last_block_stored in
      let r = Consume.received port p c in
      let fits : length b + 4 ≤ length c.recvbuff = omega (arith, h.space, small) in
      let all : take max_buff p ≡ p = take-all max_buff p (omega (arith, small)) in
      let op : ldshort r.recvbuff ≡ op_data =
        ap (λ t. ldshort (overlay t c.recvbuff)) all
        ∙ held_op op_data (length blocks) b c.recvbuff fits (omega arith) in
      let number : ldshort (drop 2 r.recvbuff) ≡ c.nextblknum =
        ap (λ t. ldshort (drop 2 (overlay t c.recvbuff))) all
        ∙ held_block op_data (length blocks) b c.recvbuff fits
        ∙ omega (arith, few, waits_for) in
      let content : take (length b) (drop 2 (drop 2 r.recvbuff)) ≡ b =
        ap (λ t. take (length b) (drop 2 (drop 2 (overlay t c.recvbuff)))) all
        ∙ held_payload op_data (length blocks) b c.recvbuff fits in
      let n : length (take max_buff p) - 2 ≡ length b + 2 = omega (arith, ap length all) in
      let s₁ = record r { op_recv = op_data } in
      let after = acknowledged c.nextblknum (length b) f s₁ in
      let runs : consume port p c ≡ ok ((if length b == max_data then more else done), after) =
        rw (consume, client_takes port p c hears)
          (client_dispatches (length (take max_buff p)) r h.awaits (omega (arith, n)) op
            ∙ ap (λ t. ClientSend.recv_data (drop 2 r.recvbuff) t s₁) n
            ∙ client_stores (drop 2 r.recvbuff) b s₁ f number content stored works) in
      let (receives, _, following) =
        Consume.consume-Receiving blocks k b port c h g small (omega (arith, few)) (
          subst
            (λ t.
              consume port (packet op_data t b) c
              ≡ ok ((if length b == max_data then more else done), after))
            {y = suc k} (omega arith) runs) in
      record {
        after = after;
        runs = runs;
        receives = receives;
        following = omega (arith, waits_for);
        socket =
            ap
              (λ t. record (c.socket) {
                peer_port = port;
                recv_first = false;
                sent = c.socket.sent ++ t ∷ [];
              })
              (ack_built c.nextblknum c.sendbuff room ∙ ap (λ t. packet op_ack t []) waits_for);
        room =
            length-write_at 2 (short_bytes c.nextblknum) (stshort op_ack 0 c.sendbuff)
            ∙ length-overlay (short_bytes op_ack) c.sendbuff
            ∙ room;
      }
