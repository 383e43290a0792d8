-- ===== src/Tftp/Exchange/Upload/Steps.antt =====
-- A write request over a network that loses, repeats, delays and reorders datagrams, and lets anybody
-- send anything to the client: what the server has written is a beginning of the file, and when its
-- loop ends it is the file.
use mathlib.Core.Path.{subst}
use my_coding_exercises.Common.{
  All, All-append, All-get, ℕ, suc, ◌-◌, ◌≤◌, ◌<◌, ◌≡◌, refl, sym, ap, ◌∙◌, inl, inr, false, some,
  List, [], ◌∷◌, ◌++◌, append-nil, append_assoc, Bytes, length, take, drop, take-append-drop,
  get_elem?, lt-of-get_elem?, arith,
}
use my_coding_exercises.Tftp.Client.Net as ClientNet
use my_coding_exercises.Tftp.Exchange.{serve, consume}
use my_coding_exercises.Tftp.Exchange.Blocks.{Carries, carries, joined, joined-append}
use my_coding_exercises.Tftp.Exchange.Download.{System, Receiving-append}
use my_coding_exercises.Tftp.Exchange.Receiver.{Receiving, Wrote, net_send-Receiving}
use my_coding_exercises.Tftp.Exchange.Sender.{Sending}
use my_coding_exercises.Tftp.Exchange.Serve.{IsByte}
use my_coding_exercises.Tftp.Exchange.Upload.Gives.{Stage, Gives, consume-Gives}
use my_coding_exercises.Tftp.Exchange.Upload.Same.{net_send-eq}
use my_coding_exercises.Tftp.Exchange.Upload.Stores.{serve-Receiving}
use my_coding_exercises.Tftp.Exchange.Written.{Wrote-begins, Took-written}
use my_coding_exercises.Tftp.Netascii.{network_form}
use my_coding_exercises.Tftp.Run.{ok, Verdict, more, done, ok-injective}
use my_coding_exercises.Tftp.Server.File.Convert.{coming}
use my_coding_exercises.Tftp.Server.Net as ServerNet
use my_coding_exercises.Tftp.Server.Send.{Os}
use my_coding_exercises.Tftp.Session.{Session}
use my_coding_exercises.Tftp.Wire.{mode_binary, op_data}

-- What can happen next: the client is given any datagram, the server is given one that the client
-- has sent it, or one of them sends its last packet again. Before its first block the client would
-- send its request again, which goes to the port of the main process and not to this server. The
-- index is what the loop of the server learns.
pub data Step (os : Os) (y : System) : Verdict → System → Type 0 where
  to_client :
      (port : ℕ) (p : Bytes) {v : Verdict} {c' : Session}
      → All IsByte p
      → consume port p y.client ≡ ok (v, c')
      → Step os y more (record y { client = c' })
  to_server :
      (port i : ℕ) (p : Bytes) {v : Verdict} {s' : Session}
      → get_elem? y.client.socket.sent i ≡ some p
      → serve os port p y.server ≡ ok (v, s')
      → Step os y v (record y { server = s' })
  client_again :
      {c' : Session}
      → y.client.op_sent ≡ op_data
      → ClientNet.net_send y.client.sendbuff y.client.sendlen y.client ≡ ok c'
      → Step os y more (record y { client = c' })
  server_again :
      {s' : Session}
      → ServerNet.net_send y.server.sendbuff y.server.sendlen y.server ≡ ok s'
      → Step os y more (record y { server = s' })

pub data Reach (os : Os) (y : System) : System → Type 0 where
  here : Reach os y y
  next : {z w : System} {v : Verdict} → Reach os y z → Step os z v w → Reach os y w

pub record Inv (mode : ℕ) (network : Bytes) (y : System) : Type 0 where
  pub blocks : List Bytes
  pub sends : Sending network blocks y.client
  pub stage : Stage blocks y.client
  pub receives : Receiving mode blocks y.server

Inv-Gives :
    {mode : ℕ} {network : Bytes} (y : System) {c' : Session} (h : Inv mode network y)
    → Gives network h.blocks c'
    → Inv mode network (record y { client = c' })
Inv-Gives y h g = record {
  blocks = h.blocks ++ g.later;
  sends = g.sending;
  stage = g.stage;
  receives = Receiving-append h.blocks g.later y.server h.receives;
}

-- A time-out of the client sends its last block again.
sent_again :
    (network : Bytes) (blocks : List Bytes) (c : Session)
    → Sending network blocks c
    → 0 < length blocks
    → Sending network blocks (record c {
      socket = record (c.socket) {
        send_fails = false;
        sent = c.socket.sent ++ take c.sendlen c.sendbuff ∷ [];
      };
    })
sent_again network blocks c h started = record {
  cut = h.cut;
  counted = h.counted;
  few = h.few;
  last = h.last;
  works = refl;
  readable = h.readable;
  known_mode = h.known_mode;
  room = h.room;
  space = h.space;
  sent = All-append (Carries blocks) c.socket.sent _ h.sent (h.buffered started, tt);
  buffered = h.buffered;
}

client_again-Inv :
    {mode : ℕ} {network : Bytes} (y : System) {c' : Session}
    → Inv mode network y
    → y.client.op_sent ≡ op_data
    → ClientNet.net_send y.client.sendbuff y.client.sendlen y.client ≡ ok c'
    → Inv mode network (record y { client = c' })
unfolding ClientNet.net_send
client_again-Inv {mode} {network} y {c'} h op e =
    subst (λ t. Inv mode network (record y { client = t })) (ok-injective (rw h.sends.works at e))
      (record {
        blocks = h.blocks;
        sends = sent_again network h.blocks y.client h.sends started;
        stage = h.stage;
        receives = h.receives;
      })
  where
    started : 0 < length h.blocks
    started = elim h.stage [ inl (wrq, _) ↦ cc (op, wrq) | inr (_, some_sent) ↦ some_sent ]

-- The server after a datagram of the client's.
record Took (mode : ℕ) (network : Bytes) (blocks : List Bytes) (v : Verdict) (s' : Session)
    : Type 0 where
  receives : Receiving mode blocks s'
  ends :
      v ≡ done
      → length blocks < 65536
      → (s'.nextblknum ≡ suc (length blocks)) × (joined blocks ≡ network)

serve-Took :
    (os : Os) {mode : ℕ} {network : Bytes} (y : System) (h : Inv mode network y) (port : ℕ)
    (p : Bytes) {v : Verdict} {s' : Session}
    → Carries h.blocks p
    → serve os port p y.server ≡ ok (v, s')
    → Took mode network h.blocks v s'
serve-Took os {mode} {network} y h port p {v} {s'} (carries k b g is) e =
    let small = h.sends.cut.fits k b g in
    let below = lt-of-get_elem? h.blocks k g in
    let (r, verdict, following) =
      serve-Receiving os h.blocks k b port y.server h.receives g small (omega (arith, h.sends.few))
        (subst (λ t. serve os port t y.server ≡ ok (v, s')) is e) in
    record {
      receives = r;
      ends = λ ended few.
          let (is_last, nothing) = h.sends.cut.last_short k b g (ground arith) in
          (
            following (omega arith) ∙ ap suc is_last,
            sym (append-nil (joined h.blocks))
                ∙ ap (λ t. joined h.blocks ++ t) (sym nothing)
                ∙ h.sends.cut.whole,
          );
    }

Step-Inv :
    {os : Os} {mode : ℕ} {network : Bytes} {y z : System} {v : Verdict}
    → Inv mode network y
    → Step os y v z
    → Inv mode network z
Step-Inv {os} {mode} {network} {y} h (to_client port p small e) =
    Inv-Gives y h (consume-Gives network h.blocks port p y.client h.sends h.stage small e)
Step-Inv {os} {mode} {network} {y} h (to_server port i p g e) =
    let t =
      serve-Took os y h port p (All-get (Carries h.blocks) y.client.socket.sent i h.sends.sent g)
        e in
    record { blocks = h.blocks; sends = h.sends; stage = h.stage; receives = t.receives }
Step-Inv {os} {mode} {network} {y} h (client_again op e) = client_again-Inv y h op e
Step-Inv {os} {mode} {network} {y} h (server_again e) = record {
  blocks = h.blocks;
  sends = h.sends;
  stage = h.stage;
  receives =
      net_send-Receiving h.blocks y.server.sendbuff y.server.sendlen y.server h.receives
        (net_send-eq y.server.sendbuff y.server.sendlen y.server ∙ e);
}

Reach-Inv :
    {os : Os} {mode : ℕ} {network : Bytes} {y z : System}
    → Inv mode network y
    → Reach os y z
    → Inv mode network z
Reach-Inv h here = h
Reach-Inv h (next r st) = Step-Inv (Reach-Inv h r) st

module _ {os : Os} {mode : ℕ} {file : Bytes} {y z : System}
    (start : Inv mode (network_form mode file) y) (r : Reach os y z) where
  pub server-written_begins : (tail : Bytes) × (z.server.localfp.stream.written ++ tail ≡ file)
  server-written_begins =
      let h = Reach-Inv start r in
      let got = take (z.server.nextblknum - 1) h.blocks in
      let left = coming z.client.modetype z.client.localfp in
      let others = drop (z.server.nextblknum - 1) h.blocks in
      let parts : joined got ++ (joined others ++ left) ≡ network_form mode file =
        sym (append_assoc (joined got) (joined others) left)
        ∙ ap (λ t. t ++ left)
            (sym (joined-append got others)
              ∙ ap joined (take-append-drop (z.server.nextblknum - 1) h.blocks))
        ∙ h.sends.cut.whole in
      Wrote-begins mode (joined got) (joined others ++ left) file z.server.localfp parts
        (subst (λ m. Wrote m (joined got) z.server.localfp) h.receives.in_mode h.receives.wrote)
        (subst (λ m. m ≤ mode_binary) h.receives.in_mode h.receives.known_mode)

  pub server-written_whole :
      {w : System}
      → Step os z done w
      → z.client.nextblknum < 65536
      → w.server.localfp.stream.written ≡ file
  server-written_whole st few = whole st (Reach-Inv start r) few
    where
      whole :
          {w : System}
          → Step os z done w
          → Inv mode (network_form mode file) z
          → z.client.nextblknum < 65536
          → w.server.localfp.stream.written ≡ file
      whole (to_server port i p {s' = s'} g e) h few =
          let t =
            serve-Took os z h port p
              (All-get (Carries h.blocks) z.client.socket.sent i h.sends.sent g) e in
          let (n, all) = t.ends refl (omega (arith, h.sends.counted)) in
          Took-written mode file h.blocks s' t.receives n all
