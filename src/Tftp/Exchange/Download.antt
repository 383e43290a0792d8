-- ===== src/Tftp/Exchange/Download.antt =====
-- A read request over a network that loses, repeats, delays and reorders datagrams, and lets anybody
-- send anything to the server: what the client has written is a beginning of the file, and when its
-- loop ends it is the file.
use mathlib.Core.Path.{subst}
use my_coding_exercises.Common.{
  All, All-append, All-get, ℕ, zero, suc, ◌-◌, ◌≤◌, ◌<◌, ◌≡◌, refl, sym, ap, ◌∙◌, some, List, [],
  ◌∷◌, ◌++◌, append-nil, append_assoc, Bytes, length, length-append, take, drop, take-append-drop,
  get_elem?, lt-of-get_elem?, arith,
}
use my_coding_exercises.Tftp.Exchange.{serve, consume}
use my_coding_exercises.Tftp.Exchange.Consume.{consume-Receiving}
use my_coding_exercises.Tftp.Exchange.Written.{Wrote-begins, Took-written}
use my_coding_exercises.Tftp.Exchange.Receiver.{Receiving, Wrote, net_send-Receiving}
use my_coding_exercises.Tftp.Exchange.Blocks.{Carries, carries, joined, joined-append}
use my_coding_exercises.Tftp.Exchange.Sender.{Sending}
use my_coding_exercises.Tftp.Exchange.Goes.{Goes}
use my_coding_exercises.Tftp.Exchange.Serve.{IsByte, serve-Goes}
use my_coding_exercises.Tftp.Netascii.{network_form}
use my_coding_exercises.Tftp.Client.Net as ClientNet
use my_coding_exercises.Tftp.Run.{ok, Verdict, more, done, ok-injective}
use my_coding_exercises.Tftp.Server.File.Convert.{coming}
use my_coding_exercises.Tftp.Server.Net as ServerNet
use my_coding_exercises.Tftp.Server.Send.{Os}
use my_coding_exercises.Tftp.Session.{Session}
use my_coding_exercises.Tftp.Wire.{mode_binary, op_data}

-- The two ends; the datagrams that the server has sent may arrive at the client at any time.
pub record System : Type 0 where
  pub server : Session
  pub client : Session

-- What can happen next: the server is given any datagram, the client is given one that the server
-- has sent, or one of them sends its last packet again. The index is what the loop of the client
-- learns.
pub data Step (os : Os) (y : System) : Verdict → System → Type 0 where
  to_server :
      (port : ℕ) (p : Bytes) {v : Verdict} {s' : Session}
      → All IsByte p
      → serve os port p y.server ≡ ok (v, s')
      → Step os y more (record y { server = s' })
  to_client :
      (port i : ℕ) (p : Bytes) {v : Verdict} {c' : Session}
      → get_elem? y.server.socket.sent i ≡ some p
      → consume port p y.client ≡ ok (v, c')
      → Step os y v (record y { client = c' })
  server_again :
      {s' : Session}
      → ServerNet.net_send y.server.sendbuff y.server.sendlen y.server ≡ ok s'
      → Step os y more (record y { server = s' })
  client_again :
      {c' : Session}
      → ClientNet.net_send y.client.sendbuff y.client.sendlen y.client ≡ ok c'
      → Step os y more (record y { client = c' })

pub data Reach (os : Os) (y : System) : System → Type 0 where
  here : Reach os y y
  next : {z w : System} {v : Verdict} → Reach os y z → Step os z v w → Reach os y w

-- A transfer under way.
pub record Inv (mode : ℕ) (network : Bytes) (y : System) : Type 0 where
  pub blocks : List Bytes
  pub sends : Sending network blocks y.server
  pub op : y.server.op_sent ≡ op_data
  pub started : 0 < length blocks
  pub receives : Receiving mode blocks y.client

take-append_left : (n : ℕ) (xs ys : List Bytes) → n ≤ length xs → take n (xs ++ ys) ≡ take n xs
take-append_left zero xs ys h = refl
take-append_left (suc n) [] ys h = elim h [ ]
take-append_left (suc n) (x ∷ xs) ys h = ap (◌∷◌ x) (take-append_left n xs ys (omega arith))

-- A receiver does not mind further blocks.
pub Receiving-append :
    {mode : ℕ} (blocks later : List Bytes) (c : Session)
    → Receiving mode blocks c
    → Receiving mode (blocks ++ later) c
Receiving-append blocks later c h = record {
  from_one = h.from_one;
  taken = omega (arith, h.taken, length-append blocks later);
  wrote =
      subst (λ t. Wrote c.modetype (joined t) c.localfp)
        (sym (take-append_left (c.nextblknum - 1) blocks later (omega (arith, h.taken)))) h.wrote;
  in_mode = h.in_mode;
  known_mode = h.known_mode;
  space = h.space;
  awaits = h.awaits;
}

Inv-Goes :
    {mode : ℕ} {network : Bytes} (y : System) {s' : Session} (h : Inv mode network y)
    → Goes network h.blocks s'
    → Inv mode network (record y { server = s' })
Inv-Goes y h g = record {
  blocks = h.blocks ++ g.later;
  sends = g.sending;
  op = g.op;
  started = omega (arith, h.started, length-append h.blocks g.later);
  receives = Receiving-append h.blocks g.later y.client h.receives;
}

-- The time-out of the server sends a block again.
server_again-Inv :
    {mode : ℕ} {network : Bytes} (y : System) {s' : Session}
    → Inv mode network y
    → ServerNet.net_send y.server.sendbuff y.server.sendlen y.server ≡ ok s'
    → Inv mode network (record y { server = s' })
unfolding ServerNet.net_send
server_again-Inv {mode} {network} y {s'} h e =
    subst (λ t. Inv mode network (record y { server = t })) (ok-injective (rw h.sends.works at e))
      (record {
        blocks = h.blocks;
        sends = record {
          cut = h.sends.cut;
          counted = h.sends.counted;
          few = h.sends.few;
          last = h.sends.last;
          works = refl;
          readable = h.sends.readable;
          known_mode = h.sends.known_mode;
          room = h.sends.room;
          space = h.sends.space;
          sent =
              All-append (Carries h.blocks) y.server.socket.sent _ h.sends.sent
                (h.sends.buffered h.started, tt);
          buffered = h.sends.buffered;
        };
        op = h.op;
        started = h.started;
        receives = h.receives;
      })

-- The client after a datagram of the server's.
record Took (mode : ℕ) (network : Bytes) (blocks : List Bytes) (v : Verdict) (c' : Session)
    : Type 0 where
  receives : Receiving mode blocks c'
  ends :
      v ≡ done
      → length blocks < 65536
      → (c'.nextblknum ≡ suc (length blocks)) × (joined blocks ≡ network)

consume-Took :
    {mode : ℕ} {network : Bytes} (y : System) (h : Inv mode network y) (port : ℕ) (p : Bytes)
    {v : Verdict} {c' : Session}
    → Carries h.blocks p
    → consume port p y.client ≡ ok (v, c')
    → Took mode network h.blocks v c'
consume-Took {mode} {network} y h port p {v} {c'} (carries k b g is) e =
    let small = h.sends.cut.fits k b g in
    let below = lt-of-get_elem? h.blocks k g in
    let (r, verdict, following) =
      consume-Receiving h.blocks k b port y.client h.receives g small (omega (arith, h.sends.few))
        (subst (λ t. consume port t y.client ≡ ok (v, c')) is e) in
    record {
      receives = r;
      ends = λ ended few.
          let (is_last, nothing) = h.sends.cut.last_short k b g (ground arith) in
          (
            following (omega arith) ∙ ap suc is_last,
            sym (append-nil (joined h.blocks))
                ∙ ap (λ t. joined h.blocks ++ t) (sym nothing)
                ∙ h.sends.cut.whole,
          );
    }

Step-Inv :
    {os : Os} {mode : ℕ} {network : Bytes} {y z : System} {v : Verdict}
    → Inv mode network y
    → Step os y v z
    → Inv mode network z
Step-Inv {os} {mode} {network} {y} h (to_server port p small e) =
    Inv-Goes y h (serve-Goes os network h.blocks port p y.server h.sends h.op small e)
Step-Inv {os} {mode} {network} {y} h (to_client port i p g e) =
    let t =
      consume-Took y h port p (All-get (Carries h.blocks) y.server.socket.sent i h.sends.sent g)
        e in
    record {
      blocks = h.blocks;
      sends = h.sends;
      op = h.op;
      started = h.started;
      receives = t.receives;
    }
Step-Inv {os} {mode} {network} {y} h (server_again e) = server_again-Inv y h e
Step-Inv {os} {mode} {network} {y} h (client_again e) = record {
  blocks = h.blocks;
  sends = h.sends;
  op = h.op;
  started = h.started;
  receives = net_send-Receiving h.blocks y.client.sendbuff y.client.sendlen y.client h.receives e;
}

Reach-Inv :
    {os : Os} {mode : ℕ} {network : Bytes} {y z : System}
    → Inv mode network y
    → Reach os y z
    → Inv mode network z
Reach-Inv h here = h
Reach-Inv h (next r st) = Step-Inv (Reach-Inv h r) st

module _ {os : Os} {mode : ℕ} {file : Bytes} {y z : System}
    (start : Inv mode (network_form mode file) y) (r : Reach os y z) where
  -- However the network behaves, what the client has written is a beginning of the file that the
  -- server reads.
  pub client-written_begins : (tail : Bytes) × (z.client.localfp.stream.written ++ tail ≡ file)
  client-written_begins =
      let h = Reach-Inv start r in
      let got = take (z.client.nextblknum - 1) h.blocks in
      let parts : joined got
            ++ (joined (drop (z.client.nextblknum - 1) h.blocks)
                ++ coming z.server.modetype z.server.localfp)
          ≡ network_form mode file =
        sym (append_assoc (joined got) _ _)
        ∙ ap (λ t. t ++ coming z.server.modetype z.server.localfp)
            (sym (joined-append got _)
              ∙ ap joined (take-append-drop (z.client.nextblknum - 1) h.blocks))
        ∙ h.sends.cut.whole in
      Wrote-begins mode (joined got) _ file z.client.localfp parts
        (subst (λ m. Wrote m (joined got) z.client.localfp) h.receives.in_mode h.receives.wrote)
        (subst (λ m. m ≤ mode_binary) h.receives.in_mode h.receives.known_mode)

  -- When the loop of the client ends, before the server has used up the block numbers, the client
  -- has written the whole file.
  pub client-written_whole :
      {w : System}
      → Step os z done w
      → z.server.nextblknum < 65536
      → w.client.localfp.stream.written ≡ file
  client-written_whole st few = whole st (Reach-Inv start r) few
    where
      whole :
          {w : System}
          → Step os z done w
          → Inv mode (network_form mode file) z
          → z.server.nextblknum < 65536
          → w.client.localfp.stream.written ≡ file
      whole (to_client port i p {c' = c'} g e) h few =
          let t =
            consume-Took z h port p
              (All-get (Carries h.blocks) z.server.socket.sent i h.sends.sent g) e in
          let (n, all) = t.ends refl (omega (arith, h.sends.counted)) in
          Took-written mode file h.blocks c' t.receives n all
