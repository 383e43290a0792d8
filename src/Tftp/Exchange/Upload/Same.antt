-- ===== src/Tftp/Exchange/Upload/Same.antt =====
-- What the handlers of the two programs have in common: `recv_ACK` returns the same in both, and
-- the server's `recv_DATA` is the client's with a test of the length and the end of the file added.
use my_coding_exercises.Common.{
  ℕ, ◌-◌, ◌≡◌, refl, ◌∙◌, inl, inr, Bytes, take, drop, leb, ltb, arith, Bool-cases, Bool, true,
  false, sym, if◌then◌else◌,
}
use my_coding_exercises.Tftp.Client.File.Agree.{returned-file_read}
use my_coding_exercises.Tftp.Client.File as ClientFile
use my_coding_exercises.Tftp.Client.Net as ClientNet
use my_coding_exercises.Tftp.Client.Send as ClientSend
use my_coding_exercises.Tftp.Run.{ok, Verdict, bind-eq-ok, returned, returned-bind, ok-of-returned}
use my_coding_exercises.Tftp.Server.File as ServerFile
use my_coding_exercises.Tftp.Server.Net as ServerNet
use my_coding_exercises.Tftp.Server.Send as ServerSend
use my_coding_exercises.Tftp.Session.{LocalFile, Session}
use my_coding_exercises.Tftp.Wire.{max_data, ldshort}

pub net_send-eq :
    (buff : Bytes) (n : ℕ) (s : Session) → ClientNet.net_send buff n s ≡ ServerNet.net_send buff n s
unfolding ClientNet.net_send ServerNet.net_send
net_send-eq buff n s = refl

send_data-eq : (k n : ℕ) (s : Session) → ClientSend.send_data k n s ≡ ServerSend.send_data k n s
unfolding ClientSend.send_data ServerSend.send_data ClientNet.net_send ServerNet.net_send
send_data-eq k n s = refl

accept_ack-Agrees :
    (s : Session) → returned (ClientSend.accept_ack s) ≡ returned (ServerSend.accept_ack s)
unfolding ClientSend.accept_ack ServerSend.accept_ack ClientSend.send_data ServerSend.send_data
    ClientNet.net_send ServerNet.net_send
accept_ack-Agrees s =
    returned-bind (ClientFile.file_read s.localfp max_data s.modetype) _ _
      (returned-file_read s.localfp max_data s.modetype s.recvbuff).0

recv_ack-Agrees :
    (ptr : Bytes) (n : ℕ) (s : Session)
    → returned (ClientSend.recv_ack ptr n s) ≡ returned (ServerSend.recv_ack ptr n s)
unfolding ClientSend.recv_ack ServerSend.recv_ack returned
recv_ack-Agrees ptr n s = ground (arith, accept_ack-Agrees s)

-- Where the client's `recv_ACK` returns, the server's returns the same, down to the packet that it
-- sends.
pub recv_ack-server :
    (ptr : Bytes) (n : ℕ) (s : Session) {r : Verdict × Session}
    → ClientSend.recv_ack ptr n s ≡ ok r
    → ServerSend.recv_ack ptr n s ≡ ok r
recv_ack-server ptr n s e = ok-of-returned _ _ (recv_ack-Agrees ptr n s) e

store-client :
    (b : Bool) (f : LocalFile) (payload : Bytes) (mode : ℕ) {f' : LocalFile}
    → (if b then ServerFile.file_write f payload mode else ok f) ≡ ok f'
    → (if b then ClientFile.file_write f payload mode else ok f) ≡ ok f'
store-client true f payload mode e =
    ok-of-returned _ _ (sym (returned-file_read f 0 mode payload).1) e
store-client false f payload mode e = e

accept_data-client :
    (payload : Bytes) (n : ℕ) (s : Session) {s' : Session}
    → ServerSend.accept_data payload n s ≡ ok s'
    → ClientSend.accept_data payload n s ≡ ok s'
unfolding ClientSend.accept_data ServerSend.accept_data
accept_data-client payload n s e =
    let (f, stored, rest) =
      bind-eq-ok
        (if ltb 0 n then ServerFile.file_write s.localfp payload s.modetype else ok s.localfp) _
        e in
    let (_, _, last) =
      bind-eq-ok (if ltb n max_data then ServerFile.file_close f else ok tt) _ rest in
    rw (store-client (ltb 0 n) s.localfp payload s.modetype stored) last

send_ack-eq : (k : ℕ) (s : Session) → ClientSend.send_ack k s ≡ ServerSend.send_ack k s
unfolding ClientSend.send_ack ServerSend.send_ack ClientNet.net_send ServerNet.net_send
send_ack-eq k s = refl

place_data-client :
    (k : ℕ) (payload : Bytes) (n : ℕ) (s : Session) {s' : Session}
    → ServerSend.place_data k payload n s ≡ ok s'
    → ClientSend.place_data k payload n s ≡ ok s'
unfolding ClientSend.place_data ServerSend.place_data
place_data-client k payload n s {s'} e = ground (arith, accept_data-client payload n s {s' = s'})

-- Where the server's `recv_DATA` returns, the client's would return the same.
pub recv_data-client :
    (ptr : Bytes) (n : ℕ) (s : Session) {r : Verdict × Session}
    → ServerSend.recv_data ptr n s ≡ ok r
    → ClientSend.recv_data ptr n s ≡ ok r
unfolding ClientSend.recv_data ServerSend.recv_data
recv_data-client ptr n s {r} e = elim (Bool-cases (leb (n - 2) max_data)) [
  | inr long ↦ absurd (ground arith)
  | inl fits ↦
      let block = take (n - 2) (drop 2 ptr) in
      let e' = rw fits at e in
      let (s₁, placed, rest) =
        bind-eq-ok (ServerSend.place_data (ldshort ptr) block (n - 2) s) _ e' in
      let (s₂, acked, last) = bind-eq-ok (ServerSend.send_ack (ldshort ptr) s₁) _ rest in
      rw
        (
          place_data-client (ldshort ptr) block (n - 2) s placed,
          send_ack-eq (ldshort ptr) s₁ ∙ acked,
        )
        last
]
