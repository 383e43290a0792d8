-- ===== src/Tftp/Exchange/Upload/Whole.antt =====
-- A put from its start: what the server has written, and what it has written when its loop ends.
use mathlib.Core.Path.{subst}
use my_coding_exercises.Common.{
  Option, some, true, ◌∷◌, ◌==◌, inr, Bool-cases, if◌then◌else◌, All, ℕ, ◌<◌, ◌≤◌, ◌≡◌, refl, sym,
  ap, ◌∙◌, false, inl, none, [], ◌++◌, Bytes, length, arith,
}
use my_coding_exercises.Tftp.Exchange.Blocks.{Carries}
use my_coding_exercises.Tftp.Exchange.Download.{System}
use my_coding_exercises.Tftp.Exchange.Receiver.{Receiving}
use my_coding_exercises.Tftp.Exchange.Sender.{Sending}
use my_coding_exercises.Tftp.Exchange.Start.{Fresh}
use my_coding_exercises.Tftp.Exchange.Upload.Begin.{WritesWell, recv_wrq-Accepts}
use my_coding_exercises.Tftp.Exchange.Upload.Steps.{
  Inv, Reach, Step, server-written_begins, server-written_whole,
}
use my_coding_exercises.Tftp.Netascii.{network_form, encode, pending}
use my_coding_exercises.Tftp.Run.{ok, Verdict, done, ok-injective}
use my_coding_exercises.Tftp.Server.Access.{named_mode, Names-named_mode}
use my_coding_exercises.Tftp.Server.File.Convert.{coming}
use my_coding_exercises.Tftp.Server.Send.{Os, request_strings, recv_wrq}
use my_coding_exercises.Tftp.Session.{Session}
use my_coding_exercises.Tftp.Wire.{max_buff, max_data, mode_ascii, mode_binary, op_wrq}

-- What `nextchar` is in a client that has sent every file of its to the end, or none: nothing, or the
-- null byte that it starts as.
abbrev pub HeldNull : Option ℕ → Type 0
HeldNull none = Unit
HeldNull (some c) = c ≡ 0

-- That null byte goes out in front of the file, in ASCII mode.
abbrev pub stray : ℕ → Option ℕ → Bytes
stray mode none = []
stray mode (some c) = if mode == mode_ascii then 0 ∷ [] else []

-- A client that has asked to write a file in the given mode, and has sent the server nothing yet. The
-- file is what is left to read, with the byte that is held back in front.
pub record Offers (mode : ℕ) (file : Bytes) (c : Session) : Type 0 where
  pub first : c.nextblknum ≡ 0
  pub op : c.op_sent ≡ op_wrq
  pub in_mode : c.modetype ≡ mode
  pub known_mode : c.modetype ≤ mode_binary
  pub full : c.lastsend ≡ max_data
  pub works : c.socket.send_fails ≡ false
  pub silent : c.socket.sent ≡ []
  pub room : length c.sendbuff ≡ max_buff
  pub space : length c.recvbuff ≡ max_buff
  pub readable : c.localfp.stream.read_fails ≡ false
  pub held : HeldNull c.localfp.nextchar
  pub whole : stray c.modetype c.localfp.nextchar ++ c.localfp.stream.unread ≡ file

coming-stray :
    (mode : ℕ) (nextchar : Option ℕ) (unread : Bytes)
    → mode ≤ mode_binary
    → HeldNull nextchar
    → (if mode == mode_binary then unread else pending nextchar ++ encode unread)
      ≡ network_form mode (stray mode nextchar ++ unread)
coming-stray mode none unread known h = elim (Bool-cases (mode == mode_ascii)) [
  | inl ascii ↦ let other : (mode == mode_binary) ≡ false = ground arith in rw (ascii, other) refl
  | inr binary ↦ let same : (mode == mode_binary) ≡ true = ground arith in rw (binary, same) refl
]
coming-stray mode (some c) unread known h = elim (Bool-cases (mode == mode_ascii)) [
  | inl ascii ↦
      let other : (mode == mode_binary) ≡ false = ground arith in rw (ascii, other, h) refl
  | inr binary ↦ let same : (mode == mode_binary) ≡ true = ground arith in rw (binary, same) refl
]

offered :
    {mode : ℕ} {file : Bytes} (c : Session)
    → Offers mode file c
    → coming c.modetype c.localfp ≡ network_form mode file
offered {mode} {file} c o =
    coming-stray c.modetype c.localfp.nextchar c.localfp.stream.unread o.known_mode o.held
    ∙ ap (network_form c.modetype) o.whole
    ∙ ap (λ m. network_form m file) o.in_mode

pub Offers-Sending :
    {mode : ℕ} {file : Bytes} (c : Session)
    → Offers mode file c
    → Sending (network_form mode file) [] c
Offers-Sending {mode} {file} c o = record {
  cut = record { whole = offered c o; fits = λ k b h. cc; last_short = λ k b h. cc };
  counted = o.first;
  few = omega arith;
  last = λ k b h. cc;
  works = o.works;
  readable = o.readable;
  known_mode = o.known_mode;
  room = o.room;
  space = o.space;
  sent = subst (All (Carries [])) (sym o.silent) tt;
  buffered = λ h. absurd (omega arith);
}

module _ (os : Os) (ptr : Bytes) (n : ℕ) {filename text file : Bytes} {s s' c : Session}
    {v : Verdict} {z : System} (asked : request_strings ptr n ≡ ok (filename, text))
    (fresh : Fresh s) (writes : WritesWell os) (served : recv_wrq os ptr n s ≡ ok (v, s'))
    (offers : Offers (named_mode text) file c)
    (r : Reach os (record { server = s'; client = c }) z) where
  begun :
      Inv
        (named_mode text)
        (network_form (named_mode text) file)
        (record { server = s'; client = c })
  begun =
      let a = recv_wrq-Accepts os ptr n s fresh writes served in
      let g = a.granted in
      let strings = ok-injective (sym g.asked ∙ asked) in
      let mode : g.mode ≡ named_mode text =
        Names-named_mode g.text g.mode g.named ∙ ap (λ p. named_mode p.1) strings in
      record {
        blocks = [];
        sends = Offers-Sending c offers;
        stage = inl (offers.op, refl);
        receives = subst (λ m. Receiving m [] s') mode (a.receives []);
      }

  -- A fresh server process has answered a write request, on a system where files can be written.
  -- A client that has asked to write a file in the same mode waits for the acknowledgement of block
  -- 0; it can read the file, its `sendto` works, it has sent the server process nothing yet, and it
  -- holds no byte back, or the null byte that it starts with. Then the server's file is at every
  -- time a beginning of the client's, whatever datagrams the client is sent and however its own are
  -- lost, repeated, delayed or reordered on the way to the server; in ASCII mode, the null byte that
  -- is held back counts as the first byte of the client's file.
  pub upload_begins : (tail : Bytes) × (z.server.localfp.stream.written ++ tail ≡ file)
  upload_begins = server-written_begins begun r

  -- A fresh server process has answered a write request, on a system where files can be written.
  -- A client that has asked to write a file in the same mode waits for the acknowledgement of block
  -- 0; it can read the file, its `sendto` works, it has sent the server process nothing yet, and it
  -- holds no byte back, or the null byte that it starts with. If the server's loop ends, after any
  -- sequence of steps of the two ends, on a datagram of the client, then its file is the client's
  -- file, with the null byte in front if one is held back and the mode is ASCII, provided that the
  -- client has not yet sent more than 65535 blocks.
  pub upload_whole :
      {w : System}
      → Step os z done w
      → z.client.nextblknum < 65536
      → w.server.localfp.stream.written ≡ file
  upload_whole = server-written_whole begun r
