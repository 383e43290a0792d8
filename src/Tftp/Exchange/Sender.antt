-- ===== src/Tftp/Exchange/Sender.antt =====
-- The sending end of a transfer, here the server that answers a read request: the blocks that it
-- has sent so far, and that they are the file in its network form, cut into blocks.
use my_coding_exercises.Common.{
  ℕ, suc, ◌+◌, ◌≤◌, ◌<◌, ◌≡◌, refl, sym, ap, ◌∙◌, inl, inr, true, false, ◌&&◌, some, List, [], ◌∷◌,
  ◌++◌, append-nil, All, All-append, All-map, Bytes, length, length-append, take, get_elem?,
  lt-of-get_elem?, write_at, length-overlay, length-write_at, write_at-nil, arith, Bool-cases, ◌==◌,
  ltb,
}
use mathlib.Core.Path.{subst}
use my_coding_exercises.Tftp.Exchange.Blocks.{
  joined, Blocks, Carries, carries, Blocks-snoc, full_before, Carries-snoc, get_elem?-append,
  get_elem?-length,
}
use my_coding_exercises.Tftp.Exchange.Packets.{built}
use my_coding_exercises.Tftp.Run.{ok, Verdict, more, done, ok-injective}
use my_coding_exercises.Tftp.Server.File.Convert.{coming, file_read_lem}
use my_coding_exercises.Tftp.Server.Net.{net_send}
use my_coding_exercises.Tftp.Server.Send.{accept_ack, send_data}
use my_coding_exercises.Tftp.Session.{Session, LocalFile}
use my_coding_exercises.Tftp.Wire.{
  packet, max_data, max_buff, mode_binary, op_data, stshort, short_bytes,
}

pub record Sending (network : Bytes) (blocks : List Bytes) (s : Session) : Type 0 where
  pub cut : Blocks network blocks (coming s.modetype s.localfp)
  pub counted : s.nextblknum ≡ length blocks
  -- A block number on the wire has 16 bits, so no acknowledgement lets the sender go further.
  pub few : length blocks ≤ 65536
  pub last :
      (k : ℕ) (b : Bytes)
      → get_elem? blocks k ≡ some b
      → suc k ≡ length blocks
      → s.lastsend ≡ length b
  pub works : s.socket.send_fails ≡ false
  pub readable : s.localfp.stream.read_fails ≡ false
  pub known_mode : s.modetype ≤ mode_binary
  pub room : length s.sendbuff ≡ max_buff
  pub space : length s.recvbuff ≡ max_buff
  pub sent : All (Carries blocks) s.socket.sent
  -- What a time-out sends again.
  pub buffered : 0 < length blocks → Carries blocks (take s.sendlen s.sendbuff)

-- The session once the block `out` has been read, with `f` left of the file, and sent.
abbrev after_block : Session → Bytes → LocalFile → Session
after_block s out f =
    let filled = stshort (s.nextblknum + 1) 2 (stshort op_data 0 (write_at 4 out s.sendbuff)) in
    record s {
      localfp = f;
      lastsend = length out;
      nextblknum = s.nextblknum + 1;
      totnbytes = s.totnbytes + length out;
      sendbuff = filled;
      sendlen = length out + 4;
      op_sent = op_data;
      socket = record (s.socket) { sent = s.socket.sent ++ take (length out + 4) filled ∷ [] };
    }

-- What an expected acknowledgement leads to.
pub data Answered (network : Bytes) (blocks : List Bytes) (s : Session)
    : Verdict → Session → Type 0 where
  all_sent :
      {s' : Session}
      → Sending network blocks s'
      → joined blocks ≡ network
      → s.lastsend < max_data
      → s'.op_sent ≡ s.op_sent
      → s'.socket ≡ s.socket
      → Answered network blocks s done s'
  next_block :
      {s' : Session} (out : Bytes)
      → Sending network (blocks ++ out ∷ []) s'
      → s'.op_sent ≡ op_data
      → s'.socket ≡ record (s.socket) {
        sent = s.socket.sent ++ packet op_data (suc (length blocks)) out ∷ [];
      }
      → Answered network blocks s more s'

nil-of-length : (xs : Bytes) → length xs ≡ 0 → xs ≡ []
nil-of-length [] h = refl
nil-of-length (x ∷ xs) h = absurd (omega arith)

module _ (network : Bytes) (blocks : List Bytes) (s : Session) (h : Sending network blocks s)
    (bounded : s.nextblknum < 65536) where
  after_block-Answered :
      (out : Bytes) (f : LocalFile)
      → (out ++ coming s.modetype f ≡ coming s.modetype s.localfp)
      → length out ≤ max_data
      → (length out < max_data → coming s.modetype f ≡ [])
      → f.stream.read_fails ≡ false
      → (length out == 0 && ltb s.lastsend max_data) ≡ false
      → Answered network blocks s more (after_block s out f)
  after_block-Answered out f e le short good go =
      let full = full_before network blocks out _ _ s.lastsend h.cut h.last e go in
      let p : take (length out + 4)
            (stshort (s.nextblknum + 1) 2 (stshort op_data 0 (write_at 4 out s.sendbuff)))
          ≡ packet op_data (suc (length blocks)) out =
        built op_data (s.nextblknum + 1) out s.sendbuff (omega (arith, h.room))
        ∙ ap (λ k. packet op_data k out) (omega (arith, h.counted)) in
      next_block {s' = after_block s out f} out
        (record {
          cut = Blocks-snoc network blocks out _ _ h.cut e le short full;
          counted = omega (arith, h.counted, length-append blocks (out ∷ []));
          few = omega (arith, bounded, h.counted, length-append blocks (out ∷ []));
          last = λ k b g i. elim (get_elem?-append blocks k out b g) [
            | inl old ↦
                absurd
                  (omega (arith, i, length-append blocks (out ∷ []), lt-of-get_elem? blocks k old))
            | inr (_, new) ↦ ap length new
          ];
          works = h.works;
          readable = good;
          known_mode = h.known_mode;
          room =
              length-write_at 2 (short_bytes (s.nextblknum + 1))
                (stshort op_data 0 (write_at 4 out s.sendbuff))
              ∙ length-overlay (short_bytes op_data) (write_at 4 out s.sendbuff)
              ∙ length-write_at 4 out s.sendbuff
              ∙ h.room;
          space = h.space;
          sent =
              All-append (Carries (blocks ++ out ∷ [])) s.socket.sent _
                (All-map _ _ (Carries-snoc blocks out) _ h.sent)
                (carries (length blocks) out (get_elem?-length blocks out) p, tt);
          buffered = λ _. carries (length blocks) out (get_elem?-length blocks out) p;
        })
        refl (rw p)

  -- All is sent once nothing can be read.
  all_sent-Answered :
      (out : Bytes) (f : LocalFile)
      → (out ++ coming s.modetype f ≡ coming s.modetype s.localfp)
      → (length out < max_data → coming s.modetype f ≡ [])
      → f.stream.read_fails ≡ false
      → (length out == 0 && ltb s.lastsend max_data) ≡ true
      → Answered network blocks s done
          (record s { localfp = f; sendbuff = write_at 4 out s.sendbuff })
  all_sent-Answered out f e short good ended =
      let none_left : out ≡ [] = nil-of-length out (ground arith) in
      let nothing : coming s.modetype f ≡ [] = short (ground arith) in
      let same : coming s.modetype s.localfp ≡ coming s.modetype f =
        sym e ∙ ap (λ t. t ++ coming s.modetype f) none_left in
      all_sent
        (record {
          cut = subst (Blocks network blocks) same h.cut;
          counted = h.counted;
          few = h.few;
          last = h.last;
          works = h.works;
          readable = good;
          known_mode = h.known_mode;
          room = length-write_at 4 out s.sendbuff ∙ h.room;
          space = h.space;
          sent = h.sent;
          buffered = λ some_sent.
              subst (λ b. Carries blocks (take s.sendlen b))
                (sym (ap (λ o. write_at 4 o s.sendbuff) none_left ∙ write_at-nil 4 s.sendbuff))
                (h.buffered some_sent);
        })
        (sym (append-nil (joined blocks))
          ∙ ap (λ t. joined blocks ++ t) (sym (same ∙ nothing))
          ∙ h.cut.whole)
        (ground arith) refl refl

  -- A sender whose `sendto` works, whose file has no read error, and which has sent fewer than
  -- 65536 blocks, always answers the expected acknowledgement: it sends the next block under the
  -- next number, or, when the last block was short, it ends with the whole file sent.
  pub accept_ack-Answered :
      (v : Verdict) × (s' : Session) × (accept_ack s ≡ ok (v, s')) × Answered network blocks s v s'
  unfolding accept_ack send_data net_send
  accept_ack-Answered =
      let (out, f, e, whole, le, short, good) =
        file_read_lem s.localfp max_data s.modetype h.readable h.known_mode in
      elim (Bool-cases (length out == 0 && ltb s.lastsend max_data)) [
        | inr go ↦ (
          more,
          after_block s out f,
          rw (e, go, h.works),
          after_block-Answered out f whole le short good go,
        )
        | inl ended ↦ (
          done,
          record s { localfp = f; sendbuff = write_at 4 out s.sendbuff },
          rw (e, ended),
          all_sent-Answered out f whole short good ended,
        )
      ]

  pub accept_ack-ok :
      {v : Verdict} {s' : Session} → accept_ack s ≡ ok (v, s') → Answered network blocks s v s'
  accept_ack-ok e =
      let (v₀, s₀, e₀, a) = accept_ack-Answered in
      subst (λ r. Answered network blocks s r.0 r.1) (ok-injective (sym e₀ ∙ e)) a
