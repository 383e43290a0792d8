-- ===== src/Tftp/Server/Retry.antt =====
-- A server that hears nothing sends its last packet four times more and gives up.
use my_coding_exercises.Common.{
  All, ℕ, zero, suc, ◌+◌, ◌≡◌, refl, sym, ◌∙◌, false, none, some, List, [], ◌∷◌, ◌++◌, append-nil,
  append_assoc, arith, length, take, replicate, ltb, get_or, ◌*◌, ◌%◌, ◌^◌, Bool-cases, inl, inr,
  if◌then◌else◌,
}
use my_coding_exercises.Tftp.Real.{Real}
use my_coding_exercises.Tftp.Rtt.{
  Timer, rtt_start, rtt_stop, rtt_timeout, observe, rtt_init, rtt_newpack, estimate, exp_backoff,
  short_positive, max_nrexmt,
}
use my_coding_exercises.Tftp.Run.{ok}
use my_coding_exercises.Tftp.Server.Fsm.{
  Round, Machine, timed_out, waiting, round, rounds, fsm_loop,
}
use my_coding_exercises.Tftp.Server.Net.{Arrival, alarm, receive, net_recv, net_send}
use my_coding_exercises.Tftp.Server.Send.{Os}
use my_coding_exercises.Tftp.Session.{Session}

-- A round in which nothing arrives before the alarm goes off.
pub data Quiet : Round → Type 0 where
  quiet :
      (r : Round) {t t' : ℕ × ℕ} {later : List Arrival}
      → r.started ≡ some t
      → r.stopped ≡ some t'
      → r.arrivals ≡ alarm ∷ later
      → Quiet r

module _ (R : Real) (os : Os) where
  rtt_start-nrexmt :
      (t : Timer R) (time : ℕ × ℕ)
      → (t' : Timer R) × (rtt_start R (some time) t ≡ ok t') × (t'.nrexmt ≡ t.nrexmt)
  unfolding rtt_start
  rtt_start-nrexmt t time = elim (Bool-cases (ltb 0 t.nrexmt)) [
    | inl again ↦
        (record t { currto = t.currto * get_or exp_backoff t.nrexmt 0 % 2 ^ 16 }, rw again, refl)
    | inr first ↦ elim (Bool-cases (short_positive t.nxtrto)) [
      | inl kept ↦
          (record t { time_start = time; currto = t.nxtrto; nxtrto = 0 }, rw (first, kept), refl)
      | inr new ↦ (record t { time_start = time; currto = estimate R t }, rw (first, new), refl)
    ]
  ]

  rtt_timeout-nrexmt :
      (t : Timer R) (time : ℕ × ℕ)
      → (t' : Timer R) × (rtt_timeout R (some time) t ≡ ok (ltb t.nrexmt max_nrexmt, t'))
        × (t'.nrexmt ≡ t.nrexmt + 1)
  unfolding rtt_timeout rtt_stop observe
  rtt_timeout-nrexmt t time = elim (Bool-cases (ltb 0 t.nrexmt)) [
    | inl again ↦ (record t { nxtrto = t.currto; nrexmt = t.nrexmt + 1 }, ground arith, refl)
    | inr first ↦ (
      record (observe R (record t { nxtrto = 0; time_stop = time })) { nrexmt = t.nrexmt + 1 },
      ground arith,
      refl,
    )
  ]

  -- What is sent again.
  abbrev resent : Session → Session
  resent s = record s {
    socket = record (s.socket) { sent = s.socket.sent ++ take s.sendlen s.sendbuff ∷ [] };
  }

  -- A quiet round: one packet more as long as there were fewer than four, and the end after that.
  round-Quiet :
      (r : Round) (m : Machine R)
      → Quiet r
      → m.session.socket.recv_nbytes ≡ none
      → m.session.socket.send_fails ≡ false
      → (t : Timer R) × (t.nrexmt ≡ m.rttinfo.nrexmt + 1)
        × (round R os r m ≡ (
            if ltb m.rttinfo.nrexmt max_nrexmt
            then ok (waiting (record m { session = resent m.session; rttinfo = t }))
            else ok (timed_out (record m { rttinfo = t }))))
  unfolding round net_recv receive net_send
  round-Quiet r m (quiet _ {t} {t'} {later} a b c) hears works =
      let (t₁, e₁, k₁) = rtt_start-nrexmt m.rttinfo t in
      let (t₂, e₂, k₂) = rtt_timeout-nrexmt t₁ t' in (t₂, omega arith, ground (arith, e₁, e₂))

  -- With nothing in between, five quiet rounds end the loop with -1, and the packet has been sent
  -- four times more.
  rounds-Quiet :
      (rs : List Round) (m : Machine R) (left : ℕ)
      → All Quiet rs
      → length rs ≡ suc left
      → m.rttinfo.nrexmt + left ≡ max_nrexmt
      → m.session.socket.recv_nbytes ≡ none
      → m.session.socket.send_fails ≡ false
      → (m' : Machine R) × (rounds R os rs m ≡ ok (timed_out m'))
        × (m'.session.socket.sent
            ≡ m.session.socket.sent ++ replicate left (take m.session.sendlen m.session.sendbuff))
  unfolding rounds
  rounds-Quiet [] m left q l n hears works = absurd (omega arith)
  rounds-Quiet (r ∷ rs) m zero q l n hears works =
      let (t, k, e) = round-Quiet r m q.0 hears works in
      (record m { rttinfo = t }, ground (arith, e), sym (append-nil m.session.socket.sent))
  rounds-Quiet (r ∷ rs) m (suc left) q l n hears works =
      let (t, k, e) = round-Quiet r m q.0 hears works in
      let m₁ = record m { session = resent m.session; rttinfo = t } in
      let (m', e', s) = rounds-Quiet rs m₁ left q.1 (omega arith) (omega arith) hears works in
      (
        m',
        ground (arith, e, e'),
        s
            ∙ append_assoc m.session.socket.sent (take m.session.sendlen m.session.sendbuff ∷ [])
                (replicate left (take m.session.sendlen m.session.sendbuff)),
      )

  -- A call of `fsm_loop` in which five times the clock can be read and `recvfrom` is interrupted
  -- by the alarm returns -1, if no request is waiting and `sendto` works; it has sent the last
  -- packet four times more and nothing else.
  pub fsm_loop-Quiet :
      (opcode : ℕ) (rs : List Round) (m : Machine R)
      → All Quiet rs
      → length rs ≡ max_nrexmt + 1
      → m.session.socket.recv_nbytes ≡ none
      → m.session.socket.send_fails ≡ false
      → (m' : Machine R) × (fsm_loop R os opcode rs m ≡ ok (timed_out m'))
        × (m'.session.socket.sent
            ≡ m.session.socket.sent
              ++ replicate max_nrexmt (take m.session.sendlen m.session.sendbuff))
  unfolding fsm_loop rtt_newpack
  fsm_loop-Quiet opcode rs m q l hears works =
      rounds-Quiet rs
        (record {
          session = record (m.session) { op_sent = opcode };
          rttinfo = rtt_newpack R (if m.rttfirst then rtt_init R m.rttinfo else m.rttinfo);
          rttfirst = false;
        })
        max_nrexmt q (omega arith) (omega arith) hears works
