-- ===== src/Tftp/Exchange/Rounds.antt =====
-- The receiver in its own loop, with the clock, the time-outs and the packets sent again: what the
-- rounds of the client's `fsm_loop` do to its file.
use mathlib.Core.Path.{subst}
use my_coding_exercises.Common.{
  All, ℕ, suc, ◌-◌, ◌≤◌, ◌<◌, ◌≡◌, sym, ap, ◌∙◌, inl, inr, Bool, true, false, List, [], ◌∷◌, Bytes,
  length, arith, Bool-cases, ◌==◌, if◌then◌else◌, some, get_elem?, lt-of-get_elem?, take, drop,
  take-append-drop, append-nil, ◌++◌,
}
use my_coding_exercises.Tftp.Client.Fsm.{
  Machine, Loop, finished, timed_out, waiting, blocked, round, rounds, dispatch,
}
use my_coding_exercises.Tftp.Client.Net.{take_datagram, net_recv, net_send}
use my_coding_exercises.Tftp.Exchange.{consume}
use my_coding_exercises.Tftp.Exchange.Blocks.{Blocks, Carries, carries, joined, joined-append}
use my_coding_exercises.Tftp.Exchange.Consume.{consume-Receiving}
use my_coding_exercises.Tftp.Exchange.Receiver.{Receiving, Wrote, net_send-Receiving}
use my_coding_exercises.Tftp.Exchange.Written.{Took-written, Wrote-begins}
use my_coding_exercises.Tftp.Exchange.Start.{Asks, Asks-Receiving}
use my_coding_exercises.Tftp.Netascii.{network_form}
use my_coding_exercises.Tftp.Real.{Real}
use my_coding_exercises.Tftp.Rtt.{Timer, rtt_start, rtt_stop, rtt_timeout}
use my_coding_exercises.Tftp.Run.{
  ok, stop, ◌>>=◌, Verdict, more, done, bind-eq-ok, ok-injective, receive_error,
}
use my_coding_exercises.Tftp.Server.Fsm.{Round}
use my_coding_exercises.Tftp.Server.Net.{
  Arrival, alarm, child, failure, datagram, Received, waits, timeout, interrupted, bytes,
}
use my_coding_exercises.Tftp.Session.{Session}
use my_coding_exercises.Tftp.Wire.{max_buff, max_data, mode_binary}

-- What may arrive: any of the blocks, from any port, or a signal or an error.
unfoldable pub Brings : List Bytes → Arrival → Type 0
Brings blocks alarm = Unit
Brings blocks child = Unit
Brings blocks failure = Unit
Brings blocks (datagram port p) = Carries blocks p

net_recv-bytes :
    (blocks : List Bytes) (arrivals : List Arrival) (c : Session) {n : ℕ} {s : Session}
    → All (Brings blocks) arrivals
    → net_recv max_buff arrivals c ≡ ok (bytes n s)
    → (port : ℕ) × (p : Bytes) × Carries blocks p
      × (take_datagram max_buff port p c ≡ ok (bytes n s))
unfolding net_recv Brings
net_recv-bytes blocks [] c h e = cc
net_recv-bytes blocks (alarm ∷ arrivals) c h e = cc
net_recv-bytes blocks (child ∷ arrivals) c h e = cc
net_recv-bytes blocks (failure ∷ arrivals) c h e = cc
net_recv-bytes blocks (datagram port p ∷ arrivals) c h e = (port, p, h.0, e)

-- The receiver after a datagram: if it ends, it has taken the last block.
After : ℕ → List Bytes → Verdict → Session → Type 0
After mode blocks more c = Receiving mode blocks c
After mode blocks done c = Receiving mode blocks c × (c.nextblknum ≡ suc (length blocks))

-- Below 512 bytes a block is the last one.
After-taken :
    {mode : ℕ} (network : Bytes) (blocks : List Bytes) (k : ℕ) (b : Bytes) (c : Session)
    (v : Verdict)
    → Blocks network blocks []
    → get_elem? blocks k ≡ some b
    → Receiving mode blocks c
    → v ≡ (if length b == max_data then more else done)
    → c.nextblknum ≡ suc (suc k)
    → After mode blocks v c
unfolding After
After-taken network blocks k b c more cut g h e n = h
After-taken network blocks k b c done cut g h e n = elim (Bool-cases (length b == max_data)) [
  | inl full ↦ cc (rw full at e)
  | inr short ↦
      let fits = cut.fits k b g in (h, n ∙ ap suc (cut.last_short k b g (ground (arith, fits))).0)
]

dispatch-After :
    {mode : ℕ} (network : Bytes) (blocks : List Bytes) (arrivals : List Arrival) (c : Session)
    {n : ℕ} {s : Session} {v : Verdict} {c' : Session}
    → Blocks network blocks []
    → length blocks < 65536
    → Receiving mode blocks c
    → All (Brings blocks) arrivals
    → net_recv max_buff arrivals c ≡ ok (bytes n s)
    → dispatch n s ≡ ok (v, c')
    → After mode blocks v c'
unfolding consume
dispatch-After network blocks arrivals c {v} {c'} cut few h brings got e =
    let (port, p, brought, took) = net_recv-bytes blocks arrivals c brings got in
    elim brought [
      | carries k b g i ↦
          let in_range = lt-of-get_elem? blocks k g in
          let (h', ends, next) =
            consume-Receiving blocks k b port c h g (cut.fits k b g) (omega arith)
              (subst (λ t. consume port t c ≡ ok (v, c')) i (rw took e)) in
          After-taken network blocks k b c' v cut g h' ends (next (omega arith))
    ]

module _ (R : Real) where
  -- The loop at a place: what the session is there, and that it has taken all blocks if the loop
  -- has returned 0.
  Stands : ℕ → List Bytes → Loop R → Type 0
  Stands mode blocks (finished m) =
      Receiving mode blocks m.session × (m.session.nextblknum ≡ suc (length blocks))
  Stands mode blocks (timed_out m) = Receiving mode blocks m.session
  Stands mode blocks (waiting m) = Receiving mode blocks m.session
  Stands mode blocks (blocked m) = Receiving mode blocks m.session

  Stands-After :
      (mode : ℕ) (blocks : List Bytes) (v : Verdict) (m : Machine R)
      → After mode blocks v m.session
      → Stands mode blocks (elim v [ more ↦ waiting m | done ↦ finished m ])
  unfolding After Stands
  Stands-After mode blocks more m h = h
  Stands-After mode blocks done m h = h

  Stands-again :
      (mode : ℕ) (blocks : List Bytes) (again : Bool) (m : Machine R) (t : Timer R) {l : Loop R}
      → Receiving mode blocks m.session
      → (if again
          then (net_send m.session.sendbuff m.session.sendlen m.session >>= λ s.
              ok (waiting (record m { session = s; rttinfo = t })))
          else ok (timed_out (record m { rttinfo = t })))
        ≡ ok l
      → Stands mode blocks l
  unfolding Stands
  Stands-again mode blocks true m t h e =
      let (s, sent, rest) =
        bind-eq-ok (net_send m.session.sendbuff m.session.sendlen m.session) _ e in
      subst (Stands mode blocks) (ok-injective rest)
        (net_send-Receiving blocks m.session.sendbuff m.session.sendlen m.session h sent)
  Stands-again mode blocks false m t h e = subst (Stands mode blocks) (ok-injective e) h

  round-Stands :
      {mode : ℕ} (network : Bytes) (blocks : List Bytes) (r : Round) (m : Machine R) {l : Loop R}
      → Blocks network blocks []
      → length blocks < 65536
      → Receiving mode blocks m.session
      → All (Brings blocks) r.arrivals
      → round R r m ≡ ok l
      → Stands mode blocks l
  unfolding round Stands
  round-Stands {mode} network blocks r m {l} cut few h brings e =
      let (t₁, started, e₁) = bind-eq-ok (rtt_start R r.started m.rttinfo) _ e in
      let (got, received, e₂) = bind-eq-ok (net_recv max_buff r.arrivals m.session) _ e₁ in
      go t₁ got received e₂
    where
      go :
          (t₁ : Timer R) (got : Received)
          → net_recv max_buff r.arrivals m.session ≡ ok got
          → (elim got [
            | waits ↦ ok (blocked (record m { rttinfo = t₁ }))
            | timeout ↦ rtt_timeout R r.stopped t₁ >>= λ (again, t₂).
                (if again
                  then (net_send m.session.sendbuff m.session.sendlen m.session >>= λ s.
                      ok (waiting (record m { session = s; rttinfo = t₂ })))
                  else ok (timed_out (record m { rttinfo = t₂ })))
            | interrupted ↦ stop receive_error
            | bytes n s ↦ rtt_stop R r.stopped t₁ >>= λ t₂.
                (dispatch n s >>= λ (v, s'). ok (elim v [
                  | more ↦ waiting (record m { session = s'; rttinfo = t₂ })
                  | done ↦ finished (record m { session = s'; rttinfo = t₂ })
                ]))
          ])
            ≡ ok l
          → Stands mode blocks l
      go t₁ waits i k = subst (Stands mode blocks) (ok-injective k) h
      go t₁ timeout i k =
          let ((again, t₂), late, rest) = bind-eq-ok (rtt_timeout R r.stopped t₁) _ k in
          Stands-again mode blocks again m t₂ h rest
      go t₁ interrupted i k = cc
      go t₁ (bytes n s) i k =
          let (t₂, stopped, k₁) = bind-eq-ok (rtt_stop R r.stopped t₁) _ k in
          let ((v, s'), answer, k₂) = bind-eq-ok (dispatch n s) _ k₁ in
          subst (Stands mode blocks) (ok-injective k₂) (
            Stands-After mode blocks v (record m { session = s'; rttinfo = t₂ })
              (dispatch-After network blocks r.arrivals m.session cut few h brings i answer))

  rounds-Stands :
      {mode : ℕ} (network : Bytes) (blocks : List Bytes) (rs : List Round) (m : Machine R)
      {l : Loop R}
      → Blocks network blocks []
      → length blocks < 65536
      → Receiving mode blocks m.session
      → All (λ r. All (Brings blocks) r.arrivals) rs
      → rounds R rs m ≡ ok l
      → Stands mode blocks l
  unfolding rounds Stands
  rounds-Stands {mode} network blocks [] m cut few h brings e =
      subst (Stands mode blocks) (ok-injective e) h
  rounds-Stands {mode} network blocks (r ∷ rs) m {l} cut few h brings e =
      let (l', now, rest) = bind-eq-ok (round R r m) _ e in
      go (λ m' h' k. rounds-Stands network blocks rs m' cut few h' brings.1 k) l'
        (round-Stands network blocks r m cut few h brings.0 now) rest
    where
      go :
          ((m' : Machine R)
            → Receiving mode blocks m'.session
            → rounds R rs m' ≡ ok l
            → Stands mode blocks l)
          → (l' : Loop R) → Stands mode blocks l'
          → (elim l' [
            | waiting m' ↦ rounds R rs m'
            | finished m' ↦ ok (finished m')
            | timed_out m' ↦ ok (timed_out m')
            | blocked m' ↦ ok (blocked m')
          ])
            ≡ ok l
          → Stands mode blocks l
      go later (waiting m') h' k = later m' h' k
      go later (finished m') h' k = subst (Stands mode blocks) (ok-injective k) h'
      go later (timed_out m') h' k = subst (Stands mode blocks) (ok-injective k) h'
      go later (blocked m') h' k = subst (Stands mode blocks) (ok-injective k) h'

  -- The local file is a beginning of the file, and the whole of it once the loop has returned 0.
  unfoldable pub Copied : Bytes → Loop R → Type 0
  Copied file (finished m) = m.session.localfp.stream.written ≡ file
  Copied file (timed_out m) = (tail : Bytes) × (m.session.localfp.stream.written ++ tail ≡ file)
  Copied file (waiting m) = (tail : Bytes) × (m.session.localfp.stream.written ++ tail ≡ file)
  Copied file (blocked m) = (tail : Bytes) × (m.session.localfp.stream.written ++ tail ≡ file)

  begins :
      {mode : ℕ} (file : Bytes) (blocks : List Bytes) (c : Session)
      → Blocks (network_form mode file) blocks []
      → Receiving mode blocks c
      → (tail : Bytes) × (c.localfp.stream.written ++ tail ≡ file)
  begins {mode} file blocks c cut h =
      let got = take (c.nextblknum - 1) blocks in
      let later = drop (c.nextblknum - 1) blocks in
      Wrote-begins mode (joined got) (joined later) file c.localfp
        (sym (joined-append got later)
          ∙ ap joined (take-append-drop (c.nextblknum - 1) blocks)
          ∙ sym (append-nil (joined blocks))
          ∙ cut.whole)
        (subst (λ m. Wrote m (joined got) c.localfp) h.in_mode h.wrote)
        (subst (λ m. m ≤ mode_binary) h.in_mode h.known_mode)

  Stands-Copied :
      (mode : ℕ) (file : Bytes) (blocks : List Bytes) (l : Loop R)
      → Blocks (network_form mode file) blocks []
      → Stands mode blocks l
      → Copied file l
  unfolding Copied Stands
  Stands-Copied mode file blocks (finished m) cut h =
      Took-written mode file blocks m.session h.0 h.1 (sym (append-nil (joined blocks)) ∙ cut.whole)
  Stands-Copied mode file blocks (timed_out m) cut h = begins file blocks m.session cut h
  Stands-Copied mode file blocks (waiting m) cut h = begins file blocks m.session cut h
  Stands-Copied mode file blocks (blocked m) cut h = begins file blocks m.session cut h

  -- A client that has asked for a file, with an empty file to write to that takes its writes, and
  -- that holds back no CR, waits for block 1 and runs the rounds of its loop. The file's network
  -- form is cut into blocks as a sender does it, at most 65535 of them, and every datagram that
  -- arrives carries one of these blocks under its number, in any order and any number of times,
  -- with alarms, signals and errors of `recvfrom` in between, whatever the readings of the clock
  -- and the arithmetic of the timer are. If the process does not exit, then the local file is the
  -- whole file once the loop has returned 0, and a beginning of it in every other case: after the
  -- time-outs, in a round whose `recvfrom` waits, and between two rounds.
  pub rounds-Copied :
      {mode : ℕ} (file : Bytes) (blocks : List Bytes) (rs : List Round) (m : Machine R) {l : Loop R}
      → Asks mode m.session
      → Blocks (network_form mode file) blocks []
      → length blocks < 65536
      → All (λ r. All (Brings blocks) r.arrivals) rs
      → rounds R rs m ≡ ok l
      → Copied file l
  rounds-Copied {mode} file blocks rs m {l} asks cut few brings e =
      Stands-Copied mode file blocks l cut (
        rounds-Stands (network_form mode file) blocks rs m cut few
          (Asks-Receiving blocks m.session asks) brings e)
