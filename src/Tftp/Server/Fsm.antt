-- ===== src/Tftp/Server/Fsm.antt =====
-- tftp-exercises/server/fsm.c: the table of handlers and the main loop. What the world does in one
-- round of the loop is a `Round`: the returns of `recvfrom`, and the readings of the clock.
use my_coding_exercises.Common.{
  ℕ, ◌-◌, Bool, false, ◌||◌, List, [], ◌∷◌, Bytes, ltb, if◌then◌else◌, get_or, drop,
}
use my_coding_exercises.Tftp.Real.{Real}
use my_coding_exercises.Tftp.Rtt.{
  Clock, Timer, rtt_init, rtt_newpack, rtt_start, rtt_stop, rtt_timeout,
}
use my_coding_exercises.Tftp.Run.{
  Run, ok, stop, ◌>>=◌, Verdict, more, done, protocol_botch, error_received, receive_error,
  short_packet, invalid_opcode,
}
use my_coding_exercises.Tftp.Server.Net.{
  Arrival, waits, timeout, interrupted, bytes, net_send, net_recv,
}
use my_coding_exercises.Tftp.Server.Send.{Os, recv_rrq, recv_wrq, recv_data, recv_ack}
use my_coding_exercises.Tftp.Session.{Session}
use my_coding_exercises.Tftp.Wire.{max_buff, op_min, op_max, ldshort}

-- The function addresses that the table holds.
pub data Handler : Type 0 where
  fsm_invalid fsm_error : Handler
  on_rrq on_wrq on_data on_ack : Handler

-- Rows by the last opcode sent, columns by the opcode received.
abbrev pub fsm_ptr : List (List Handler)
fsm_ptr =
    (fsm_invalid ∷ on_rrq ∷ on_wrq ∷ fsm_invalid ∷ fsm_invalid ∷ fsm_invalid ∷ [])
    ∷ (fsm_invalid ∷ fsm_invalid ∷ fsm_invalid ∷ fsm_invalid ∷ fsm_invalid ∷ fsm_invalid ∷ [])
    ∷ (fsm_invalid ∷ fsm_invalid ∷ fsm_invalid ∷ fsm_invalid ∷ fsm_invalid ∷ fsm_invalid ∷ [])
    ∷ (fsm_invalid ∷ fsm_invalid ∷ fsm_invalid ∷ fsm_invalid ∷ on_ack ∷ fsm_error ∷ [])
    ∷ (fsm_invalid ∷ fsm_invalid ∷ fsm_invalid ∷ on_data ∷ fsm_invalid ∷ fsm_error ∷ [])
    ∷ (fsm_invalid ∷ fsm_invalid ∷ fsm_invalid ∷ fsm_invalid ∷ fsm_invalid ∷ fsm_error ∷ [])
    ∷ []

abbrev pub handler_at : ℕ → ℕ → Handler
handler_at op_sent op_recv = get_or (get_or fsm_ptr op_sent []) op_recv fsm_invalid

pub record Round : Type 0 where
  pub started : Clock
  pub arrivals : List Arrival
  pub stopped : Clock

module _ (os : Os) where
  unfoldable pub call : Handler → Bytes → ℕ → Session → Run (Verdict × Session)
  call fsm_invalid ptr nbytes s = stop protocol_botch
  call fsm_error ptr nbytes s = stop error_received
  call on_rrq ptr nbytes s = recv_rrq os ptr nbytes s
  call on_wrq ptr nbytes s = recv_wrq os ptr nbytes s
  call on_data ptr nbytes s = recv_data ptr nbytes s
  call on_ack ptr nbytes s = recv_ack ptr nbytes s

  -- A packet of `nbytes` bytes stands in `recvbuff`.
  unfoldable pub dispatch : ℕ → Session → Run (Verdict × Session)
  dispatch nbytes s =
      if ltb nbytes 4
      then stop short_packet
      else (let op = ldshort s.recvbuff in
          if ltb op op_min || ltb op_max op
          then stop invalid_opcode
          else call (handler_at s.op_sent op) (drop 2 s.recvbuff) (nbytes - 2)
              (record s { op_recv = op }))

module _ (R : Real) where
  -- The statics of fsm.c beside the session.
  pub record Machine : Type 0 where
    pub session : Session
    pub rttinfo : Timer R
    pub rttfirst : Bool

  -- How a call of `fsm_loop` stands after some rounds: 0 or -1 returned, about to begin a round, or
  -- in a round whose `recvfrom` has not returned.
  pub data Loop : Type 0 where
    finished timed_out waiting blocked : Machine → Loop

module _ (R : Real) (os : Os) where
  -- One round of the `for` loop.
  unfoldable pub round : Round → Machine R → Run (Loop R)
  round r m = do
    t₁ ← rtt_start R r.started m.rttinfo
    got ← net_recv max_buff r.arrivals m.session
    elim got [
      | waits ↦ ok (blocked (record m { rttinfo = t₁ }))
      | timeout ↦ do
        (again, t₂) ← rtt_timeout R r.stopped t₁
        if again
            then (do
              s ← net_send m.session.sendbuff m.session.sendlen m.session
              ok (waiting (record m { session = s; rttinfo = t₂ })))
            else ok (timed_out (record m { rttinfo = t₂ }))
      | interrupted ↦ stop receive_error
      | bytes nbytes s ↦ do
        t₂ ← rtt_stop R r.stopped t₁
        (verdict, s') ← dispatch os nbytes s
        let m' = record m { session = s'; rttinfo = t₂ }
        ok (elim verdict [ more ↦ waiting m' | done ↦ finished m' ])
    ]

  -- The loop over the rounds that the world has made.
  unfoldable pub rounds : List Round → Machine R → Run (Loop R)
  rounds [] m = ok (waiting m)
  rounds (r ∷ rs) m = do
    l ← round r m
    elim l [
      | waiting m' ↦ rounds rs m'
      | finished m' ↦ ok (finished m')
      | timed_out m' ↦ ok (timed_out m')
      | blocked m' ↦ ok (blocked m')
    ]

  unfoldable pub fsm_loop : ℕ → List Round → Machine R → Run (Loop R)
  fsm_loop opcode rs m =
      let t = if m.rttfirst then rtt_init R m.rttinfo else m.rttinfo in
      rounds rs (record {
        session = record (m.session) { op_sent = opcode };
        rttinfo = rtt_newpack R t;
        rttfirst = false;
      })
