-- ===== src/Tftp/Rtt.antt =====
-- tftp-exercises/server/rtt.c: the retransmission timer.
pub mod Bounds
use my_coding_exercises.Common.{
  ℕ, ◌+◌, ◌*◌, ◌%◌, ◌^◌, Bool, true, false, ◌&&◌, Option, none, some, List, [], ◌∷◌, if◌then◌else◌,
  ltb, get_or,
}
use my_coding_exercises.Common.Int.{ℤ, pos, negsuc, ltb_ℤ, pos_part}
use my_coding_exercises.Tftp.Real.{Real}
use my_coding_exercises.Tftp.Run.{Run, ok, stop, ◌>>=◌, ◌>>◌, clock_error}

abbrev pub rxt_min : ℕ
rxt_min = 2

abbrev pub rxt_max : ℕ
rxt_max = 120

abbrev pub max_nrexmt : ℕ
max_nrexmt = 4

abbrev pub exp_backoff : List ℕ
exp_backoff = 1 ∷ 2 ∷ 4 ∷ 8 ∷ 16 ∷ []

-- A `struct timeval`: seconds and microseconds. `none` is an error of `gettimeofday`.
abbrev pub Clock : Type 0
Clock = Option (ℕ × ℕ)

-- A `short` is its bit pattern, below 2 ^ 16.
abbrev pub short_positive : ℕ → Bool
short_positive v = ltb 0 v && ltb v (2 ^ 15)

module _ (R : Real) where
  open R use {
    Value, literal, of_long, plus, minus, times, over, negated, is_negative, single, to_int,
  }

  -- `struct rtt_struct`.
  pub record Timer : Type 0 where
    pub rtt : Value
    pub srtt : Value
    pub rttdev : Value
    pub nrexmt : ℕ
    pub currto : ℕ
    pub nxtrto : ℕ
    pub time_start : ℕ × ℕ
    pub time_stop : ℕ × ℕ

  unfoldable pub rtt_init : Timer → Timer
  rtt_init t = record t {
    rtt = single (literal 0 1);
    srtt = single (literal 0 1);
    rttdev = single (literal 3 2);
    nxtrto = 0;
  }

  unfoldable pub rtt_newpack : Timer → Timer
  rtt_newpack t = record t { nrexmt = 0 }

  -- `(int) (rtt_srtt + (2.0 * rtt_rttdev) + 0.5)`, held between the two limits.
  unfoldable pub estimate : Timer → ℕ
  estimate t =
      let rexmt = to_int (plus (plus t.srtt (times (literal 2 1) t.rttdev)) (literal 1 2)) in
      if ltb_ℤ rexmt (pos rxt_min)
      then rxt_min
      else if ltb_ℤ (pos rxt_max) rexmt
      then rxt_max
      else pos_part rexmt

  -- The time-out is the field `currto` of the result, which the C function also returns.
  unfoldable pub rtt_start : Clock → Timer → Run Timer
  rtt_start now t =
      if ltb 0 t.nrexmt
      then ok (record t { currto = t.currto * get_or exp_backoff t.nrexmt 0 % 2 ^ 16 })
      else elim now [
        | none ↦ stop clock_error
        | some time ↦
            if short_positive t.nxtrto
            then ok (record t { time_start = time; currto = t.nxtrto; nxtrto = 0 })
            else ok (record t { time_start = time; currto = estimate t })
      ]

  abbrev microseconds : ℕ × ℕ → Value
  microseconds time = plus (times (of_long time.0) (literal 1000000 1)) (of_long time.1)

  -- The update of the estimators by one round trip.
  unfoldable pub observe : Timer → Timer
  observe t =
      let rtt' =
        single (
          over (minus (microseconds t.time_stop) (microseconds t.time_start))
            (literal 1000000 1)) in
      let err = minus rtt' t.srtt in
      let size = if is_negative err then negated err else err in
      record t {
        rtt = rtt';
        srtt = single (plus t.srtt (over err (literal 8 1)));
        rttdev = single (plus t.rttdev (over (minus size t.rttdev) (literal 4 1)));
      }

  unfoldable pub rtt_stop : Clock → Timer → Run Timer
  rtt_stop now t = if ltb 0 t.nrexmt then ok (record t { nxtrto = t.currto }) else elim now [
    | none ↦ stop clock_error
    | some time ↦ ok (observe (record t { nxtrto = 0; time_stop = time }))
  ]

  -- With the timer, whether to try again (0) or to give up (-1).
  unfoldable pub rtt_timeout : Clock → Timer → Run (Bool × Timer)
  rtt_timeout now t = do
    t₁ ← rtt_stop now t
    let t₂ = record t₁ { nrexmt = t₁.nrexmt + 1 }
    ok ((if ltb max_nrexmt t₂.nrexmt then false else true), t₂)
