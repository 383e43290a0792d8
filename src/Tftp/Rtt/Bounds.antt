-- ===== src/Tftp/Rtt/Bounds.antt =====
-- The limits of the retransmission timer, and where it passes them.
use my_coding_exercises.Common.{
  ℕ, ◌+◌, ◌*◌, ◌%◌, ◌^◌, ◌≤◌, ◌≡◌, Bool, some, arith, ltb, if◌then◌else◌,
}
use my_coding_exercises.Common.Int.{ℤ, pos, ltb_ℤ, pos_part}
use my_coding_exercises.Tftp.Real.{Real}
use my_coding_exercises.Tftp.Rtt.{
  Clock, Timer, rxt_min, rxt_max, max_nrexmt, estimate, observe, rtt_start, rtt_stop, rtt_timeout,
}
use my_coding_exercises.Tftp.Run.{ok}

module _ (R : Real) where
  clamp-range :
      (z : ℤ)
      → let r =
          (if ltb_ℤ z (pos rxt_min)
            then rxt_min
            else if ltb_ℤ (pos rxt_max) z
            then rxt_max
            else pos_part z) in
        (rxt_min ≤ r) × (r ≤ rxt_max)
  clamp-range z = ground arith

  estimate-range : (t : Timer R) → (rxt_min ≤ estimate R t) × (estimate R t ≤ rxt_max)
  unfolding estimate
  estimate-range t =
      clamp-range
        (R.to_int (R.plus (R.plus t.srtt (R.times (R.literal 2 1) t.rttdev)) (R.literal 1 2)))

  -- A packet that is sent for the first time, after one that was not sent again, gets a time-out
  -- of 2 to 120 seconds, whatever the floating-point estimates are, if the clock can be read.
  pub rtt_start-range :
      (time : ℕ × ℕ) (t t' : Timer R)
      → t.nrexmt ≡ 0
      → t.nxtrto ≡ 0
      → rtt_start R (some time) t ≡ ok t'
      → (rxt_min ≤ t'.currto) × (t'.currto ≤ rxt_max)
  unfolding rtt_start
  rtt_start-range time t t' first fresh e = ground (arith, estimate-range t)

  -- A time-out is counted, and the fifth one is the last.
  pub rtt_timeout-counts :
      (now : Clock) (t : Timer R) {again : Bool} {t' : Timer R}
      → rtt_timeout R now t ≡ ok (again, t')
      → (t'.nrexmt ≡ t.nrexmt + 1) × (again ≡ ltb t.nrexmt max_nrexmt)
  unfolding rtt_timeout rtt_stop observe
  rtt_timeout-counts now t e = ground arith

  -- Four retransmissions in a row multiply the time-out that the packet was first sent with by
  -- 1024, modulo 2 ^ 16, whatever it was: the limit of 120 seconds has no part in it.
  pub backoff_product :
      (now : Clock) (t t₁ t₂ t₃ t₄ : Timer R)
      → rtt_start R now (record t { nrexmt = 1 }) ≡ ok t₁
      → rtt_start R now (record t₁ { nrexmt = 2 }) ≡ ok t₂
      → rtt_start R now (record t₂ { nrexmt = 3 }) ≡ ok t₃
      → rtt_start R now (record t₃ { nrexmt = 4 }) ≡ ok t₄
      → t₄.currto ≡ t.currto * 1024 % 2 ^ 16
  unfolding rtt_start
  backoff_product now t t₁ t₂ t₃ t₄ e₁ e₂ e₃ e₄ = ground arith
