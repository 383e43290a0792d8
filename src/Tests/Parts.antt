-- ===== src/Tests/Parts.antt =====
-- The conversion of files, the timer and the time-outs of the server.
use my_coding_exercises.Common.{
  ℕ, ◌+◌, ◌*◌, ◌/◌, ◌%◌, ◌-◌, ◌^◌, ◌≤◌, ◌<◌, none, some, [], ◌∷◌, ◌++◌, ◌≡◌, refl, Bytes, codes,
  true, false, arith, length, replicate, get_or, same_text,
}
use my_coding_exercises.Common.Int.{pos}
use my_coding_exercises.Tests.{greeting, greeting_file, disk, server, client, idle_file}
use my_coding_exercises.Tftp.Real.{Real}
use my_coding_exercises.Tftp.Rtt.{Timer, rxt_min, rxt_max, rtt_start, estimate}
use my_coding_exercises.Tftp.Rtt.Bounds.{rtt_start-range, backoff_product}
use my_coding_exercises.Tftp.Run.{ok, returned}
use my_coding_exercises.Tftp.Server.File.{file_read, file_write}
use my_coding_exercises.Tftp.Server.File.Convert.{
  coming, file_read_lem, write_pieces, write_pieces-encode,
}
use my_coding_exercises.Tftp.Client.File as ClientFile
use my_coding_exercises.Tftp.Client.File.Agree.{returned-file_read}
use my_coding_exercises.Tftp.Client.File.Stale.{first_read-stray_null}
use my_coding_exercises.Tftp.Server.Fsm.{Round, Machine, timed_out, fsm_loop}
use my_coding_exercises.Tftp.Server.Net.{alarm}
use my_coding_exercises.Tftp.Server.Retry.{quiet, fsm_loop-Quiet}
use my_coding_exercises.Tftp.Session.{Session, LocalFile}
use my_coding_exercises.Tftp.Wire.{op_data, mode_ascii}

abbrev greeting_local : LocalFile
greeting_local = record idle_file { stream = greeting_file }

file_read_lem_example :
    (out : Bytes) × (f' : LocalFile) × (file_read greeting_local 3 mode_ascii ≡ ok (out, f'))
    × (out ++ coming mode_ascii f' ≡ codes "hi\r\n")
    × (length out ≤ 3)
    × (length out < 3 → coming mode_ascii f' ≡ [])
    × (f'.stream.read_fails ≡ false)
file_read_lem_example = file_read_lem greeting_local 3 mode_ascii refl (omega arith)

write_pieces-encode_example :
    (f' : LocalFile) × (write_pieces idle_file (codes "hi\r" ∷ codes "\n" ∷ []) mode_ascii ≡ ok f')
    × (f'.stream.written ≡ greeting)
    × (f'.lastcr ≡ false)
write_pieces-encode_example =
    write_pieces-encode idle_file (codes "hi\r" ∷ codes "\n" ∷ []) greeting refl refl refl refl

returned-file_read_example :
    (returned (ClientFile.file_read greeting_local 3 mode_ascii)
      ≡ returned (file_read greeting_local 3 mode_ascii))
    × (returned (ClientFile.file_write greeting_local (codes "\r\n") mode_ascii)
        ≡ returned (file_write greeting_local (codes "\r\n") mode_ascii))
returned-file_read_example = returned-file_read greeting_local 3 mode_ascii (codes "\r\n")

-- The client at its start, whose `nextchar` is 0, opens the file "a" to send it.
abbrev client_start : Session
client_start = record client { localfp = record idle_file { nextchar = some 0 } }

abbrev client_opened : Session
client_opened = record client {
  nextblknum = 0;
  localfp = record idle_file { stream = greeting_file; nextchar = some 0 };
}

opened : ClientFile.file_open disk.fopen (codes "a") true 0 client_start ≡ some client_opened
unfolding ClientFile.file_open same_text
opened = refl

read_two :
    ClientFile.file_read client_opened.localfp 2 mode_ascii
    ≡ ok
        (0 ∷ codes "h", record idle_file { stream = record greeting_file { unread = codes "i\n" } })
unfolding ClientFile.file_read ClientFile.read_ascii
read_two = refl

first_read-stray_null_example : get_or (0 ∷ codes "h") 0 1 ≡ 0
first_read-stray_null_example =
    first_read-stray_null disk.fopen (codes "a") 0 1 client_start refl opened read_two

-- Whole numbers in place of the floating-point ones.
abbrev pub whole : Real
whole = record {
  Value = ℕ;
  literal = λ a b. a / b;
  of_long = λ a. a;
  plus = λ a b. a + b;
  minus = λ a b. a - b;
  times = λ a b. a * b;
  over = λ a b. a / b;
  negated = λ a. a;
  is_negative = λ a. false;
  single = λ a. a;
  to_int = λ a. pos a;
}

abbrev pub timer : Timer whole
timer = record {
  rtt = 0;
  srtt = 0;
  rttdev = 3;
  nrexmt = 0;
  currto = 0;
  nxtrto = 0;
  time_start = (0, 0);
  time_stop = (0, 0);
}

abbrev pub started : Timer whole
started = record timer { time_start = (5, 0); currto = 6 }

pub starts : rtt_start whole (some (5, 0)) timer ≡ ok started
unfolding rtt_start estimate
starts = refl

rtt_start-range_example : (rxt_min ≤ started.currto) × (started.currto ≤ rxt_max)
rtt_start-range_example = rtt_start-range whole (5, 0) timer started refl refl starts

abbrev again : ℕ → ℕ → Timer whole
again n rto = record started { nrexmt = n; currto = rto }

back_1 : rtt_start whole none (again 1 6) ≡ ok (again 1 12)
unfolding rtt_start
back_1 = refl

back_2 : rtt_start whole none (again 2 12) ≡ ok (again 2 48)
unfolding rtt_start
back_2 = refl

back_3 : rtt_start whole none (again 3 48) ≡ ok (again 3 384)
unfolding rtt_start
back_3 = refl

back_4 : rtt_start whole none (again 4 384) ≡ ok (again 4 6144)
unfolding rtt_start
back_4 = refl

backoff_product_example : 6144 ≡ 6 * 1024 % 2 ^ 16
backoff_product_example =
    backoff_product whole none started (again 1 12) (again 2 48) (again 3 384) (again 4 6144) back_1
      back_2 back_3 back_4

abbrev silence : Round
silence = record { started = some (5, 0); arrivals = alarm ∷ []; stopped = some (9, 0) }

abbrev machine : Machine whole
machine = record { session = server; rttinfo = timer; rttfirst = true }

fsm_loop-Quiet_example :
    (m' : Machine whole) × (fsm_loop whole disk op_data (replicate 5 silence) machine
      ≡ ok (timed_out m'))
    × (m'.session.socket.sent ≡ [] ∷ [] ∷ [] ∷ [] ∷ [])
fsm_loop-Quiet_example =
    let q = quiet silence refl refl refl in
    fsm_loop-Quiet whole disk op_data (replicate 5 silence) machine (q, (q, (q, (q, (q, tt))))) refl
      refl refl
