-- ===== src/Comm.antt =====
-- coreutils/src/comm.c. `readlinebuffer`, `memcmp2` and `xmemcoll` are gnulib's: a stream is the lines
-- that the first one gives in turn, and the other two are arguments.
pub mod Bodies
pub mod Columns
pub mod Reads
pub mod Entries
pub mod Turns
pub mod Merge
pub mod Sorted
pub mod Files
use my_coding_exercises.Common.{
  ℕ, zero, suc, ◌+◌, ◌-◌, ◌%◌, Bool, true, false, not, ◌&&◌, ◌||◌, Option, none, some, List, [],
  ◌∷◌, ◌++◌, Bytes, length, take, ltb, ◌==◌, if◌then◌else◌,
}

-- The sign of an `int order`.
pub data Order : Type 0 where
  less equal greater : Order

pub data CheckOrder : Type 0 where
  check_order_default check_order_enabled check_order_disabled : CheckOrder

-- The external variables that the options set, and the routines behind the comparisons.
pub record Options : Type 0 where
  pub hard_lc_collate : Bool
  pub only_file_1 : Bool
  pub only_file_2 : Bool
  pub both : Bool
  pub check_input_order : CheckOrder
  pub delimiter : Bytes
  pub xmemcoll : Bytes → Bytes → Order
  pub memcmp2 : Bytes → Bytes → Order

-- An open file: its lines, without the newline that `readlinebuffer` puts behind each, and whether
-- reading fails behind them, and closing.
pub record Stream : Type 0 where
  pub lines : List Bytes
  pub read_fails : Bool
  pub close_fails : Bool

-- What `compare_files` keeps of a file `i`: the buffers `lba[i]`, `alt[i]`, whether `thisline[i]`
-- is not NULL, when it is the buffer at `alt[i][0]`, the stream with its error flag, and
-- `issued_disorder_warning[i]`.
pub record LineFile : Type 0 where
  pub buffers : ℕ → Option Bytes
  pub alt_0 : ℕ
  pub alt_1 : ℕ
  pub alt_2 : ℕ
  pub present : Bool
  pub stream : Stream
  pub failed : Bool
  pub warned : Bool

pub record Comm : Type 0 where
  pub seen_unpairable : Bool
  pub file_1 : LineFile
  pub file_2 : LineFile
  pub out : Bytes

-- The calls of `error` that exit, and a model loop that ran out of fuel.
pub data Failure : Type 0 where
  not_opened read_error disorder not_closed out_of_fuel : Failure

pub data Progress {ℓ} (A : Type ℓ) : Type ℓ where
  failure : Failure → Progress A
  going : A → Progress A

infixl 8 ◌>>=◌
unfoldable pub ◌>>=◌ {μ ν} : {A : Type μ} {B : Type ν} → Progress A → (A → Progress B) → Progress B
failure reason >>= later = failure reason
going a >>= later = later a

-- `memcmp`, on bytes.
unfoldable pub memcmp : Bytes → Bytes → ℕ → Order
memcmp a b zero = equal
memcmp (x ∷ a) (y ∷ b) (suc n) = if ltb x y then less else if ltb y x then greater else memcmp a b n
memcmp a b (suc n) = equal

-- The bytes of a buffer.
unfoldable pub text_of : Option Bytes → Bytes
text_of none = []
text_of (some text) = text

unfoldable pub thisline : LineFile → Bytes
thisline f = text_of (f.buffers f.alt_0)

-- if(order == 0) order = (… length < … length ? -1 : … length != … length);
unfoldable pub by_length : Order → ℕ → ℕ → Order
by_length less m n = less
by_length equal m n = if ltb m n then less else if m == n then equal else greater
by_length greater m n = greater

-- The lines of the two files, compared without a hard locale.
unfoldable pub plain_order : Bytes → Bytes → Order
plain_order a b =
    let len = (if ltb (length a) (length b) then length a else length b) - 1 in
    by_length (memcmp a b len) (length a) (length b)

-- `order`, by the lines that are left.
unfoldable pub order_of : Options → LineFile → LineFile → Order
order_of o f g =
    if not f.present
    then greater
    else if not g.present
    then less
    else if o.hard_lc_collate
    then o.xmemcoll (take (length (thisline f) - 1) (thisline f))
        (take (length (thisline g) - 1) (thisline g))
    else plain_order (thisline f) (thisline g)

-- `writeline` with the classes 1, 2 and 3.
unfoldable pub writeline_1 : Options → Bytes → Bytes → Bytes
writeline_1 o line out = if o.only_file_1 then out ++ line else out

unfoldable pub writeline_2 : Options → Bytes → Bytes → Bytes
writeline_2 o line out =
    if o.only_file_2 then (if o.only_file_1 then out ++ o.delimiter else out) ++ line else out

unfoldable pub writeline_3 : Options → Bytes → Bytes → Bytes
writeline_3 o line out =
    let one = if o.only_file_1 then out ++ o.delimiter else out in
    let two = if o.only_file_2 then one ++ o.delimiter else one in
    if o.both then two ++ line else out

-- The call of `error` in `check_order`, which returns when it only warns.
unfoldable pub report : CheckOrder → Order → LineFile → Progress LineFile
report check_order_enabled greater f = failure disorder
report check greater f = going (record f { warned = true })
report check order f = going f

abbrev pub checks : CheckOrder → Bool → Bool
checks check_order_default seen_unpairable = seen_unpairable
checks check_order_enabled seen_unpairable = true
checks check_order_disabled seen_unpairable = false

unfoldable pub check_order : Options → Bool → Bytes → Bytes → LineFile → Progress LineFile
check_order o seen_unpairable prev current f =
    let a = take (length prev - 1) prev in
    let b = take (length current - 1) current in
    if checks o.check_input_order seen_unpairable && not f.warned
    then report o.check_input_order (if o.hard_lc_collate then o.xmemcoll a b else o.memcmp2 a b) f
    else going f

-- thisline[i] = readlinebuffer(all_line[i][alt[i][0]], streams[i])
unfoldable pub next_line : List Bytes → LineFile → LineFile
next_line [] f = record f { present = false; failed = f.stream.read_fails }
next_line (line ∷ rest) f = record f {
  buffers = λ k. if k == f.alt_0 then some (line ++ 10 ∷ []) else f.buffers k;
  present = true;
  stream = record f.stream { lines = rest };
}

unfoldable pub readlinebuffer : LineFile → LineFile
readlinebuffer f = next_line f.stream.lines f

unfoldable pub rotate : LineFile → LineFile
rotate f = record f { alt_2 = f.alt_1; alt_1 = f.alt_0; alt_0 = (f.alt_0 + 1) % 4 }

-- The checks behind a read.
unfoldable pub check_read : Options → Bool → LineFile → Progress LineFile
check_read o seen_unpairable f =
    if f.present
    then check_order o seen_unpairable (text_of (f.buffers f.alt_1)) (thisline f) f
    else elim (f.buffers f.alt_2) [
      | none ↦ going f
      | some text ↦ check_order o seen_unpairable text (text_of (f.buffers f.alt_1)) f
    ]

unfoldable pub no_error : LineFile → Progress LineFile
no_error f = if f.failed then failure read_error else going f

-- The body of `if(fill_up[i])`.
unfoldable pub fill_up : Options → Bool → LineFile → Progress LineFile
fill_up o seen_unpairable f = check_read o seen_unpairable (readlinebuffer (rotate f)) >>= no_error

-- The body of the loop, by `order`.
unfoldable pub round : Options → Order → Comm → Progress Comm
round o less s = do
  f ← fill_up o true s.file_1
  going (record s {
    seen_unpairable = true;
    out = writeline_1 o (thisline s.file_1) s.out;
    file_1 = f;
  })
round o greater s = do
  g ← fill_up o true s.file_2
  going (record s {
    seen_unpairable = true;
    out = writeline_2 o (thisline s.file_2) s.out;
    file_2 = g;
  })
round o equal s = do
  f ← fill_up o s.seen_unpairable s.file_1
  g ← fill_up o s.seen_unpairable s.file_2
  going (record s { out = writeline_3 o (thisline s.file_2) s.out; file_1 = f; file_2 = g })

unfoldable pub compare_loop : Options → ℕ → Comm → Progress Comm
compare_loop o zero s = failure out_of_fuel
compare_loop o (suc fuel) s = elim (s.file_1.present || s.file_2.present) [
  | true ↦ round o (order_of o s.file_1 s.file_2) s >>= compare_loop o fuel
  | false ↦ going s
]

-- The storage of a file, and its first line.
unfoldable pub open_file : Option Stream → Progress LineFile
open_file none = failure not_opened
open_file (some stream) = no_error (
    readlinebuffer (record {
      buffers = λ k. none;
      alt_0 = 0;
      alt_1 = 0;
      alt_2 = 0;
      present = false;
      stream = stream;
      failed = false;
      warned = false;
    }))

unfoldable pub close_file : LineFile → Progress LineFile
close_file f = if f.stream.close_fails then failure not_closed else going f

unfoldable pub compare_files : Options → ℕ → Option Stream → Option Stream → Progress Comm
compare_files o fuel stream_1 stream_2 = do
  f ← open_file stream_1
  g ← open_file stream_2
  s ← compare_loop o fuel (record { seen_unpairable = false; file_1 = f; file_2 = g; out = [] })
  f' ← close_file s.file_1
  g' ← close_file s.file_2
  going s

-- The status that `main` ends with.
unfoldable pub exit_status : Comm → ℕ
exit_status s = if s.file_1.warned || s.file_2.warned then 1 else 0
