-- ===== src/Comm/Files.antt =====
-- coreutils/src/comm.c: `compare_files`, from opening the files to closing them.
use my_coding_exercises.Common.{
  ◌+◌, ◌≡◌, ◌≢◌, refl, sym, ap, ◌||◌, ◌∙◌, false, none, some, List, [], ◌∷◌, Bytes, length, arith,
}
use my_coding_exercises.Comm.{
  check_order_enabled, Options, Stream, LineFile, Comm, Progress, going, ◌>>=◌, next_line, equal,
  greater, exit_status, readlinebuffer, open_file, close_file, compare_files,
}
use my_coding_exercises.Comm.Reads.{
  Reader, next_line-Holds, no_error-Quiet, lenient_reader, Quiet, Holds, Holds-Quiet,
}
use my_coding_exercises.Comm.Bodies.{compare_bytes, compare_bytes_refl}
use my_coding_exercises.Comm.Columns.{IsSorted, Entry, columns, lines_1, lines_2, Separate}
use my_coding_exercises.Comm.Sorted.{Ordered, Remembers, sorted_reader}
use my_coding_exercises.Comm.Entries.{Compared}
use my_coding_exercises.Comm.Merge.{loop-Compared}

-- Nothing fails on the stream.
pub record IsReadable (stream : Stream) : Type 0 where
  pub reads : stream.read_fails ≡ false
  pub closes : stream.close_fails ≡ false

later {μ ν} :
    {A : Type μ} {B : Type ν} {run : Progress A} {a : A} (next : A → Progress B)
    → run ≡ going a
    → (run >>= next) ≡ next a
unfolding ◌>>=◌
later next e = ap (λ r. r >>= next) e

close_file-Quiet : (f : LineFile) → Quiet f → close_file f ≡ going f
unfolding close_file
close_file-Quiet f q = rw (q.closes, close_file) refl

-- A file whose first line has not been read.
unfoldable start : Stream → LineFile
start stream = record {
  buffers = λ k. none;
  alt_0 = 0;
  alt_1 = 0;
  alt_2 = 0;
  present = false;
  stream = stream;
  failed = false;
  warned = false;
}

open_file-Holds :
    (stream : Stream)
    → IsReadable stream
    → (open_file (some stream) ≡ going (next_line stream.lines (start stream)))
      × Holds (next_line stream.lines (start stream)) stream.lines
unfolding open_file start readlinebuffer
open_file-Holds stream r =
    let held =
      next_line-Holds stream.lines (start stream)
        (record { reads = r.reads; closes = r.closes; no_failure = refl }) in
    (
      no_error-Quiet (next_line stream.lines (start stream))
          (Holds-Quiet (next_line stream.lines (start stream)) stream.lines held),
      held,
    )

start-Remembers : (stream : Stream) (xs : List Bytes) → Remembers (next_line xs (start stream)) xs
unfolding start next_line
start-Remembers stream [] = tt
start-Remembers stream (x ∷ xs) = (
  refl,
  refl,
  record {
    prev = x;
    prev_buffer = refl;
    buffer = refl;
    in_order = λ e. let g : equal ≡ greater = sym (compare_bytes_refl x) ∙ e in cc;
    rotates = omega arith;
  },
)

start-silent : (stream : Stream) (xs : List Bytes) → (next_line xs (start stream)).warned ≡ false
unfolding start next_line
start-silent stream [] = refl
start-silent stream (x ∷ xs) = refl

open_file-Ordered :
    (stream : Stream)
    → IsReadable stream
    → IsSorted stream.lines
    → Ordered (next_line stream.lines (start stream)) stream.lines
open_file-Ordered stream r s = record {
  holds = (open_file-Holds stream r).1;
  sorted = s;
  silent = start-silent stream stream.lines;
  remembers = start-Remembers stream stream.lines;
}

module _ (o : Options) (stream_1 stream_2 : Stream) where
  -- The run with any reader.
  read_with :
      (reader : Reader o)
      → o.hard_lc_collate ≡ false
      → IsReadable stream_1
      → IsReadable stream_2
      → reader.Held (next_line stream_1.lines (start stream_1)) stream_1.lines
      → reader.Held (next_line stream_2.lines (start stream_2)) stream_2.lines
      → Compared o
          (λ f. reader.Held f [])
          []
          stream_1.lines
          stream_2.lines
          (compare_files o
            (length stream_1.lines + length stream_2.lines + 1)
            (some stream_1)
            (some stream_2))
  unfolding compare_files
  read_with reader plain r_1 r_2 h k =
      let f = next_line stream_1.lines (start stream_1) in
      let g = next_line stream_2.lines (start stream_2) in
      let c =
        loop-Compared o reader plain (length stream_1.lines + length stream_2.lines + 1)
          stream_1.lines stream_2.lines
          (record { seen_unpairable = false; file_1 = f; file_2 = g; out = [] }) h k
          (omega arith) in
      let q_1 = (reader.held c.final.file_1 [] c.final_1).1 in
      let q_2 = (reader.held c.final.file_2 [] c.final_2).1 in
      record {
        final = c.final;
        ended =
            later _ (open_file-Holds stream_1 r_1).0
            ∙ later _ (open_file-Holds stream_2 r_2).0
            ∙ later _ c.ended
            ∙ later _ (close_file-Quiet c.final.file_1 q_1)
            ∙ later _ (close_file-Quiet c.final.file_2 q_2);
        entries = c.entries;
        printed = c.printed;
        from_1 = c.from_1;
        from_2 = c.from_2;
        separate = c.separate;
        final_1 = c.final_1;
        final_2 = c.final_2;
      }

  -- In the C locale and without `--check-order`, on two files that can be opened and on which nothing
  -- fails, sorted or not, `compare_files` ends, with a round for each line and one more. What it
  -- prints are the columns, as the options select them, of a list of entries: the lines of the
  -- first file are, in their order, those of the entries for file 1 only and for both files, and
  -- likewise for the second file.
  pub compare_files-columns :
      o.check_input_order ≢ check_order_enabled
      → o.hard_lc_collate ≡ false
      → IsReadable stream_1
      → IsReadable stream_2
      → (s : Comm) × (entries : List Entry) × (compare_files o
            (length stream_1.lines + length stream_2.lines + 1)
            (some stream_1)
            (some stream_2)
          ≡ going s)
        × (s.out ≡ columns o entries)
        × (lines_1 entries ≡ stream_1.lines)
        × (lines_2 entries ≡ stream_2.lines)
  compare_files-columns lenient plain r_1 r_2 =
      let c =
        read_with (lenient_reader o lenient) plain r_1 r_2 (open_file-Holds stream_1 r_1).1
          (open_file-Holds stream_2 r_2).1 in
      (c.final, c.entries, c.ended, c.printed, c.from_1, c.from_2)

  -- In the C locale, with any of the three ways to check the order, and `memcmp2` comparing bytes
  -- like a dictionary: two sorted files that can be opened and on which nothing fails are compared
  -- to the end, with a round for each line and one more. The columns printed are made of the lines
  -- of both files, with no line said to be in file 1 only and in file 2 only; there is no complaint
  -- about the order, and the program ends with status 0.
  pub compare_files-sorted :
      o.hard_lc_collate ≡ false
      → ((a b : Bytes) → o.memcmp2 a b ≡ compare_bytes a b)
      → IsReadable stream_1
      → IsReadable stream_2
      → IsSorted stream_1.lines
      → IsSorted stream_2.lines
      → (s : Comm) × (entries : List Entry) × (compare_files o
            (length stream_1.lines + length stream_2.lines + 1)
            (some stream_1)
            (some stream_2)
          ≡ going s)
        × (s.out ≡ columns o entries)
        × (lines_1 entries ≡ stream_1.lines)
        × (lines_2 entries ≡ stream_2.lines)
        × Separate entries
        × (exit_status s ≡ 0)
  unfolding exit_status
  compare_files-sorted plain by_bytes r_1 r_2 s_1 s_2 =
      let c =
        read_with (sorted_reader o plain by_bytes) plain r_1 r_2
          (open_file-Ordered stream_1 r_1 s_1) (open_file-Ordered stream_2 r_2 s_2) in
      let no_warning : (c.final.file_1.warned || c.final.file_2.warned) ≡ false =
        rw (c.final_1.silent, c.final_2.silent) refl in
      (
        c.final,
        c.entries,
        c.ended,
        c.printed,
        c.from_1,
        c.from_2,
        c.separate s_1 s_2,
        rw no_warning refl,
      )
