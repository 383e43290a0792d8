-- ===== src/Comm/Sorted.antt =====
-- coreutils/src/comm.c: a sorted file, on which `check_order` has nothing to say.
use my_coding_exercises.Common.{
  ◌+◌, ◌-◌, ◌%◌, ◌<◌, ◌≡◌, ◌≢◌, refl, ap, ◌∙◌, Bool, true, false, not, ◌&&◌, inl, inr, some, List,
  [], ◌∷◌, ◌++◌, Bytes, length, length-append, take, ◌==◌, arith, Bool-cases,
}
use my_coding_exercises.Comm.{
  Order, less, equal, greater, CheckOrder, check_order_default, check_order_enabled,
  check_order_disabled, Options, LineFile, going, ◌>>=◌, text_of, thisline, report, checks,
  check_order, next_line, readlinebuffer, rotate, check_read, no_error, fill_up,
}
use my_coding_exercises.Comm.Bodies.{compare_bytes, newline}
use my_coding_exercises.Comm.Columns.{IsSorted}
use my_coding_exercises.Comm.Reads.{Quiet, Holds, Reader, no_error-Quiet, next_line-Holds}

-- Memory of the line before the current one, which is not greater.
pub record Follows (f : LineFile) (x : Bytes) : Type 0 where
  pub prev : Bytes
  pub prev_buffer : f.buffers f.alt_1 ≡ some (prev ++ newline)
  pub buffer : f.buffers f.alt_0 ≡ some (x ++ newline)
  pub in_order : compare_bytes prev x ≢ greater
  pub rotates : f.alt_0 < 4

abbrev pub Remembers : LineFile → List Bytes → Type 0
Remembers f [] = Unit
Remembers f (x ∷ xs) = (f.present ≡ true) × (f.stream.lines ≡ xs) × Follows f x

-- A sorted rest, the lines read so far in order, and no warning.
pub record Ordered (f : LineFile) (xs : List Bytes) : Type 0 where
  pub holds : Holds f xs
  pub sorted : IsSorted xs
  pub silent : f.warned ≡ false
  pub remembers : Remembers f xs

take-body : (a : Bytes) → take (length (a ++ newline) - 1) (a ++ newline) ≡ a
take-body a =
    let e : length (a ++ newline) - 1 ≡ length a = omega (arith, length-append a newline) in
    rw e (take-front a)
  where
    take-front : (b : Bytes) → take (length b) (b ++ newline) ≡ b
    take-front [] = refl
    take-front (x ∷ b) = ap (◌∷◌ x) (take-front b)

report-Silent :
    (check : CheckOrder) (order : Order) (f : LineFile)
    → order ≢ greater
    → report check order f ≡ going f
unfolding report
report-Silent check_order_enabled less f h = refl
report-Silent check_order_enabled equal f h = refl
report-Silent check_order_default less f h = refl
report-Silent check_order_default equal f h = refl
report-Silent check_order_disabled less f h = refl
report-Silent check_order_disabled equal f h = refl
report-Silent check greater f h = absurd (h refl)

module _ (o : Options) (plain : o.hard_lc_collate ≡ false)
    (by_bytes : (a b : Bytes) → o.memcmp2 a b ≡ compare_bytes a b) where
  check_order-Silent :
      (seen : Bool) (a b : Bytes) (f : LineFile)
      → compare_bytes a b ≢ greater
      → check_order o seen (a ++ newline) (b ++ newline) f ≡ going f
  unfolding check_order
  check_order-Silent seen a b f h =
      elim (Bool-cases (checks o.check_input_order seen && not f.warned)) [
        | inr e ↦ rw e refl
        | inl e ↦
            rw (e, plain, take-body a, take-body b, by_bytes a b)
              (report-Silent o.check_input_order (compare_bytes a b) f h)
      ]

  -- At the end of the file, the last two lines are compared once more.
  check_read-end :
      (seen : Bool) (f : LineFile) (x : Bytes)
      → Follows f x
      → check_read o seen (next_line [] (rotate f)) ≡ going (next_line [] (rotate f))
  unfolding check_read next_line rotate text_of
  check_read-end seen f x m =
      rw (m.prev_buffer, m.buffer) (check_order-Silent seen m.prev x _ m.in_order)

  check_read-next :
      (seen : Bool) (f : LineFile) (x y : Bytes) (ys : List Bytes)
      → Follows f x
      → compare_bytes x y ≢ greater
      → check_read o seen (next_line (y ∷ ys) (rotate f)) ≡ going (next_line (y ∷ ys) (rotate f))
  unfolding check_read next_line rotate text_of thisline
  check_read-next seen f x y ys m in_order =
      let other : (f.alt_0 == (f.alt_0 + 1) % 4) ≡ false = ground (arith, m.rotates) in
      let same : ((f.alt_0 + 1) % 4 == (f.alt_0 + 1) % 4) ≡ true = ground arith in
      rw (other, same, m.buffer) (check_order-Silent seen x y _ in_order)

  next_line-Follows :
      (f : LineFile) (x y : Bytes) (ys : List Bytes)
      → Follows f x
      → compare_bytes x y ≢ greater
      → Follows (next_line (y ∷ ys) (rotate f)) y
  unfolding next_line rotate
  next_line-Follows f x y ys m in_order =
      let other : (f.alt_0 == (f.alt_0 + 1) % 4) ≡ false = ground (arith, m.rotates) in
      let same : ((f.alt_0 + 1) % 4 == (f.alt_0 + 1) % 4) ≡ true = ground arith in
      record {
        prev = x;
        prev_buffer = rw (other, m.buffer) refl;
        buffer = rw same refl;
        in_order = in_order;
        rotates = omega arith;
      }

  fill_up-next :
      (seen : Bool) (f : LineFile) (xs : List Bytes)
      → f.stream.lines ≡ xs
      → check_read o seen (next_line xs (rotate f)) ≡ going (next_line xs (rotate f))
      → Quiet (next_line xs (rotate f))
      → fill_up o seen f ≡ going (next_line xs (rotate f))
  unfolding fill_up readlinebuffer ◌>>=◌ rotate
  fill_up-next seen f xs e c q =
      ap (λ l. check_read o seen (next_line l (rotate f)) >>= no_error) e
      ∙ ap (λ r. r >>= no_error) c
      ∙ no_error-Quiet (next_line xs (rotate f)) q

  rotate-Quiet : (f : LineFile) → Quiet f → Quiet (rotate f)
  unfolding rotate
  rotate-Quiet f q = record { reads = q.reads; closes = q.closes; no_failure = q.no_failure }

  pub fill_up-Ordered :
      (seen : Bool) (f : LineFile) (x : Bytes) (xs : List Bytes)
      → Ordered f (x ∷ xs)
      → (g : LineFile) × (fill_up o seen f ≡ going g) × Ordered g xs
  unfolding next_line rotate
  fill_up-Ordered seen f x [] h =
      let (p, lines, m) = h.remembers in
      let held = next_line-Holds [] (rotate f) (rotate-Quiet f h.holds.3) in
      (
        next_line [] (rotate f),
        fill_up-next seen f [] lines (check_read-end seen f x m) held.1,
        record { holds = held; sorted = tt; silent = h.silent; remembers = tt },
      )
  fill_up-Ordered seen f x (y ∷ ys) h =
      let (p, lines, m) = h.remembers in
      let held = next_line-Holds (y ∷ ys) (rotate f) (rotate-Quiet f h.holds.3) in
      let in_order = h.sorted.0.0 in
      (
        next_line (y ∷ ys) (rotate f),
        fill_up-next seen f (y ∷ ys) lines (check_read-next seen f x y ys m in_order) held.3,
        record {
          holds = held;
          sorted = h.sorted.1;
          silent = h.silent;
          remembers = (refl, refl, next_line-Follows f x y ys m in_order);
        },
      )

  abbrev pub sorted_reader : Reader o
  sorted_reader = record { Held = Ordered; held = λ f xs h. h.holds; fills = fill_up-Ordered }
