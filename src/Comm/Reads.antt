-- ===== src/Comm/Reads.antt =====
-- coreutils/src/comm.c: a file that is read line by line, without `--check-order`.
use mathlib.Core.Path.{subst}
use my_coding_exercises.Common.{
  ◌≡◌, ◌≢◌, refl, sym, Bool, true, false, not, ◌&&◌, inl, inr, Option, none, some, List, [], ◌∷◌,
  ◌++◌, Bytes, ◌==◌, if◌then◌else◌, arith, Bool-cases,
}
use my_coding_exercises.Comm.{
  Order, less, equal, greater, CheckOrder, check_order_default, check_order_enabled,
  check_order_disabled, Options, LineFile, Progress, going, ◌>>=◌, text_of, thisline, report,
  checks, check_order, next_line, readlinebuffer, rotate, check_read, no_error, fill_up,
}
use my_coding_exercises.Comm.Bodies.{newline}

-- Nothing fails on the file.
pub record Quiet (f : LineFile) : Type 0 where
  pub reads : f.stream.read_fails ≡ false
  pub closes : f.stream.close_fails ≡ false
  pub no_failure : f.failed ≡ false

pub no_error-Quiet : (f : LineFile) → Quiet f → no_error f ≡ going f
unfolding no_error
no_error-Quiet f q = rw (q.no_failure, no_error) refl

-- The lines that are left, the current one in its buffer.
abbrev pub Holds : LineFile → List Bytes → Type 0
Holds f [] = (f.present ≡ false) × Quiet f
Holds f (x ∷ xs) =
    (f.present ≡ true) × (thisline f ≡ x ++ newline) × (f.stream.lines ≡ xs) × Quiet f

pub Holds-Quiet : (f : LineFile) (xs : List Bytes) → Holds f xs → Quiet f
Holds-Quiet f [] h = h.1
Holds-Quiet f (x ∷ xs) h = h.3

pub next_line-Holds : (xs : List Bytes) (f : LineFile) → Quiet f → Holds (next_line xs f) xs
unfolding next_line thisline text_of
next_line-Holds [] f q = (refl, record { reads = q.reads; closes = q.closes; no_failure = q.reads })
next_line-Holds (x ∷ xs) f q =
    let here : (f.alt_0 == f.alt_0) ≡ true = ground arith in
    (
      refl,
      rw here refl,
      refl,
      record { reads = q.reads; closes = q.closes; no_failure = q.no_failure },
    )

pub readlinebuffer-Holds :
    (f : LineFile) (xs : List Bytes) → Quiet f → f.stream.lines ≡ xs → Holds (readlinebuffer f) xs
unfolding readlinebuffer
readlinebuffer-Holds f xs q e =
    subst (λ l. Holds (next_line l f) xs) (sym e) (next_line-Holds xs f q)

-- A check may set the warning, and changes nothing else.
Kept : LineFile → Progress LineFile → Type 0
Kept f run = (w : Bool) × (run ≡ going (record f { warned = w }))

report-Kept :
    (check : CheckOrder) (order : Order) (f : LineFile)
    → check ≢ check_order_enabled
    → Kept f (report check order f)
unfolding Kept report
report-Kept check_order_enabled order f h = absurd (h refl)
report-Kept check_order_default less f h = (f.warned, refl)
report-Kept check_order_default equal f h = (f.warned, refl)
report-Kept check_order_default greater f h = (true, refl)
report-Kept check_order_disabled less f h = (f.warned, refl)
report-Kept check_order_disabled equal f h = (f.warned, refl)
report-Kept check_order_disabled greater f h = (true, refl)

module _ (o : Options) (lenient : o.check_input_order ≢ check_order_enabled) where
  check_order-Kept :
      (seen : Bool) (prev current : Bytes) (f : LineFile)
      → Kept f (check_order o seen prev current f)
  unfolding Kept check_order
  check_order-Kept seen prev current f =
      elim (Bool-cases (checks o.check_input_order seen && not f.warned)) [
        | inl e ↦ rw e (report-Kept o.check_input_order _ f lenient)
        | inr e ↦ rw e (f.warned, refl)
      ]

  check_read-Kept : (seen : Bool) (f : LineFile) → Kept f (check_read o seen f)
  unfolding Kept check_read
  check_read-Kept seen f =
      let later = check_order o seen (text_of (f.buffers f.alt_1)) (thisline f) f in
      let last : Option Bytes → Progress LineFile = λ b. elim b [
        | none ↦ going f
        | some text ↦ check_order o seen text (text_of (f.buffers f.alt_1)) f
      ] in
      elim f.present as (λ p. Kept f (if p then later else last (f.buffers f.alt_2))) [
        | true ↦ check_order-Kept seen (text_of (f.buffers f.alt_1)) (thisline f) f
        | false ↦ elim (f.buffers f.alt_2) as (λ b. Kept f (last b)) [
          | none ↦ (f.warned, refl)
          | some text ↦ check_order-Kept seen text (text_of (f.buffers f.alt_1)) f
        ]
      ]

  Holds-warned :
      (f : LineFile) (xs : List Bytes) (w : Bool) → Holds f xs → Holds (record f { warned = w }) xs
  unfolding thisline
  Holds-warned f [] w h =
      (h.0, record { reads = h.1.reads; closes = h.1.closes; no_failure = h.1.no_failure })
  Holds-warned f (x ∷ xs) w h = (
    h.0,
    h.1,
    h.2,
    record { reads = h.3.reads; closes = h.3.closes; no_failure = h.3.no_failure },
  )

  pub fill_up-Holds :
      (seen : Bool) (f : LineFile) (x : Bytes) (xs : List Bytes)
      → Holds f (x ∷ xs)
      → (g : LineFile) × (fill_up o seen f ≡ going g) × Holds g xs
  unfolding fill_up Kept ◌>>=◌ no_error rotate
  fill_up-Holds seen f x xs h =
      let q = h.3 in
      let r = readlinebuffer (rotate f) in
      let held =
        readlinebuffer-Holds (rotate f) xs
          (record { reads = q.reads; closes = q.closes; no_failure = q.no_failure }) h.2 in
      let (w, e) = check_read-Kept seen r in
      (
        record r { warned = w },
        rw (e, (Holds-Quiet r xs held).no_failure) refl,
        Holds-warned r xs w held,
      )

-- What the loop needs of a file: a claim about the lines that are left, which reading keeps.
pub record Reader (o : Options) : Type 1 where
  pub Held : LineFile → List Bytes → Type 0
  pub held : (f : LineFile) (xs : List Bytes) → Held f xs → Holds f xs
  pub fills :
      (seen : Bool) (f : LineFile) (x : Bytes) (xs : List Bytes)
      → Held f (x ∷ xs)
      → (g : LineFile) × (fill_up o seen f ≡ going g) × Held g xs

abbrev pub lenient_reader : (o : Options) → o.check_input_order ≢ check_order_enabled → Reader o
lenient_reader o lenient = record {
  Held = Holds;
  held = λ f xs h. h;
  fills = fill_up-Holds o lenient;
}
