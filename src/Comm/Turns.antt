-- ===== src/Comm/Turns.antt =====
-- coreutils/src/comm.c: one round of `compare_files`, in the C locale.
use my_coding_exercises.Common.{
  ◌≡◌, refl, ap, ◌∙◌, Bool, true, false, not, List, [], ◌∷◌, ◌++◌, Bytes, if◌then◌else◌,
}
use my_coding_exercises.Comm.{
  Order, less, equal, greater, Options, LineFile, Comm, going, ◌>>=◌, thisline, plain_order,
  order_of, writeline_1, writeline_2, writeline_3, round,
}
use my_coding_exercises.Comm.Bodies.{compare_bytes, newline, plain_order-compare_bytes}
use my_coding_exercises.Comm.Columns.{
  only_in_1, only_in_2, in_both, column_text, writeline_1-text, writeline_2-text, writeline_3-text,
}
use my_coding_exercises.Comm.Reads.{Reader, Holds}

chosen :
    (p q hard : Bool) (a b : Order)
    → p ≡ true
    → q ≡ true
    → hard ≡ false
    → (if not p then greater else if not q then less else if hard then a else b) ≡ b
chosen p q hard a b e f g = rw (e, f, g) refl

no_first :
    (p q hard : Bool) (a b : Order)
    → p ≡ false
    → (if not p then greater else if not q then less else if hard then a else b) ≡ greater
no_first p q hard a b e = rw e refl

no_second :
    (p q hard : Bool) (a b : Order)
    → p ≡ true
    → q ≡ false
    → (if not p then greater else if not q then less else if hard then a else b) ≡ less
no_second p q hard a b e f = rw (e, f) refl

module _ (o : Options) (reader : Reader o) (plain : o.hard_lc_collate ≡ false) where
  -- The rounds, by the order.
  pub round-less :
      (s : Comm) (x : Bytes) (xs : List Bytes)
      → reader.Held s.file_1 (x ∷ xs)
      → (t : Comm) × (round o less s ≡ going t)
        × reader.Held t.file_1 xs
        × (t.file_2 ≡ s.file_2)
        × (t.out ≡ s.out ++ column_text o (only_in_1 x))
  unfolding round ◌>>=◌
  round-less s x xs h =
      let (f, e, held) = reader.fills true s.file_1 x xs h in
      let h' = reader.held s.file_1 (x ∷ xs) h in
      let printed = ap (λ l. writeline_1 o l s.out) h'.1 ∙ writeline_1-text o x s.out in
      (
        record s {
          seen_unpairable = true;
          out = writeline_1 o (thisline s.file_1) s.out;
          file_1 = f;
        },
        rw e refl,
        held,
        refl,
        printed,
      )

  pub round-greater :
      (s : Comm) (y : Bytes) (ys : List Bytes)
      → reader.Held s.file_2 (y ∷ ys)
      → (t : Comm) × (round o greater s ≡ going t)
        × (t.file_1 ≡ s.file_1)
        × reader.Held t.file_2 ys
        × (t.out ≡ s.out ++ column_text o (only_in_2 y))
  unfolding round ◌>>=◌
  round-greater s y ys h =
      let (f, e, held) = reader.fills true s.file_2 y ys h in
      let h' = reader.held s.file_2 (y ∷ ys) h in
      let printed = ap (λ l. writeline_2 o l s.out) h'.1 ∙ writeline_2-text o y s.out in
      (
        record s {
          seen_unpairable = true;
          out = writeline_2 o (thisline s.file_2) s.out;
          file_2 = f;
        },
        rw e refl,
        refl,
        held,
        printed,
      )

  pub round-equal :
      (s : Comm) (x y : Bytes) (xs ys : List Bytes)
      → reader.Held s.file_1 (x ∷ xs)
      → reader.Held s.file_2 (y ∷ ys)
      → (t : Comm) × (round o equal s ≡ going t)
        × reader.Held t.file_1 xs
        × reader.Held t.file_2 ys
        × (t.out ≡ s.out ++ column_text o (in_both y))
  unfolding round ◌>>=◌
  round-equal s x y xs ys h k =
      let (f, e, held) = reader.fills s.seen_unpairable s.file_1 x xs h in
      let (g, e', held') = reader.fills s.seen_unpairable s.file_2 y ys k in
      let k' = reader.held s.file_2 (y ∷ ys) k in
      let printed = ap (λ l. writeline_3 o l s.out) k'.1 ∙ writeline_3-text o y s.out in
      (
        record s { out = writeline_3 o (thisline s.file_2) s.out; file_1 = f; file_2 = g },
        rw (e, e') refl,
        held,
        held',
        printed,
      )

  -- `order`, by the lines that are left.
  pub order_of-lines :
      (f g : LineFile) (x y : Bytes) (xs ys : List Bytes)
      → Holds f (x ∷ xs)
      → Holds g (y ∷ ys)
      → order_of o f g ≡ compare_bytes x y
  unfolding order_of
  order_of-lines f g x y xs ys h k =
      let lines : plain_order (thisline f) (thisline g) ≡ compare_bytes x y =
        ap (λ l. plain_order l (thisline g)) h.1
        ∙ ap (plain_order (x ++ newline)) k.1
        ∙ plain_order-compare_bytes x y in
      chosen f.present g.present o.hard_lc_collate _ (plain_order (thisline f) (thisline g)) h.0 k.0
        plain
      ∙ lines

  pub order_of-first : (f g : LineFile) → Holds f [] → order_of o f g ≡ greater
  unfolding order_of
  order_of-first f g h =
      no_first f.present g.present o.hard_lc_collate _ (plain_order (thisline f) (thisline g)) h.0

  pub order_of-second :
      (f g : LineFile) (x : Bytes) (xs : List Bytes)
      → Holds f (x ∷ xs)
      → Holds g []
      → order_of o f g ≡ less
  unfolding order_of
  order_of-second f g x xs h k =
      no_second f.present g.present o.hard_lc_collate _ (plain_order (thisline f) (thisline g)) h.0
        k.0
