-- ===== src/Comm/Entries.antt =====
-- coreutils/src/comm.c: runs of `compare_files` that print columns of entries.
use mathlib.Core.Path.{subst}
use my_coding_exercises.Common.{All, ◌≡◌, ◌≢◌, sym, ap, ◌∙◌, List, ◌∷◌, ◌++◌, append_assoc, Bytes}
use my_coding_exercises.Comm.{Options, LineFile, Comm, Progress, going}
use my_coding_exercises.Comm.Columns.{
  Entry, only_in_1, only_in_2, in_both, lines_1, lines_2, column_text, columns, Separate, IsSorted,
  ApartFirst-lines_1, ApartSecond-lines_2,
}

-- The run ends, and what it has printed behind `out` are the columns of entries that make up the
-- files.
pub record Compared (o : Options) (Final : LineFile → Type 0) (out : Bytes) (xs ys : List Bytes)
    (run : Progress Comm) : Type 0 where
  pub final : Comm
  pub ended : run ≡ going final
  pub entries : List Entry
  pub printed : final.out ≡ out ++ columns o entries
  pub from_1 : lines_1 entries ≡ xs
  pub from_2 : lines_2 entries ≡ ys
  pub separate : IsSorted xs → IsSorted ys → Separate entries
  pub final_1 : Final final.file_1
  pub final_2 : Final final.file_2

-- One more entry in front.
columns-printed :
    (o : Options) (e : Entry) (out out' : Bytes) (entries : List Entry)
    → out' ≡ out ++ columns o entries
    → (start : Bytes) → out ≡ start ++ column_text o e
    → out' ≡ start ++ columns o (e ∷ entries)
columns-printed o e out out' entries h start p =
    h
    ∙ ap (λ k. k ++ columns o entries) p
    ∙ append_assoc start (column_text o e) (columns o entries)

module _ {o : Options} {Final : LineFile → Type 0} {out : Bytes} {run : Progress Comm} where
  pub Compared-1 :
      {start x : Bytes} {xs ys : List Bytes}
      → out ≡ start ++ column_text o (only_in_1 x)
      → (IsSorted ys → All (λ z. x ≢ z) ys)
      → Compared o Final out xs ys run
      → Compared o Final start (x ∷ xs) ys run
  Compared-1 {start} {x} p absent c = record {
    final = c.final;
    ended = c.ended;
    entries = only_in_1 x ∷ c.entries;
    printed = columns-printed o (only_in_1 x) out c.final.out c.entries c.printed start p;
    from_1 = ap (◌∷◌ x) c.from_1;
    from_2 = c.from_2;
    separate = λ s t. (
      ApartSecond-lines_2 x c.entries (subst (λ l. All (λ z. x ≢ z) l) (sym c.from_2) (absent t)),
      c.separate s.1 t,
    );
    final_1 = c.final_1;
    final_2 = c.final_2;
  }

  pub Compared-2 :
      {start y : Bytes} {xs ys : List Bytes}
      → out ≡ start ++ column_text o (only_in_2 y)
      → (IsSorted xs → All (λ z. y ≢ z) xs)
      → Compared o Final out xs ys run
      → Compared o Final start xs (y ∷ ys) run
  Compared-2 {start} {y} p absent c = record {
    final = c.final;
    ended = c.ended;
    entries = only_in_2 y ∷ c.entries;
    printed = columns-printed o (only_in_2 y) out c.final.out c.entries c.printed start p;
    from_1 = c.from_1;
    from_2 = ap (◌∷◌ y) c.from_2;
    separate = λ s t. (
      ApartFirst-lines_1 y c.entries (subst (λ l. All (λ z. y ≢ z) l) (sym c.from_1) (absent s)),
      c.separate s t.1,
    );
    final_1 = c.final_1;
    final_2 = c.final_2;
  }

  pub Compared-3 :
      {start x y : Bytes} {xs ys : List Bytes}
      → out ≡ start ++ column_text o (in_both y)
      → x ≡ y
      → Compared o Final out xs ys run
      → Compared o Final start (x ∷ xs) (y ∷ ys) run
  Compared-3 {start} {x} {y} {xs} p same c = record {
    final = c.final;
    ended = c.ended;
    entries = in_both y ∷ c.entries;
    printed = columns-printed o (in_both y) out c.final.out c.entries c.printed start p;
    from_1 = ap (◌∷◌ y) c.from_1 ∙ ap (λ k. k ∷ xs) (sym same);
    from_2 = ap (◌∷◌ y) c.from_2;
    separate = λ s t. c.separate s.1 t.1;
    final_1 = c.final_1;
    final_2 = c.final_2;
  }

pub Compared-run :
    {o : Options} {Final : LineFile → Type 0} {out : Bytes} {xs ys : List Bytes}
    {run run' : Progress Comm}
    → run' ≡ run
    → Compared o Final out xs ys run
    → Compared o Final out xs ys run'
Compared-run {o} {Final} {out} {xs} {ys} e c = subst (Compared o Final out xs ys) (sym e) c
