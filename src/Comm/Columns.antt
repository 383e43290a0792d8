-- ===== src/Comm/Columns.antt =====
-- coreutils/src/comm.c: what `compare_files` is to print, as the specification of it.
use my_coding_exercises.Common.{
  All, All-map, ◌≡◌, ◌≢◌, refl, sym, ap, ◌∙◌, Bool, true, false, List, [], ◌∷◌, ◌++◌, append_assoc,
  append-nil, Bytes, if◌then◌else◌,
}
use my_coding_exercises.Comm.{less, equal, greater, Options, writeline_1, writeline_2, writeline_3}
use my_coding_exercises.Comm.Bodies.{compare_bytes, compare_bytes_refl, compare_bytes-less, newline}

-- A line of one file only, or of both.
pub data Entry : Type 0 where
  only_in_1 only_in_2 in_both : Bytes → Entry

-- The lines of each file.
abbrev pub lines_1 : List Entry → List Bytes
lines_1 [] = []
lines_1 (only_in_1 x ∷ entries) = x ∷ lines_1 entries
lines_1 (only_in_2 y ∷ entries) = lines_1 entries
lines_1 (in_both y ∷ entries) = y ∷ lines_1 entries

abbrev pub lines_2 : List Entry → List Bytes
lines_2 [] = []
lines_2 (only_in_1 x ∷ entries) = lines_2 entries
lines_2 (only_in_2 y ∷ entries) = y ∷ lines_2 entries
lines_2 (in_both y ∷ entries) = y ∷ lines_2 entries

-- A delimiter for each column in front that is printed.
abbrev pub gap : Options → Bool → Bytes
gap o column = if column then o.delimiter else []

abbrev pub column_text : Options → Entry → Bytes
column_text o (only_in_1 x) = if o.only_file_1 then x ++ newline else []
column_text o (only_in_2 y) = if o.only_file_2 then gap o o.only_file_1 ++ (y ++ newline) else []
column_text o (in_both y) =
    if o.both then gap o o.only_file_1 ++ (gap o o.only_file_2 ++ (y ++ newline)) else []

abbrev pub columns : Options → List Entry → Bytes
columns o [] = []
columns o (e ∷ entries) = column_text o e ++ columns o entries

-- No line that is said to be in one file only is also said to be in the other only.
abbrev pub ApartFirst : Bytes → Entry → Type 0
ApartFirst y (only_in_1 x) = y ≢ x
ApartFirst y _ = Unit

abbrev pub ApartSecond : Bytes → Entry → Type 0
ApartSecond x (only_in_2 y) = x ≢ y
ApartSecond x _ = Unit

abbrev pub Separate : List Entry → Type 0
Separate [] = Unit
Separate (only_in_1 x ∷ entries) = All (ApartSecond x) entries × Separate entries
Separate (only_in_2 y ∷ entries) = All (ApartFirst y) entries × Separate entries
Separate (in_both y ∷ entries) = Separate entries

-- No line comes behind a greater one.
abbrev pub IsSorted : List Bytes → Type 0
IsSorted [] = Unit
IsSorted (x ∷ xs) = All (λ y. compare_bytes x y ≢ greater) xs × IsSorted xs

pub ApartFirst-lines_1 :
    (y : Bytes) (entries : List Entry)
    → All (λ z. y ≢ z) (lines_1 entries)
    → All (ApartFirst y) entries
ApartFirst-lines_1 y [] a = tt
ApartFirst-lines_1 y (only_in_1 x ∷ entries) a = (a.0, ApartFirst-lines_1 y entries a.1)
ApartFirst-lines_1 y (only_in_2 z ∷ entries) a = (tt, ApartFirst-lines_1 y entries a)
ApartFirst-lines_1 y (in_both z ∷ entries) a = (tt, ApartFirst-lines_1 y entries a.1)

pub ApartSecond-lines_2 :
    (x : Bytes) (entries : List Entry)
    → All (λ z. x ≢ z) (lines_2 entries)
    → All (ApartSecond x) entries
ApartSecond-lines_2 x [] a = tt
ApartSecond-lines_2 x (only_in_1 z ∷ entries) a = (tt, ApartSecond-lines_2 x entries a)
ApartSecond-lines_2 x (only_in_2 y ∷ entries) a = (a.0, ApartSecond-lines_2 x entries a.1)
ApartSecond-lines_2 x (in_both z ∷ entries) a = (tt, ApartSecond-lines_2 x entries a.1)

-- A line below the first one of a sorted file is not in the file.
pub compare_bytes-absent :
    (x y : Bytes) (ys : List Bytes)
    → compare_bytes x y ≡ less
    → IsSorted (y ∷ ys)
    → All (λ z. x ≢ z) (y ∷ ys)
compare_bytes-absent x y ys h s = (
  λ q. let g : less ≡ equal = sym h ∙ ap (λ k. compare_bytes k y) q ∙ compare_bytes_refl y in cc,
  All-map (λ z. compare_bytes y z ≢ greater) (λ z. x ≢ z)
      (λ z k q. k (ap (compare_bytes y) (sym q) ∙ compare_bytes-less x y h)) ys s.0,
)

-- The three ways of `writeline` print the text of an entry.
pub writeline_1-text :
    (o : Options) (x out : Bytes)
    → writeline_1 o (x ++ newline) out ≡ out ++ column_text o (only_in_1 x)
unfolding writeline_1
writeline_1-text o x out =
    elim o.only_file_1
      as (λ b.
        (if b then out ++ (x ++ newline) else out) ≡ out ++ (if b then x ++ newline else [])) [
          | true ↦ refl
          | false ↦ sym (append-nil out)
        ]

gap-append :
    (o : Options) (column : Bool) (out rest : Bytes)
    → (if column then out ++ o.delimiter else out) ++ rest ≡ out ++ (gap o column ++ rest)
gap-append o true out rest = append_assoc out o.delimiter rest
gap-append o false out rest = refl

pub writeline_2-text :
    (o : Options) (y out : Bytes)
    → writeline_2 o (y ++ newline) out ≡ out ++ column_text o (only_in_2 y)
unfolding writeline_2
writeline_2-text o y out =
    elim o.only_file_2
      as (λ b.
        (if b then (if o.only_file_1 then out ++ o.delimiter else out) ++ (y ++ newline) else out)
        ≡ out ++ (if b then gap o o.only_file_1 ++ (y ++ newline) else [])) [
          | true ↦ gap-append o o.only_file_1 out (y ++ newline)
          | false ↦ sym (append-nil out)
        ]

pub writeline_3-text :
    (o : Options) (y out : Bytes)
    → writeline_3 o (y ++ newline) out ≡ out ++ column_text o (in_both y)
unfolding writeline_3
writeline_3-text o y out =
    let one = if o.only_file_1 then out ++ o.delimiter else out in
    elim o.both
      as (λ b.
        (if b then (if o.only_file_2 then one ++ o.delimiter else one) ++ (y ++ newline) else out)
        ≡ out
          ++ (if b then gap o o.only_file_1 ++ (gap o o.only_file_2 ++ (y ++ newline)) else [])) [
            | true ↦
                gap-append o o.only_file_2 one (y ++ newline)
                ∙ gap-append o o.only_file_1 out (gap o o.only_file_2 ++ (y ++ newline))
            | false ↦ sym (append-nil out)
          ]
