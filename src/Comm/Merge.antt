-- ===== src/Comm/Merge.antt =====
-- coreutils/src/comm.c: the loop of `compare_files` as a merge, in the C locale.
use mathlib.Core.Path.{subst}
use my_coding_exercises.Common.{
  ℕ, zero, suc, ◌+◌, ◌<◌, ◌≡◌, refl, sym, ◌∙◌, true, false, ◌||◌, ◌⊎◌, inl, inr, List, [], ◌∷◌,
  append-nil, Bytes, length, arith,
}
use my_coding_exercises.Comm.{
  Order, less, equal, greater, Options, Comm, going, ◌>>=◌, order_of, round, compare_loop,
}
use my_coding_exercises.Comm.Bodies.{compare_bytes, compare_bytes-equal, compare_bytes-greater}
use my_coding_exercises.Comm.Columns.{compare_bytes-absent}
use my_coding_exercises.Comm.Reads.{Reader}
use my_coding_exercises.Comm.Entries.{Compared, Compared-1, Compared-2, Compared-3, Compared-run}
use my_coding_exercises.Comm.Turns.{
  round-less, round-greater, round-equal, order_of-lines, order_of-first, order_of-second,
}

Order-cases : (c : Order) → (c ≡ less) ⊎ (c ≡ equal) ⊎ (c ≡ greater)
Order-cases less = inl refl
Order-cases equal = inr (inl refl)
Order-cases greater = inr (inr refl)

module _ (o : Options) (reader : Reader o) (plain : o.hard_lc_collate ≡ false) where
  -- A round that is made leaves the rest to the loop.
  loop-round :
      (fuel : ℕ) (s t : Comm) (order : Order)
      → (s.file_1.present || s.file_2.present) ≡ true
      → order_of o s.file_1 s.file_2 ≡ order
      → round o order s ≡ going t
      → compare_loop o (suc fuel) s ≡ compare_loop o fuel t
  unfolding compare_loop ◌>>=◌
  loop-round fuel s t order some_left e r = rw (some_left, compare_loop, e, r) refl

  loop-done :
      (fuel : ℕ) (s : Comm)
      → (s.file_1.present || s.file_2.present) ≡ false
      → compare_loop o (suc fuel) s ≡ going s
  unfolding compare_loop
  loop-done fuel s none_left = rw (none_left, compare_loop) refl

  pub loop-Compared :
      (fuel : ℕ) (xs ys : List Bytes) (s : Comm)
      → reader.Held s.file_1 xs
      → reader.Held s.file_2 ys
      → length xs + length ys < fuel
      → Compared o (λ f. reader.Held f []) s.out xs ys (compare_loop o fuel s)
  loop-Compared zero xs ys s h k f = absurd (omega arith)
  loop-Compared (suc fuel) [] [] s h k f = record {
    final = s;
    ended =
        loop-done fuel s (rw ((reader.held s.file_1 [] h).0, (reader.held s.file_2 [] k).0) refl);
    entries = [];
    printed = sym (append-nil s.out);
    from_1 = refl;
    from_2 = refl;
    separate = λ a b. tt;
    final_1 = h;
    final_2 = k;
  }
  loop-Compared (suc fuel) [] (y ∷ ys) s h k f =
      let h' = reader.held s.file_1 [] h in
      let k' = reader.held s.file_2 (y ∷ ys) k in
      let (t, e, same, held, printed) = round-greater o reader plain s y ys k in
      let held_1 = subst (λ g. reader.Held g []) (sym same) h in
      Compared-run
        (loop-round fuel s t greater (rw (h'.0, k'.0) refl)
          (order_of-first o reader plain s.file_1 s.file_2 h') e)
        (Compared-2 printed (λ a. tt) (loop-Compared fuel [] ys t held_1 held (omega arith)))
  loop-Compared (suc fuel) (x ∷ xs) [] s h k f =
      let h' = reader.held s.file_1 (x ∷ xs) h in
      let k' = reader.held s.file_2 [] k in
      let (t, e, held, same, printed) = round-less o reader plain s x xs h in
      let held_2 = subst (λ g. reader.Held g []) (sym same) k in
      Compared-run
        (loop-round fuel s t less (rw h'.0 refl)
          (order_of-second o reader plain s.file_1 s.file_2 x xs h' k') e)
        (Compared-1 printed (λ a. tt) (loop-Compared fuel xs [] t held held_2 (omega arith)))
  loop-Compared (suc fuel) (x ∷ xs) (y ∷ ys) s h k f =
      let h' = reader.held s.file_1 (x ∷ xs) h in
      let k' = reader.held s.file_2 (y ∷ ys) k in
      let some_left : (s.file_1.present || s.file_2.present) ≡ true = rw h'.0 refl in
      let order = order_of-lines o reader plain s.file_1 s.file_2 x y xs ys h' k' in
      elim (Order-cases (compare_bytes x y)) [
        | inl e ↦
            let (t, r, held, same, printed) = round-less o reader plain s x xs h in
            let held_2 = subst (λ g. reader.Held g (y ∷ ys)) (sym same) k in
            Compared-run (loop-round fuel s t less some_left (order ∙ e) r) (
              Compared-1 printed (compare_bytes-absent x y ys e)
                (loop-Compared fuel xs (y ∷ ys) t held held_2 (omega arith)))
        | inr (inl e) ↦
            let (t, r, held, held_2, printed) = round-equal o reader plain s x y xs ys h k in
            Compared-run (loop-round fuel s t equal some_left (order ∙ e) r) (
              Compared-3 printed (compare_bytes-equal x y e)
                (loop-Compared fuel xs ys t held held_2 (omega arith)))
        | inr (inr e) ↦
            let (t, r, same, held, printed) = round-greater o reader plain s y ys k in
            let held_1 = subst (λ g. reader.Held g (x ∷ xs)) (sym same) h in
            Compared-run (loop-round fuel s t greater some_left (order ∙ e) r) (
              Compared-2 printed (compare_bytes-absent y x xs (compare_bytes-greater x y e))
                (loop-Compared fuel (x ∷ xs) ys t held_1 held (omega arith)))
      ]
