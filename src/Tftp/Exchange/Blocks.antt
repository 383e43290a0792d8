-- ===== src/Tftp/Exchange/Blocks.antt =====
-- The blocks that a file is cut into, and the datagrams that carry them.
use my_coding_exercises.Common.{
  ℕ, zero, suc, ◌+◌, ◌≤◌, ◌<◌, ◌≡◌, refl, sym, ap, ◌∙◌, ◌⊎◌, inl, inr, false, ◌&&◌, some, List, [],
  ◌∷◌, ◌++◌, append_assoc, append-nil, Bytes, length, length-append, get_elem?, arith, Bool-cases,
  ◌==◌, ltb,
}
use my_coding_exercises.Tftp.Wire.{packet, max_data, op_data}

-- All the bytes of a list of blocks.
abbrev pub joined : List Bytes → Bytes
joined [] = []
joined (b ∷ bs) = b ++ joined bs

pub joined-append : (xs ys : List Bytes) → joined (xs ++ ys) ≡ joined xs ++ joined ys
joined-append [] ys = refl
joined-append (x ∷ xs) ys = rw (joined-append xs ys, append_assoc)

-- The blocks sent so far, with `rest` still to be sent: only the last may be short, and then
-- nothing is left.
pub record Blocks (network : Bytes) (blocks : List Bytes) (rest : Bytes) : Type 0 where
  pub whole : joined blocks ++ rest ≡ network
  pub fits : (k : ℕ) (b : Bytes) → get_elem? blocks k ≡ some b → length b ≤ max_data
  pub last_short :
      (k : ℕ) (b : Bytes)
      → get_elem? blocks k ≡ some b
      → length b < max_data
      → (suc k ≡ length blocks) × (rest ≡ [])

-- A datagram that carries one of the blocks under its number.
pub data Carries (blocks : List Bytes) : Bytes → Type 0 where
  carries :
      (k : ℕ) (b : Bytes) {p : Bytes}
      → get_elem? blocks k ≡ some b
      → p ≡ packet op_data (suc k) b
      → Carries blocks p

pub get_elem?-append :
    (xs : List Bytes) (k : ℕ) (b c : Bytes)
    → get_elem? (xs ++ b ∷ []) k ≡ some c
    → (get_elem? xs k ≡ some c) ⊎ ((k ≡ length xs) × (b ≡ c))
get_elem?-append [] zero b c h = inr (refl, cc)
get_elem?-append [] (suc k) b c h = inl h
get_elem?-append (x ∷ xs) zero b c h = inl h
get_elem?-append (x ∷ xs) (suc k) b c h = elim (get_elem?-append xs k b c h) [
  | inl e ↦ inl e
  | inr (e, f) ↦ inr (ap suc e, f)
]

pub get_elem?-append_left :
    (xs ys : List Bytes) (k : ℕ) (b : Bytes)
    → get_elem? xs k ≡ some b
    → get_elem? (xs ++ ys) k ≡ some b
get_elem?-append_left [] ys k b h = cc
get_elem?-append_left (x ∷ xs) ys zero b h = h
get_elem?-append_left (x ∷ xs) ys (suc k) b h = get_elem?-append_left xs ys k b h

pub get_elem?-length : (xs : List Bytes) (b : Bytes) → get_elem? (xs ++ b ∷ []) (length xs) ≡ some b
get_elem?-length [] b = refl
get_elem?-length (x ∷ xs) b = get_elem?-length xs b

-- One more block.
pub Blocks-snoc :
    (network : Bytes) (blocks : List Bytes) (out rest rest' : Bytes)
    → Blocks network blocks rest
    → out ++ rest' ≡ rest
    → length out ≤ max_data
    → (length out < max_data → rest' ≡ [])
    → ((k : ℕ) (b : Bytes) → get_elem? blocks k ≡ some b → max_data ≤ length b)
    → Blocks network (blocks ++ out ∷ []) rest'
Blocks-snoc network blocks out rest rest' c e le short full = record {
  whole = rw (joined-append blocks (out ∷ []), append-nil, append_assoc, e) c.whole;
  fits = λ k b g. elim (get_elem?-append blocks k out b g) [
    | inl old ↦ c.fits k b old
    | inr (_, new) ↦ rw (← new) le
  ];
  last_short = λ k b g lt. elim (get_elem?-append blocks k out b g) [
    | inl old ↦ absurd (omega (arith, full k b old))
    | inr (i, new) ↦ (omega (arith, length-append blocks (out ∷ [])), short (rw new lt))
  ];
}

-- Nothing is short as long as the sender has not ended.
pub full_before :
    (network : Bytes) (blocks : List Bytes) (out rest rest' : Bytes) (lastsend : ℕ)
    → Blocks network blocks rest
    → ((k : ℕ) (b : Bytes)
        → get_elem? blocks k ≡ some b
        → suc k ≡ length blocks
        → lastsend ≡ length b)
    → out ++ rest' ≡ rest
    → (length out == 0 && ltb lastsend max_data) ≡ false
    → (k : ℕ) (b : Bytes) → get_elem? blocks k ≡ some b
    → max_data ≤ length b
full_before network blocks out rest rest' lastsend c last e go k b g =
    elim (Bool-cases (ltb (length b) max_data)) [
      | inr big ↦ ground arith
      | inl small ↦
          let (i, r) = c.last_short k b g (ground arith) in
          let z : length out + length rest' ≡ 0 =
            sym (length-append out rest') ∙ ap length (e ∙ r) in
          absurd (ground (arith, last k b g i))
    ]

pub Carries-snoc :
    (blocks : List Bytes) (out p : Bytes) → Carries blocks p → Carries (blocks ++ out ∷ []) p
Carries-snoc blocks out p (carries k b g e) =
    carries k b (get_elem?-append_left blocks (out ∷ []) k b g) e
