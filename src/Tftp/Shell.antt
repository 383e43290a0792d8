-- ===== src/Tftp/Shell.antt =====
-- The command lines of the client: the state of its commands, and the routines of
-- tftp-exercises/client/cmdsubr.c that take a line apart. `line` is what stands
-- at `lineptr` in the static array, with the bytes that older lines have left behind the new one.
pub mod Tokens
pub mod Commands
pub mod Table
pub mod Search
use my_coding_exercises.Common.{
  ℕ, zero, suc, ◌+◌, ◌-◌, ◌/◌, Bool, true, false, not, ◌||◌, Option, none, some, List, [], ◌∷◌,
  ◌++◌, Bytes, codes, ◌==◌, ltb, if◌then◌else◌, length, overlay, same_text, get_elem?, get_or, drop,
}

-- A transfer that a command has started: `do_get` or `do_put`, with the remote and the local name.
pub data Transfer : Type 0 where
  get put : Bytes → Bytes → Transfer

pub record Shell : Type 0 where
  pub line : Bytes
  pub hostname : Bytes
  pub port : ℕ
  pub modetype : ℕ
  pub connected : Bool
  pub verboseflag : Bool
  pub printed : List Bytes
  pub transfers : List Transfer

-- `err_cmd` prints its argument and jumps back to the main loop; `overrun` is a token that does
-- not fit the array of `max_token` bytes; `off_the_end` is a read behind the array `line`.
pub data Outcome {ℓ} (A : Type ℓ) : Type ℓ where
  ok : A → Outcome A
  err_cmd : Bytes → Shell → Outcome A
  exits overrun off_the_end : Outcome A

infixl 5 ◌>>=◌
abbrev pub ◌>>=◌ {ℓ κ} : {A : Type ℓ} {B : Type κ} → Outcome A → (A → Outcome B) → Outcome B
ok a >>= f = f a
err_cmd text s >>= f = err_cmd text s
exits >>= f = exits
overrun >>= f = overrun
off_the_end >>= f = off_the_end

abbrev pub max_token : ℕ
max_token = 128

abbrev pub is_blank : ℕ → Bool
is_blank c = c == b' ' || c == b'\t'

abbrev pub ends_token : ℕ → Bool
ends_token c = is_blank c || c == b'\n' || c == 0

-- `get_line`, on what `fgets` stores: the text with its null byte, over the front of the array.
unfoldable pub get_line : Bytes → Bytes → Bytes
get_line text array = overlay (text ++ 0 ∷ []) array

-- The second loop of `gettoken`: the bytes up to the one that ends the token, and those behind it.
unfoldable pub collect : Bytes → Option (Bytes × Bytes)
collect [] = none
collect (c ∷ p) = elim (ends_token c) [
  | true ↦ some ([], p)
  | false ↦ elim (collect p) [ none ↦ none | some (token, rest) ↦ some (c ∷ token, rest) ]
]

-- What `gettoken` finds at `lineptr`: past the array, nothing, or a token; with `lineptr` behind it.
pub data Token : Type 0 where
  past : Token
  nothing : Bytes → Token
  token : Bytes → Bytes → Token

unfoldable pub scan : Bytes → Token
scan [] = past
scan (c ∷ p) = elim (is_blank c) [
  | true ↦ scan p
  | false ↦
      if c == 0 || c == b'\n'
      then nothing p
      else elim (collect p) [ none ↦ past | some (text, rest) ↦ token (c ∷ text) rest ]
]

-- `none` is the result NULL. The arrays that tokens are stored in hold `max_token` bytes.
unfoldable pub gettoken : Shell → Outcome (Option Bytes × Shell)
gettoken s = elim (scan s.line) [
  | past ↦ off_the_end
  | nothing rest ↦ ok (none, record s { line = rest })
  | token text rest ↦
      if ltb (length text) max_token then ok (some text, record s { line = rest }) else overrun
]

-- `gettoken`, with `err_cmd` where there is no token.
unfoldable pub want_token : Bytes → Shell → Outcome (Bytes × Shell)
want_token complaint s = do
  (t, s₁) ← gettoken s
  elim t [ none ↦ err_cmd complaint s₁ | some text ↦ ok (text, s₁) ]

unfoldable pub checkend : Shell → Outcome Shell
checkend s = do
  (t, s₁) ← gettoken s
  elim t [ none ↦ ok s₁ | some _ ↦ err_cmd (codes "trailing garbage") s₁ ]

-- `index(name, ':')`: what stands behind the first colon.
unfoldable pub behind_colon : Bytes → Option Bytes
behind_colon [] = none
behind_colon (c ∷ p) = elim (c == b':') [ true ↦ some p | false ↦ behind_colon p ]

-- The new `fname` and `hname`. The assignment `ptr2 = 0` changes a local pointer only.
unfoldable pub striphost : Bytes → Bytes → Bytes × Bytes
striphost fname hname = elim (behind_colon fname) [
  | none ↦ (fname, hname)
  | some file ↦ (file, fname)
]
