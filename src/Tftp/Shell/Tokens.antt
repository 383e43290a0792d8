-- ===== src/Tftp/Shell/Tokens.antt =====
-- What the commands make of a line: tokens, the host of a remote name, and the bytes behind a line.
use my_coding_exercises.Common.{
  All, ℕ, suc, ◌<◌, ◌≡◌, refl, true, false, some, [], ◌∷◌, ◌++◌, Bytes, codes, length, arith, ◌==◌,
}
use my_coding_exercises.Common.Int.{ℤ}
use my_coding_exercises.Tftp.Shell.Commands.{cmd_connect}
use my_coding_exercises.Tftp.Shell.Table.{docmd, binary, strcmp}
use my_coding_exercises.Tftp.Shell.{
  Shell, err_cmd, nothing, token, is_blank, ends_token, max_token, collect, scan, gettoken,
  want_token, checkend, behind_colon, striphost,
}

-- A byte that can stand in a token.
abbrev pub InToken : ℕ → Type 0
InToken c = ends_token c ≡ false

collect_word :
    (word : Bytes) (c : ℕ) (rest : Bytes)
    → All InToken word
    → ends_token c ≡ true
    → collect (word ++ c ∷ rest) ≡ some (word, rest)
unfolding collect
collect_word [] c rest h e = rw (e, collect)
collect_word (x ∷ word) c rest h e = rw (h.0, collect, collect_word word c rest h.1 e)

-- Blanks, then a word, then a byte that ends a token: the scan of `gettoken` finds the word and
-- stops behind that byte.
pub scan_word :
    (blanks : Bytes) (x : ℕ) (word : Bytes) (c : ℕ) (rest : Bytes)
    → All (λ b. is_blank b ≡ true) blanks
    → InToken x
    → All InToken word
    → ends_token c ≡ true
    → scan (blanks ++ x ∷ (word ++ c ∷ rest)) ≡ token (x ∷ word) rest
unfolding scan
scan_word [] x word c rest b hx h e = ground (arith, collect_word word c rest h e)
scan_word (y ∷ blanks) x word c rest b hx h e =
    rw (b.0, scan) (scan_word blanks x word c rest b.1 hx h e)

-- The first colon of a name that holds no other in front of it.
behind_colon_lem :
    (host file : Bytes)
    → All (λ c. (c == b':') ≡ false) host
    → behind_colon (host ++ b':' ∷ file) ≡ some file
unfolding behind_colon
behind_colon_lem [] file h = refl
behind_colon_lem (c ∷ host) file h = rw (h.0, behind_colon) (behind_colon_lem host file h.1)

-- For a remote name "host:file" whose first colon is that one, `striphost` takes "host:" off the
-- file name, but stores the whole "host:file" as the host name.
pub striphost_keeps_file :
    (host file old : Bytes)
    → All (λ c. (c == b':') ≡ false) host
    → striphost (host ++ b':' ∷ file) old ≡ (file, host ++ b':' ∷ file)
unfolding striphost
striphost_keeps_file host file old h = rw (behind_colon_lem host file h, striphost)

scan_null : (p : Bytes) → scan (0 ∷ p) ≡ nothing p
unfolding scan
scan_null p = refl

module _ (atoi : Bytes → ℤ) (s : Shell) (x : ℕ) (host stale rest : Bytes) (y : ℕ)
    (word : Bytes) where
  -- The command "connect host" at the end of a line, with a host of fewer than 128 bytes:
  -- `gettoken` has gone past the null byte of the line when `checkend` calls it again, so that a
  -- word of fewer than 128 bytes that an older line has left behind it in the array is reported as
  -- trailing garbage.
  pub connect_reads_stale :
      s.line ≡ x ∷ (host ++ b'\n' ∷ 0 ∷ stale)
      → InToken x
      → All InToken host
      → suc (length host) < max_token
      → scan stale ≡ token (y ∷ word) rest
      → suc (length word) < max_token
      → docmd atoi (codes "connect") s
        ≡ err_cmd (codes "trailing garbage") (record s { line = rest; hostname = x ∷ host })
  unfolding docmd binary strcmp cmd_connect want_token gettoken checkend
  connect_reads_stale line hx h short found_stale short' =
      let first = scan_word [] x host b'\n' (0 ∷ stale) tt hx h refl in
      ground (arith, first, scan_null stale)
