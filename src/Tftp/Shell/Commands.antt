-- ===== src/Tftp/Shell/Commands.antt =====
-- tftp-exercises/client/cmd.c: one function for each command.
use my_coding_exercises.Common.{
  Bool, true, false, not, none, some, List, [], ◌∷◌, ◌++◌, Bytes, codes, ◌==◌, if◌then◌else◌,
  same_text, get_or,
}
use my_coding_exercises.Common.Int.{ℤ, pos, negsuc}
use my_coding_exercises.Tftp.Shell.{
  Transfer, get, put, Shell, Outcome, ok, err_cmd, exits, ◌>>=◌, gettoken, want_token, behind_colon,
  striphost,
}
use my_coding_exercises.Tftp.Wire.{mode_ascii, mode_binary}

unfoldable pub cmd_ascii : Shell → Outcome Shell
cmd_ascii s = ok (record s { modetype = mode_ascii })

unfoldable pub cmd_binary : Shell → Outcome Shell
cmd_binary s = ok (record s { modetype = mode_binary })

-- The C library's `atoi`.
module _ (atoi : Bytes → ℤ) where
  unfoldable pub cmd_connect : Shell → Outcome Shell
  cmd_connect s = do
    (host, s₁) ← want_token (codes "missing hostname") s
    (t, s₂) ← gettoken (record s₁ { hostname = host })
    elim t [
      | none ↦ ok s₂
      | some text ↦ elim (atoi text) [
        | negsuc _ ↦ err_cmd (codes "invalid port number") s₂
        | pos val ↦ ok (record s₂ { port = val })
      ]
    ]

-- The names that the table of commands holds.
abbrev pub command_names : List Bytes
command_names =
    codes "?"
    ∷ codes "ascii"
    ∷ codes "binary"
    ∷ codes "connect"
    ∷ codes "exit"
    ∷ codes "get"
    ∷ codes "help"
    ∷ codes "mode"
    ∷ codes "put"
    ∷ codes "quit"
    ∷ codes "status"
    ∷ codes "verbose"
    ∷ []

unfoldable pub help_lines : List Bytes → List Bytes
help_lines [] = []
help_lines (name ∷ names) = (codes " " ++ (name ++ codes "\n")) ∷ help_lines names

unfoldable pub cmd_help : Shell → Outcome Shell
cmd_help s = ok (record s { printed = s.printed ++ help_lines command_names })

unfoldable pub cmd_exit : Shell → Outcome Shell
cmd_exit s = exits

abbrev has_colon : Bytes → Bool
has_colon name = elim (behind_colon name) [ none ↦ false | some _ ↦ true ]

-- The common end of `cmd_get` and `cmd_put`.
unfoldable pub start_transfer : (Bytes → Bytes → Transfer) → Bytes → Bytes → Shell → Outcome Shell
start_transfer kind remfname locfname s =
    if has_colon locfname
    then err_cmd (codes "cannot have 'host:' in local filename") s
    else (let (file, host) = striphost remfname s.hostname in
        let s₁ = record s { hostname = host } in
        if get_or host 0 0 == 0
        then err_cmd (codes "no host has been specified") s₁
        else ok (record s₁ { transfers = s.transfers ++ kind file locfname ∷ [] }))

unfoldable pub cmd_get : Shell → Outcome Shell
cmd_get s = do
  (remfname, s₁) ← want_token (codes "the remote filename must be specified") s
  (locfname, s₂) ← want_token (codes "the local filename must be specified") s₁
  start_transfer get remfname locfname s₂

unfoldable pub cmd_put : Shell → Outcome Shell
cmd_put s = do
  (locfname, s₁) ← want_token (codes "the local filename must be specified") s
  (remfname, s₂) ← want_token (codes "the remote filename must be specified") s₁
  start_transfer put remfname locfname s₂

unfoldable pub cmd_mode : Shell → Outcome Shell
cmd_mode s = do
  (text, s₁) ← want_token (codes "a mode type must be specified") s
  (if same_text text (codes "ascii")
      then ok (record s₁ { modetype = mode_ascii })
      else if same_text text (codes "binary")
      then ok (record s₁ { modetype = mode_binary })
      else err_cmd (codes "mode must be 'ascii' or 'binary'") s₁)

unfoldable pub cmd_verbose : Shell → Outcome Shell
cmd_verbose s = ok (record s { verboseflag = not s.verboseflag })

-- `err_ret` prints its complaint and returns.
unfoldable pub cmd_status : Shell → Outcome Shell
cmd_status s = ok (record s {
  printed =
      s.printed
      ++ (if s.connected then codes "Connected\n" else codes "Not connected\n")
        ∷ codes "mode = "
        ∷ (if s.modetype == mode_ascii
            then codes "netascii"
            else if s.modetype == mode_binary
            then codes "octet (binary)"
            else codes "unknown modetype")
        ∷ (if s.verboseflag then codes ", verbose = on\n" else codes ", verbose = off\n")
        ∷ [];
})
