-- ===== src/Tftp/Client/File/Agree.antt =====
-- The client's conversion routines against the server's: they do the same wherever they return. Where
-- they do not, each program exits in its own way.
use my_coding_exercises.Common.{
  ℕ, zero, suc, ◌≡◌, refl, Bool, true, false, Option, none, some, [], ◌∷◌, ◌++◌, Bytes, arith, ◌==◌,
}
use my_coding_exercises.Tftp.Client.File
use my_coding_exercises.Tftp.Run.{returned, returned-bind, returned-if}
use my_coding_exercises.Tftp.Server.File as Theirs
use my_coding_exercises.Tftp.Session.{LocalFile}
use my_coding_exercises.Tftp.Wire.{mode_ascii, mode_binary}

read_ascii-Agrees :
    (n : ℕ) (fails : Bool) (c : Option ℕ) (unread : Bytes)
    → returned (File.read_ascii n fails c unread) ≡ returned (Theirs.read_ascii n fails c unread)
unfolding File.read_ascii Theirs.read_ascii returned
read_ascii-Agrees zero fails c unread = refl
read_ascii-Agrees (suc n) fails (some c) unread =
    returned-bind _ _ _ (read_ascii-Agrees n fails none unread)
read_ascii-Agrees (suc n) fails none [] = returned-if fails _ _ _ _ refl refl
read_ascii-Agrees (suc n) fails none (c ∷ unread) =
    returned-bind _ _ _ (read_ascii-Agrees n fails _ unread)

write_ascii-Agrees :
    (fails lastcr : Bool) (out bytes : Bytes)
    → returned (File.write_ascii fails lastcr out bytes)
      ≡ returned (Theirs.write_ascii fails lastcr out bytes)
unfolding File.write_ascii Theirs.write_ascii File.after_cr Theirs.after_cr returned
write_ascii-Agrees fails lastcr out [] = refl
write_ascii-Agrees fails true out (c ∷ bytes) = ground (
  arith,
  write_ascii-Agrees fails false (out ++ b'\n' ∷ []) bytes,
  write_ascii-Agrees fails false (out ++ b'\r' ∷ []) bytes,
)
write_ascii-Agrees fails false out (c ∷ bytes) = ground (
  arith,
  write_ascii-Agrees fails true out bytes,
  write_ascii-Agrees fails false (out ++ c ∷ []) bytes,
)

-- On every file, whether its reads and writes fail or not, every limit and every mode, `file_read`
-- and `file_write` return in the client if and only if they return in the server, and then with the
-- same bytes and the same state of the file. Where they do not return, both programs exit, each in
-- its own way.
pub returned-file_read :
    (f : LocalFile) (n mode : ℕ) (bytes : Bytes)
    → (returned (File.file_read f n mode) ≡ returned (Theirs.file_read f n mode))
      × (returned (File.file_write f bytes mode) ≡ returned (Theirs.file_write f bytes mode))
unfolding File.file_read Theirs.file_read File.file_write Theirs.file_write returned
returned-file_read f n mode bytes = (
  returned-if (mode == mode_binary) _ _ _ _ (returned-if f.stream.read_fails _ _ _ _ refl refl) (
      returned-if (mode == mode_ascii) _ _ _ _
        (returned-bind (File.read_ascii n f.stream.read_fails f.nextchar f.stream.unread) _ _
          (read_ascii-Agrees n f.stream.read_fails f.nextchar f.stream.unread))
        refl),
  returned-if (mode == mode_binary) _ _ _ _ (returned-if f.stream.write_fails _ _ _ _ refl refl) (
      returned-if (mode == mode_ascii) _ _ _ _
        (returned-bind (File.write_ascii f.stream.write_fails f.lastcr f.stream.written bytes) _ _
          (write_ascii-Agrees f.stream.write_fails f.lastcr f.stream.written bytes))
        refl),
)
