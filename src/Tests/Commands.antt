-- ===== src/Tests/Commands.antt =====
-- The command lines of the client.
use my_coding_exercises.Common.{
  some, [], ◌∷◌, ◌++◌, ◌≡◌, ◌≢◌, ◌↔◌, refl, codes, false, arith, get_elem?,
}
use my_coding_exercises.Common.Int.{pos}
use my_coding_exercises.Tftp.Shell.{Shell, token, err_cmd, scan, striphost, collect}
use my_coding_exercises.Tftp.Shell.Commands.{command_names}
use my_coding_exercises.Tftp.Shell.Table.{found, out_of_fuel, binary, ncmds, docmd}
use my_coding_exercises.Tftp.Shell.Search.{binary-lookup}
use my_coding_exercises.Tftp.Shell.Tokens.{scan_word, striphost_keeps_file, connect_reads_stale}

binary-lookup_example :
    (binary (codes "put") ncmds ≢ out_of_fuel)
    × ((binary (codes "put") ncmds ≡ found 8) ↔ (get_elem? command_names 8 ≡ some (codes "put")))
binary-lookup_example = binary-lookup (codes "put") 8

scan_word_example : scan (codes "  get\tfile\n") ≡ token (codes "get") (codes "file\n")
scan_word_example =
    scan_word (codes "  ") b'g' (codes "et") b'\t' (codes "file\n") (refl, (refl, tt)) refl
      (refl, (refl, tt)) refl

striphost_keeps_file_example :
    striphost (codes "ten:/a") (codes "old") ≡ (codes "/a", codes "ten:/a")
striphost_keeps_file_example =
    striphost_keeps_file (codes "ten") (codes "/a") (codes "old") (refl, (refl, (refl, tt)))

-- "connect ten" has been read behind its first word, over the longer line "get ten:/ethosts here".
abbrev shell : Shell
shell = record {
  line = codes "ten\n" ++ 0 ∷ codes "hosts here\n";
  hostname = [];
  port = 69;
  modetype = 0;
  connected = false;
  verboseflag = false;
  printed = [];
  transfers = [];
}

found_stale : scan (codes "hosts here\n") ≡ token (codes "hosts") (codes "here\n")
unfolding scan collect
found_stale = refl

connect_reads_stale_example :
    docmd (λ text. pos 0) (codes "connect") shell
    ≡ err_cmd
        (codes "trailing garbage")
        (record shell { line = codes "here\n"; hostname = codes "ten" })
connect_reads_stale_example =
    connect_reads_stale (λ text. pos 0) shell b't' (codes "en") (codes "hosts here\n")
      (codes "here\n") b'h' (codes "osts") refl refl (refl, (refl, tt)) (omega arith) found_stale
      (omega arith)
