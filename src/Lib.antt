-- ===== src/Lib.antt =====
-- The TFTP client and server of this repository (tftp-exercises/client and tftp-exercises/server),
-- the sorting programs of algorithms/, the times and texts of Peotrix_nginx (ptrx_times.c and
-- ptrx_string.c of Peotrix_nginx/src/core), and the program comm of coreutils/src: a model of their
-- code and the theorems about it.
--
-- The programs. The server waits for a request (server/net_udp.c), forks a process for it, and runs
-- a loop (server/fsm.c) that receives a packet, picks a handler from a table by the last opcode sent
-- and the opcode received, and lets it answer (server/sendrecv.c); the handlers read and write a
-- local file with the conversion to netascii (server/file.c), and a timer (server/rtt.c) says how long
-- to wait before the last packet is sent again. The client has the same parts (client/fsm_cli.c,
-- sendrecv_cli.c, file_cli.c, netudp_cli.c, rtt_cli.c), started by the commands get and put of a
-- small shell (client/cmd.c, cmdsubr.c, cmdgetput.c).
--
-- The model. `Tftp.Session` is the state of one end: the external variables of server/initvars.c and
-- client/initvars_cli.c with the statics of the files. A C function that changes them takes a
-- `Session` and returns a new one in `Run` (`Tftp.Run`), which is `stop` where the C code exits.
-- Definitions have the names of the C functions in small letters; a piece of a long function is a
-- helper that its comment describes.
--   Tftp.Wire       constants of server/defs.h, and the bytes of a header
--   Tftp.Session    the state
--   Tftp.Netascii   the conversion of a whole file, the specification of file_read and file_write
--   Tftp.Server     File (file.c), Net (net_udp.c), Send (sendrecv.c), Fsm (fsm.c), and the theorems
--                   File.Convert, Access (requests) and Retry (time-outs)
--   Tftp.Rtt        rtt.c and rtt.h; Rtt.Bounds has its theorems
--   Tftp.Client     File, Net, Send, Fsm, Transfer (cmdgetput.c); File.Agree compares what the file routines
--                   return with the server's, File.Stale shows what their statics do
--   Tftp.Shell      the tokens of cmdsubr.c, Commands (cmd.c), Table (the command table); Search and
--                   Tokens have the theorems
--   Tftp.Exchange   the two ends with a network between them that may lose, repeat, delay and reorder
--                   datagrams: Sender, Goes, Serve, Receiver, Consume and Download lead to
--                   Start; Rounds is about the client's own loop and Repeats about
--                   the server's;
--                   Takes, Replies and Lossless lead to Ends, on a network that delivers; Request
--                   and Get have the client's request and the start of `do_get`. Upload is the other
--                   direction: Same (handlers that agree), Gives (the client as sender), Stores (the
--                   server as receiver), Steps, Begin, Whole and Put (`do_put`)
--   Sorting         algorithms/: Run and Array (arrays whose accesses are checked), Moves (what a sort
--                   may do to a segment); Simple (simple_quicksort.c) with Scan and Rounds (its loops),
--                   Fills (`partition`) and Sorts; Media (quicksort.c) with Median (`media3`), Divide
--                   and Two (segments of two entries)
--   Peotrix         Peotrix_nginx/src/core: Times (ptrx_gmtime, with Calendar as its specification and
--                   Civil), Buffer (bounded buffers, and how a routine on them ends), Number
--                   (ptrx_sprintf_num, with Cut, Numerals, Loops and Digits), Printf (ptrx_vslprintf,
--                   with Safety of one conversion, Scanning of the format, Ends and Precision;
--                   Directives is its specification, to which Reading, Widths, Fields, Letters,
--                   Rounds and Renders lead)
--   Comm            coreutils/src/comm.c: Bodies (the order of lines) and Columns (what is to be printed) are
--                   its specification; Reads and Sorted follow one file, Entries, Turns and Merge
--                   the loop, and Files the whole of `compare_files`
--   Common          names of the libraries, lists and buffers, Boolean tests, bytes and integers
--   Tests           small worlds on which the theorems are applied
--
-- What stands behind the code is an argument: `stat` and `fopen` (`Os`), the returns of `recvfrom`,
-- the readings of the clock, the results of `socket`, `bind` and `fork`, the resolver, `atoi`, and the
-- floating-point arithmetic (`Real`), of which no law is assumed. A stream is the bytes not yet read
-- and those written, with the errors that the C library reports on it; `read` and `write` move all
-- the bytes that they can. A peer is known by its port. The loops of `fsm_loop` run over the rounds
-- that the world has made, so that they need no fuel; the binary search of the command table has
-- one round more than the table has entries, which is shown to be enough. The counters that are an
-- `int` or a `long` in C are unbounded; block numbers keep their 16 bits on the wire and the
-- time-outs their 16 bits in a `short`.
--
-- The sorts run on fuel, as many rounds as the segment has entries, which is shown to be enough; so do
-- the loops of ptrx_vslprintf, with the length of the format and two rounds more. PTRX_INT64_LEN
-- (20 in core/peotrix.c), PTRX_INT_T_LEN and PTRX_PTR_SIZE are defined in no header and are arguments;
-- the theorems ask of the first that 64 bits fit into so many decimal digits. An argument
-- of `va_arg` carries its size, 32 bits for `int` and 64 for `long` and `int64_t` as on a 64-bit Unix, and
-- an argument of another size than the letter asks for is a fault. A double that is printed is
-- its sign, its integer part, and its fraction scaled and rounded. ptrx_string.c and ptrx_times.c are
-- read with the two semicolons that they lack.
--
-- comm reads its files through `readlinebuffer` of gnulib: a stream is the lines that it returns, and
-- whether reading and closing fail; `memcmp2` and `xmemcoll` are arguments. Its loop has fuel for a
-- round for each line and one more, which is shown to be enough.
--
-- Not modelled: option parsing and the endless loop of the main programs, printing other than that
-- of the commands, the statistics of a transfer, the build option SORCERER, and `udp_open`; the
-- random arrays and the printing of algorithms/; the ring of cached times, ptrx_localtime, ptrx_cpystrn
-- and the start-up of Peotrix_nginx; the options of comm. The rest of coreutils, file, binutils and SysVInit are copies of other
-- projects or exercises on them, and the remaining directories only call the system.
pub mod Comm
pub mod Common
pub mod Peotrix
pub mod Sorting
pub mod Tests
pub mod Tftp
