-- ===== src/Tftp/Wire.antt =====
-- The constants of tftp-exercises/server/defs.h and client/defs_cli.h, which agree on all that stands
-- here, and the macros that store and load the 2-byte fields of a header in network byte order.
use my_coding_exercises.Common.{
  ℕ, ◌+◌, ◌*◌, ◌/◌, ◌%◌, ◌<◌, ◌≡◌, [], ◌∷◌, ◌++◌, Bytes, write_at, drop, get_or, arith,
}

abbrev pub max_buff : ℕ
max_buff = 2048

abbrev pub max_data : ℕ
max_data = 512

abbrev pub max_filename : ℕ
max_filename = 128

abbrev pub mode_ascii : ℕ
mode_ascii = 0

abbrev pub mode_binary : ℕ
mode_binary = 1

abbrev pub op_rrq : ℕ
op_rrq = 1

abbrev pub op_wrq : ℕ
op_wrq = 2

abbrev pub op_data : ℕ
op_data = 3

abbrev pub op_ack : ℕ
op_ack = 4

abbrev pub op_error : ℕ
op_error = 5

abbrev pub op_min : ℕ
op_min = 1

abbrev pub op_max : ℕ
op_max = 5

abbrev pub err_nofile : ℕ
err_nofile = 1

abbrev pub err_access : ℕ
err_access = 2

abbrev pub err_badop : ℕ
err_badop = 4

-- The two bytes of a `u_short` in network order.
abbrev pub short_bytes : ℕ → Bytes
short_bytes v = (v / 256 % 256) ∷ (v % 256) ∷ []

-- `stshort(v, buff + at)`.
abbrev pub stshort : ℕ → ℕ → Bytes → Bytes
stshort v at buff = write_at at (short_bytes v) buff

-- `ldshort(p)`.
abbrev pub ldshort : Bytes → ℕ
ldshort p = get_or p 0 0 * 256 + get_or p 1 0

-- A DATA or ACK packet as it stands on the wire.
abbrev pub packet : ℕ → ℕ → Bytes → Bytes
packet op block payload = short_bytes op ++ (short_bytes block ++ payload)

-- The fields that a receiver reads back from a packet; a block number is taken modulo 2 ^ 16.
pub ldshort-packet :
    (op block : ℕ) (payload rest : Bytes)
    → op < 65536
    → (ldshort (packet op block payload ++ rest) ≡ op)
      × (ldshort (drop 2 (packet op block payload ++ rest)) ≡ block % 65536)
ldshort-packet op block payload rest h = omega arith
