-- ===== src/Tftp/Netascii.antt =====
-- The conversion between a local file and netascii that the comments in file.c describe, as an
-- encoder over a whole file, with no buffers and no state between calls.
use my_coding_exercises.Common.{ℕ, Option, none, some, [], ◌∷◌, ◌++◌, Bytes, ◌==◌, if◌then◌else◌}
use my_coding_exercises.Tftp.Wire.{mode_ascii}

-- LF is sent as CR LF, CR as CR NUL, and every other byte as itself.
abbrev pub encode_byte : ℕ → Bytes
encode_byte c =
    if c == b'\n' then b'\r' ∷ b'\n' ∷ [] else if c == b'\r' then b'\r' ∷ 0 ∷ [] else c ∷ []

abbrev pub encode : Bytes → Bytes
encode [] = []
encode (c ∷ cs) = encode_byte c ++ encode cs

-- The byte that `nextchar` holds back.
abbrev pub pending : Option ℕ → Bytes
pending none = []
pending (some c) = c ∷ []

-- A whole file as it goes over the network.
abbrev pub network_form : ℕ → Bytes → Bytes
network_form mode file = if mode == mode_ascii then encode file else file
