-- ===== src/Tftp/Exchange/Packets.antt =====
-- A packet is read back from the buffer that it was received into, and leaves the buffer that it was
-- built in as it should.
use my_coding_exercises.Common.{
  ℕ, suc, ◌+◌, ◌%◌, ◌≤◌, ◌<◌, ◌≡◌, [], ◌∷◌, Bytes, length, take, drop, overlay, write_at,
  take-overlay, arith,
}
use my_coding_exercises.Tftp.Wire.{packet, ldshort, stshort}

pub held_op :
    (op block : ℕ) (payload buff : Bytes)
    → length payload + 4 ≤ length buff
    → op < 65536
    → ldshort (overlay (packet op block payload) buff) ≡ op
held_op op block payload [] h lt = absurd (omega arith)
held_op op block payload (a ∷ []) h lt = absurd (omega arith)
held_op op block payload (a ∷ b ∷ buff) h lt = omega arith

pub held_block :
    (op block : ℕ) (payload buff : Bytes)
    → length payload + 4 ≤ length buff
    → ldshort (drop 2 (overlay (packet op block payload) buff)) ≡ block % 65536
held_block op block payload [] h = absurd (omega arith)
held_block op block payload (a ∷ []) h = absurd (omega arith)
held_block op block payload (a ∷ b ∷ []) h = absurd (omega arith)
held_block op block payload (a ∷ b ∷ c ∷ []) h = absurd (omega arith)
held_block op block payload (a ∷ b ∷ c ∷ d ∷ buff) h = omega arith

pub held_payload :
    (op block : ℕ) (payload buff : Bytes)
    → length payload + 4 ≤ length buff
    → take (length payload) (drop 2 (drop 2 (overlay (packet op block payload) buff))) ≡ payload
held_payload op block payload [] h = absurd (omega arith)
held_payload op block payload (a ∷ []) h = absurd (omega arith)
held_payload op block payload (a ∷ b ∷ []) h = absurd (omega arith)
held_payload op block payload (a ∷ b ∷ c ∷ []) h = absurd (omega arith)
held_payload op block payload (a ∷ b ∷ c ∷ d ∷ buff) h = take-overlay payload buff (omega arith)

-- What `send_DATA` and `send_ACK` send of a buffer that holds the payload behind the header.
pub built :
    (op block : ℕ) (payload buff : Bytes)
    → length payload + 4 ≤ length buff
    → take (length payload + 4) (stshort block 2 (stshort op 0 (write_at 4 payload buff)))
      ≡ packet op block payload
built op block payload [] h = absurd (omega arith)
built op block payload (a ∷ []) h = absurd (omega arith)
built op block payload (a ∷ b ∷ []) h = absurd (omega arith)
built op block payload (a ∷ b ∷ c ∷ []) h = absurd (omega arith)
built op block payload (a ∷ b ∷ c ∷ d ∷ buff) h =
    let e : length payload + 4 ≡ suc (suc (suc (suc (length payload)))) = omega arith in
    rw (e, take-overlay payload buff (omega arith))
