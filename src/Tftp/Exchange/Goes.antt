-- ===== src/Tftp/Exchange/Goes.antt =====
-- The sender after any packet that `recv_ACK` takes.
use my_coding_exercises.Common.{
  ℕ, ◌+◌, ◌<◌, ◌≡◌, sym, ◌∙◌, ◌⊎◌, inl, inr, List, [], ◌∷◌, ◌++◌, append-nil, Bytes, arith,
}
use mathlib.Core.Path.{subst}
use my_coding_exercises.Tftp.Exchange.Sender.{
  Sending, Answered, all_sent, next_block, accept_ack-ok,
}
use my_coding_exercises.Tftp.Run.{ok, Verdict, more}
use my_coding_exercises.Tftp.Server.Send.{accept_ack, recv_ack}
use my_coding_exercises.Tftp.Session.{Session}
use my_coding_exercises.Tftp.Wire.{op_data, ldshort}

-- The sender after any packet that `recv_ACK` takes: it has sent one block more, or none.
pub record Goes (network : Bytes) (blocks : List Bytes) (s' : Session) : Type 0 where
  pub later : List Bytes
  pub sending : Sending network (blocks ++ later) s'
  pub op : s'.op_sent ≡ op_data

Goes-here :
    {network : Bytes} {blocks : List Bytes} {s : Session}
    → Sending network blocks s
    → s.op_sent ≡ op_data
    → Goes network blocks s
Goes-here {network} {blocks} {s} h op = record {
  later = [];
  sending = subst (λ b. Sending network b s) (sym (append-nil blocks)) h;
  op = op;
}

Answered-Goes :
    {network : Bytes} {blocks : List Bytes} {s : Session} {v : Verdict} {s' : Session}
    → s.op_sent ≡ op_data
    → Answered network blocks s v s'
    → Goes network blocks s'
Answered-Goes op (all_sent h _ _ o _) = Goes-here h (o ∙ op)
Answered-Goes op (next_block out h o _) = record { later = out ∷ []; sending = h; op = o }

-- `recv_ACK` returns in two cases only, both for a packet of two bytes: the expected
-- acknowledgement is answered, and one for the block before it, a duplicate, changes nothing and
-- sends nothing.
pub recv_ack-cases :
    (ptr : Bytes) (n : ℕ) (s : Session) {v : Verdict} {s' : Session}
    → recv_ack ptr n s ≡ ok (v, s')
    → (n ≡ 2)
      × ((ldshort ptr ≡ s.nextblknum) × (accept_ack s ≡ ok (v, s'))
          ⊎ (ldshort ptr + 1 ≡ s.nextblknum) × (v ≡ more) × (s' ≡ s))
unfolding recv_ack
recv_ack-cases ptr n s e = ground arith

pub recv_ack-Goes :
    (network : Bytes) (blocks : List Bytes) (s : Session) (ptr : Bytes) (n : ℕ) {v : Verdict}
    {s' : Session}
    → Sending network blocks s
    → s.op_sent ≡ op_data
    → (n ≡ 2 → ldshort ptr < 65536)
    → recv_ack ptr n s ≡ ok (v, s')
    → Goes network blocks s'
recv_ack-Goes network blocks s ptr n {v} {s'} h op small e =
    let (two, c) = recv_ack-cases ptr n s e in
    elim c [
      | inl (i, a) ↦
          Answered-Goes op (accept_ack-ok network blocks s h (omega (arith, small two)) a)
      | inr (_, _, same) ↦ subst (Goes network blocks) (sym same) (Goes-here h op)
    ]
