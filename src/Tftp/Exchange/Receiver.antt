-- ===== src/Tftp/Exchange/Receiver.antt =====
-- The receiving end of a transfer, here the client that has sent a read request: what it has written
-- is what the blocks that it has taken stand for.
use mathlib.Core.Path.{subst}
use my_coding_exercises.Common.{
  ℕ, zero, suc, ◌+◌, ◌-◌, ◌%◌, ◌≤◌, ◌<◌, ◌≡◌, refl, sym, ap, ◌∙◌, ◌⊎◌, inl, inr, true, false, some,
  List, [], ◌∷◌, ◌++◌, append-nil, append_assoc, Bytes, length, take, drop, get_elem?,
  lt-of-get_elem?, arith, ltb, if◌then◌else◌, Bool-cases, ◌==◌,
}
use my_coding_exercises.Tftp.Client.File.Agree.{returned-file_read}
use my_coding_exercises.Tftp.Client.File as ClientFile
use my_coding_exercises.Tftp.Client.Net.{net_send}
use my_coding_exercises.Tftp.Client.Send.{recv_data, place_data, accept_data, send_ack}
use my_coding_exercises.Tftp.Exchange.Blocks.{joined}
use my_coding_exercises.Tftp.Run.{ok, Verdict, more, done, bind-eq-ok, ok-injective, ok-of-returned}
use my_coding_exercises.Tftp.Server.File.Convert.{write_ascii-append}
use my_coding_exercises.Tftp.Server.File.{file_write, write_ascii}
use my_coding_exercises.Tftp.Session.{Session, LocalFile}
use my_coding_exercises.Tftp.Wire.{
  max_buff, max_data, mode_ascii, mode_binary, op_rrq, op_ack, ldshort,
}

-- The file holds what these bytes of the network form stand for.
abbrev pub Wrote : ℕ → Bytes → LocalFile → Type 0
Wrote mode got f =
    (f.stream.write_fails ≡ false)
    × (if mode == mode_binary
        then f.stream.written ≡ got
        else write_ascii false false [] got ≡ ok (f.lastcr, f.stream.written))

-- `file_write` goes on from what has been written.
file_write-Wrote :
    (mode : ℕ) (got payload : Bytes) (f f' : LocalFile)
    → mode ≤ mode_binary
    → Wrote mode got f
    → file_write f payload mode ≡ ok f'
    → Wrote mode (got ++ payload) f'
unfolding file_write
file_write-Wrote mode got payload f f' h (good, w) e = elim (Bool-cases (mode == mode_binary)) [
  | inl b ↦ ground arith
  | inr a ↦
      let ascii : (mode == mode_ascii) ≡ true = ground arith in
      let joint = write_ascii-append false [] got payload in ground arith
]

-- The receiver has taken the first `nextblknum - 1` blocks.
pub record Receiving (mode : ℕ) (blocks : List Bytes) (c : Session) : Type 0 where
  pub from_one : 0 < c.nextblknum
  pub taken : c.nextblknum ≤ suc (length blocks)
  pub wrote : Wrote c.modetype (joined (take (c.nextblknum - 1) blocks)) c.localfp
  pub in_mode : c.modetype ≡ mode
  pub known_mode : c.modetype ≤ mode_binary
  pub space : length c.recvbuff ≡ max_buff
  pub awaits : (c.op_sent ≡ op_rrq) ⊎ (c.op_sent ≡ op_ack)

-- When the client's `recv_DATA` returns, it has acknowledged the block that it received: the
-- expected one, which it has stored, or the one before it, which it has not stored again; it ends
-- if and only if the block does not have 512 bytes.
pub recv_data-cases :
    (ptr : Bytes) (n : ℕ) (c : Session) {v : Verdict} {c' : Session}
    → recv_data ptr n c ≡ ok (v, c')
    → (c₁ : Session) × ((ldshort ptr ≡ c.nextblknum)
          × (accept_data (take (n - 2) (drop 2 ptr)) (n - 2) c ≡ ok c₁)
        ⊎ (ldshort ptr + 1 ≡ c.nextblknum) × (c₁ ≡ c))
      × (send_ack (ldshort ptr) c₁ ≡ ok c')
      × (v ≡ (if n - 2 == max_data then more else done))
unfolding recv_data place_data
recv_data-cases ptr n c e =
    let (c₁, e₁, e₂) =
      bind-eq-ok (place_data (ldshort ptr) (take (n - 2) (drop 2 ptr)) (n - 2) c) _ e in
    let (c₂, e₃, e₄) = bind-eq-ok (send_ack (ldshort ptr) c₁) _ e₂ in
    (c₁, ground arith, ground arith, ground arith)

pub take-suc :
    (xs : List Bytes) (k : ℕ) (b : Bytes)
    → get_elem? xs k ≡ some b
    → joined (take (suc k) xs) ≡ joined (take k xs) ++ b
take-suc [] k b h = cc
take-suc (x ∷ xs) zero b h = rw append-nil (cc)
take-suc (x ∷ xs) (suc k) b h = rw (take-suc xs k b h, append_assoc)

nil-of-empty : (b : Bytes) → ltb 0 (length b) ≡ false → b ≡ []
nil-of-empty [] h = refl
nil-of-empty (x ∷ b) h = absurd (ground arith)

-- The write of an accepted block, which an empty block leaves out.
store-Wrote :
    (got b : Bytes) (c : Session) {f : LocalFile}
    → c.modetype ≤ mode_binary
    → Wrote c.modetype got c.localfp
    → (if ltb 0 (length b) then ClientFile.file_write c.localfp b c.modetype else ok c.localfp)
      ≡ ok f
    → Wrote c.modetype (got ++ b) f
store-Wrote got b c {f} m w e = elim (Bool-cases (ltb 0 (length b))) [
  | inl some_data ↦
      file_write-Wrote c.modetype got b c.localfp f m w
        (ok-of-returned _ _ (returned-file_read c.localfp 0 c.modetype b).1 (rw some_data at e))
  | inr empty ↦
      subst (λ t. Wrote c.modetype t f)
        (sym (append-nil got) ∙ ap (λ t. got ++ t) (sym (nil-of-empty b empty)))
        (subst (Wrote c.modetype got) (ok-injective (rw empty at e)) w)
]

accept_data-Receiving :
    {mode : ℕ} (blocks : List Bytes) (k : ℕ) (b : Bytes) (c : Session) {c₁ : Session}
    → Receiving mode blocks c
    → get_elem? blocks k ≡ some b
    → c.nextblknum ≡ suc k
    → accept_data b (length b) c ≡ ok c₁
    → Receiving mode blocks c₁ × (c₁.nextblknum ≡ suc (suc k))
unfolding accept_data
accept_data-Receiving {mode} blocks k b c {c₁} h g i e =
    let (f, e₁, e₂) =
      bind-eq-ok
        (if ltb 0 (length b) then ClientFile.file_write c.localfp b c.modetype else ok c.localfp) _
        e in
    subst (λ t. Receiving mode blocks t × (t.nextblknum ≡ suc (suc k))) (ok-injective e₂)
      (
        record {
          from_one = omega arith;
          taken = omega (arith, lt-of-get_elem? blocks k g);
          wrote =
              subst (λ t. Wrote c.modetype t f)
                (ap (λ t. joined (take t blocks) ++ b) {y = k} (omega arith)
                  ∙ sym (take-suc blocks k b g)
                  ∙ ap (λ t. joined (take t blocks)) {x = suc k} (omega arith))
                (store-Wrote (joined (take (c.nextblknum - 1) blocks)) b c h.known_mode h.wrote e₁);
          in_mode = h.in_mode;
          known_mode = h.known_mode;
          space = h.space;
          awaits = h.awaits;
        },
        omega arith,
      )

-- Acknowledging touches neither the file nor the count.
send_ack-Receiving :
    {mode : ℕ} (blocks : List Bytes) (k : ℕ) (c : Session) {c' : Session}
    → Receiving mode blocks c
    → send_ack k c ≡ ok c'
    → Receiving mode blocks c' × (c'.nextblknum ≡ c.nextblknum)
unfolding send_ack net_send
send_ack-Receiving {mode} blocks k c {c'} h e = elim (Bool-cases c.socket.send_fails) [
  | inl broken ↦ absurd (ground arith)
  | inr works ↦
      let sent = rw works at e in
      subst (λ t. Receiving mode blocks t × (t.nextblknum ≡ c.nextblknum)) (ok-injective sent)
        (
          record {
            from_one = h.from_one;
            taken = h.taken;
            wrote = h.wrote;
            in_mode = h.in_mode;
            known_mode = h.known_mode;
            space = h.space;
            awaits = inr refl;
          },
          refl,
        )
]

-- A block that arrives leaves a receiver, which has taken the last block if it ends.
pub recv_data-Receiving :
    {mode : ℕ} (blocks : List Bytes) (k : ℕ) (b ptr : Bytes) (c : Session) {v : Verdict}
    {c' : Session}
    → Receiving mode blocks c
    → get_elem? blocks k ≡ some b
    → k < 65536
    → ldshort ptr ≡ suc k % 65536
    → take (length b) (drop 2 ptr) ≡ b
    → recv_data ptr (length b + 2) c ≡ ok (v, c')
    → Receiving mode blocks c'
      × (v ≡ (if length b == max_data then more else done))
      × (k < 65535 → c'.nextblknum ≡ suc (suc k))
recv_data-Receiving {mode} blocks k b ptr c {v} {c'} h g few i content e =
    let (c₁, placed, acked, verdict) = recv_data-cases ptr (length b + 2) c e in
    let n : length b + 2 - 2 ≡ length b = omega arith in
    elim placed [
      | inl (expected, a) ↦
          let (r, next) = accept_data-Receiving blocks k b c h g (omega arith) (
            subst (λ t. accept_data t (length b) c ≡ ok c₁) content
              (subst (λ t. accept_data (take t (drop 2 ptr)) t c ≡ ok c₁) n a)) in
          let (r', same) = send_ack-Receiving blocks (ldshort ptr) c₁ r acked in
          (r', rw n at verdict, λ _. same ∙ next)
      | inr (again, unchanged) ↦
          let (r', same) =
            send_ack-Receiving blocks (ldshort ptr) c h
              (subst (λ t. send_ack (ldshort ptr) t ≡ ok c') unchanged acked) in
          (r', rw n at verdict, λ unwrapped. omega arith)
    ]

-- The receiver sends its last packet again.
pub net_send-Receiving :
    {mode : ℕ} (blocks : List Bytes) (buff : Bytes) (n : ℕ) (c : Session) {c' : Session}
    → Receiving mode blocks c
    → net_send buff n c ≡ ok c'
    → Receiving mode blocks c'
unfolding net_send
net_send-Receiving {mode} blocks buff n c h e = elim (Bool-cases c.socket.send_fails) [
  | inl broken ↦ absurd (ground arith)
  | inr works ↦ subst (Receiving mode blocks) (ok-injective (rw works at e)) (record {
    from_one = h.from_one;
    taken = h.taken;
    wrote = h.wrote;
    in_mode = h.in_mode;
    known_mode = h.known_mode;
    space = h.space;
    awaits = h.awaits;
  })
]
