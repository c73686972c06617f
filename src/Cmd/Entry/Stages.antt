-- ===== src/Cmd/Entry/Stages.antt =====
-- server/src/cmd.cc: what each stage of `create_cqe` leaves in a register.
use native.Mathlib.Decide.{dec_lt}
use l4rdma.Prelude.{
  ℕ, zero, suc, ◌+◌, ◌*◌, ◌/◌, ◌%◌, ◌^◌, ◌≤◌, ◌<◌, ◌≡◌, ◌≢◌, refl, ◌⊎◌, List, arith, bit_and, ◌==◌,
  if◌then◌else◌, length, get_or, drop, length-drop,
}
use l4rdma.Bits.{bit_and-low16, bit_and-high16, bit_and-mailbox}
use l4rdma.Io.{Memory, iowrite32be, ioread32be}
use l4rdma.Io.Endian.{ioread32be-iowrite32be}
use l4rdma.Queue.Ring.{IsRing}
use l4rdma.Cmd.Opcode.{Opcode, opcode_value, opcode_value-lt}
use l4rdma.Cmd.Mail.{mailbox_align_size, mbb_max_count, imb_max_data, pack_mail}
use l4rdma.Cmd.Mail.Words.{IsMailbox}
use l4rdma.Cmd.Mail.Frame.{Outside, pack_mail-Outside}
use l4rdma.Cmd.Args.{
  CmdArgs, cqe_type, input_length, input_mailbox_msb, input_mailbox_lsb, cid_opcode, cid_op_mod,
  cid_data, cqe_output_length, cqe_ctrl,
}
use l4rdma.Cmd.Entry.{
  clear_registers, length_in_bytes, write_pointer, write_input, begin_entry, write_command,
  hand_over,
}

clear_registers-outside :
    (m : Memory) (cqe i rounds a : ℕ)
    → (a < cqe + 4 * i) ⊎ (cqe + 4 * (i + rounds) ≤ a)
    → ioread32be (clear_registers m cqe i rounds) a ≡ ioread32be m a
unfolding clear_registers
clear_registers-outside m cqe i zero a away = refl
clear_registers-outside m cqe i (suc rounds) a away = ground (
  arith,
  clear_registers-outside (iowrite32be m (cqe + 4 * i) 0) cqe (i + 1) rounds a,
  ioread32be-iowrite32be m (cqe + 4 * i) 0 a,
)

clear_registers-read :
    (m : Memory) (cqe i rounds j : ℕ)
    → i ≤ j
    → j < i + rounds
    → ioread32be (clear_registers m cqe i rounds) (cqe + 4 * j) ≡ 0
unfolding clear_registers
clear_registers-read m cqe i zero j lo hi = absurd (omega arith)
clear_registers-read m cqe i (suc rounds) j lo hi = elim (dec_lt i j) [
  | yes later ↦
      clear_registers-read (iowrite32be m (cqe + 4 * i) 0) cqe (i + 1) rounds j (omega arith)
        (omega arith)
  | no this ↦
      let same : i ≡ j = omega arith in
      ground (
        arith,
        clear_registers-outside (iowrite32be m (cqe + 4 * i) 0) cqe (i + 1) rounds (cqe + 4 * j),
        ioread32be-iowrite32be m (cqe + 4 * i) 0 (cqe + 4 * j),
      )
]

-- Outside of the entry nothing changes; the registers of the entry are cleared but for two.
pub begin_entry-outside :
    (m : Memory) (cqe a : ℕ) (payload : List ℕ)
    → (a < cqe) ⊎ (cqe + 64 ≤ a)
    → ioread32be (begin_entry m cqe payload) a ≡ ioread32be m a
unfolding begin_entry
begin_entry-outside m cqe a payload away =
    let m₁ = clear_registers m cqe 0 16 in
    let m₂ = iowrite32be m₁ (cqe + cqe_type) (bit_and 0xff000000 (7 * 2 ^ 24)) in
    ground (
      arith,
      clear_registers-outside m cqe 0 16 a,
      ioread32be-iowrite32be m₁ (cqe + cqe_type) (bit_and 0xff000000 (7 * 2 ^ 24)) a,
      ioread32be-iowrite32be m₂ (cqe + input_length) (length_in_bytes (length payload)) a,
    )

pub begin_entry-read :
    (m : Memory) (cqe j : ℕ) (payload : List ℕ)
    → j < 16
    → ioread32be (begin_entry m cqe payload) (cqe + 4 * j)
      ≡ (if j == 1 then length_in_bytes (length payload) else if j == 0 then 7 * 2 ^ 24 else 0)
unfolding begin_entry
begin_entry-read m cqe j payload small =
    let m₁ = clear_registers m cqe 0 16 in
    let m₂ = iowrite32be m₁ (cqe + cqe_type) (bit_and 0xff000000 (7 * 2 ^ 24)) in
    ground (
      arith,
      clear_registers-read m cqe 0 16 j,
      ioread32be-iowrite32be m₁ (cqe + cqe_type) (bit_and 0xff000000 (7 * 2 ^ 24)) (cqe + 4 * j),
      ioread32be-iowrite32be m₂ (cqe + input_length) (length_in_bytes (length payload))
          (cqe + 4 * j),
    )

pub write_command-read :
    (m : Memory) (cqe : ℕ) (opcode : Opcode) (op_mod a : ℕ)
    → ioread32be (write_command m cqe opcode op_mod) a ≡ (
        if a == cqe + cid_op_mod
        then op_mod % 2 ^ 16
        else if a == cqe + cid_opcode
        then opcode_value opcode * 2 ^ 16
        else ioread32be m a)
unfolding write_command
write_command-read m cqe opcode op_mod a = ground (
  arith,
  ioread32be-iowrite32be m (cqe + cid_opcode)
      (bit_and (opcode_value opcode * 2 ^ 16 % 2 ^ 32) 0xffff0000) a,
  ioread32be-iowrite32be
      (iowrite32be m (cqe + cid_opcode)
        (bit_and (opcode_value opcode * 2 ^ 16 % 2 ^ 32) 0xffff0000))
      (cqe + cid_op_mod) (bit_and op_mod 0xffff) a,
  bit_and-low16 op_mod,
  bit_and-high16 (opcode_value opcode * 2 ^ 16 % 2 ^ 32),
  opcode_value-lt opcode,
)

pub hand_over-read :
    (m : Memory) (cqe bytes a : ℕ)
    → ioread32be (hand_over m cqe bytes) a ≡ (
        if a == cqe + cqe_ctrl
        then 1
        else if a == cqe + cqe_output_length
        then bytes % 2 ^ 32
        else ioread32be m a)
unfolding hand_over
hand_over-read m cqe bytes a = simp ioread32be-iowrite32be

pub write_pointer-read :
    (m : Memory) (msb lsb phys a : ℕ)
    → ioread32be (write_pointer m msb lsb phys) a ≡ (
        if a == lsb
        then phys / 2 ^ 9 % 2 ^ 23 * 2 ^ 9
        else if a == msb
        then phys / 2 ^ 32 % 2 ^ 32
        else ioread32be m a)
unfolding write_pointer
write_pointer-read m msb lsb phys a = ground (
  arith,
  ioread32be-iowrite32be m msb (phys / 2 ^ 32) a,
  ioread32be-iowrite32be (iowrite32be m msb (phys / 2 ^ 32)) lsb
      (bit_and (phys % 2 ^ 32) 0xfffffe00) a,
  bit_and-mailbox (phys % 2 ^ 32),
)

-- Two regions of memory, given by where they start and how long they are, do not overlap.
abbrev pub Apart : (a la b lb : ℕ) → Type 0
Apart a la b lb = (a + la ≤ b) ⊎ (b + lb ≤ a)

abbrev pub mailbox_size : ℕ
mailbox_size = mailbox_align_size * mbb_max_count

-- The queue and the two mailboxes lie apart, within the address space, and the hardware can
-- address the mailboxes: they start at a multiple of the 512 bytes that the pointers leave out.
pub record IsCmdArgs (args : CmdArgs) : Type 0 where
  pub ring : IsRing args.cq
  pub imb : IsMailbox args.imb_mem
  pub omb : IsMailbox args.omb_mem
  pub imb_aligned : args.imb_mem.phys % 512 ≡ 0
  pub omb_aligned : args.omb_mem.phys % 512 ≡ 0
  pub imb_apart : Apart args.cq.start (64 * args.cq.size) args.imb_mem.virt mailbox_size
  pub omb_apart : Apart args.cq.start (64 * args.cq.size) args.omb_mem.virt mailbox_size
  pub boxes_apart : Apart args.imb_mem.virt mailbox_size args.omb_mem.virt mailbox_size

-- The pointer that two registers of an entry hold.
abbrev pub pointer_at : Memory → (msb lsb : ℕ) → ℕ
pointer_at m msb lsb = ioread32be m msb * 2 ^ 32 + ioread32be m lsb

pub write_pointer-pointer_at :
    (m : Memory) (msb lsb phys : ℕ)
    → msb < lsb
    → phys < 2 ^ 64
    → phys % 512 ≡ 0
    → pointer_at (write_pointer m msb lsb phys) msb lsb ≡ phys
write_pointer-pointer_at m msb lsb phys apart small aligned =
    ground (arith, write_pointer-read m msb lsb phys msb, write_pointer-read m msb lsb phys lsb)

pub length_in_bytes_lem : (n : ℕ) → n ≤ imb_max_data + 2 → length_in_bytes n ≡ (n + 2) * 4
length_in_bytes_lem n small = omega arith

module _ (args : CmdArgs) (ok : IsCmdArgs args) (m : Memory) (cqe : ℕ) (payload : List ℕ)
    (small : length payload ≤ imb_max_data + 2) where
  -- The input touches its mailbox and four registers of the entry.
  pub write_input-Outside :
      (a : ℕ)
      → Outside args.imb_mem a
      → a ≢ cqe + cid_data 0
      → a ≢ cqe + cid_data 1
      → a ≢ cqe + input_mailbox_msb
      → a ≢ cqe + input_mailbox_lsb
      → ioread32be (write_input args m cqe payload) a ≡ ioread32be m a
  unfolding write_input
  write_input-Outside a out ne0 ne1 nem nel =
      let m₁ = iowrite32be m (cqe + cid_data 0) (get_or payload 0 0) in
      let m₂ = iowrite32be m₁ (cqe + cid_data 1) (get_or payload 1 0) in
      let m₃ = pack_mail m₂ args.imb_mem (drop 2 payload) in
      ground (
        arith,
        ioread32be-iowrite32be m (cqe + cid_data 0) (get_or payload 0 0) a,
        ioread32be-iowrite32be m₁ (cqe + cid_data 1) (get_or payload 1 0) a,
        pack_mail-Outside args.imb_mem ok.imb m₂ (drop 2 payload) a,
        length-drop 2 payload,
        write_pointer-read m₃ (cqe + input_mailbox_msb) (cqe + input_mailbox_lsb) args.imb_mem.phys
            a,
      )
