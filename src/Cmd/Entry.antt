-- ===== src/Cmd/Entry.antt =====
-- server/src/cmd.cc: `create_cqe` writes a command into the next entry of the command queue.
pub mod Stages
pub mod Input
pub mod Output
pub mod Command
pub mod Create
pub mod Sharing
use l4rdma.Prelude.{
  ℕ, zero, suc, ◌+◌, ◌-◌, ◌*◌, ◌/◌, ◌%◌, ◌^◌, List, bit_and, ltb, ◌==◌, if◌then◌else◌, length,
  get_or, drop,
}
use l4rdma.Io.{Memory, iowrite32be}
use l4rdma.Queue.{enqueue}
use l4rdma.Cmd.Opcode.{Opcode, opcode_value}
use l4rdma.Cmd.Mail.{tie_mail_together, pack_mail}
use l4rdma.Cmd.Args.{
  CmdArgs, cqe_type, input_length, input_mailbox_msb, input_mailbox_lsb, cid_opcode, cid_op_mod,
  cid_data, output_mailbox_msb, output_mailbox_lsb, cqe_output_length, cqe_ctrl, entry,
}

abbrev cqe_mailbox_mask : ℕ
cqe_mailbox_mask = 0xfffffe00

abbrev cqe_type_mask : ℕ
cqe_type_mask = 0xff000000

abbrev cid_opcode_mask : ℕ
cid_opcode_mask = 0xffff0000

abbrev cid_op_mod_mask : ℕ
cid_op_mod_mask = 0x0000ffff

-- `for (int i = 0; i < 16; i++) iowrite32be(&reg[i], 0);`
pub clear_registers : Memory → ℕ → (i rounds : ℕ) → Memory
clear_registers m cqe i zero = m
clear_registers m cqe i (suc rounds) =
    clear_registers (iowrite32be m (cqe + 4 * i) 0) cqe (i + 1) rounds

-- A length in words, with the two words of every command, in bytes.
abbrev pub length_in_bytes : ℕ → ℕ
length_in_bytes n = (n + 2) % 2 ^ 32 * 4 % 2 ^ 32

-- Where the mailbox lies, in two registers of the entry.
pub write_pointer : Memory → (msb lsb phys : ℕ) → Memory
write_pointer m msb lsb phys =
    iowrite32be (iowrite32be m msb (phys / 2 ^ 32)) lsb (bit_and (phys % 2 ^ 32) cqe_mailbox_mask)

-- Two words go into the entry, what is beyond them into the input mailbox.
pub write_input : CmdArgs → Memory → ℕ → List ℕ → Memory
write_input args m cqe payload =
    let bytes = length_in_bytes (length payload) in
    if ltb 8 bytes
    then (let m₁ = iowrite32be m (cqe + cid_data 0) (get_or payload 0 0) in
        if ltb 12 bytes
        then (let m₂ = iowrite32be m₁ (cqe + cid_data 1) (get_or payload 1 0) in
            if ltb 16 bytes
            then write_pointer (pack_mail m₂ args.imb_mem (drop 2 payload))
                (cqe + input_mailbox_msb) (cqe + input_mailbox_lsb) args.imb_mem.phys
            else m₂)
        else m₁)
    else m

-- How many blocks the output mailbox needs beyond the first one, for an output of so many bytes.
pub output_blocks : ℕ → ℕ
output_blocks bytes =
    let mbb_bytes : ℕ = 128 * 4 in
    let omb_length = bytes - 16 in
    if ltb mbb_bytes omb_length
    then (if omb_length % mbb_bytes == 0
        then omb_length / mbb_bytes - 1
        else omb_length / mbb_bytes)
    else 0

pub write_output : CmdArgs → Memory → ℕ → ℕ → Memory
write_output args m cqe bytes =
    if ltb 16 bytes
    then write_pointer (tie_mail_together m args.omb_mem (output_blocks bytes))
        (cqe + output_mailbox_msb) (cqe + output_mailbox_lsb) args.omb_mem.phys
    else m

-- All registers cleared, then the type and the length of the input.
pub begin_entry : Memory → ℕ → List ℕ → Memory
unfolding clear_registers
begin_entry m cqe payload =
    let m₁ = clear_registers m cqe 0 16 in
    let m₂ = iowrite32be m₁ (cqe + cqe_type) (bit_and cqe_type_mask (7 * 2 ^ 24)) in
    iowrite32be m₂ (cqe + input_length) (length_in_bytes (length payload))

pub write_command : Memory → ℕ → Opcode → ℕ → Memory
write_command m cqe opcode op_mod =
    let m₁ =
      iowrite32be m (cqe + cid_opcode)
        (bit_and (opcode_value opcode * 2 ^ 16 % 2 ^ 32) cid_opcode_mask) in
    iowrite32be m₁ (cqe + cid_op_mod) (bit_and op_mod cid_op_mod_mask)

-- The length of the output, and then the ownership bit for the hardware.
pub hand_over : Memory → ℕ → ℕ → Memory
hand_over m cqe bytes =
    iowrite32be (iowrite32be m (cqe + cqe_output_length) bytes) (cqe + cqe_ctrl) 1

-- The memory after a command was written to the entry.
pub write_entry : CmdArgs → Memory → ℕ → Opcode → ℕ → List ℕ → ℕ → Memory
unfolding begin_entry write_input write_command write_output hand_over
write_entry args m cqe opcode op_mod payload output_length =
    let bytes = length_in_bytes output_length in
    let m₁ = write_input args (begin_entry m cqe payload) cqe payload in
    let m₂ = write_output args (write_command m₁ cqe opcode op_mod) cqe bytes in
    hand_over m₂ cqe bytes

-- The slot of the command, the arguments with the queue's head moved on, and the memory.
pub create_cqe : CmdArgs → Memory → Opcode → ℕ → List ℕ → ℕ → ℕ × CmdArgs × Memory
unfolding write_entry
create_cqe args m opcode op_mod payload output_length =
    let cqe = entry args.cq args.cq.head in
    let m' = write_entry args m cqe opcode op_mod payload output_length in
    let (slot, cq) = enqueue args.cq in (slot, record args { cq = cq }, m')
