-- ===== src/Cmd/Entry/Command.antt =====
-- server/src/cmd.cc: a command that `create_cqe` wrote is the command that the hardware reads.
use l4rdma.Prelude.{
  ℕ, ◌+◌, ◌*◌, ◌/◌, ◌%◌, ◌^◌, ◌≤◌, ◌<◌, ◌≡◌, ◌≢◌, ◌⊎◌, ◌∙◌, List, arith, ◌==◌, if◌then◌else◌,
  length,
}
use l4rdma.Io.{Memory, ioread32be}
use l4rdma.Cmd.Opcode.{Opcode, opcode_value}
use l4rdma.Cmd.Mail.{imb_max_data, omb_max_data}
use l4rdma.Cmd.Mail.Words.{AreWords32}
use l4rdma.Cmd.Mail.Chain.{IsLinked, block_at, successor, IsLinked-same}
use l4rdma.Cmd.Mail.Frame.{Outside}
use l4rdma.Cmd.Args.{
  CmdArgs, cqe_type, input_length, input_mailbox_msb, input_mailbox_lsb, cid_opcode, cid_op_mod,
  cod_status, output_mailbox_msb, output_mailbox_lsb, cqe_output_length, cqe_ctrl, entry,
}
use l4rdma.Cmd.Entry.{
  length_in_bytes, write_input, output_blocks, write_output, begin_entry, write_command,
  write_entry,
}
use l4rdma.Cmd.Entry.Stages.{
  Apart, mailbox_size, IsCmdArgs, length_in_bytes_lem, begin_entry-outside, begin_entry-read,
  write_input-Outside, write_command-read, hand_over-read, pointer_at,
}
use l4rdma.Cmd.Entry.Input.{
  read_payload, read_payload-same, write_input-payload, write_input-pointer_at,
}
use l4rdma.Cmd.Entry.Output.{
  output_blocks_lem, write_output-Outside, write_output-pointer_at, write_output-IsLinked,
}

-- The registers of an entry say what the command is and that it is the hardware's.
pub record IsHeader (m : Memory) (cqe : ℕ) (opcode : Opcode) (op_mod inputs outputs : ℕ)
    : Type 0 where
  pub typed : ioread32be m (cqe + cqe_type) ≡ 7 * 2 ^ 24
  pub operation : ioread32be m (cqe + cid_opcode) / 2 ^ 16 ≡ opcode_value opcode
  pub modifier : ioread32be m (cqe + cid_op_mod) ≡ op_mod
  pub input_bytes : ioread32be m (cqe + input_length) ≡ 4 * (inputs + 2)
  pub output_bytes : ioread32be m (cqe + cqe_output_length) ≡ 4 * (outputs + 2)
  pub no_status : ioread32be m (cqe + cod_status) ≡ 0
  pub owned : ioread32be m (cqe + cqe_ctrl) ≡ 1

module _ (args : CmdArgs) (ok : IsCmdArgs args) (m : Memory) (opcode : Opcode) (op_mod : ℕ)
    (payload : List ℕ) (n : ℕ) (small : length payload ≤ imb_max_data + 2)
    (few : n ≤ omb_max_data + 2) where
  abbrev pub cqe : ℕ
  cqe = entry args.cq args.cq.head

  abbrev after_input : Memory
  after_input = write_input args (begin_entry m cqe payload) cqe payload

  abbrev after_command : Memory
  after_command = write_command after_input cqe opcode op_mod

  abbrev after_output : Memory
  after_output = write_output args after_command cqe (length_in_bytes n)

  abbrev pub after_all : Memory
  after_all = write_entry args m cqe opcode op_mod payload n

  -- A register of the entry that is no part of the payload and of no mailbox pointer.
  write_entry-read :
      (j : ℕ)
      → j < 16
      → j ≢ 2
      → j ≢ 3
      → j ≢ 6
      → j ≢ 7
      → j ≢ 12
      → j ≢ 13
      → ioread32be after_all (cqe + 4 * j) ≡ (
          if j == 15
          then 1
          else if j == 14
          then length_in_bytes n
          else if j == 5
          then op_mod % 2 ^ 16
          else if j == 4
          then opcode_value opcode * 2 ^ 16
          else if j == 1
          then length_in_bytes (length payload)
          else if j == 0
          then 7 * 2 ^ 24
          else 0)
  unfolding write_entry
  write_entry-read j within n2 n3 n6 n7 n12 n13 = ground (
    arith,
    ok.ring,
    ok.imb_apart,
    ok.omb_apart,
    hand_over-read after_output cqe (length_in_bytes n) (cqe + 4 * j),
    write_output-Outside args ok after_command cqe n few (cqe + 4 * j),
    write_command-read after_input cqe opcode op_mod (cqe + 4 * j),
    write_input-Outside args ok (begin_entry m cqe payload) cqe payload small (cqe + 4 * j),
    begin_entry-read m cqe j payload,
  )

  -- The last stage leaves all but two registers alone.
  after_output-same :
      (a : ℕ)
      → a ≢ cqe + cqe_ctrl
      → a ≢ cqe + cqe_output_length
      → ioread32be after_all a ≡ ioread32be after_output a
  unfolding write_entry
  after_output-same a ne_ctrl ne_len =
      ground (arith, hand_over-read after_output cqe (length_in_bytes n) a)

  -- What the stages after the input leave alone.
  after_input-same :
      (a : ℕ)
      → Outside args.omb_mem a
      → (a < cqe + cid_opcode) ⊎ (cqe + cid_op_mod < a)
      → (a < cqe + output_mailbox_msb) ⊎ (cqe + cqe_ctrl < a)
      → ioread32be after_all a ≡ ioread32be after_input a
  unfolding write_entry
  after_input-same a out op rest = ground (
    arith,
    hand_over-read after_output cqe (length_in_bytes n) a,
    write_output-Outside args ok after_command cqe n few a,
    write_command-read after_input cqe opcode op_mod a,
  )

  in_imb :
      (a : ℕ)
      → args.imb_mem.virt ≤ a
      → a < args.imb_mem.virt + mailbox_size
      → ioread32be after_all a ≡ ioread32be after_input a
  in_imb a lo hi = ground (arith, ok.ring, ok.imb_apart, ok.boxes_apart, after_input-same a)

  in_entry :
      (j : ℕ)
      → j < 12
      → j ≢ 4
      → j ≢ 5
      → ioread32be after_all (cqe + 4 * j) ≡ ioread32be after_input (cqe + 4 * j)
  in_entry j small ne_op ne_mod =
      ground (arith, ok.ring, ok.omb_apart, after_input-same (cqe + 4 * j))

  inside_imb : Apart cqe 64 args.imb_mem.virt mailbox_size
  inside_imb = ground (arith, ok.ring, ok.imb_apart)

  inside_omb : Apart cqe 64 args.omb_mem.virt mailbox_size
  inside_omb = ground (arith, ok.ring, ok.omb_apart)

  pub write_entry-IsHeader :
      op_mod < 2 ^ 16 → IsHeader after_all cqe opcode op_mod (length payload) n
  write_entry-IsHeader small_mod = record {
    typed = ground (arith, write_entry-read 0);
    operation = ground (arith, write_entry-read 4);
    modifier = ground (arith, write_entry-read 5);
    input_bytes = ground (arith, write_entry-read 1, length_in_bytes_lem (length payload));
    output_bytes = ground (arith, write_entry-read 14, length_in_bytes_lem n);
    no_status = ground (arith, write_entry-read 8);
    owned = ground (arith, write_entry-read 15);
  }

  -- The other entries of the queue do not change.
  pub write_entry-other :
      (slot j : ℕ)
      → slot < args.cq.size
      → slot ≢ args.cq.head
      → j < 16
      → let a = entry args.cq slot + 4 * j in ioread32be after_all a ≡ ioread32be m a
  write_entry-other slot j within other small_j =
      let a = entry args.cq slot + 4 * j in
      ground (
        arith,
        ok.ring,
        ok.imb_apart,
        ok.omb_apart,
        after_input-same a,
        write_input-Outside args ok (begin_entry m cqe payload) cqe payload small a,
        begin_entry-outside m cqe a payload,
      )

  pub write_entry-payload :
      AreWords32 payload → read_payload args after_all cqe (length payload) ≡ payload
  write_entry-payload words =
      read_payload-same args ok after_input cqe inside_imb after_all (length payload) small
        (in_entry 6 (omega arith) (omega arith) (omega arith))
        (in_entry 7 (omega arith) (omega arith) (omega arith)) in_imb
      ∙ write_input-payload args ok (begin_entry m cqe payload) cqe inside_imb payload small words

  pub write_entry-input_pointer :
      2 < length payload
      → pointer_at after_all (cqe + input_mailbox_msb) (cqe + input_mailbox_lsb) ≡ args.imb_mem.phys
  write_entry-input_pointer more = ground (
    arith,
    in_entry 2,
    in_entry 3,
    write_input-pointer_at args ok (begin_entry m cqe payload) cqe inside_imb payload small more,
  )

  pub write_entry-output_pointer :
      2 < n
      → pointer_at after_all (cqe + output_mailbox_msb) (cqe + output_mailbox_lsb)
        ≡ args.omb_mem.phys
  write_entry-output_pointer more = ground (
    arith,
    after_output-same (cqe + output_mailbox_msb),
    after_output-same (cqe + output_mailbox_lsb),
    write_output-pointer_at args ok after_command cqe n few more inside_omb,
  )

  pub write_entry-output_IsLinked :
      2 < n
      → (j : ℕ) → j ≤ output_blocks (length_in_bytes n)
      → IsLinked after_all
          (block_at args.omb_mem j)
          (successor args.omb_mem (output_blocks (length_in_bytes n)) j)
          j
  write_entry-output_IsLinked more j within =
      let blocks = output_blocks (length_in_bytes n) in
      IsLinked-same after_output after_all (block_at args.omb_mem j)
        (successor args.omb_mem blocks j) j
        (λ a lo hi. ground (arith, ok.ring, ok.omb_apart, output_blocks_lem n, after_output-same a))
        (write_output-IsLinked args ok after_command cqe n few more inside_omb j within)
