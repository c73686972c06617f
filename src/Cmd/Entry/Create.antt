-- ===== src/Cmd/Entry/Create.antt =====
-- server/src/cmd.cc: what `create_cqe` promises the hardware.
use l4rdma.Prelude.{ℕ, ◌+◌, ◌-◌, ◌*◌, ◌^◌, ◌≤◌, ◌<◌, ◌≡◌, subst, List, arith, length}
use l4rdma.Io.{Memory}
use l4rdma.Queue.{enqueue}
use l4rdma.Cmd.Opcode.{Opcode}
use l4rdma.Cmd.Mail.{imb_max_data, omb_max_data}
use l4rdma.Cmd.Mail.Words.{AreWords32}
use l4rdma.Cmd.Mail.Chain.{IsLinked, block_at, successor}
use l4rdma.Cmd.Args.{
  CmdArgs, input_mailbox_msb, input_mailbox_lsb, output_mailbox_msb, output_mailbox_lsb, entry,
}
use l4rdma.Cmd.Entry.{length_in_bytes, output_blocks, create_cqe}
use l4rdma.Cmd.Entry.Stages.{IsCmdArgs, pointer_at}
use l4rdma.Cmd.Entry.Input.{read_payload}
use l4rdma.Cmd.Entry.Output.{output_blocks_lem}
use l4rdma.Cmd.Entry.Command.{
  IsHeader, write_entry-IsHeader, write_entry-payload, write_entry-input_pointer,
  write_entry-output_pointer, write_entry-output_IsLinked,
}

module _ (args : CmdArgs) (ok : IsCmdArgs args) (m : Memory) (opcode : Opcode) (op_mod : ℕ)
    (payload : List ℕ) (n : ℕ) (small : length payload ≤ imb_max_data + 2)
    (few : n ≤ omb_max_data + 2) where
  -- For a command whose input and output fit the mailboxes, and with a 16-bit modifier, the entry
  -- at the slot that is returned holds the type, the opcode, the modifier and the lengths in
  -- bytes, has a cleared status, and belongs to the hardware.
  pub create_cqe-IsHeader :
      op_mod < 2 ^ 16
      → let r = create_cqe args m opcode op_mod payload n in
        IsHeader r.2 (entry args.cq r.0) opcode op_mod (length payload) n
  unfolding create_cqe enqueue
  create_cqe-IsHeader = write_entry-IsHeader args ok m opcode op_mod payload n small few

  -- For a command whose input and output fit the mailboxes, the hardware reads back the whole
  -- payload, a list of 32-bit words: two words from the entry and the others from the input mailbox.
  pub create_cqe-read_payload :
      AreWords32 payload
      → let r = create_cqe args m opcode op_mod payload n in
        read_payload args r.2 (entry args.cq r.0) (length payload) ≡ payload
  unfolding create_cqe enqueue
  create_cqe-read_payload = write_entry-payload args ok m opcode op_mod payload n small few

  -- Where the input has more than two words, and the output too, the entry points to the input
  -- mailbox and to the output mailbox.
  pub create_cqe-pointer_at :
      2 < length payload
      → 2 < n
      → let r = create_cqe args m opcode op_mod payload n in
        let cqe = entry args.cq r.0 in
        (pointer_at r.2 (cqe + input_mailbox_msb) (cqe + input_mailbox_lsb) ≡ args.imb_mem.phys)
        × (pointer_at r.2 (cqe + output_mailbox_msb) (cqe + output_mailbox_lsb) ≡ args.omb_mem.phys)
  unfolding create_cqe enqueue
  create_cqe-pointer_at long more = (
    write_entry-input_pointer args ok m opcode op_mod payload n small few long,
    write_entry-output_pointer args ok m opcode op_mod payload n small few more,
  )

  -- For a command whose input and output fit the mailboxes, an output of more than two words finds
  -- in the output mailbox a chain of just the blocks that it takes beyond the two words of the
  -- entry: each block but the last is filled and points to
  -- the next one, and the last block, which is not left empty, points to none.
  pub create_cqe-IsLinked :
      2 < n
      → (last j : ℕ) → 128 * last < n - 2
      → n - 2 ≤ 128 * (last + 1)
      → j ≤ last
      → IsLinked
          (create_cqe args m opcode op_mod payload n).2
          (block_at args.omb_mem j)
          (successor args.omb_mem last j)
          j
  unfolding create_cqe enqueue
  create_cqe-IsLinked more last j lo hi within =
      let same : output_blocks (length_in_bytes n) ≡ last =
        omega (arith, output_blocks_lem n more few) in
      subst
        (λ k.
          IsLinked (create_cqe args m opcode op_mod payload n).2 (block_at args.omb_mem j)
            (successor args.omb_mem k j) j)
        same
        (write_entry-output_IsLinked args ok m opcode op_mod payload n small few more j
          (rw same within))
