-- ===== src/Cmd/Entry/Output.antt =====
-- server/src/cmd.cc: the output mailbox that `create_cqe` ties together for a command.
use l4rdma.Prelude.{ℕ, ◌+◌, ◌-◌, ◌*◌, ◌≤◌, ◌<◌, ◌≡◌, ◌≢◌, refl, arith, lt→ltb}
use l4rdma.Io.{Memory, ioread32be}
use l4rdma.Cmd.Mail.{omb_max_data, mbb_max_count, tie_mail_together}
use l4rdma.Cmd.Mail.Chain.{IsLinked, block_at, successor, IsLinked-same, tie_mail_together-IsLinked}
use l4rdma.Cmd.Mail.Frame.{Outside, tie_mail_together-Outside}
use l4rdma.Cmd.Args.{CmdArgs, output_mailbox_msb, output_mailbox_lsb}
use l4rdma.Cmd.Entry.{length_in_bytes, write_pointer, output_blocks, write_output}
use l4rdma.Cmd.Entry.Stages.{
  Apart, mailbox_size, IsCmdArgs, length_in_bytes_lem, write_pointer-read, pointer_at,
  write_pointer-pointer_at,
}

-- An output of `n` words, two of which stand in the entry, gets exactly the blocks that the
-- others take: all but the last are full, and the last one is not empty.
pub output_blocks_lem :
    (n : ℕ)
    → 2 < n
    → n ≤ omb_max_data + 2
    → (128 * output_blocks (length_in_bytes n) < n - 2)
      × (n - 2 ≤ 128 * (output_blocks (length_in_bytes n) + 1))
unfolding output_blocks
output_blocks_lem n more small = ground (arith, length_in_bytes_lem n)

module _ (args : CmdArgs) (ok : IsCmdArgs args) (m : Memory) (cqe n : ℕ)
    (small : n ≤ omb_max_data + 2) where
  -- An output of at most two words needs no mailbox, and any other changes two registers.
  pub write_output-Outside :
      (a : ℕ)
      → Outside args.omb_mem a
      → a ≢ cqe + output_mailbox_msb
      → a ≢ cqe + output_mailbox_lsb
      → ioread32be (write_output args m cqe (length_in_bytes n)) a ≡ ioread32be m a
  unfolding write_output
  write_output-Outside a out nem nel =
      let k = output_blocks (length_in_bytes n) in
      ground (
        arith,
        output_blocks_lem n,
        length_in_bytes_lem n,
        tie_mail_together-Outside args.omb_mem ok.omb m k a,
        write_pointer-read (tie_mail_together m args.omb_mem k) (cqe + output_mailbox_msb)
            (cqe + output_mailbox_lsb) args.omb_mem.phys a,
      )

  module _ (more : 2 < n) (apart : Apart cqe 64 args.omb_mem.virt mailbox_size) where
    abbrev tied : Memory
    tied = tie_mail_together m args.omb_mem (output_blocks (length_in_bytes n))

    write_output-tied :
        write_output args m cqe (length_in_bytes n)
        ≡ write_pointer tied (cqe + output_mailbox_msb) (cqe + output_mailbox_lsb) args.omb_mem.phys
    unfolding write_output
    write_output-tied =
        rw (lt→ltb 16 (length_in_bytes n) (omega (arith, length_in_bytes_lem n))) refl

    pub write_output-pointer_at :
        pointer_at
          (write_output args m cqe (length_in_bytes n))
          (cqe + output_mailbox_msb)
          (cqe + output_mailbox_lsb)
        ≡ args.omb_mem.phys
    write_output-pointer_at = rw write_output-tied (
        write_pointer-pointer_at tied (cqe + output_mailbox_msb) (cqe + output_mailbox_lsb)
          args.omb_mem.phys (omega arith) (omega (arith, ok.omb.phys_fits)) ok.omb_aligned)

    pub write_output-IsLinked :
        (j : ℕ)
        → j ≤ output_blocks (length_in_bytes n)
        → IsLinked
            (write_output args m cqe (length_in_bytes n))
            (block_at args.omb_mem j)
            (successor args.omb_mem (output_blocks (length_in_bytes n)) j)
            j
    write_output-IsLinked j within =
        let k = output_blocks (length_in_bytes n) in
        let few : k < mbb_max_count = omega (arith, output_blocks_lem n) in
        rw write_output-tied (
          IsLinked-same tied _ (block_at args.omb_mem j) (successor args.omb_mem k j) j
            (λ a lo hi. ground (
              arith,
              write_pointer-read tied (cqe + output_mailbox_msb) (cqe + output_mailbox_lsb)
                  args.omb_mem.phys a,
            ))
            (tie_mail_together-IsLinked args.omb_mem ok.omb m k j few within))
