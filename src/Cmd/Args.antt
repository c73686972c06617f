-- ===== src/Cmd/Args.antt =====
-- server/src/cmd.h: what a command needs, and the layout of a command queue entry.
use l4rdma.Prelude.{ℕ, ◌+◌, ◌*◌}
use l4rdma.Dma.{DmaMem}
use l4rdma.Queue.{Queue}

-- `dbv` is the address of the doorbell register.
pub record CmdArgs : Type 0 where
  pub cq : Queue
  pub dbv : ℕ
  pub imb_mem : DmaMem
  pub omb_mem : DmaMem

-- `struct CQE` with its `CID` and `COD`, by the byte offsets of the fields.
abbrev pub cqe_type : ℕ
cqe_type = 0

abbrev pub input_length : ℕ
input_length = 4

abbrev pub input_mailbox_msb : ℕ
input_mailbox_msb = 8

abbrev pub input_mailbox_lsb : ℕ
input_mailbox_lsb = 12

abbrev pub cid_opcode : ℕ
cid_opcode = 16

abbrev pub cid_op_mod : ℕ
cid_op_mod = 20

abbrev pub cid_data : ℕ → ℕ
cid_data i = 24 + 4 * i

abbrev pub cod_status : ℕ
cod_status = 32

abbrev pub cod_output : ℕ → ℕ
cod_output i = 40 + 4 * i

abbrev pub output_mailbox_msb : ℕ
output_mailbox_msb = 48

abbrev pub output_mailbox_lsb : ℕ
output_mailbox_lsb = 52

abbrev pub cqe_output_length : ℕ
cqe_output_length = 56

abbrev pub cqe_ctrl : ℕ
cqe_ctrl = 60

-- `&((CQE*)cq.start)[slot]`
abbrev pub entry : Queue → ℕ → ℕ
entry q slot = q.start + 64 * slot
