-- ===== src/Examples/Cmd.antt =====
-- The command interface on a queue of 32 entries with its head at the last one.
use l4rdma.Prelude.{ℕ, ◌+◌, ◌*◌, ◌≡◌, refl, List, [], ◌∷◌, arith, if◌then◌else◌, ◌==◌}
use l4rdma.Run.{throw, cqe_error}
use l4rdma.Io.{Memory, ioread32be, iowrite32be}
use l4rdma.Io.Endian.{ioread32be-iowrite32be}
use l4rdma.Dma.{DmaMem}
use l4rdma.Queue.{Queue, enqueue}
use l4rdma.Queue.Ring.{IsRing, enqueue_times, enqueue-enqueue_times}
use l4rdma.Cmd.Opcode.{manage_pages, query_pages}
use l4rdma.Cmd.Mail.{pack_mail, unpack_mail}
use l4rdma.Cmd.Mail.Words.{IsMailbox}
use l4rdma.Cmd.Mail.Chain.{IsLinked, block_at, successor}
use l4rdma.Cmd.Mail.RoundTrip.{unpack_mail-pack_mail}
use l4rdma.Cmd.Args.{CmdArgs, entry, cqe_ctrl}
use l4rdma.Cmd.Entry.{create_cqe}
use l4rdma.Cmd.Entry.Stages.{IsCmdArgs}
use l4rdma.Cmd.Entry.Input.{read_payload}
use l4rdma.Cmd.Entry.Command.{IsHeader}
use l4rdma.Cmd.Entry.Create.{create_cqe-IsHeader, create_cqe-read_payload, create_cqe-IsLinked}
use l4rdma.Cmd.Entry.Sharing.{
  Command, idle, Shared, Threads, Runs, Collides, create_cqe-Collides, create_cqe-create_cqe,
}
use l4rdma.Cmd.Complete.{Firmware, get_cmd_output, ring_doorbell, poll_ownership, validate_cqe}
use l4rdma.Cmd.Complete.Poll.{Ends, Waits, poll_ownership-Ends, validate_cqe_one}
use l4rdma.Cmd.Complete.Output.{write_answer, get_cmd_output-write_answer}
use l4rdma.Cmd.Complete.Doorbell.{bit, bit-ring_doorbell}

abbrev imb : DmaMem
imb = record { virt = 0x200000; phys = 0x1_0030_0000 }

abbrev omb : DmaMem
omb = record { virt = 0x400000; phys = 0x500000 }

abbrev pub ring : Queue
ring = record {
  start = 0x100000;
  size = 32;
  head = 31;
  dma_mem = record { virt = 0x100000; phys = 0x600000 };
}

abbrev pub args : CmdArgs
args = record { cq = ring; dbv = 0x18; imb_mem = imb; omb_mem = omb }

abbrev pub zeroed : Memory
zeroed a = 0

ring-IsRing : IsRing ring
ring-IsRing = omega arith

imb-IsMailbox : IsMailbox imb
imb-IsMailbox = omega arith

args-IsCmdArgs : IsCmdArgs args
args-IsCmdArgs = record {
  ring = ring-IsRing;
  imb = imb-IsMailbox;
  omb = omega arith;
  imb_aligned = refl;
  omb_aligned = refl;
  imb_apart = omega arith;
  omb_apart = omega arith;
  boxes_apart = omega arith;
}

enqueue-enqueue_times_example : (enqueue (enqueue_times 3 ring)).0 ≡ 2
enqueue-enqueue_times_example = enqueue-enqueue_times 3 ring ring-IsRing

unpack_mail-pack_mail_example :
    unpack_mail (pack_mail zeroed imb (7 ∷ 8 ∷ 9 ∷ [])) imb 3 ≡ 7 ∷ 8 ∷ 9 ∷ []
unpack_mail-pack_mail_example =
    unpack_mail-pack_mail imb imb-IsMailbox zeroed (7 ∷ 8 ∷ 9 ∷ []) (omega arith) (omega arith)

abbrev pages : List ℕ
pages = 0 ∷ 1 ∷ 0xabcd ∷ 0x1000 ∷ []

create_cqe-IsHeader_example :
    let r = create_cqe args zeroed manage_pages 1 pages 2 in
    IsHeader r.2 (entry ring r.0) manage_pages 1 4 2
create_cqe-IsHeader_example =
    create_cqe-IsHeader args args-IsCmdArgs zeroed manage_pages 1 pages 2 (omega arith)
      (omega arith) (omega arith)

create_cqe-read_payload_example :
    let r = create_cqe args zeroed manage_pages 1 pages 2 in
    read_payload args r.2 (entry ring r.0) 4 ≡ pages
create_cqe-read_payload_example =
    create_cqe-read_payload args args-IsCmdArgs zeroed manage_pages 1 pages 2 (omega arith)
      (omega arith) (omega arith)

create_cqe-IsLinked_example :
    IsLinked
      (create_cqe args zeroed manage_pages 2 pages 200).2
      (block_at omb 0)
      (successor omb 1 0)
      0
create_cqe-IsLinked_example =
    create_cqe-IsLinked args args-IsCmdArgs zeroed manage_pages 2 pages 200 (omega arith)
      (omega arith) (omega arith) 1 0 (omega arith) (omega arith) (omega arith)

-- A firmware that gives the entry back at the third look, with an error status.
abbrev pub slow : Firmware
slow = record {
  observe = λ m n. iowrite32be m (entry ring 31 + cqe_ctrl) (if n == 2 then 6 else 1);
  elapsed = λ n. 20 * n;
  sleeps = λ n. omega arith;
}

poll_ownership-Ends_example :
    Ends slow zeroed (entry ring 31) (poll_ownership slow zeroed (entry ring 31))
poll_ownership-Ends_example = poll_ownership-Ends slow zeroed (entry ring 31)

bit-ring_doorbell_example : bit (ioread32be (ring_doorbell zeroed 0x18 (31 ∷ 4 ∷ [])) 0x18) 31 ≡ 1
bit-ring_doorbell_example =
    bit-ring_doorbell zeroed 0x18 (31 ∷ 4 ∷ []) 31 (omega arith, refl, (omega arith, refl, tt))
      (omega arith)

slow-read :
    (n : ℕ)
    → ioread32be (slow.observe zeroed n) (entry ring 31 + cqe_ctrl) ≡ (if n == 2 then 6 else 1)
slow-read n = ground (
  arith,
  ioread32be-iowrite32be zeroed (entry ring 31 + cqe_ctrl) (if n == 2 then 6 else 1)
      (entry ring 31 + cqe_ctrl),
)

slow-Waits : Waits slow zeroed (entry ring 31) 2
slow-Waits k h = (ground (arith, slow-read k), omega arith)

-- The error is the status that the firmware wrote.
validate_cqe_fails : validate_cqe slow zeroed ring (31 ∷ []) ≡ throw (cqe_error 3)
validate_cqe_fails = ground (
  arith,
  validate_cqe_one slow zeroed ring 31 2 slow-Waits (ground (arith, slow-read 2)),
  slow-read 2,
)

get_cmd_output-write_answer_example :
    get_cmd_output args
      (write_answer args zeroed (entry ring 31) (0 ∷ 2 ∷ 0x1 ∷ 0x80_0000 ∷ 0x1 ∷ 0x80_1000 ∷ []))
      31
      6
    ≡ 0 ∷ 2 ∷ 0x1 ∷ 0x80_0000 ∷ 0x1 ∷ 0x80_1000 ∷ []
get_cmd_output-write_answer_example =
    get_cmd_output-write_answer args args-IsCmdArgs zeroed 31 (omega arith)
      (0 ∷ 2 ∷ 0x1 ∷ 0x80_0000 ∷ 0x1 ∷ 0x80_1000 ∷ []) (omega arith) (omega arith)

-- A command without input, for the same queue.
abbrev asks : Command
asks = record { opcode = query_pages; op_mod = 1; payload = []; output_length = 2 }

abbrev gives : Command
gives = record { opcode = manage_pages; op_mod = 1; payload = pages; output_length = 2 }

abbrev shared : Shared
shared = record { args = args; memory = zeroed }

create_cqe-Collides_example :
    (t : Threads) × Runs
      (record { shared = shared; main_call = idle asks; handler_call = idle gives })
      t
    × Collides shared asks gives t
create_cqe-Collides_example =
    create_cqe-Collides shared asks gives args-IsCmdArgs (omega arith, omega arith)
      (omega arith, omega arith) (omega arith) (omega arith)

create_cqe-create_cqe_example :
    let (k, args', m') = create_cqe args zeroed query_pages 1 [] 2 in
    let (l, _, m'') = create_cqe args' m' manage_pages 1 pages 2 in
    IsHeader m'' (entry ring k) query_pages 1 0 2 × IsHeader m'' (entry ring l) manage_pages 1 4 2
create_cqe-create_cqe_example =
    create_cqe-create_cqe args zeroed asks gives args-IsCmdArgs (omega arith, omega arith)
      (omega arith, omega arith) (omega arith, omega arith) (omega arith)
