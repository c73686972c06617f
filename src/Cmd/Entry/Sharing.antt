-- ===== src/Cmd/Entry/Sharing.antt =====
-- server/src/cmd.cc, driver.cc: two threads, `main` and `page_request_handler`, that call `create_cqe`
-- on the same queue without a lock.
use l4rdma.Prelude.{
  ℕ, ◌+◌, ◌*◌, ◌^◌, ◌≤◌, ◌<◌, ◌≡◌, ◌≢◌, refl, sym, ap, ◌∙◌, ◌/◌, List, arith, length,
}
use l4rdma.Io.{Memory, ioread32be}
use l4rdma.Queue.{enqueue}
use l4rdma.Queue.Ring.{enqueue-IsRing}
use l4rdma.Cmd.Opcode.{Opcode}
use l4rdma.Cmd.Mail.{imb_max_data, omb_max_data}
use l4rdma.Cmd.Args.{CmdArgs, entry}
use l4rdma.Cmd.Entry.{create_cqe, write_entry}
use l4rdma.Cmd.Entry.Stages.{IsCmdArgs}
use l4rdma.Cmd.Entry.Command.{IsHeader, write_entry-IsHeader, write_entry-other}

-- The arguments of a call.
pub record Command : Type 0 where
  pub opcode : Opcode
  pub op_mod : ℕ
  pub payload : List ℕ
  pub output_length : ℕ

abbrev pub FitsMailboxes : Command → Type 0
FitsMailboxes c = (length c.payload ≤ imb_max_data + 2) × (c.output_length ≤ omb_max_data + 2)

-- A thread before the call, between the entry that it wrote at the head and `enqueue`, and after
-- it with the slot.
pub data Caller : Type 0 where
  idle : Command → Caller
  written : Command → Caller
  done : Command → ℕ → Caller

pub record Shared : Type 0 where
  pub args : CmdArgs
  pub memory : Memory

unfoldable pub write_at_head : Shared → Command → Shared
write_at_head s c = record s {
  memory =
      write_entry s.args s.memory (entry s.args.cq s.args.cq.head) c.opcode c.op_mod c.payload
        c.output_length;
}

unfoldable pub move_head : Shared → ℕ × Shared
move_head s =
    let (slot, cq) = enqueue s.args.cq in (slot, record s { args = record (s.args) { cq = cq } })

-- One thread's steps.
pub data CallStep (s : Shared) : Caller → Shared → Caller → Type 0 where
  writes : (c : Command) → CallStep s (idle c) (write_at_head s c) (written c)
  enqueues : (c : Command) → CallStep s (written c) (move_head s).1 (done c (move_head s).0)

-- The two steps of a thread by itself are `create_cqe`.
move_head-write_at_head :
    (s : Shared) (c : Command)
    → let (slot, s') = move_head (write_at_head s c) in
      (slot, s'.args, s'.memory)
      ≡ create_cqe s.args s.memory c.opcode c.op_mod c.payload c.output_length
unfolding move_head write_at_head create_cqe
move_head-write_at_head s c = refl

pub record Threads : Type 0 where
  pub shared : Shared
  pub main_call : Caller
  pub handler_call : Caller

pub data Runs (t : Threads) : Threads → Type 0 where
  here : Runs t t
  main_step :
      {u : Threads} {s : Shared} {p : Caller}
      → Runs t u
      → CallStep u.shared u.main_call s p
      → Runs t (record { shared = s; main_call = p; handler_call = u.handler_call })
  handler_step :
      {u : Threads} {s : Shared} {p : Caller}
      → Runs t u
      → CallStep u.shared u.handler_call s p
      → Runs t (record { shared = s; main_call = u.main_call; handler_call = p })

-- Where two commands have a slot each, but the entry at the first one's slot holds the second
-- command, and the entry at the second one's slot is what it was at the start.
abbrev pub Collides : Shared → (c d : Command) → Threads → Type 0
Collides s c d t =
    (k : ℕ) × (l : ℕ) × (t.main_call ≡ done c k)
    × (t.handler_call ≡ done d l)
    × (k ≢ l)
    × IsHeader t.shared.memory (entry s.args.cq k) d.opcode d.op_mod (length d.payload)
        d.output_length
    × ((j : ℕ)
        → j < 16
        → ioread32be t.shared.memory (entry s.args.cq l + 4 * j)
          ≡ ioread32be s.memory (entry s.args.cq l + 4 * j))

-- On a queue of at least two entries, for any two commands that fit the mailboxes, some order of
-- the threads' steps loses the first command: each thread gets a slot of its own, but the entry at
-- the first thread's slot holds the second command, and nothing was written to the entry at the
-- second thread's slot.
pub create_cqe-Collides :
    (s : Shared) (c d : Command)
    → IsCmdArgs s.args
    → FitsMailboxes c
    → FitsMailboxes d
    → d.op_mod < 2 ^ 16
    → 2 ≤ s.args.cq.size
    → (t : Threads) × Runs (record { shared = s; main_call = idle c; handler_call = idle d }) t
      × Collides s c d t
unfolding move_head write_at_head enqueue
create_cqe-Collides s c d ok fits fits' small two =
    let q = s.args.cq in
    let s₁ = write_at_head s c in
    let s₂ = write_at_head s₁ d in
    let s₃ = (move_head s₂).1 in
    let next = (enqueue q).1.head in
    let inside : next < q.size = ground (arith, ok.ring) in
    let other : next ≢ q.head = λ e. ground (arith, ok.ring, e) in
    (
      record { shared = (move_head s₃).1; main_call = done c q.head; handler_call = done d next },
      handler_step (main_step (handler_step (main_step here (writes c)) (writes d)) (enqueues c))
          (enqueues d),
      (
        q.head,
        next,
        refl,
        refl,
        λ e. other (sym e),
        write_entry-IsHeader s.args ok s₁.memory d.opcode d.op_mod d.payload d.output_length fits'.0
            fits'.1 small,
        λ j few.
            write_entry-other s.args ok s₁.memory d.opcode d.op_mod d.payload d.output_length
              fits'.0 fits'.1 next j inside other few
            ∙ write_entry-other s.args ok s.memory c.opcode c.op_mod c.payload c.output_length
                fits.0 fits.1 next j inside other few,
      ),
    )

IsHeader-same :
    (m m' : Memory) (cqe : ℕ) (opcode : Opcode) (op_mod inputs outputs : ℕ)
    → ((j : ℕ) → j < 16 → ioread32be m' (cqe + 4 * j) ≡ ioread32be m (cqe + 4 * j))
    → IsHeader m cqe opcode op_mod inputs outputs
    → IsHeader m' cqe opcode op_mod inputs outputs
IsHeader-same m m' cqe opcode op_mod inputs outputs same head = record {
  typed = same 0 (omega arith) ∙ head.typed;
  operation = ap (λ w. w / 2 ^ 16) (same 4 (omega arith)) ∙ head.operation;
  modifier = same 5 (omega arith) ∙ head.modifier;
  input_bytes = same 1 (omega arith) ∙ head.input_bytes;
  output_bytes = same 14 (omega arith) ∙ head.output_bytes;
  no_status = same 8 (omega arith) ∙ head.no_status;
  owned = same 15 (omega arith) ∙ head.owned;
}

enqueue-IsCmdArgs :
    (args : CmdArgs) → IsCmdArgs args → IsCmdArgs (record args { cq = (enqueue args.cq).1 })
unfolding enqueue
enqueue-IsCmdArgs args ok = record {
  ring = unfold enqueue in enqueue-IsRing args.cq ok.ring;
  imb = ok.imb;
  omb = ok.omb;
  imb_aligned = ok.imb_aligned;
  omb_aligned = ok.omb_aligned;
  imb_apart = ok.imb_apart;
  omb_apart = ok.omb_apart;
  boxes_apart = ok.boxes_apart;
}

-- Where one call follows the other, on a queue of at least two entries and for commands that fit
-- the mailboxes, with 16-bit modifiers, the entry at each call's slot holds its own command.
pub create_cqe-create_cqe :
    (args : CmdArgs) (m : Memory) (c d : Command)
    → IsCmdArgs args
    → FitsMailboxes c
    → FitsMailboxes d
    → (c.op_mod < 2 ^ 16) × (d.op_mod < 2 ^ 16)
    → 2 ≤ args.cq.size
    → let (k, args', m') = create_cqe args m c.opcode c.op_mod c.payload c.output_length in
      let (l, _, m'') = create_cqe args' m' d.opcode d.op_mod d.payload d.output_length in
      IsHeader m'' (entry args.cq k) c.opcode c.op_mod (length c.payload) c.output_length
      × IsHeader m'' (entry args.cq l) d.opcode d.op_mod (length d.payload) d.output_length
unfolding create_cqe enqueue
create_cqe-create_cqe args m c d ok fits fits' (small, small') two =
    let q = args.cq in
    let args' : CmdArgs = record args { cq = (enqueue q).1 } in
    let ok' = enqueue-IsCmdArgs args ok in
    let m' = write_entry args m (entry q q.head) c.opcode c.op_mod c.payload c.output_length in
    let other : q.head ≢ args'.cq.head = λ e. ground (arith, ok.ring, e) in
    let m'' =
      write_entry args' m' (entry args'.cq args'.cq.head) d.opcode d.op_mod d.payload
        d.output_length in
    (
      IsHeader-same m' m'' (entry q q.head) c.opcode c.op_mod (length c.payload) c.output_length
          (λ j few.
            write_entry-other args' ok' m' d.opcode d.op_mod d.payload d.output_length fits'.0
              fits'.1 q.head j ok.ring.head_in other few)
          (write_entry-IsHeader args ok m c.opcode c.op_mod c.payload c.output_length fits.0 fits.1
            small),
      write_entry-IsHeader args' ok' m' d.opcode d.op_mod d.payload d.output_length fits'.0 fits'.1
          small',
    )
