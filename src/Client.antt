-- ===== src/Client.antt =====
-- server/src/interface.h, wq_interface.cc, cq_interface.cc: the threads that serve a work queue or a
-- completion queue to a client. Both run the same code, on the memory of their queue.
pub mod Setup
use l4rdma.Prelude.{
  ℕ, ◌+◌, ◌-◌, ◌%◌, ◌^◌, Option, none, some, List, [], ◌∷◌, ◌++◌, Bool, true, false, if◌then◌else◌,
}

-- A capability, as a number.
abbrev pub Cap : Type 0
Cap = ℕ

-- The fields that the code sets: the dataspace of the queue, where it is attached, and its size.
pub record QueueMemory : Type 0 where
  pub dataspace : Option Cap
  pub addr : Option ℕ
  pub size : Option ℕ

-- The answers of L4Re to the thread: whether it is scheduled, the slot for a capability, whether
-- there is memory of a size, where it is attached, the capability of the registered object, whether
-- the message to the server is sent, and whether the server's wait for it ends without an error.
pub record Kernel : Type 0 where
  pub run_thread : Bool
  pub cap_alloc : Option Cap
  pub mem_alloc_ok : ℕ → Bool
  pub attach : ℕ → Option ℕ
  pub register_obj : Option Cap
  pub ipc_send : Bool
  pub ipc_receive : Bool

-- What a client may ask of a work queue.
pub data WqRequest : Type 0 where
  sub : ℕ → ℕ → WqRequest
  get_rq get_sq get_dbr terminate : WqRequest

pub data WqReply : Type 0 where
  difference : ℕ → WqReply
  dataspace : Option Cap → WqReply
  -- an exception leaves the loop of the thread
  stopped : WqReply

pub data CqRequest : Type 0 where
  get_cq terminate : CqRequest

pub data CqReply : Type 0 where
  dataspace : Option Cap → CqReply
  stopped : CqReply

-- The operations of `WQ_impl`; the capability of the doorbell record is not set anywhere.
unfoldable pub wq_serve : QueueMemory → WqRequest → WqReply
wq_serve q (sub a b) = difference ((a + 2 ^ 32 - b) % 2 ^ 32)
wq_serve q get_rq = WqReply.dataspace (q.dataspace)
wq_serve q get_sq = WqReply.dataspace (q.dataspace)
wq_serve q get_dbr = WqReply.dataspace none
wq_serve q WqRequest.terminate = WqReply.stopped

-- The operations of `CQ_impl`.
unfoldable pub cq_serve : QueueMemory → CqRequest → CqReply
cq_serve q get_cq = CqReply.dataspace (q.dataspace)
cq_serve q CqRequest.terminate = CqReply.stopped

-- Whether the memory is there, and the fields as they are then.
unfoldable pub mem_alloc : Kernel → ℕ → Bool × QueueMemory
mem_alloc k qsize = elim (k.cap_alloc) as (λ _. Bool × QueueMemory) [
  | none ↦ (false, record { dataspace = none; addr = none; size = none })
  | some cap ↦
      let reserved : QueueMemory = record { dataspace = some cap; addr = none; size = none } in
      if k.mem_alloc_ok qsize
      then elim (k.attach qsize) as (λ _. Bool × QueueMemory) [
        | none ↦ (false, reserved)
        | some a ↦ (true, record reserved { addr = some a; size = some qsize })
      ]
      else (false, reserved)
]
